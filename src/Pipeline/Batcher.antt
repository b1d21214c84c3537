-- ===== src/Pipeline/Batcher.antt =====
-- pipeline/batch.go, the type `Batcher`: events are added to the current batch under one mutex, full
-- batches go through a channel to the workers, and the workers commit them in the order of their
-- numbers. `sending` holds the batches that were sealed and not yet sent on `fullBatches`: their
-- senders have let the mutex go. `working` holds those that a worker has received and not committed;
-- the output function is a call between the two. `committed` lists the calls of `Controller.Commit`,
-- and `added` the events that `Add` took in. A number is an int64, kept as its bit pattern.
pub mod Content
pub mod Commits
pub mod Channels
pub mod Delivery
use file_d.Base.{
  ℕ, zero, suc, ◌+◌, ◌%◌, ◌^◌, Bool, true, false, Option, none, some, List, [], ◌∷◌, ◌++◌,
  replicate, ◌==◌, if◌then◌else◌, Result, ok, err, ◌>>=◌,
}
use file_d.Pipeline.Event.{Event}
use file_d.Pipeline.Batch.{
  Batch, BatchStatus, not_ready, max_size_exceeded, timeout_exceeded, reset, append, update_status,
}

pub record Batcher : Type 0 where
  pub batch : Option Batch
  pub free_batches : List Batch
  pub full_batches : List Batch
  pub sending : List Batch
  pub working : List Batch
  pub should_stop : Bool
  pub out_seq : ℕ
  pub commit_seq : ℕ
  pub added : List Event
  pub committed : List Event

-- What stops a goroutine for good, or for now.
pub data Halt : Type 0 where
  -- a receive from an empty channel, or a wait for an earlier commit
  waits : Halt
  -- a send on a closed channel panics
  send_on_closed : Halt

unfoldable pub new_batcher : ℕ → Batch → Batcher
new_batcher workers b = record {
  batch = none;
  free_batches = replicate workers b;
  full_batches = [];
  sending = [];
  working = [];
  should_stop = false;
  out_seq = 0;
  commit_seq = 0;
  added = [];
  committed = [];
}

receive_free : ℕ → Batcher → List Batch → Result Halt (Batcher × Batch)
receive_free now s [] = err waits
receive_free now s (b ∷ rest) = ok (record s { free_batches = rest }, reset now b)

-- The batch comes beside the record, and is put back by `try_send_batch`.
unfoldable pub get_batch : ℕ → Batcher → Result Halt (Batcher × Batch)
unfolding receive_free
get_batch now s = elim s.batch [ none ↦ receive_free now s s.free_batches | some b ↦ ok (s, b) ]

-- Up to the unlock; a batch that is ready is left in `sending`.
unfoldable pub try_send_batch : Batcher → Batch → BatchStatus → Batcher
try_send_batch s b not_ready = record s { batch = some b }
try_send_batch s b _ = record s {
  batch = none;
  out_seq = (s.out_seq + 1) % 2 ^ 64;
  sending = record b { seq = s.out_seq } ∷ s.sending;
}

unfoldable pub add : ℕ → Batcher → Event → Result Halt Batcher
add now s event =
    if s.should_stop
    then ok s
    else get_batch now s >>= λ (t, b).
        let c = update_status now (append b event) in
        ok (try_send_batch (record t { added = t.added ++ event ∷ [] }) c c.status)

-- A round of the heartbeat; the first half of `Stop` ends the loop.
unfoldable pub heartbeat : ℕ → Batcher → Result Halt Batcher
heartbeat now s =
    if s.should_stop
    then ok s
    else get_batch now s >>= λ (t, b).
        let c = update_status now b in ok (try_send_batch t c c.status)

-- A sender gets its batch through; those who wait may go in any order, so it is given by its place.
unfoldable pub take_at : ℕ → List Batch → Option (Batch × List Batch)
take_at i [] = none
take_at zero (b ∷ bs) = some (b, bs)
take_at (suc i) (b ∷ bs) = elim (take_at i bs) [ none ↦ none | some (c, cs) ↦ some (c, b ∷ cs) ]

unfoldable pub send : ℕ → Batcher → Result Halt Batcher
send i s = elim (take_at i s.sending) [
  | none ↦ err waits
  | some (b, rest) ↦
      if s.should_stop
      then err send_on_closed
      else ok (record s { sending = rest; full_batches = s.full_batches ++ b ∷ [] })
]

receive_full : Batcher → List Batch → Result Halt Batcher
receive_full s [] = err waits
receive_full s (b ∷ rest) = ok (record s { full_batches = rest; working = b ∷ s.working })

-- A worker receives; it drains a closed channel too.
unfoldable pub work : Batcher → Result Halt Batcher
unfolding receive_full
work s = receive_full s s.full_batches

-- `commitBatch`, of the worker at the given place of `working`.
unfoldable pub commit_batch : ℕ → Batcher → Result Halt Batcher
commit_batch i s = elim (take_at i s.working) [
  | none ↦ err waits
  | some (b, rest) ↦
      if s.commit_seq == b.seq
      then ok (record s {
        working = rest;
        commit_seq = (s.commit_seq + 1) % 2 ^ 64;
        committed = s.committed ++ b.events;
        free_batches = s.free_batches ++ b ∷ [];
      })
      else err waits
]

unfoldable pub stop : Batcher → Batcher
stop s = record s { should_stop = true }

pub data Call : Type 0 where
  adds : ℕ → Event → Call
  beats : ℕ → Call
  sends : ℕ → Call
  works : Call
  commits : ℕ → Call
  stops : Call

unfoldable pub step : Batcher → Call → Result Halt Batcher
step s (adds now event) = add now s event
step s (beats now) = heartbeat now s
step s (sends i) = send i s
step s works = work s
step s (commits i) = commit_batch i s
step s stops = ok (stop s)
