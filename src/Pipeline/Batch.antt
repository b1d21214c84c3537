-- ===== src/Pipeline/Batch.antt =====
-- pipeline/batch.go, the type `Batch`: events gathered until there are enough of them, by number or
-- by bytes, or until they have waited too long. The sizes are those of events in memory, so their
-- sum stays within an int; `now` is the clock, which does not go back.
pub mod Status
use file_d.Base.{
  ℕ, zero, suc, ◌+◌, ◌-◌, Bool, true, false, not, ◌&&◌, ◌||◌, List, [], ◌∷◌, ◌++◌, length, ltb, leb,
  ◌==◌, if◌then◌else◌, Result, ok, err,
}
use file_d.Base.Int.{ℤ, pos, negsuc}
use file_d.Pipeline.Event.{Event}

pub data BatchStatus : Type 0 where
  not_ready max_size_exceeded timeout_exceeded : BatchStatus

pub record Batch : Type 0 where
  pub events : List Event
  pub events_size : ℕ
  pub seq : ℕ
  pub timeout : ℕ
  pub start_time : ℕ
  pub max_size_count : ℕ
  pub max_size_bytes : ℕ
  pub status : BatchStatus

-- The messages of `logger.Fatalf`.
pub data Fatal : Type 0 where
  count_negative size_negative limits_not_set : Fatal

abbrev empty_batch : ℕ → ℕ → ℕ → Batch
empty_batch max_size_count max_size_bytes timeout = record {
  events = [];
  events_size = 0;
  seq = 0;
  timeout = timeout;
  start_time = 0;
  max_size_count = max_size_count;
  max_size_bytes = max_size_bytes;
  status = not_ready;
}

unfoldable pub new_batch : ℤ → ℤ → ℕ → Result Fatal Batch
new_batch (negsuc n) max_size_bytes timeout = err count_negative
new_batch (pos count) (negsuc n) timeout = err size_negative
new_batch (pos count) (pos bytes) timeout =
    if count == 0 && bytes == 0 then err limits_not_set else ok (empty_batch count bytes timeout)

unfoldable pub reset : ℕ → Batch → Batch
reset now b = record b { events = []; events_size = 0; status = not_ready; start_time = now }

unfoldable pub append : Batch → Event → Batch
append b e = record b { events = b.events ++ e ∷ []; events_size = b.events_size + e.size }

abbrev pub status_of : ℕ → Batch → BatchStatus
status_of now b =
    let l = length b.events in
    if (not (b.max_size_count == 0) && l == b.max_size_count)
      || (not (b.max_size_bytes == 0) && leb b.max_size_bytes b.events_size)
    then max_size_exceeded
    else if ltb 0 l && ltb b.timeout (now - b.start_time)
    then timeout_exceeded
    else not_ready

-- The status returned is the one stored.
unfoldable pub update_status : ℕ → Batch → Batch
update_status now b = record b { status = status_of now b }
