-- ===== src/Pipeline/Streamer/Timeouts.antt =====
-- What `tryUnblock` of pipeline/stream.go does to a stream that left the block list after the
-- heartbeat of pipeline/streamer.go copied it.
use file_d.Base.{
  ℕ, ◌+◌, ◌-◌, ◌≤◌, ◌<◌, ◌≡◌, ◌≢◌, Bool, true, false, some, [], ◌∷◌, arith, ok, err, count,
}
use file_d.Base.Int.{dec}
use file_d.Pipeline.Event.{Event, timeout, new_timeout_event}
use file_d.Pipeline.Stream.{Stream, events_are_different, put, instant_get, try_unblock}
use file_d.Pipeline.Stream.Ready.{ready}
use file_d.Pipeline.Streamer.{Streamer, update, try_unblock_at}
use file_d.Pipeline.Streamer.Charged.{Inv}
use file_d.Pipeline.Streamer.Stranded.{Stranded, Runs}
use file_d.Pipeline.Streamer.Calls.{Runs-Stranded}

-- A stream is empty, its block time has run out, and the last event that a processor took from it is
-- not committed: then `tryUnblock` panics.
try_unblock_busy :
    (s : Stream) (p now event_timeout : ℕ)
    → s.queue ≡ []
    → event_timeout ≤ now - s.block_time
    → s.away_seq ≢ s.commit_seq
    → try_unblock p now event_timeout s ≡ err events_are_different
unfolding try_unblock
try_unblock_busy s p now event_timeout q late busy = ground arith

-- A stream that no processor has is empty, its block time has run out, and all that was taken is
-- committed: then `tryUnblock` puts a timeout event in, and the stream is ready. The next `put` does
-- not charge it, and leaves it ready.
pub try_unblock_left :
    (s : Stream) (p now event_timeout : ℕ) (e : Event)
    → s.queue ≡ []
    → event_timeout ≤ now - s.block_time
    → s.away_seq ≡ s.commit_seq
    → s.is_attached ≡ false
    → (t : Stream) × (try_unblock p now event_timeout s ≡ ok (t, true))
      × (ready t ≡ true)
      × ((put p t e).1 ≡ false)
      × (ready (put p t e).0 ≡ true)
unfolding try_unblock put
try_unblock_left s p now event_timeout e q late done left = (
  record s { queue = new_timeout_event p s.commit_seq s.stream_id s.name ∷ [] },
  ground arith,
  ground arith,
  ground arith,
  ground arith,
)

-- The streamer after the timeout event is put into a stream.
abbrev pub with_timeout : Streamer → ℕ → Streamer
with_timeout st p =
    let s = st.cell p in
    record st {
      cell =
          update st.cell p
            (record s { queue = new_timeout_event p s.commit_seq s.stream_id s.name ∷ [] });
    }

with_timeout-Stranded :
    (st : Streamer) (p : ℕ)
    → Inv false st
    → (st.cell p).queue ≡ []
    → (st.cell p).is_attached ≡ false
    → p < st.fresh
    → Stranded p (with_timeout st p)
with_timeout-Stranded st p v q left known = record {
  idle = ground (arith, v.sound p);
  absent = ground (arith, v.counted p);
  known = known;
}

try_unblock_at_lem :
    (st : Streamer) (p now : ℕ)
    → (st.cell p).queue ≡ []
    → st.event_timeout ≤ now - (st.cell p).block_time
    → (st.cell p).away_seq ≡ (st.cell p).commit_seq
    → try_unblock_at st p now ≡ ok (with_timeout st p)
unfolding try_unblock_at try_unblock
try_unblock_at_lem st p now q late done = ground arith

Stranded-ready :
    (p : ℕ) (st : Streamer)
    → Stranded p st
    → (ready (st.cell p) ≡ true) × (count p st.charged + count p st.taken ≡ 0)
Stranded-ready p st v = (ground (arith, v.idle), v.absent)

-- In a state that calls lead to, or any with their invariant, there is a stream that is empty, has no
-- processor, whose block time has run out, and of which all that was taken is committed. `tryUnblock`,
-- which a heartbeat with an old copy of the block list calls on it, succeeds and puts a timeout event
-- into it. From then on, whatever is put, committed, taken or blocked, and however often the heartbeat
-- comes, as long as only popped streams are attached and only streams with a processor are woken: the
-- stream has events and no processor, and is neither charged nor popped, so that none gets it.
pub try_unblock_at_strands :
    (st later : Streamer) (p now : ℕ)
    → Inv false st
    → (st.cell p).queue ≡ []
    → st.event_timeout ≤ now - (st.cell p).block_time
    → (st.cell p).is_attached ≡ false
    → (st.cell p).away_seq ≡ (st.cell p).commit_seq
    → p < st.fresh
    → Runs (with_timeout st p) later
    → (try_unblock_at st p now ≡ ok (with_timeout st p))
      × (ready (later.cell p) ≡ true)
      × (count p later.charged + count p later.taken ≡ 0)
try_unblock_at_strands st later p now v q late left done known runs =
    let (has_events, absent) =
      Stranded-ready p later (Runs-Stranded p runs (with_timeout-Stranded st p v q left known)) in
    (try_unblock_at_lem st p now q late done, has_events, absent)

-- The event that `tryUnblock` puts into an empty stream is the one that `instantGet` takes next; the
-- stream is empty again, and its `len` has fallen by one.
pub timeout-len :
    (s t u : Stream) (p now event_timeout : ℕ) (charged : Bool) (e : Event)
    → s.queue ≡ []
    → try_unblock p now event_timeout s ≡ ok (t, true)
    → instant_get t ≡ ok (u, charged, some e)
    → (e.kind ≡ timeout) × (u.queue ≡ []) × (u.len ≡ dec s.len)
unfolding try_unblock instant_get
timeout-len s t u p now event_timeout charged e q h k = ground arith
