-- ===== src/Pipeline/Stream.antt =====
-- pipeline/stream.go: the queue of the events of one stream. Each method runs under the stream's
-- mutex, so each is one function on the record. The linked list `first`..`last` is the list
-- `queue`. A method that calls `streamer.makeCharged` says so by a Boolean beside the new record.
pub mod Order
pub mod Ready
use file_d.Base.{
  ℕ, ◌+◌, ◌-◌, ◌%◌, ◌^◌, Bytes, Bool, true, false, not, ◌&&◌, Option, none, some, List, [], ◌∷◌,
  ◌++◌, is_empty, ltb, ◌==◌, if◌then◌else◌, Result, ok, err, ◌>>=◌,
}
use file_d.Base.Int.{ℤ, pos, inc, dec}
use file_d.Pipeline.Event.{Event, in_stream, in_processor, new_timeout_event}

pub record Stream : Type 0 where
  pub block_index : ℤ
  pub len : ℤ
  pub current_seq : ℕ
  pub commit_seq : ℕ
  pub away_seq : ℕ
  pub name : Bytes
  pub stream_id : ℕ
  pub block_time : ℕ
  pub is_detaching : Bool
  pub is_attached : Bool
  pub queue : List Event

-- The messages of `logger.Panicf`.
pub data Panic : Type 0 where
  already_detaching : Panic
  not_attached : Panic
  attach_attached attach_detaching attach_empty : Panic
  get_while_detaching : Panic
  events_are_different : Panic
  not_blocked not_in_block_list : Panic
  -- the runtime's: an index out of range
  out_of_range : Panic

unfoldable pub new_stream : Bytes → ℕ → Stream
new_stream name stream_id = record {
  block_index = pos 0;
  len = pos 0;
  current_seq = 0;
  commit_seq = 0;
  away_seq = 0;
  name = name;
  stream_id = stream_id;
  block_time = 0;
  is_detaching = false;
  is_attached = false;
  queue = [];
}

unfoldable pub try_detach : Stream → Stream × Bool
try_detach s =
    if s.away_seq == s.commit_seq
    then (record s { is_attached = false; is_detaching = false }, not (is_empty s.queue))
    else (s, false)

unfoldable pub leave : Stream → Result Panic (Stream × Bool)
unfolding try_detach
leave s =
    if s.is_detaching
    then err already_detaching
    else if not s.is_attached
    then err not_attached
    else ok (try_detach (record s { is_detaching = true }))

-- The commits of discarded events may overtake those that go through the output.
unfoldable pub commit : Stream → Event → Stream × Bool
unfolding try_detach
commit s event =
    if ltb event.seq_id s.commit_seq
    then (s, false)
    else let t = record s { commit_seq = event.seq_id } in
      if s.is_detaching then try_detach t else (t, false)

unfoldable pub attach : Stream → Result Panic Stream
attach s =
    if s.is_attached
    then err attach_attached
    else if s.is_detaching
    then err attach_detaching
    else if is_empty s.queue
    then err attach_empty
    else ok (record s { is_attached = true })

-- `currentSeq` is a uint64. `self` is the stream's pointer.
unfoldable pub put : ℕ → Stream → Event → Stream × Bool × ℕ
put self s event =
    let seq_id = (s.current_seq + 1) % 2 ^ 64 in
    let e = record event { stream = some self; stage = in_stream; seq_id = seq_id } in
    let t = record s { len = inc s.len; current_seq = seq_id } in
    if is_empty s.queue
    then (record t { queue = e ∷ [] }, not s.is_attached, seq_id)
    else (record t { queue = s.queue ++ e ∷ [] }, false, seq_id)

-- The part of `get` below its guard, on the queue.
take_first : Stream → List Event → Stream × Option Event
take_first s [] = (record s { queue = [] }, none)
take_first s (event ∷ rest) = (
  record s { queue = rest; away_seq = event.seq_id; len = dec s.len },
  some (record event { stage = in_processor }),
)

unfoldable pub get : Stream → Result Panic (Stream × Option Event)
unfolding take_first
get s = if s.is_detaching then err get_while_detaching else ok (take_first s s.queue)

-- What `instantGet` and `blockGet` do behind `get`: nothing is charged.
abbrev uncharged : Stream × Option Event → Stream × Bool × Option Event
uncharged (s, event) = (s, false, event)

abbrev no_event : Stream × Bool → Stream × Bool × Option Event
no_event (s, charged) = (s, charged, none)

unfoldable pub instant_get : Stream → Result Panic (Stream × Bool × Option Event)
unfolding leave get
instant_get s =
    if not s.is_attached
    then err not_attached
    else if is_empty s.queue
    then leave s >>= (λ r. ok (no_event r))
    else get s >>= (λ r. ok (uncharged r))

-- The streamer's heartbeat, over `now` and `eventTimeout`; the clock does not go back.
unfoldable pub try_unblock : ℕ → ℕ → ℕ → Stream → Result Panic (Stream × Bool)
unfolding new_timeout_event
try_unblock self now event_timeout s =
    if ltb (now - s.block_time) event_timeout
    then ok (s, false)
    else if not (is_empty s.queue)
    then ok (s, false)
    else if not (s.away_seq == s.commit_seq)
    then err events_are_different
    else let event = new_timeout_event self s.commit_seq s.stream_id s.name in
      ok (record s { queue = event ∷ [] }, true)
