-- ===== src/Pipeline/Streamer.antt =====
-- pipeline/streamer.go: the directory of the streams, the charged ones, which wait for a processor,
-- and the blocked ones, whose processor waits for an event. A pointer to a stream is a number, and
-- `cell` is what it points to. `taken` holds the streams that `joinStream` has popped and not yet
-- attached: between the two it holds no lock. A call that waits returns what it did until then.
pub mod Cells
pub mod Charged
pub mod Reach
pub mod Ordered
pub mod Blocked
pub mod Stranded
pub mod Calls
pub mod Timeouts
use file_d.Base.{
  ℕ, zero, suc, Bytes, bytes_eq, Bool, true, false, not, ◌&&◌, Option, none, some, List, [], ◌∷◌,
  ◌++◌, is_empty, length, set, pop_last, ltb, ◌==◌, if◌then◌else◌, Result, ok, err, ◌>>=◌,
}
use file_d.Base.Int.{ℤ, pos, negsuc}
use file_d.Pipeline.Event.{Event, unlock_event}
use file_d.Pipeline.Stream.{
  Stream, Panic, not_attached, not_blocked, not_in_block_list, out_of_range, new_stream, put,
  attach, commit, get, instant_get, try_unblock,
}

pub record Streamer : Type 0 where
  pub directory : List ((ℕ × Bytes) × ℕ)
  pub fresh : ℕ
  pub cell : ℕ → Stream
  pub should_stop : Bool
  pub charged : List ℕ
  pub taken : List ℕ
  pub blocked : List ℕ
  pub event_timeout : ℕ

-- A write through a pointer.
abbrev pub update : (ℕ → Stream) → ℕ → Stream → ℕ → Stream
update cell p s q = if p == q then s else cell q

unfoldable pub new_streamer : ℕ → Streamer
unfolding new_stream
new_streamer event_timeout = record {
  directory = [];
  fresh = 0;
  cell = λ _. new_stream [] 0;
  should_stop = false;
  charged = [];
  taken = [];
  blocked = [];
  event_timeout = event_timeout;
}

-- `s.streams[streamID][streamName]`.
unfoldable pub find_stream : List ((ℕ × Bytes) × ℕ) → ℕ → Bytes → Option ℕ
find_stream [] stream_id name = none
find_stream (((i, n), p) ∷ rest) stream_id name =
    if i == stream_id && bytes_eq n name then some p else find_stream rest stream_id name

unfoldable pub get_stream : Streamer → ℕ → Bytes → Streamer × ℕ
get_stream st stream_id name = elim (find_stream st.directory stream_id name) [
  | some p ↦ (st, p)
  | none ↦ (
    record st {
      directory = ((stream_id, name), st.fresh) ∷ st.directory;
      cell = update st.cell st.fresh (new_stream name stream_id);
      fresh = suc st.fresh;
    },
    st.fresh,
  )
]

unfoldable pub make_charged : Streamer → ℕ → Streamer
make_charged st p = record st { charged = st.charged ++ p ∷ [] }

-- What a method of the stream leaves behind: its record, and the call of `makeCharged`.
unfoldable pub store : Streamer → ℕ → Stream → Bool → Streamer
unfolding make_charged
store st p s charged =
    let t = record st { cell = update st.cell p s } in if charged then make_charged t p else t

unfoldable pub put_to : Streamer → ℕ → Event → Streamer × ℕ
put_to st p event =
    let (s, charged, seq_id) = put p (st.cell p) event in (store st p s charged, seq_id)

unfoldable pub put_event : Streamer → ℕ → Bytes → Event → Streamer × ℕ
put_event st stream_id name event =
    let (found, p) = get_stream st stream_id name in put_to found p event

-- `joinStream` up to its unlock. `none`: it waits, or it returns nil as the streamer stops.
unfoldable pub join_stream : Streamer → Streamer × Option ℕ
join_stream st = elim (pop_last st.charged) [
  | none ↦ (st, none)
  | some (rest, p) ↦ (record st { charged = rest; taken = p ∷ st.taken }, some p)
]

unfoldable pub remove : ℕ → List ℕ → List ℕ
remove p [] = []
remove p (x ∷ xs) = if x == p then xs else x ∷ remove p xs

-- The last line of `joinStream`.
unfoldable pub attach_joined : Streamer → ℕ → Result Panic Streamer
attach_joined st p = attach (st.cell p) >>= λ s.
    ok (record st { cell = update st.cell p s; taken = remove p st.taken })

unfoldable pub commit_to : Streamer → ℕ → Event → Streamer
commit_to st p event = let (s, charged) = commit (st.cell p) event in store st p s charged

unfoldable pub instant_get_from : Streamer → ℕ → Result Panic (Streamer × Option Event)
instant_get_from st p =
    instant_get (st.cell p) >>= λ (s, charged, event). ok (store st p s charged, event)

unfoldable pub make_blocked : Streamer → ℕ → Streamer
make_blocked st p = record st {
  cell = update st.cell p (record (st.cell p) { block_index = pos (length st.blocked) });
  blocked = st.blocked ++ p ∷ [];
}

-- The last of the blocked streams moves to the place of the one that leaves.
unfoldable pub swapped : Streamer → ℕ → ℕ → List ℕ → ℕ → Streamer
swapped st p index rest last = record st {
  cell = update moved p (record (moved p) { block_index = negsuc 0 });
  blocked = set rest index last;
}
  where
    moved : ℕ → Stream
    moved = update st.cell last (record (st.cell last) { block_index = pos index })

unfoldable pub swap_remove : Streamer → ℕ → ℕ → List ℕ × ℕ → Result Panic Streamer
swap_remove st p index (rest, last) =
    if ltb index (length st.blocked) then ok (swapped st p index rest last) else err out_of_range

unfoldable pub reset_index : Streamer → ℕ → ℤ → Result Panic Streamer
reset_index st p (negsuc zero) = err not_blocked
reset_index st p (negsuc (suc n)) = elim (pop_last st.blocked) [
  | none ↦ err not_in_block_list
  | some last ↦ err out_of_range
]
reset_index st p (pos index) = elim (pop_last st.blocked) [
  | none ↦ err not_in_block_list
  | some last ↦ swap_remove st p index last
]

unfoldable pub reset_blocked : Streamer → ℕ → Result Panic Streamer
reset_blocked st p = reset_index st p (st.cell p).block_index

-- One round of the loop of `blockGet`. `none`: the caller waits for a signal.
unfoldable pub block_round : Streamer → ℕ → ℕ → Result Panic (Streamer × Option Event)
block_round st p now =
    if is_empty (st.cell p).queue
    then ok (make_blocked (record st { cell = timed }) p, none)
    else get (st.cell p) >>= λ (s, event). ok (record st { cell = update st.cell p s }, event)
  where
    timed : ℕ → Stream
    timed = update st.cell p (record (st.cell p) { block_time = now })

unfoldable pub block_get : Streamer → ℕ → ℕ → Result Panic (Streamer × Option Event)
block_get st p now = if not (st.cell p).is_attached then err not_attached else block_round st p now

-- `blockGet` after its signal.
unfoldable pub block_wake : Streamer → ℕ → ℕ → Result Panic (Streamer × Option Event)
block_wake st p now = reset_blocked st p >>= λ t. block_round t p now

unfoldable pub try_unblock_at : Streamer → ℕ → ℕ → Result Panic Streamer
try_unblock_at st p now = try_unblock p now st.event_timeout (st.cell p) >>= λ (s, _).
    ok (record st { cell = update st.cell p s })

-- A round of `heartbeat` over its copy of `blocked`; the copy may be out of date.
unfoldable pub heartbeat : Streamer → List ℕ → ℕ → Result Panic Streamer
heartbeat st [] now = ok st
heartbeat st (p ∷ rest) now = try_unblock_at st p now >>= λ t. heartbeat t rest now

put_unlocks : Streamer → List ((ℕ × Bytes) × ℕ) → Streamer
unfolding put_to
put_unlocks st [] = st
put_unlocks st ((_, p) ∷ rest) =
    let s = st.cell p in
    put_unlocks (put_to st p (unlock_event p s.commit_seq s.stream_id s.name)).0 rest

unfoldable pub stop : Streamer → Streamer
unfolding put_unlocks
stop st = put_unlocks (record st { should_stop = true }) st.directory

-- The calls that the pipeline makes, in the order in which they take the locks.
pub data Call : Type 0 where
  puts : ℕ → Bytes → Event → Call
  joins : Call
  attaches : ℕ → Call
  gets : ℕ → Call
  commits : ℕ → Event → Call
  blocks : ℕ → ℕ → Call
  wakes : ℕ → ℕ → Call
  unblocks : ℕ → ℕ → Call

abbrev first {ℓ} : {A : Type ℓ} → Result Panic (Streamer × A) → Result Panic Streamer
first r = r >>= λ (st, _). ok st

unfoldable pub step : Streamer → Call → Result Panic Streamer
step st (puts stream_id name event) = ok (put_event st stream_id name event).0
step st joins = ok (join_stream st).0
step st (attaches p) = attach_joined st p
step st (gets p) = first (instant_get_from st p)
step st (commits p event) = ok (commit_to st p event)
step st (blocks p now) = first (block_get st p now)
step st (wakes p now) = first (block_wake st p now)
step st (unblocks p now) = try_unblock_at st p now
