-- ===== src/Examples/Streams.antt =====
-- Runs of pipeline/stream.go and pipeline/streamer.go.
use file_d.Base.{
  ℕ, zero, suc, ◌+◌, ◌≤◌, ◌≡◌, refl, ◌⊎◌, inl, true, false, none, some, [], ◌∷◌, codes, arith, ok,
  count, get_elem?, pop_last,
}
use file_d.Base.Int.{pos, negsuc}
use file_d.Pipeline.Event.{Event, regular, timeout, in_input, in_processor, new_timeout_event}
use file_d.Pipeline.Stream.{Stream, put, instant_get}
use file_d.Pipeline.Stream.Ready.{ready, bit}
use file_d.Pipeline.Stream.Order.{IsOrdered, instant_get_next}
use file_d.Pipeline.Streamer.{
  Streamer, new_streamer, put_event, join_stream, commit_to, reset_blocked, try_unblock_at,
  find_stream, get_stream, put_to, store, puts, joins, commits, step,
}
use file_d.Pipeline.Streamer.Charged.{Inv}
use file_d.Pipeline.Streamer.Reach.{Reach, start, next, count-charged}
use file_d.Pipeline.Streamer.Ordered.{AllOrdered, step-AllOrdered}
use file_d.Pipeline.Streamer.Blocked.{IsIndexed, reset_blocked-IsIndexed}
use file_d.Pipeline.Streamer.Timeouts.{with_timeout, try_unblock_at_strands}
use file_d.Pipeline.Streamer.Stranded.{Runs, stays, calls}

abbrev pub line : Event
line = record {
  kind = regular;
  root = some 1;
  buf = [];
  seq_id = 0;
  offset = 40;
  source_id = 7;
  source_name = codes "a.log";
  stream_name = codes "stdout";
  size = 40;
  action = 0;
  stream = none;
  stage = in_input;
}

-- One event in the stream of the file 7, whose stream a processor has popped.
put_once : Reach true 30 (put_event (new_streamer 30) 7 (codes "stdout") line).0
unfolding step
put_once = next (puts 7 (codes "stdout") line) start tt refl

popped : Streamer
unfolding new_streamer put_event get_stream find_stream put_to put store join_stream pop_last
popped = (join_stream (put_event (new_streamer 30) 7 (codes "stdout") line).0).0

popped-Reach : Reach true 30 popped
unfolding step popped
popped-Reach = next joins put_once tt refl

count-charged_example :
    (count 0 popped.charged + count 0 popped.taken ≤ bit (ready (popped.cell 0)))
    × ((true ≡ false)
        ⊎ (count 0 popped.charged + count 0 popped.taken ≡ bit (ready (popped.cell 0))))
count-charged_example = count-charged true 30 popped 0 popped-Reach

popped_stream : popped.taken ≡ 0 ∷ []
unfolding popped
popped_stream = refl

-- Two numbers given, one handed out.
abbrev midway : Stream
midway = record {
  block_index = negsuc 0;
  len = pos 1;
  current_seq = 2;
  commit_seq = 0;
  away_seq = 1;
  name = codes "stdout";
  stream_id = 7;
  block_time = 0;
  is_detaching = false;
  is_attached = true;
  queue = record line { seq_id = 2 } ∷ [];
}

midway-IsOrdered : IsOrdered midway
midway-IsOrdered = (inl refl, refl)

abbrev handed : Stream
handed = record midway { queue = []; away_seq = 2; len = pos 0 }

abbrev handed_line : Event
handed_line = record line { seq_id = 2; stage = in_processor }

instant_get_next_example :
    IsOrdered handed
    × (handed.away_seq ≡ handed_line.seq_id)
    × ((handed_line.seq_id ≡ midway.away_seq + 1)
        ⊎ ((handed_line.kind ≡ timeout) × (handed_line.seq_id ≡ midway.away_seq)))
unfolding instant_get
instant_get_next_example = instant_get_next midway handed false handed_line midway-IsOrdered refl

abbrev running : Streamer
running = record {
  directory = ((7, codes "stdout"), 0) ∷ [];
  fresh = 1;
  cell = λ _. midway;
  should_stop = false;
  charged = [];
  taken = [];
  blocked = [];
  event_timeout = 30;
}

step-AllOrdered_example : AllOrdered (commit_to running 0 handed_line).cell
unfolding step
step-AllOrdered_example =
    step-AllOrdered running (commit_to running 0 handed_line) (commits 0 handed_line)
      (λ p. omega arith) (λ p. midway-IsOrdered) refl

get_elem?-three : (i p : ℕ) → get_elem? (0 ∷ 1 ∷ 2 ∷ []) i ≡ some p → i ≡ p
get_elem?-three zero p h = cc
get_elem?-three (suc zero) p h = cc
get_elem?-three (suc (suc zero)) p h = cc
get_elem?-three (suc (suc (suc i))) p h = cc

-- Three blocked streams; the first one is woken.
abbrev at_place : ℕ → Stream
at_place p = record midway { block_index = pos p }

abbrev waiting : Streamer
waiting = record running { cell = at_place; fresh = 3; blocked = 0 ∷ 1 ∷ 2 ∷ [] }

waiting-IsIndexed : IsIndexed waiting.cell waiting.blocked
waiting-IsIndexed i p h = ground (arith, get_elem?-three i p h)

reset_blocked-IsIndexed_example :
    (st' : Streamer) × (reset_blocked waiting 0 ≡ ok st')
    × IsIndexed st'.cell st'.blocked
    × ((st'.cell 0).block_index ≡ negsuc 0)
    × ((q : ℕ) → count q st'.blocked + count q (0 ∷ []) ≡ count q waiting.blocked)
reset_blocked-IsIndexed_example = reset_blocked-IsIndexed waiting 0 0 waiting-IsIndexed refl

-- The processor is done with the event 2, and has left.
abbrev left : Stream
left = record handed { commit_seq = 2; is_attached = false }

abbrev woken : Stream
woken = record left { queue = new_timeout_event 0 2 7 (codes "stdout") ∷ []; is_attached = true }

abbrev after_timeout : Stream
after_timeout = record left { len = negsuc 0; is_attached = true }

abbrev left_behind : Streamer
left_behind = record running { cell = λ _. left }

left_behind-Inv : Inv false left_behind
left_behind-Inv = record {
  sound = λ p. ground arith;
  counted = λ p. omega arith;
  whole = λ t. cc;
  untouched = λ p h. (refl, refl);
  known = (omega arith, tt);
}

-- A heartbeat with an old copy, and then an event and an idle processor.
abbrev stranded : Streamer
stranded = with_timeout left_behind 0

abbrev put_on : Streamer
put_on = (put_event stranded 7 (codes "stdout") line).0

then_put : Runs stranded put_on
unfolding step
then_put = calls (puts 7 (codes "stdout") line) stays tt refl

try_unblock_at_strands_example :
    (try_unblock_at left_behind 0 40 ≡ ok stranded)
    × (ready (put_on.cell 0) ≡ true)
    × (count 0 put_on.charged + count 0 put_on.taken ≡ 0)
try_unblock_at_strands_example =
    try_unblock_at_strands left_behind put_on 0 40 left_behind-Inv refl (omega arith) refl refl
      (omega arith) then_put
