-- ===== src/Examples/Pooled.antt =====
-- Runs of the pool of pipeline/event.go.
use file_d.Base.{
  ℕ, ◌≤◌, ◌≡◌, refl, none, some, List, [], ◌∷◌, ◌++◌, true, replicate, get_elem?, ltb, arith, ok,
  err,
}
use file_d.Base.Int.{pos}
use file_d.Pipeline.Pool.{
  idle, asleep, won, claimed, Pool, new_event_pool, Call, gets, backs, goes, step, next_round,
  failed, try_get, try_back, hand_out, advance, get, pick, back, give_back, act, Reach, start, next,
}
use file_d.Pipeline.Pool.Slots.{bit, inside, ops}
use file_d.Pipeline.Pool.Moves.{slot_is_exclusive}
use file_d.Pipeline.Pool.Places.{places, in_use}
use file_d.Pipeline.Pool.Events.{each_event_once}

run : Pool → List (ℕ × Call) → Pool
unfolding step next_round failed try_get try_back hand_out advance get pick back give_back act
run p [] = p
run p ((g, c) ∷ cs) = elim (step p g c) [ ok q ↦ run q cs | err f ↦ p ]

abbrev times : ℕ → ℕ → List (ℕ × Call)
times n g = replicate n (g, goes)

abbrev pool : Pool
pool = new_event_pool 1 2

-- One goroutine takes the only event of a pool, a second one tries nine times; the first gives the
-- event back, with its broadcast, before the second begins to wait.
abbrev crossed : List (ℕ × Call)
crossed =
    ((0, gets) ∷ times 5 0) ++ ((1, gets) ∷ times 9 1) ++ ((0, backs 0) ∷ times 5 0) ++ times 1 1

-- Then the second one sleeps, although the slot is open and every event is in the pool.
sleeps_on :
    ((run pool crossed).goroutines ≡ idle ∷ asleep 0 ∷ [])
    × ((run pool crossed).free1 0 ≡ true)
    × ((run pool crossed).in_use_events ≡ pos 0)
unfolding run new_event_pool
sleeps_on = (refl, refl, refl)

-- A goroutine has taken the flag of the only slot.
abbrev taking : Pool
taking = run pool ((0, gets) ∷ times 1 0)

taking-Reach : Reach 1 2 taking
unfolding run new_event_pool step next_round failed try_get try_back hand_out advance get pick back
    give_back act
taking-Reach = next 0 goes (next 0 gets start refl) refl

slot_is_exclusive_example :
    (ops (inside 0) taking ≤ 1)
    × ((g : ℕ)
        → get_elem? taking.goroutines g ≡ some (won 0)
        → (e : ℕ) × (taking.events 0 ≡ some e))
    × ((g e : ℕ) → get_elem? taking.goroutines g ≡ some (claimed 0 e) → taking.events 0 ≡ none)
slot_is_exclusive_example = slot_is_exclusive 1 2 taking 0 taking-Reach

each_event_once_example :
    ((e : ℕ) → places e taking ≡ bit (ltb e taking.capacity))
    × (taking.in_use_events ≡ pos (in_use taking))
each_event_once_example = each_event_once 1 2 taking (omega arith) taking-Reach
