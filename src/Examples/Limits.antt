-- ===== src/Examples/Limits.antt =====
-- Runs of plugin/action/throttle/in_memory_limiter.go.
use file_d.Base.{ℕ, ◌≡◌, refl, true, false, List, [], ◌∷◌, codes, arith, ok}
use file_d.Base.Int.{pos}
use file_d.Throttle.{
  new_in_memory_limiter, is_allowed, rebuild_buckets, set_min_id, shift_buckets, count_event,
  weight, add_at,
}
use file_d.Throttle.Answers.{Arrival, run, answers, run-answers}
use file_d.Throttle.Counts.{Totals}

abbrev arrival : ℕ → ℕ → Arrival
arrival now ts = record { now = now; ts = pos ts; size = 40 }

-- Three events of one interval, one from the future, and one when that interval has come.
abbrev later_arrivals : List Arrival
later_arrivals = arrival 1001 1000 ∷ arrival 1002 1000 ∷ arrival 1003 5000 ∷ arrival 1010 1010 ∷ []

abbrev none_yet : Totals
none_yet = record { latest = 0; totals = λ i. 0 }

one_each : (size : ℕ) → weight (codes "count") size ≡ ok 1
unfolding weight
one_each size = refl

run-answers_example :
    run (new_in_memory_limiter 10 2 (pos 2) (codes "count")) (arrival 1000 1000 ∷ later_arrivals)
    ≡ ok (answers 2 10 2 (λ size. 1) none_yet (arrival 1000 1000 ∷ later_arrivals))
run-answers_example =
    run-answers 2 10 2 (λ size. 1) (codes "count") one_each (arrival 1000 1000) later_arrivals
      (omega arith) (omega arith)

two_allowed :
    run (new_in_memory_limiter 10 2 (pos 2) (codes "count")) (arrival 1000 1000 ∷ later_arrivals)
    ≡ ok (true ∷ true ∷ false ∷ false ∷ true ∷ [])
unfolding run is_allowed new_in_memory_limiter rebuild_buckets set_min_id shift_buckets count_event
    weight add_at
two_allowed = refl
