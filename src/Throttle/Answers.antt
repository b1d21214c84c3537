-- ===== src/Throttle/Answers.antt =====
-- A sequence of calls of `isAllowed` in plugin/action/throttle/in_memory_limiter.go.
use file_d.Base.{
  ℕ, ◌+◌, ◌-◌, ◌/◌, ◌≤◌, ◌<◌, ◌≡◌, refl, sym, ◌∙◌, ap, subst, Bytes, Bool, List, [], ◌∷◌, arith,
  leb, ◌==◌, if_false, Result, ok, ◌>>=◌,
}
use file_d.Base.Int.{ℤ, pos}
use file_d.Throttle.{
  Limiter, Panic, set_min_id, time_to_bucket_id, weight, is_allowed, new_in_memory_limiter,
}
use file_d.Throttle.Window.{later, at-replicate, length-replicate}
use file_d.Throttle.Counts.{Totals, Holds, count_in, count_total, is_allowed-Holds}

-- An event with its time, at the clock's time `now`.
pub record Arrival : Type 0 where
  pub now : ℕ
  pub ts : ℤ
  pub size : ℕ

unfoldable pub run : Limiter → List Arrival → Result Panic (List Bool)
run l [] = ok []
run l (a ∷ rest) = is_allowed a.now a.ts a.size l >>= λ r. run r.0 rest >>= λ bs. ok (r.1 ∷ bs)

set_min_id_started : (current_id : ℕ) (l : Limiter) → 0 < l.min_id → set_min_id current_id l ≡ l
unfolding set_min_id
set_min_id_started current_id l h = if_false {b = l.min_id == 0} _ _ (ground arith)

-- The clock sets the window of a new limiter.
new-Holds :
    (bucket_count interval limit current_id : ℕ) (kind : Bytes)
    → 0 < bucket_count
    → bucket_count ≤ current_id
    → Holds bucket_count interval
        (set_min_id current_id (new_in_memory_limiter interval bucket_count (pos limit) kind))
        (record { latest = current_id; totals = λ i. 0 })
unfolding set_min_id new_in_memory_limiter
new-Holds bucket_count interval limit current_id kind wide late = record {
  width = refl;
  scale = refl;
  window = (wide, length-replicate bucket_count, omega arith);
  started = omega arith;
  latest = refl;
  here = λ id le. at-replicate bucket_count (id - (current_id + 1 - bucket_count));
}

module _ (bucket_count interval limit : ℕ) (weigh : ℕ → ℕ) where
  abbrev count_arrival : Totals → Arrival → ℕ × Totals
  count_arrival t a =
      count_total bucket_count (a.now / interval) (time_to_bucket_id interval a.ts) (weigh a.size) t

  -- The answers of the specification: an event is allowed up to the limit of its interval.
  abbrev pub answers : Totals → List Arrival → List Bool
  answers t [] = []
  answers t (a ∷ rest) = let (total, t') = count_arrival t a in leb total limit ∷ answers t' rest

  module _ (kind : Bytes) (weighs : (size : ℕ) → weight kind size ≡ ok (weigh size)) where
    run-step :
        (l : Limiter) (t : Totals) (a : Arrival) (rest : List Arrival)
        → Holds bucket_count interval (set_min_id (a.now / interval) l) t
        → l.interval ≡ interval
        → l.limit_value ≡ pos limit
        → l.limit_kind ≡ kind
        → ((l' : Limiter)
            → Holds bucket_count interval l' (count_arrival t a).1
            → l'.limit_value ≡ pos limit
            → l'.limit_kind ≡ kind
            → run l' rest ≡ ok (answers (count_arrival t a).1 rest))
        → run l (a ∷ rest) ≡ ok (answers t (a ∷ rest))
    unfolding run
    run-step l t a rest h scale value same go_on =
        let (l', answer, holds, value', same') =
          is_allowed-Holds bucket_count interval limit a.now (weigh a.size) a.size a.ts l t h scale
            value (rw same (weighs a.size)) in
        rw (answer, go_on l' holds (value' ∙ value) (same' ∙ same)) refl

    run-Holds :
        (l : Limiter) (t : Totals) (arrivals : List Arrival)
        → Holds bucket_count interval l t
        → l.limit_value ≡ pos limit
        → l.limit_kind ≡ kind
        → run l arrivals ≡ ok (answers t arrivals)
    unfolding run
    run-Holds l t [] h value same = refl
    run-Holds l t (a ∷ rest) h value same =
        run-step l t a rest
          (subst (λ s. Holds bucket_count interval s t)
            (sym (set_min_id_started (a.now / interval) l h.started)) h)
          h.scale value same
          (λ l' holds value' same'. run-Holds l' (count_arrival t a).1 rest holds value' same')

    -- A new limiter with a limit answers for any sequence of events as the totals say: an event is allowed
    -- if its interval has not got more than the limit with it, where an interval that is not among the
    -- last ones stands for the latest. The width is not zero, and the first event comes when the clock has
    -- seen as many intervals as there are buckets; no call fails.
    pub run-answers :
        (a : Arrival) (rest : List Arrival)
        → 0 < bucket_count
        → bucket_count ≤ a.now / interval
        → run (new_in_memory_limiter interval bucket_count (pos limit) kind) (a ∷ rest)
          ≡ ok (answers (record { latest = 0; totals = λ i. 0 }) (a ∷ rest))
    unfolding new_in_memory_limiter
    run-answers a rest wide late =
        let c = a.now / interval in
        run-step (new_in_memory_limiter interval bucket_count (pos limit) kind)
          (record { latest = c; totals = λ i. 0 }) a rest
          (new-Holds bucket_count interval limit c kind wide late) refl refl refl
          (λ l' holds value same. run-Holds l' _ rest holds value same)
        ∙ ap
            (λ latest.
              let (total, t') =
                count_in bucket_count latest (time_to_bucket_id interval a.ts) (weigh a.size)
                  (λ i. 0) in
              ok (leb total limit ∷ answers t' rest))
            same
      where
        same : later (a.now / interval) (a.now / interval) ≡ later 0 (a.now / interval)
        same = ground arith
