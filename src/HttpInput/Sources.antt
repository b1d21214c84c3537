-- ===== src/HttpInput/Sources.antt =====
-- That requests which run at the same time have different source ids: plugin/input/http/http.go.
use file_d.Base.{
  ℕ, ◌+◌, ◌≡◌, List, [], ◌∷◌, ◌++◌, arith, ltb, if◌then◌else◌, count, count-append, List-cases, inl,
  inr,
}
use file_d.HttpInput.{Ids, get_source_id, put_source_id}

-- What requests lead to: each takes an id when it begins and gives it back when it ends. The list has
-- the ids of the requests that run.
pub data Reach : Ids → List ℕ → Type 0 where
  start : Reach (record { source_ids = []; source_seq = 0 }) []
  begins :
      (p : Ids) (running : List ℕ)
      → Reach p running
      → Reach (get_source_id p).0 ((get_source_id p).1 ∷ running)
  ends :
      (p : Ids) (xs : List ℕ) (x : ℕ) (ys : List ℕ)
      → Reach p (xs ++ x ∷ ys)
      → Reach (put_source_id p x) (xs ++ ys)

-- However requests begin and end, each id that was ever given out is free or belongs to one request that
-- runs, and not both; ids that were not given out are neither. So no two requests share an id.
pub each_source_once :
    (p : Ids) (running : List ℕ) (n : ℕ)
    → Reach p running
    → count n p.source_ids + count n running ≡ (if ltb n p.source_seq then 1 else 0)
unfolding get_source_id put_source_id
each_source_once p running n start = ground arith
each_source_once p running n (begins q before r) = elim (List-cases q.source_ids) [
  | inl e ↦ ground (arith, each_source_once q before n r)
  | inr (x, xs, e) ↦ ground (arith, each_source_once q before n r)
]
each_source_once p running n (ends q xs x ys r) =
    ground (
      arith,
      each_source_once q (xs ++ x ∷ ys) n r,
      count-append n xs (x ∷ ys),
      count-append n xs ys,
    )
