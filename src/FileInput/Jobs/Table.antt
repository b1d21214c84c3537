-- ===== src/FileInput/Jobs/Table.antt =====
-- The map of jobs of plugin/input/file/provider.go as a list: sums over the jobs and writes to one.
use file_d.Base.{
  ℕ, zero, suc, ◌+◌, ◌≤◌, ◌≡◌, refl, sym, subst, inl, inr, none, some, List, [], ◌∷◌, length, ◌==◌,
  if◌then◌else◌, arith, sum, count, Option-cases,
}
use file_d.FileInput.Jobs.{Job, Turn, take_at, find_job, put_job, delete_job}
use file_d.FileInput.Jobs.Turns.{take_turn}

pub find_job-source_id :
    (id : ℕ) (js : List Job) (j : Job) → find_job id js ≡ some j → j.source_id ≡ id
unfolding find_job
find_job-source_id id [] j h = cc
find_job-source_id id (x ∷ js) j h = ground (arith, find_job-source_id id js j)

pub length-put_job : (j : Job) (js : List Job) → length (put_job j js) ≡ length js
unfolding put_job
length-put_job j [] = refl
length-put_job j (x ∷ js) = ground (arith, length-put_job j js)

module _ (w : Job → ℕ) where
  pub sum-put_job :
      (j j' : Job) (js : List Job)
      → find_job j'.source_id js ≡ some j
      → sum w (put_job j' js) + w j ≡ sum w js + w j'
  unfolding find_job put_job
  sum-put_job j j' [] h = cc
  sum-put_job j j' (x ∷ js) h = ground (arith, sum-put_job j j' js)

  pub sum-delete_job :
      (id : ℕ) (j : Job) (js : List Job)
      → find_job id js ≡ some j
      → (sum w (delete_job id js) + w j ≡ sum w js) × (length js ≡ suc (length (delete_job id js)))
  unfolding find_job delete_job
  sum-delete_job id j [] h = cc
  sum-delete_job id j (x ∷ js) h = ground (arith, sum-delete_job id j js)

  pub le-sum-find_job :
      (id : ℕ) (j : Job) (js : List Job) → find_job id js ≡ some j → w j ≤ sum w js
  unfolding find_job
  le-sum-find_job id j [] h = cc
  le-sum-find_job id j (x ∷ js) h = ground (arith, le-sum-find_job id j js)

abbrev pub has_id : ℕ → Job → ℕ
has_id i j = if j.source_id == i then 1 else 0

pub find_job-none : (id : ℕ) (js : List Job) → find_job id js ≡ none → sum (has_id id) js ≡ 0
unfolding find_job
find_job-none id [] h = refl
find_job-none id (x ∷ js) h = ground (arith, find_job-none id js)

pub sum-take_turn :
    (w : Turn → ℕ) (i : ℕ) (ts : List Turn) (t : Turn) (others : List Turn)
    → take_turn i ts ≡ some (t, others)
    → (sum w ts ≡ w t + sum w others) × (length ts ≡ suc (length others))
unfolding take_turn
sum-take_turn w i [] t others h = cc
sum-take_turn w zero (x ∷ ts) t others h = ground arith
sum-take_turn w (suc i) (x ∷ ts) t others h = elim (Option-cases (take_turn i ts)) [
  | inl e ↦ ground arith
  | inr ((u, us), e) ↦ ground (arith, sum-take_turn w i ts u us e)
]

pub find_job-put_job :
    (j j' : Job) (js : List Job)
    → find_job j'.source_id js ≡ some j
    → find_job j'.source_id (put_job j' js) ≡ some j'
unfolding find_job put_job
find_job-put_job j j' [] h = cc
find_job-put_job j j' (x ∷ js) h = ground (arith, find_job-put_job j j' js)

pub find_job_self :
    (id : ℕ) (js : List Job) (j : Job) → find_job id js ≡ some j → find_job j.source_id js ≡ some j
find_job_self id js j h = subst (λ i. find_job i js ≡ some j) (sym (find_job-source_id id js j h)) h

pub take_at-length {ℓ} :
    {A : Type ℓ} (i : ℕ) (xs : List A) (x : A) (others : List A)
    → take_at i xs ≡ some (x, others)
    → length xs ≡ suc (length others)
unfolding take_at
take_at-length i [] x others h = cc
take_at-length zero (y ∷ ys) x others h = ground arith
take_at-length (suc i) (y ∷ ys) x others h = elim (Option-cases (take_at i ys)) [
  | inl e ↦ ground arith
  | inr ((u, us), e) ↦ ground (arith, take_at-length i ys u us e)
]

pub count-take_at :
    (n i : ℕ) (xs : List ℕ) (x : ℕ) (others : List ℕ)
    → take_at i xs ≡ some (x, others)
    → count n xs ≡ count n (x ∷ others)
unfolding take_at
count-take_at n i [] x others h = cc
count-take_at n zero (y ∷ ys) x others h = ground arith
count-take_at n (suc i) (y ∷ ys) x others h = elim (Option-cases (take_at i ys)) [
  | inl e ↦ ground arith
  | inr ((u, us), e) ↦ ground (arith, count-take_at n i ys u us e)
]
