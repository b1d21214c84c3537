-- ===== src/Throttle/Window.antt =====
-- How the window of buckets moves with the clock.
use file_d.Base.{
  ℕ, zero, suc, ◌+◌, ◌-◌, ◌≤◌, ◌<◌, ◌≡◌, refl, sym, ◌∙◌, ap, subst, some, List, [], ◌∷◌, ◌++◌,
  arith, length, drop, replicate, get_elem?, set, ltb, ◌==◌, if◌then◌else◌, if_true, if_false,
  Bool-cases, inl, inr, length-append, length-drop,
}
use file_d.Throttle.{Limiter, shift_buckets}

-- The bucket at `i`, with no events where there is none.
abbrev pub at : List ℕ → ℕ → ℕ
at [] i = 0
at (x ∷ xs) zero = x
at (x ∷ xs) (suc i) = at xs i

pub get_elem?-at : (xs : List ℕ) (i : ℕ) → i < length xs → get_elem? xs i ≡ some (at xs i)
get_elem?-at [] i h = elim h [ ]
get_elem?-at (x ∷ xs) zero h = refl
get_elem?-at (x ∷ xs) (suc i) h = get_elem?-at xs i (omega arith)

at-beyond : (xs : List ℕ) (i : ℕ) → length xs ≤ i → at xs i ≡ 0
at-beyond [] i h = refl
at-beyond (x ∷ xs) zero h = elim h [ ]
at-beyond (x ∷ xs) (suc i) h = at-beyond xs i (omega arith)

at-drop : (n : ℕ) (xs : List ℕ) (i : ℕ) → at (drop n xs) i ≡ at xs (i + n)
at-drop zero xs i = ap (at xs) (omega arith)
at-drop (suc n) [] i = refl
at-drop (suc n) (x ∷ xs) i = let e : i + suc n ≡ suc (i + n) = omega arith in rw e (at-drop n xs i)

pub at-replicate : (n i : ℕ) → at (replicate n 0) i ≡ 0
at-replicate zero i = refl
at-replicate (suc n) zero = refl
at-replicate (suc n) (suc i) = at-replicate n i

at-append_zeros : (xs : List ℕ) (n i : ℕ) → at (xs ++ replicate n 0) i ≡ at xs i
at-append_zeros [] n i = at-replicate n i
at-append_zeros (x ∷ xs) n zero = refl
at-append_zeros (x ∷ xs) n (suc i) = at-append_zeros xs n i

pub at-set :
    (xs : List ℕ) (i v j : ℕ) → i < length xs → at (set xs i v) j ≡ (if j == i then v else at xs j)
at-set [] i v j h = elim h [ ]
at-set (x ∷ xs) zero v zero h = ground arith
at-set (x ∷ xs) zero v (suc j) h = ground arith
at-set (x ∷ xs) (suc i) v zero h = ground arith
at-set (x ∷ xs) (suc i) v (suc j) h = ground (arith, at-set xs i v j)

pub length-replicate : (n : ℕ) → length {A = ℕ} (replicate n 0) ≡ n
length-replicate zero = refl
length-replicate (suc n) = ap suc (length-replicate n)

-- The bucket with number `id`.
abbrev pub bucket : Limiter → ℕ → ℕ
bucket l id = at l.buckets (id - l.min_id)

-- The window is as wide as the limiter's bucket count, and set by the clock.
abbrev pub IsWindow : Limiter → Type 0
IsWindow l =
    (0 < l.bucket_count)
    × (length l.buckets ≡ l.bucket_count)
    × (l.max_id + 1 ≡ l.min_id + l.bucket_count)

-- The later of two intervals.
abbrev pub later : ℕ → ℕ → ℕ
later a b = if ltb a b then b else a

-- A shift keeps the counts of the buckets that stay; new buckets are empty.
pub record Shifts (current_id : ℕ) (l t : Limiter) : Type 0 where
  pub window : IsWindow t
  pub latest : t.max_id ≡ later l.max_id current_id
  pub first : l.min_id ≤ t.min_id
  pub kept : (id : ℕ) → t.min_id ≤ id → bucket t id ≡ bucket l id
  pub width : t.bucket_count ≡ l.bucket_count
  pub scale : t.interval ≡ l.interval
  pub value : t.limit_value ≡ l.limit_value
  pub kind : t.limit_kind ≡ l.limit_kind

abbrev moved : ℕ → ℕ → Limiter → Limiter
moved current_id n l = record l {
  buckets = drop n (l.buckets ++ replicate n 0);
  min_id = l.min_id + n;
  max_id = current_id;
}

moved-Shifts :
    (current_id n : ℕ) (l : Limiter)
    → IsWindow l
    → l.max_id + n ≡ current_id
    → 0 < n
    → Shifts current_id l (moved current_id n l)
moved-Shifts current_id n l (wide, len, last) h some_new = record {
  window = (
    wide,
    omega (
      arith,
      length-drop n (l.buckets ++ replicate n 0),
      length-append l.buckets (replicate n 0),
      length-replicate n,
    ),
    omega arith,
  );
  latest = ground arith;
  first = omega arith;
  kept = λ id le.
      let e : id - (l.min_id + n) + n ≡ id - l.min_id = omega arith in
      at-drop n (l.buckets ++ replicate n 0) (id - (l.min_id + n))
      ∙ ap (at (l.buckets ++ replicate n 0)) e
      ∙ at-append_zeros l.buckets n (id - l.min_id);
  width = refl;
  scale = refl;
  value = refl;
  kind = refl;
}

pub shift_buckets-Shifts :
    (current_id : ℕ) (l : Limiter) → IsWindow l → Shifts current_id l (shift_buckets current_id l)
unfolding shift_buckets
shift_buckets-Shifts current_id l (wide, len, last) =
    elim (Bool-cases (ltb (l.min_id + length l.buckets - 1) current_id)) [
      | inl e ↦ subst (Shifts current_id l) (sym (if_true _ _ e)) (
          moved-Shifts current_id (current_id - (l.min_id + length l.buckets - 1)) l
            (wide, len, last) (ground arith) (ground arith))
      | inr e ↦ subst (Shifts current_id l) (sym (if_false _ _ e)) (record {
        window = (wide, len, last);
        latest = ground arith;
        first = omega arith;
        kept = λ id le. refl;
        width = refl;
        scale = refl;
        value = refl;
        kind = refl;
      })
    ]
