-- ===== src/Base/Lists.antt =====
-- Lists measured and indexed by native numbers, under the library's names, and predicates on them.
use Prim.Native.Nat.{ℕ, zero, suc, ◌+◌, ◌-◌, ◌<◌, min}
use mathlib.Core.Path.{◌≡◌, refl, ap}
use mathlib.Core.Logic.{◌≢◌, ◌⊎◌, inl, inr}
use mathlib.Core.List.{List, [], ◌∷◌, ◌++◌}
use mathlib.Core.Option.{Option, none, some}
use native.Mathlib.Omega.{arith}

module _ {ℓ} {A : Type ℓ} where
  abbrev pub length : List A → ℕ
  length [] = 0
  length (x ∷ xs) = suc (length xs)

  abbrev pub get_elem? : List A → ℕ → Option A
  get_elem? [] i = none
  get_elem? (x ∷ xs) zero = some x
  get_elem? (x ∷ xs) (suc i) = get_elem? xs i

  -- A write out of bounds changes nothing.
  abbrev pub set : List A → ℕ → A → List A
  set [] i v = []
  set (x ∷ xs) zero v = v ∷ xs
  set (x ∷ xs) (suc i) v = x ∷ set xs i v

  abbrev pub take : ℕ → List A → List A
  take zero xs = []
  take (suc n) [] = []
  take (suc n) (x ∷ xs) = x ∷ take n xs

  abbrev pub drop : ℕ → List A → List A
  drop zero xs = xs
  drop (suc n) [] = []
  drop (suc n) (x ∷ xs) = drop n xs

  abbrev pub replicate : ℕ → A → List A
  replicate zero a = []
  replicate (suc n) a = a ∷ replicate n a

  pub length-append : (xs ys : List A) → length (xs ++ ys) ≡ length xs + length ys
  length-append [] ys = omega arith
  length-append (x ∷ xs) ys = omega (arith, length-append xs ys)

  pub take-append-drop : (n : ℕ) (xs : List A) → take n xs ++ drop n xs ≡ xs
  take-append-drop zero xs = refl
  take-append-drop (suc n) [] = refl
  take-append-drop (suc n) (x ∷ xs) = ap (◌∷◌ x) (take-append-drop n xs)

  pub length-take : (n : ℕ) (xs : List A) → length (take n xs) ≡ min n (length xs)
  length-take zero xs = omega arith
  length-take (suc n) [] = omega arith
  length-take (suc n) (x ∷ xs) = omega (arith, length-take n xs)

  pub length-drop : (n : ℕ) (xs : List A) → length (drop n xs) ≡ length xs - n
  length-drop zero xs = omega arith
  length-drop (suc n) [] = omega arith
  length-drop (suc n) (x ∷ xs) = omega (arith, length-drop n xs)

  pub length-set : (xs : List A) (i : ℕ) (v : A) → length (set xs i v) ≡ length xs
  length-set [] i v = refl
  length-set (x ∷ xs) zero v = refl
  length-set (x ∷ xs) (suc i) v = ap suc (length-set xs i v)

  pub get_elem?-lt : (xs : List A) (i : ℕ) (a : A) → get_elem? xs i ≡ some a → i < length xs
  get_elem?-lt [] i a h = cc
  get_elem?-lt (x ∷ xs) zero a h = omega arith
  get_elem?-lt (x ∷ xs) (suc i) a h = omega (arith, get_elem?-lt xs i a h)

  pub get_elem?-append_left :
      (xs ys : List A) (i : ℕ) (a : A) → get_elem? xs i ≡ some a → get_elem? (xs ++ ys) i ≡ some a
  get_elem?-append_left [] ys i a h = cc
  get_elem?-append_left (x ∷ xs) ys zero a h = h
  get_elem?-append_left (x ∷ xs) ys (suc i) a h = get_elem?-append_left xs ys i a h

  pub get_elem?-append_last : (xs : List A) (a : A) → get_elem? (xs ++ a ∷ []) (length xs) ≡ some a
  get_elem?-append_last [] a = refl
  get_elem?-append_last (x ∷ xs) a = get_elem?-append_last xs a

  -- What stands in a list with one more entry.
  pub get_elem?-snoc :
      (xs : List A) (a : A) (i : ℕ) (b : A)
      → get_elem? (xs ++ a ∷ []) i ≡ some b
      → (get_elem? xs i ≡ some b) ⊎ ((i ≡ length xs) × (a ≡ b))
  get_elem?-snoc [] a zero b h = inr (refl, cc)
  get_elem?-snoc [] a (suc i) b h = cc
  get_elem?-snoc (x ∷ xs) a zero b h = inl h
  get_elem?-snoc (x ∷ xs) a (suc i) b h = elim (get_elem?-snoc xs a i b h) [
    | inl e ↦ inl e
    | inr (e, f) ↦ inr (ap suc e, f)
  ]

  pub get_elem?-set :
      (xs : List A) (k : ℕ) (v : A) (i : ℕ) (a : A)
      → get_elem? (set xs k v) i ≡ some a
      → ((i ≡ k) × (v ≡ a) × (k < length xs)) ⊎ ((i ≢ k) × (get_elem? xs i ≡ some a))
  get_elem?-set [] k v i a h = cc
  get_elem?-set (x ∷ xs) zero v zero a h = inl (refl, cc, omega arith)
  get_elem?-set (x ∷ xs) zero v (suc i) a h = inr (omega arith, h)
  get_elem?-set (x ∷ xs) (suc k) v zero a h = inr (omega arith, h)
  get_elem?-set (x ∷ xs) (suc k) v (suc i) a h = elim (get_elem?-set xs k v i a h) [
    | inl (e, f, l) ↦ inl (ap suc e, f, omega arith)
    | inr (e, f) ↦ inr (omega arith, f)
  ]

  -- The last entry, and what stands before it.
  unfoldable pub pop_last : List A → Option (List A × A)
  pop_last [] = none
  pop_last (x ∷ xs) = elim (pop_last xs) [ none ↦ some ([], x) | some (ys, y) ↦ some (x ∷ ys, y) ]

  abbrev pub Pops : List A → Option (List A × A) → Type ℓ
  Pops xs r =
      ((xs ≡ []) × (r ≡ none))
      ⊎ ((ys : List A) × (y : A) × (xs ≡ ys ++ y ∷ []) × (r ≡ some (ys, y)))

  pub pop_last-Pops : (xs : List A) → Pops xs (pop_last xs)
  unfolding pop_last
  pop_last-Pops [] = inl (refl, refl)
  pop_last-Pops (x ∷ xs) = elim (pop_last-Pops xs) [
    | inl (e, r) ↦ inr ([], x, ap (◌∷◌ x) e, rw (r, pop_last))
    | inr (ys, y, e, r) ↦ inr (x ∷ ys, y, ap (◌∷◌ x) e, rw (r, pop_last))
  ]

-- A predicate by recursion computes to tuples, which the tactics read and build.
module _ {ℓ κ} {A : Type ℓ} where
  abbrev pub All : (A → Type κ) → List A → Type κ
  All P [] = Unit
  All P (x ∷ xs) = P x × All P xs

  pub All-append : (P : A → Type κ) (xs ys : List A) → All P xs → All P ys → All P (xs ++ ys)
  All-append P [] ys of_xs of_ys = of_ys
  All-append P (x ∷ xs) ys (of_x, of_xs) of_ys = (of_x, All-append P xs ys of_xs of_ys)

  pub All-map : (P Q : A → Type κ) → ((a : A) → P a → Q a) → (xs : List A) → All P xs → All Q xs
  All-map P Q f [] of_xs = tt
  All-map P Q f (x ∷ xs) (of_x, of_xs) = (f x of_x, All-map P Q f xs of_xs)
