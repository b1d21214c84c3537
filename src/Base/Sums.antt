-- ===== src/Base/Sums.antt =====
-- Sums of a weight over a list, and predicates on lists of which one entry changes.
use Prim.Native.Nat.{ℕ, zero, suc, ◌+◌, ◌≤◌}
use mathlib.Core.Path.{◌≡◌, refl, subst}
use mathlib.Core.Option.{some}
use mathlib.Core.List.{List, [], ◌∷◌, map}
use native.Mathlib.Omega.{arith}
use file_d.Base.Lists.{get_elem?, set, replicate, All}

module _ {ℓ} {A : Type ℓ} (w : A → ℕ) where
  abbrev pub sum : List A → ℕ
  sum [] = 0
  sum (o ∷ os) = w o + sum os

  pub sum-set :
      (os : List A) (g : ℕ) (o o' : A)
      → get_elem? os g ≡ some o
      → sum (set os g o') + w o ≡ sum os + w o'
  sum-set [] g o o' h = cc
  sum-set (x ∷ os) zero o o' h = ground arith
  sum-set (x ∷ os) (suc g) o o' h = omega (arith, sum-set os g o o' h)

  pub le-sum : (os : List A) (g : ℕ) (o : A) → get_elem? os g ≡ some o → w o ≤ sum os
  le-sum [] g o h = cc
  le-sum (x ∷ os) zero o h = ground arith
  le-sum (x ∷ os) (suc g) o h = omega (arith, le-sum os g o h)

  pub sum-map : (f : A → A) → ((o : A) → w (f o) ≡ w o) → (os : List A) → sum (map f os) ≡ sum os
  sum-map f same [] = refl
  sum-map f same (o ∷ os) = omega (arith, same o, sum-map f same os)

  pub sum-replicate : (n : ℕ) (o : A) → w o ≡ 0 → sum (replicate n o) ≡ 0
  sum-replicate zero o h = refl
  sum-replicate (suc n) o h = omega (arith, sum-replicate n o h)

pub sum_add {ℓ} :
    {A : Type ℓ} (w v u : A → ℕ)
    → ((o : A) → w o + v o ≡ u o)
    → (os : List A) → sum w os + sum v os ≡ sum u os
sum_add w v u h [] = omega arith
sum_add w v u h (o ∷ os) = omega (arith, h o, sum_add w v u h os)

-- A predicate that every goroutine meets, when one of them moves.
module _ {A : Type 0} (P : A → Type 0) where
  pub All-get : (os : List A) (g : ℕ) (o : A) → get_elem? os g ≡ some o → All P os → P o
  All-get [] g o h of_os = cc
  All-get (x ∷ os) zero o h (of_x, of_os) = let e : x ≡ o = cc in subst P e of_x
  All-get (x ∷ os) (suc g) o h (of_x, of_os) = All-get os g o h of_os

  pub All-set : (os : List A) (g : ℕ) (o : A) → P o → All P os → All P (set os g o)
  All-set [] g o of_o of_os = tt
  All-set (x ∷ os) zero o of_o (of_x, of_os) = (of_o, of_os)
  All-set (x ∷ os) (suc g) o of_o (of_x, of_os) = (of_x, All-set os g o of_o of_os)

  pub All-replicate : (n : ℕ) (o : A) → P o → All P (replicate n o)
  All-replicate zero o h = tt
  All-replicate (suc n) o h = (h, All-replicate n o h)

  pub All-of-map :
      (f : A → A) → ((o : A) → P o → P (f o)) → (os : List A) → All P os → All P (map f os)
  All-of-map f keeps [] of_os = tt
  All-of-map f keeps (o ∷ os) (of_o, of_os) = (keeps o of_o, All-of-map f keeps os of_os)

-- When one goroutine alone has a weight, the others keep what those without it keep.
module _ {A : Type 0} (w : A → ℕ) (P Q : A → Type 0) (keeps : (o : A) → w o ≡ 0 → P o → Q o) where
  All-weightless : (os : List A) → sum w os ≡ 0 → All P os → All Q os
  All-weightless [] h of_os = tt
  All-weightless (o ∷ os) h (of_o, of_os) =
      (keeps o (omega arith) of_o, All-weightless os (omega arith) of_os)

  pub All-alone :
      (os : List A) (g : ℕ) (o o' : A)
      → get_elem? os g ≡ some o
      → sum w os ≡ w o
      → Q o'
      → All P os
      → All Q (set os g o')
  All-alone [] g o o' h alone of_o of_os = tt
  All-alone (x ∷ os) zero o o' h alone of_o (of_x, of_os) =
      (of_o, All-weightless os (ground arith) of_os)
  All-alone (x ∷ os) (suc g) o o' h alone of_o (of_x, of_os) =
      let here = le-sum w os g o h in
      (keeps x (omega arith) of_x, All-alone os g o o' h (omega arith) of_o of_os)
