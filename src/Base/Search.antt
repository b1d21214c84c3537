-- ===== src/Base/Search.antt =====
-- Finding a byte, and cutting a byte string there.
use Prim.Native.Nat.{ℕ, zero, suc, ◌<◌}
use mathlib.Core.Path.{◌≡◌, refl, ap}
use mathlib.Core.List.{[], ◌∷◌, ◌++◌}
use mathlib.Core.Option.{none, some}
use native.Mathlib.Omega.{arith}
use file_d.Base.Lists.{length, take, drop}
use file_d.Base.Text.{Bytes, index_byte}

pub index_byte-append :
    (xs ys : Bytes) (c : ℕ)
    → index_byte xs c ≡ none
    → index_byte ys c ≡ none
    → index_byte (xs ++ ys) c ≡ none
index_byte-append [] ys c h k = k
index_byte-append (x ∷ xs) ys c h k = ground (arith, index_byte-append xs ys c)

pub index_byte-found :
    (xs ys : Bytes) (c : ℕ)
    → index_byte xs c ≡ none
    → index_byte (xs ++ c ∷ ys) c ≡ some (length xs)
index_byte-found [] ys c h = ground arith
index_byte-found (x ∷ xs) ys c h = ground (arith, index_byte-found xs ys c)

pub take_prefix : (xs ys : Bytes) → take (length xs) (xs ++ ys) ≡ xs
take_prefix [] ys = refl
take_prefix (x ∷ xs) ys = ap (◌∷◌ x) (take_prefix xs ys)

pub drop_prefix : (xs ys : Bytes) → drop (length xs) (xs ++ ys) ≡ ys
drop_prefix [] ys = refl
drop_prefix (x ∷ xs) ys = drop_prefix xs ys

pub drop_past : (xs ys : Bytes) (c : ℕ) → drop (suc (length xs)) (xs ++ c ∷ ys) ≡ ys
drop_past [] ys c = refl
drop_past (x ∷ xs) ys c = drop_past xs ys c

pub index_byte-lt : (xs : Bytes) (c i : ℕ) → index_byte xs c ≡ some i → i < length xs
index_byte-lt [] c i h = cc
index_byte-lt (x ∷ xs) c zero h = omega arith
index_byte-lt (x ∷ xs) c (suc i) h = ground (arith, index_byte-lt xs c i)

pub index_byte-split :
    (xs : Bytes) (c i : ℕ) → index_byte xs c ≡ some i → xs ≡ take i xs ++ c ∷ drop (suc i) xs
index_byte-split [] c i h = cc
index_byte-split (x ∷ xs) c zero h = ground arith
index_byte-split (x ∷ xs) c (suc i) h = ground (arith, index_byte-split xs c i)
