-- ===== src/MatchRule/Sizes.antt =====
-- The sizes that `Prepare` of cfg/matchrule/matchrule.go keeps, and the part of the data that they
-- cut out.
use file_d.Base.{
  ℕ, zero, suc, ◌+◌, ◌-◌, ◌≤◌, ◌≡◌, refl, ap, ◌∙◌, Bytes, true, List, [], ◌∷◌, map, arith, length,
  take, drop, length-take, length-drop, ltb, if◌then◌else◌, All,
}
use file_d.MatchRule.{
  Mode, prefix, contains, suffix, Rule, max_size, min_size, lowered, prepare, cut, equals_any,
}

-- Every value lies between the two sizes.
abbrev pub IsSized : ℕ → ℕ → List Bytes → Type 0
IsSized lo hi = All (λ (v : Bytes). (lo ≤ length v) × (length v ≤ hi))

max_size-le : (n : ℕ) (vs : List Bytes) → n ≤ max_size n vs
unfolding max_size
max_size-le n [] = omega arith
max_size-le n (v ∷ vs) = ground (arith, max_size-le (if ltb n (length v) then length v else n) vs)

min_size-le : (n : ℕ) (vs : List Bytes) → min_size n vs ≤ n
unfolding min_size
min_size-le n [] = omega arith
min_size-le n (v ∷ vs) = ground (arith, min_size-le (if ltb (length v) n then length v else n) vs)

sizes-IsSized : (lo hi : ℕ) (vs : List Bytes) → IsSized (min_size lo vs) (max_size hi vs) vs
unfolding min_size max_size
sizes-IsSized lo hi [] = tt
sizes-IsSized lo hi (v ∷ vs) =
    let lo' = if ltb (length v) lo then length v else lo in
    let hi' = if ltb hi (length v) then length v else hi in
    (
      (ground (arith, min_size-le lo' vs), ground (arith, max_size-le hi' vs)),
      sizes-IsSized lo' hi' vs,
    )

-- A rule with values is prepared, and its sizes are bounds of them.
pub prepare-IsSized :
    (lower : Bytes → Bytes) (r : Rule) (v : Bytes) (vs : List Bytes)
    → r.values ≡ v ∷ vs
    → let p = prepare lower r in
      (p.prepared ≡ true)
      × (p.values ≡ map (lowered lower r) r.values)
      × IsSized p.min_value_size p.max_value_size p.values
unfolding prepare
prepare-IsSized lower r v vs e =
    rw (e, prepare)
      (refl, refl, sizes-IsSized (length v) (length v) (map (lowered lower r) (v ∷ vs)))

take-take {ℓ} : {A : Type ℓ} (n m : ℕ) (d : List A) → n ≤ m → take n (take m d) ≡ take n d
take-take zero m d h = refl
take-take (suc n) zero d h = absurd (omega arith)
take-take (suc n) (suc m) [] h = refl
take-take (suc n) (suc m) (x ∷ d) h = ap (◌∷◌ x) (take-take n m d (omega arith))

drop-drop {ℓ} : {A : Type ℓ} (n m : ℕ) (d : List A) → drop n (drop m d) ≡ drop (m + n) d
drop-drop n zero d = let k : 0 + n ≡ n = omega arith in rw k
drop-drop zero (suc m) [] = let k : suc m + 0 ≡ suc m = omega arith in rw k
drop-drop (suc n) (suc m) [] = let k : suc m + suc n ≡ suc (m + suc n) = omega arith in rw k
drop-drop n (suc m) (x ∷ d) =
    let k : suc m + n ≡ suc (m + n) = omega arith in rw k (drop-drop n m d)

pub length-cut : (mode : Mode) (n : ℕ) (d : Bytes) → n ≤ length d → length (cut mode n d) ≡ n
length-cut prefix n d h = omega (arith, length-take n d)
length-cut contains n d h = omega (arith, length-take n d)
length-cut suffix n d h = omega (arith, length-drop (length d - n) d)

-- A shorter part of a part is a part of the whole.
pub cut-cut :
    (mode : Mode) (n m : ℕ) (d : Bytes)
    → n ≤ m
    → m ≤ length d
    → cut mode n (cut mode m d) ≡ cut mode n d
cut-cut prefix n m d h k = take-take n m d h
cut-cut contains n m d h k = take-take n m d h
cut-cut suffix n m d h k =
    drop-drop (length (drop (length d - m) d) - n) (length d - m) d
    ∙ ap (λ i. drop i d) (omega (arith, length-drop (length d - m) d))

pub equals_any-cut :
    (mode : Mode) (lo m : ℕ) (d : Bytes) (vs : List Bytes)
    → IsSized lo m vs
    → m ≤ length d
    → equals_any mode (cut mode m d) vs ≡ equals_any mode d vs
unfolding equals_any
equals_any-cut mode lo m d [] s h = refl
equals_any-cut mode lo m d (v ∷ vs) s h = ground (
  arith,
  length-cut mode m d h,
  cut-cut mode (length v) m d s.0.1 h,
  equals_any-cut mode lo m d vs s.1 h,
)
