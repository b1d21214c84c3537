-- ===== src/MatchRule/Values.antt =====
-- The comparisons of cfg/matchrule/matchrule.go against what a prefix, a suffix and a part are.
use file_d.Base.{
  ◌-◌, ◌≤◌, ◌≡◌, ◌↔◌, ◌⊎◌, refl, sym, ap, ◌∙◌, inl, inr, Bytes, bytes_eq, bytes_eq_iff, Bool, true,
  not, ◌&&◌, List, [], ◌∷◌, ◌++◌, arith, length, length-append, take, drop, take-append-drop, ltb,
  Bool-cases,
}
use file_d.MatchRule.{Mode, prefix, contains, suffix, has_prefix, has_part, cut}

-- What a mode asks of a value `v` and the data `d`.
abbrev pub Matches : Mode → Bytes → Bytes → Type 0
Matches prefix d v = (rest : Bytes) × (d ≡ v ++ rest)
Matches suffix d v = (front : Bytes) × (d ≡ front ++ v)
Matches contains d v = (front : Bytes) × (rest : Bytes) × (d ≡ front ++ (v ++ rest))

abbrev pub AnyOf : (Bytes → Type 0) → List Bytes → Type 0
AnyOf P [] = ⊥
AnyOf P (v ∷ vs) = P v ⊎ AnyOf P vs

pub Matches-length : (mode : Mode) (d v : Bytes) → Matches mode d v → length v ≤ length d
Matches-length prefix d v (rest, e) = omega (arith, ap length e, length-append v rest)
Matches-length suffix d v (front, e) = omega (arith, ap length e, length-append front v)
Matches-length contains d v (front, rest, e) =
    omega (arith, ap length e, length-append front (v ++ rest), length-append v rest)

has_prefix_lem : (d v : Bytes) → has_prefix d v ≡ true → Matches prefix d v
has_prefix_lem d [] h = (d, refl)
has_prefix_lem [] (v ∷ vs) h = cc
has_prefix_lem (x ∷ d) (v ∷ vs) h =
    let (rest, e) = has_prefix_lem d vs (ground arith) in (rest, ground arith)

has_prefix_append : (v rest : Bytes) → has_prefix (v ++ rest) v ≡ true
has_prefix_append [] rest = refl
has_prefix_append (x ∷ v) rest = ground (arith, has_prefix_append v rest)

has_part_lem : (d v : Bytes) → has_part d v ≡ true → Matches contains d v
has_part_lem [] [] h = ([], [], refl)
has_part_lem [] (v ∷ vs) h = cc
has_part_lem (x ∷ d) v h = elim (Bool-cases (has_prefix (x ∷ d) v)) [
  | inl e ↦ let (rest, q) = has_prefix_lem (x ∷ d) v e in ([], rest, q)
  | inr e ↦
      let (front, rest, q) = has_part_lem d v (ground arith) in (x ∷ front, rest, ap (◌∷◌ x) q)
]

has_part_append : (front v rest : Bytes) → has_part (front ++ (v ++ rest)) v ≡ true
has_part_append [] [] [] = refl
has_part_append [] [] (x ∷ rest) = refl
has_part_append [] (x ∷ v) rest = ground (arith, has_prefix_append (x ∷ v) rest)
has_part_append (x ∷ front) v rest = ground (arith, has_part_append front v rest)

pub has_part_iff : (d v : Bytes) → (has_part d v ≡ true) ↔ Matches contains d v
has_part_iff d v = (has_part_lem d v, λ (front, rest, e). rw e (has_part_append front v rest))

take-length-append : (v rest : Bytes) → take (length v) (v ++ rest) ≡ v
take-length-append [] rest = refl
take-length-append (x ∷ v) rest = ap (◌∷◌ x) (take-length-append v rest)

drop-length-append : (front v : Bytes) → drop (length front) (front ++ v) ≡ v
drop-length-append [] v = refl
drop-length-append (x ∷ front) v = drop-length-append front v

-- A comparison of the whole data in one of the two other modes.
abbrev pub equals : Mode → Bytes → Bytes → Bool
equals mode d v = not (ltb (length d) (length v)) && bytes_eq (cut mode (length v) d) v

pub equals_prefix_iff : (d v : Bytes) → (equals prefix d v ≡ true) ↔ Matches prefix d v
equals_prefix_iff d v = (
  λ h. (
    drop (length v) d,
    sym (take-append-drop (length v) d)
        ∙ ap (λ t. t ++ drop (length v) d) ((bytes_eq_iff _ v).0 (ground arith)),
  ),
  λ (rest, e).
      let same = (bytes_eq_iff (take (length v) (v ++ rest)) v).1 (take-length-append v rest) in
      rw e (ground (arith, same, length-append v rest)),
)

pub equals_suffix_iff : (d v : Bytes) → (equals suffix d v ≡ true) ↔ Matches suffix d v
equals_suffix_iff d v = (
  λ h. (
    take (length d - length v) d,
    sym (take-append-drop (length d - length v) d)
        ∙ ap (λ t. take (length d - length v) d ++ t) ((bytes_eq_iff _ v).0 (ground arith)),
  ),
  λ (front, e).
      let at : length (front ++ v) - length v ≡ length front =
        omega (arith, length-append front v) in
      let same =
        (bytes_eq_iff (drop (length (front ++ v) - length v) (front ++ v)) v).1
          (rw at (drop-length-append front v)) in
      rw e (ground (arith, same, length-append front v)),
)
