-- ===== src/MatchRule/Sound.antt =====
-- What a rule of cfg/matchrule/matchrule.go answers.
use file_d.Base.{
  ℕ, zero, suc, ◌+◌, ◌-◌, ◌<◌, leb, All, ◌≡◌, ◌↔◌, refl, sym, subst, subst₂, ap, ◌∙◌, inl, inr,
  Bytes, Bool, true, false, not, ◌&&◌, List, [], ◌∷◌, map, arith, length, take, drop, ltb,
  if◌then◌else◌, Bool-cases, ok, err, if_true, if_false, Result, List-cases,
}
use file_d.MatchRule.{
  Mode, prefix, contains, suffix, Rule, Panic, must_be_prepared, lowered, prepare, cut, has_part,
  contains_any, equals_any, match_values, match, is_contains,
}
use file_d.MatchRule.Values.{
  Matches, AnyOf, Matches-length, has_part_iff, equals, equals_prefix_iff, equals_suffix_iff,
}
use file_d.MatchRule.Sizes.{IsSized, prepare-IsSized, equals_any-cut}

contains_any_iff :
    (d : Bytes) (vs : List Bytes) → (contains_any d vs ≡ true) ↔ AnyOf (Matches contains d) vs
unfolding contains_any
contains_any_iff d [] = (λ h. cc, λ h. absurd h)
contains_any_iff d (v ∷ vs) = (
  λ h. elim (Bool-cases (not (ltb (length d) (length v)) && has_part d v)) [
    | inl e ↦ inl ((has_part_iff d v).0 (ground arith))
    | inr e ↦ inr ((contains_any_iff d vs).0 (ground arith))
  ],
  λ h. elim h [
    | inl m ↦ ground (arith, (has_part_iff d v).1 m, Matches-length contains d v m)
    | inr m ↦ ground (arith, (contains_any_iff d vs).1 m)
  ],
)

-- One comparison decides the two other modes.
equals_iff :
    (mode : Mode) (d v : Bytes)
    → is_contains mode ≡ false
    → (equals mode d v ≡ true) ↔ Matches mode d v
equals_iff prefix d v h = equals_prefix_iff d v
equals_iff suffix d v h = equals_suffix_iff d v
equals_iff contains d v h = absurd (ground arith)

equals_any_iff :
    (mode : Mode) (d : Bytes) (vs : List Bytes)
    → is_contains mode ≡ false
    → (equals_any mode d vs ≡ true) ↔ AnyOf (Matches mode d) vs
unfolding equals_any
equals_any_iff mode d [] h = (λ k. cc, λ k. absurd k)
equals_any_iff mode d (v ∷ vs) h = (
  λ k. elim (Bool-cases (equals mode d v)) [
    | inl e ↦ inl ((equals_iff mode d v h).0 e)
    | inr e ↦ inr ((equals_any_iff mode d vs h).0 (ground arith))
  ],
  λ k. elim k [
    | inl m ↦ ground (arith, (equals_iff mode d v h).1 m)
    | inr m ↦ ground (arith, (equals_any_iff mode d vs h).1 m)
  ],
)

-- Data below the least size match no value.
too_short :
    (mode : Mode) (lo hi : ℕ) (d : Bytes) (vs : List Bytes)
    → IsSized lo hi vs
    → length d < lo
    → ¬ AnyOf (Matches mode d) vs
too_short mode lo hi d [] s h k = k
too_short mode lo hi d (v ∷ vs) s h (inl m) = omega (arith, Matches-length mode d v m)
too_short mode lo hi d (v ∷ vs) s h (inr m) = too_short mode lo hi d vs s.1 h m

-- What `bytes.ToLower` and `strings.ToLower` do to ASCII texts, which are all that is asked of them.
abbrev pub lower_letter : ℕ → ℕ
lower_letter c = if leb b'A' c && leb c b'Z' then c + 32 else c

abbrev pub IsAscii : Bytes → Type 0
IsAscii = All λ (c : ℕ). c < 128

abbrev pub LowersAscii : (Bytes → Bytes) → Type 0
LowersAscii lower = (d : Bytes) → IsAscii d → lower d ≡ map lower_letter d

take-IsAscii : (n : ℕ) (d : Bytes) → IsAscii d → IsAscii (take n d)
take-IsAscii zero d h = tt
take-IsAscii (suc n) [] h = tt
take-IsAscii (suc n) (x ∷ d) (of_x, of_d) = (of_x, take-IsAscii n d of_d)

drop-IsAscii : (n : ℕ) (d : Bytes) → IsAscii d → IsAscii (drop n d)
drop-IsAscii zero d h = h
drop-IsAscii (suc n) [] h = tt
drop-IsAscii (suc n) (x ∷ d) (of_x, of_d) = drop-IsAscii n d of_d

cut-IsAscii : (mode : Mode) (n : ℕ) (d : Bytes) → IsAscii d → IsAscii (cut mode n d)
cut-IsAscii prefix n d h = take-IsAscii n d h
cut-IsAscii contains n d h = take-IsAscii n d h
cut-IsAscii suffix n d h = drop-IsAscii (length d - n) d h

length-map : (f : ℕ → ℕ) (d : Bytes) → length (map f d) ≡ length d
length-map f [] = refl
length-map f (x ∷ d) = ap suc (length-map f d)

take-map : (f : ℕ → ℕ) (n : ℕ) (d : Bytes) → take n (map f d) ≡ map f (take n d)
take-map f zero d = refl
take-map f (suc n) [] = refl
take-map f (suc n) (x ∷ d) = ap (◌∷◌ (f x)) (take-map f n d)

drop-map : (f : ℕ → ℕ) (n : ℕ) (d : Bytes) → drop n (map f d) ≡ map f (drop n d)
drop-map f zero d = refl
drop-map f (suc n) [] = refl
drop-map f (suc n) (x ∷ d) = drop-map f n d

cut-map :
    (f : ℕ → ℕ) (mode : Mode) (n : ℕ) (d : Bytes) → cut mode n (map f d) ≡ map f (cut mode n d)
cut-map f prefix n d = take-map f n d
cut-map f contains n d = take-map f n d
cut-map f suffix n d = rw (length-map f d) (drop-map f (length d - n) d)

map-id : (d : Bytes) → d ≡ map (λ x. x) d
map-id [] = refl
map-id (x ∷ d) = ap (◌∷◌ x) (map-id d)

is_contains_lem : (mode : Mode) → is_contains mode ≡ true → mode ≡ contains
is_contains_lem contains h = refl
is_contains_lem prefix h = cc
is_contains_lem suffix h = cc

-- What is lowered is an ASCII text; without `case_insensitive` nothing is.
abbrev pub IsLowerable : Rule → Bytes → Type 0
IsLowerable r d = r.case_insensitive ≡ true → IsAscii d

abbrev letter_of : Rule → ℕ → ℕ
letter_of r c = if r.case_insensitive then lower_letter c else c

module _ (lower : Bytes → Bytes) (lowers : LowersAscii lower) where
  lowered-map : (r : Rule) (d : Bytes) → IsLowerable r d → lowered lower r d ≡ map (letter_of r) d
  lowered-map r d ascii = elim (Bool-cases r.case_insensitive) [
    | inl e ↦ rw e (lowers d (ascii e))
    | inr e ↦ rw e (map-id d)
  ]

  length-lowered : (r : Rule) (d : Bytes) → IsLowerable r d → length (lowered lower r d) ≡ length d
  length-lowered r d ascii = ap length (lowered-map r d ascii) ∙ length-map (letter_of r) d

  lowered-cut :
      (r : Rule) (n : ℕ) (d : Bytes)
      → IsLowerable r d
      → lowered lower r (cut r.mode n d) ≡ cut r.mode n (lowered lower r d)
  lowered-cut r n d ascii =
      lowered-map r (cut r.mode n d) (λ e. cut-IsAscii r.mode n d (ascii e))
      ∙ sym (ap (cut r.mode n) (lowered-map r d ascii) ∙ cut-map (letter_of r) r.mode n d)

  -- The cut to the greatest size changes no answer.
  compared :
      (r : Rule) (raw : Bytes)
      → IsLowerable r raw
      → IsSized r.min_value_size r.max_value_size r.values
      → equals_any r.mode
          (lowered lower r
            (if ltb (length raw) r.max_value_size then raw else cut r.mode r.max_value_size raw))
          r.values
        ≡ equals_any r.mode (lowered lower r raw) r.values
  compared r raw ascii s = elim (Bool-cases (ltb (length raw) r.max_value_size)) [
    | inl e ↦ rw e
    | inr e ↦ rw (
      e,
      lowered-cut r r.max_value_size raw ascii,
      equals_any-cut r.mode r.min_value_size r.max_value_size (lowered lower r raw) r.values s
          (ground (arith, length-lowered r raw ascii)),
    )
  ]

  values_iff :
      (r : Rule) (raw : Bytes)
      → IsLowerable r raw
      → IsSized r.min_value_size r.max_value_size r.values
      → (match_values lower r raw ≡ true) ↔ AnyOf (Matches r.mode (lowered lower r raw)) r.values
  unfolding match_values
  values_iff r raw ascii s = elim (Bool-cases (ltb (length raw) r.min_value_size)) [
    | inl e ↦ (
      λ h. absurd (ground arith),
      λ k. absurd (
          too_short r.mode r.min_value_size r.max_value_size (lowered lower r raw) r.values s
            (ground (arith, length-lowered r raw ascii)) k),
    )
    | inr e ↦ elim (Bool-cases (is_contains r.mode)) [
      | inl c ↦
          let here = if_false _ _ e ∙ if_true _ _ c in
          let mode = is_contains_lem r.mode c in
          let (to, from) = contains_any_iff (lowered lower r raw) r.values in
          (
            λ h.
                subst (λ m. AnyOf (Matches m (lowered lower r raw)) r.values) (sym mode)
                  (to (sym here ∙ h)),
            λ k. here ∙ from (subst (λ m. AnyOf (Matches m (lowered lower r raw)) r.values) mode k),
          )
      | inr c ↦
          let here = if_false _ _ e ∙ if_false _ _ c ∙ compared r raw ascii s in
          let (to, from) = equals_any_iff r.mode (lowered lower r raw) r.values c in
          (λ h. to (sym here ∙ h), λ k. here ∙ from k)
    ]
  ]

-- What `Prepare` leaves alone.
prepare_fields :
    (lower : Bytes → Bytes) (r : Rule)
    → let p = prepare lower r in
      (p.mode ≡ r.mode) × (p.case_insensitive ≡ r.case_insensitive) × (p.invert ≡ r.invert)
unfolding prepare
prepare_fields lower r = elim (List-cases r.values) [
  | inl e ↦ ground arith
  | inr (v, vs, e) ↦ ground arith
]

answer :
    (F : Type 0) (b invert : Bool) (m : Result Panic Bool)
    → m ≡ ok (if invert then not b else b)
    → (b ≡ true) ↔ F
    → ((m ≡ ok (not invert)) ↔ F) × ((m ≡ ok invert) ↔ (¬ F))
answer F true true m e f = ((λ _. f.0 refl, λ _. e), (λ h k. cc, λ h. absurd (h (f.0 refl))))
answer F true false m e f = ((λ _. f.0 refl, λ _. e), (λ h k. cc, λ h. absurd (h (f.0 refl))))
answer F false true m e f = ((λ h. cc, λ h. absurd (no h)), (λ _ h. no h, λ _. e))
  where
    no : F → ⊥
    no h = let k : false ≡ true = f.1 h in cc
answer F false false m e f = ((λ h. cc, λ h. absurd (no h)), (λ _ h. no h, λ _. e))
  where
    no : F → ⊥
    no h = let k : false ≡ true = f.1 h in cc

-- A rule that has values answers: yes, if some value, lowered like the text where the rule asks for
-- that, is a prefix, a suffix or a part of it as the mode says, and no, if none is; with `invert` the
-- other way round. The cut to the greatest size and the test of the least one change nothing, and
-- `case_insensitive` works in the mode contains too. With `case_insensitive`, the text is ASCII; of the
-- lowering no more is asked than that it lowers the letters of ASCII texts.
pub match_iff :
    (lower : Bytes → Bytes) (r : Rule) (v : Bytes) (vs : List Bytes) (raw : Bytes)
    → LowersAscii lower
    → IsLowerable r raw
    → r.values ≡ v ∷ vs
    → let found = AnyOf (Matches r.mode (lowered lower r raw)) (map (lowered lower r) r.values) in
      ((match lower (prepare lower r) raw ≡ ok (not r.invert)) ↔ found)
      × ((match lower (prepare lower r) raw ≡ ok r.invert) ↔ (¬ found))
match_iff lower r v vs raw lowers ascii e =
    let (prepared, values, sized) = prepare-IsSized lower r v vs e in
    let (mode, ci, invert) = prepare_fields lower r in
    answer _ (match_values lower (prepare lower r) raw) r.invert (match lower (prepare lower r) raw)
      (unfold match in ground arith)
      (subst
        (λ l.
          (match_values lower (prepare lower r) raw ≡ true)
          ↔ AnyOf (Matches r.mode (lowered lower r raw)) l)
        values
        (subst₂
          (λ m c.
            (match_values lower (prepare lower r) raw ≡ true)
            ↔ AnyOf (Matches m (if c then lower raw else raw)) (prepare lower r).values)
          mode ci (values_iff lower lowers (prepare lower r) raw (λ c. ascii (sym ci ∙ c)) sized)))

-- A rule without values is never prepared, so a match by it panics.
pub match_no_values :
    (lower : Bytes → Bytes) (r : Rule) (raw : Bytes)
    → r.values ≡ []
    → r.prepared ≡ false
    → match lower (prepare lower r) raw ≡ err must_be_prepared
unfolding match prepare
match_no_values lower r raw e h = ground arith
