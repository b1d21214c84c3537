-- ===== src/Pipeline/Matching/Meaning.antt =====
-- What the conditions of an action mean (pipeline/processor.go), and where a regular expression is lost.
use file_d.Base.{
  ℕ, zero, suc, get_elem?, ◌≡◌, ◌↔◌, ◌⊎◌, inl, inr, refl, ap, ap₂, ◌∙◌, Bytes, Bool, true, false,
  not, ◌&&◌, ◌||◌, Option, none, some, List, [], ◌∷◌, ◌++◌, ◌==◌, ==_iff, bytes_eq_iff, All,
  if◌then◌else◌, arith, Option-cases, ok,
}
use file_d.Pipeline.Matching.{
  MatchCondition, MatchMode, mode_and, mode_or, mode_and_prefix, mode_or_prefix, mode_unknown,
  is_or, has_prefix, fits, listed, value_exists, regexp_matches, regexp_agrees, or_at, is_match_or,
  and_at, is_match_and, by_mode, is_match, text, regexp_condition, condition_of, slash,
}

-- A value of a condition stands for a text: it is the text, or starts it.
abbrev pub Fits : Bool → Bytes → Bytes → Type 0
Fits false value s = value ≡ s
Fits true value s = (rest : Bytes) × (s ≡ value ++ rest)

abbrev pub AnyFits : List Bytes → Bool → Bytes → Type 0
AnyFits [] by_prefix s = ⊥
AnyFits (v ∷ vs) by_prefix s = Fits by_prefix v s ⊎ AnyFits vs by_prefix s

or_true : (a b : Bool) → ((a || b) ≡ true) ↔ ((a ≡ true) ⊎ (b ≡ true))
or_true true b = (λ h. inl refl, λ h. refl)
or_true false b = (λ h. inr h, λ h. ground arith)

and_true : (a b : Bool) → ((a && b) ≡ true) ↔ ((a ≡ true) × (b ≡ true))
and_true true b = (λ h. (refl, h), λ h. h.1)
and_true false b = (λ h. cc, λ h. h.0)

and_false : (b : Bool) → (b && false) ≡ false
and_false true = refl
and_false false = refl

iff_trans : {P Q R : Type 0} → P ↔ Q → Q ↔ R → P ↔ R
iff_trans (f, g) (h, k) = (λ p. h (f p), λ r. g (k r))

or_iff : {P Q R S : Type 0} → P ↔ R → Q ↔ S → (P ⊎ Q) ↔ (R ⊎ S)
or_iff (f, g) (h, k) = (
  λ o. elim o [ inl p ↦ inl (f p) | inr q ↦ inr (h q) ],
  λ o. elim o [ inl r ↦ inl (g r) | inr s ↦ inr (k s) ],
)

and_iff : {P Q R S : Type 0} → P ↔ R → Q ↔ S → (P × Q) ↔ (R × S)
and_iff (f, g) (h, k) = (λ (p, q). (f p, h q), λ (r, s). (g r, k s))

has_prefix_iff :
    (s value : Bytes) → (has_prefix s value ≡ true) ↔ ((rest : Bytes) × (s ≡ value ++ rest))
unfolding has_prefix
has_prefix_iff s [] = (λ h. (s, refl), λ h. refl)
has_prefix_iff [] (c ∷ cs) = (λ h. cc, λ (rest, e). cc)
has_prefix_iff (b ∷ bs) (c ∷ cs) =
    let (to, from) = has_prefix_iff bs cs in
    let (same_to, same_from) = ==_iff b c in
    let (both_to, both_from) = and_true (b == c) (has_prefix bs cs) in
    (
      λ h. let (e, f) = both_to h in let (rest, g) = to f in (rest, ap₂ ◌∷◌ (same_to e) g),
      λ (rest, e).
          let head : b ≡ c = cc in
          let behind : bs ≡ cs ++ rest = cc in both_from (same_from head, from (rest, behind)),
    )

fits_iff :
    (by_prefix : Bool) (value s : Bytes) → (fits by_prefix value s ≡ true) ↔ Fits by_prefix value s
fits_iff true value s = has_prefix_iff s value
fits_iff false value s = bytes_eq_iff value s

listed_iff :
    (vs : List Bytes) (by_prefix : Bool) (s : Bytes)
    → (listed vs s by_prefix ≡ true) ↔ AnyFits vs by_prefix s
unfolding listed
listed_iff [] by_prefix s = (λ h. cc, λ h. absurd h)
listed_iff (v ∷ vs) by_prefix s =
    iff_trans (or_true (fits by_prefix v s) (listed vs s by_prefix))
      (or_iff (fits_iff by_prefix v s) (listed_iff vs by_prefix s))

module _ (matches : ℕ → Bytes → Bool) (dig : List Bytes → Option Bytes) where
  -- What the documentation says of a field: it is there, and its text matches the expression of the
  -- condition, or one of its values fits.
  abbrev pub RegexpHolds : Option ℕ → Bytes → Type 0
  RegexpHolds none value = ⊥
  RegexpHolds (some r) value = matches r value ≡ true

  abbrev pub HoldsOf : MatchCondition → Bool → Option Bytes → Type 0
  HoldsOf cond by_prefix none = ⊥
  HoldsOf cond by_prefix (some value) =
      RegexpHolds cond.regexp value ⊎ AnyFits cond.values by_prefix value

  abbrev pub Holds : Bool → MatchCondition → Type 0
  Holds by_prefix cond = HoldsOf cond by_prefix (dig cond.field)

  abbrev pub AnyHolds : Bool → List MatchCondition → Type 0
  AnyHolds by_prefix [] = ⊥
  AnyHolds by_prefix (c ∷ cs) = Holds by_prefix c ⊎ AnyHolds by_prefix cs

  abbrev pub prefixed : MatchMode → Bool
  prefixed mode_or_prefix = true
  prefixed mode_and_prefix = true
  prefixed _ = false

  abbrev pub Meets : MatchMode → List MatchCondition → Type 0
  Meets mode conds =
      if is_or mode then AnyHolds (prefixed mode) conds else All (Holds (prefixed mode)) conds

  regexp_matches_iff :
      (o : Option ℕ) (value : Bytes)
      → (regexp_matches matches dig o value ≡ true) ↔ RegexpHolds o value
  regexp_matches_iff none value = (λ h. cc, λ h. absurd h)
  regexp_matches_iff (some r) value = (λ h. h, λ h. h)

  -- Without an expression the values alone decide.
  regexp_agrees-none :
      (o : Option ℕ) (value : Bytes) (b : Bool) {Q : Type 0}
      → o ≡ none
      → (b ≡ true) ↔ Q
      → ((regexp_agrees matches dig o value && b) ≡ true) ↔ (RegexpHolds o value ⊎ Q)
  regexp_agrees-none none value b e (to, from) =
      (λ h. inr (to h), λ x. elim x [ inl f ↦ absurd f | inr q ↦ from q ])
  regexp_agrees-none (some r) value b e same = cc

  or_at_iff :
      (cond : MatchCondition) (by_prefix : Bool) (o : Option Bytes)
      → (or_at matches dig cond by_prefix o ≡ true) ↔ HoldsOf cond by_prefix o
  unfolding or_at
  or_at_iff cond by_prefix none = (λ h. cc, λ h. absurd h)
  or_at_iff cond by_prefix (some value) =
      iff_trans
        (or_true (regexp_matches matches dig cond.regexp value) (value_exists cond value by_prefix))
        (or_iff (regexp_matches_iff cond.regexp value) (listed_iff cond.values by_prefix value))

  is_match_or_iff :
      (by_prefix : Bool) (conds : List MatchCondition)
      → (is_match_or matches dig conds by_prefix ≡ true) ↔ AnyHolds by_prefix conds
  unfolding is_match_or
  is_match_or_iff by_prefix [] = (λ h. cc, λ h. absurd h)
  is_match_or_iff by_prefix (c ∷ cs) =
      iff_trans
        (or_true (or_at matches dig c by_prefix (dig c.field))
          (is_match_or matches dig cs by_prefix))
        (or_iff (or_at_iff c by_prefix (dig c.field)) (is_match_or_iff by_prefix cs))

  and_at_iff :
      (cond : MatchCondition) (by_prefix : Bool) (o : Option Bytes)
      → cond.regexp ≡ none
      → (and_at matches dig cond by_prefix o ≡ true) ↔ HoldsOf cond by_prefix o
  unfolding and_at
  and_at_iff cond by_prefix none plain = (λ h. cc, λ h. absurd h)
  and_at_iff cond by_prefix (some value) plain =
      regexp_agrees-none cond.regexp value _ plain (listed_iff cond.values by_prefix value)

  is_match_and_iff :
      (by_prefix : Bool) (conds : List MatchCondition)
      → All (λ (c : MatchCondition). c.regexp ≡ none) conds
      → (is_match_and matches dig conds by_prefix ≡ true) ↔ All (Holds by_prefix) conds
  unfolding is_match_and
  is_match_and_iff by_prefix [] plain = (λ h. tt, λ h. refl)
  is_match_and_iff by_prefix (c ∷ cs) (plain, others) =
      iff_trans
        (and_true (and_at matches dig c by_prefix (dig c.field))
          (is_match_and matches dig cs by_prefix))
        (and_iff (and_at_iff c by_prefix (dig c.field) plain)
          (is_match_and_iff by_prefix cs others))

  -- An expression counts as a condition of its own where one condition is enough.
  abbrev pub Suits : MatchMode → List MatchCondition → Type 0
  Suits mode conds = (is_or mode ≡ true) ⊎ All (λ (c : MatchCondition). c.regexp ≡ none) conds

  by_mode_iff :
      (mode : MatchMode) (conds : List MatchCondition)
      → Suits mode conds
      → (by_mode matches dig mode conds ≡ true) ↔ Meets mode conds
  unfolding by_mode
  by_mode_iff mode_or conds h = is_match_or_iff false conds
  by_mode_iff mode_or_prefix conds h = is_match_or_iff true conds
  by_mode_iff mode_and conds (inr plain) = is_match_and_iff false conds plain
  by_mode_iff mode_and_prefix conds (inr plain) = is_match_and_iff true conds plain
  by_mode_iff mode_unknown conds (inr plain) = is_match_and_iff false conds plain
  by_mode_iff _ conds (inl e) = cc

  not-true : (b : Bool) → (not b ≡ true) ↔ ¬ (b ≡ true)
  not-true true = (λ h. cc, λ h. absurd (h refl))
  not-true false = (λ h. λ k. cc, λ h. refl)

  -- The answer of `isMatch` is what the mode says of the fields: in the modes with or, one of them holds,
  -- in the others each does, where a field holds if it is there and one of its values is the text, or
  -- starts it, or its expression matches. `match_invert` turns it round. In the modes with and, this is
  -- said of conditions without expressions only.
  pub is_match_iff :
      (mode : MatchMode) (conds : List MatchCondition)
      → Suits mode conds
      → ((is_match matches dig mode false conds ≡ true) ↔ Meets mode conds)
        × ((is_match matches dig mode true conds ≡ true) ↔ ¬ Meets mode conds)
  unfolding is_match
  is_match_iff mode conds h =
      let (to, from) = by_mode_iff mode conds h in
      let (off, on) = not-true (by_mode matches dig mode conds) in
      ((to, from), (λ k m. off k (from m), λ k. on (λ e. k (to e))))

  and_at-regexp :
      (cond : MatchCondition) (by_prefix : Bool) (o : Option Bytes)
      → cond.values ≡ []
      → and_at matches dig cond by_prefix o ≡ false
  unfolding and_at listed
  and_at-regexp cond by_prefix none h = refl
  and_at-regexp cond by_prefix (some value) h =
      rw h (and_false (regexp_agrees matches dig cond.regexp value))

  is_match_and-false :
      (by_prefix : Bool) (conds : List MatchCondition) (i : ℕ) (cond : MatchCondition)
      → get_elem? conds i ≡ some cond
      → cond.values ≡ []
      → is_match_and matches dig conds by_prefix ≡ false
  unfolding is_match_and
  is_match_and-false by_prefix [] i cond at h = cc
  is_match_and-false by_prefix (c ∷ cs) zero cond at h =
      let same : c ≡ cond = cc in
      ap (λ b. b && is_match_and matches dig cs by_prefix)
        (and_at-regexp c by_prefix (dig c.field) (ap (λ (x : MatchCondition). x.values) same ∙ h))
  is_match_and-false by_prefix (c ∷ cs) (suc i) cond at h =
      ap (λ b. and_at matches dig c by_prefix (dig c.field) && b)
        (is_match_and-false by_prefix cs i cond at h)
      ∙ and_false (and_at matches dig c by_prefix (dig c.field))

  condition_of-regexp :
      (parse : Bytes → List Bytes) (compile : Bytes → Option ℕ) (field : List Bytes) (rest : Bytes)
      (cond : MatchCondition)
      → condition_of parse compile field (text (slash ∷ rest)) ≡ ok (cond ∷ [])
      → cond.values ≡ []
  unfolding condition_of regexp_condition
  condition_of-regexp parse compile field rest cond h =
      elim (Option-cases (compile (slash ∷ rest))) [
        | inl e ↦ ground arith
        | inr (r, e) ↦ ground arith
      ]

  -- In the modes with and, an action with an expression in `match_fields`, as the configuration gives
  -- it, matches no event at all: the condition has no values, and the code asks for one besides the
  -- expression.
  pub by_mode-regexp :
      (parse : Bytes → List Bytes) (compile : Bytes → Option ℕ) (field : List Bytes) (rest : Bytes)
      (mode : MatchMode) (conds : List MatchCondition) (i : ℕ) (cond : MatchCondition)
      → is_or mode ≡ false
      → condition_of parse compile field (text (slash ∷ rest)) ≡ ok (cond ∷ [])
      → get_elem? conds i ≡ some cond
      → by_mode matches dig mode conds ≡ false
  unfolding by_mode
  by_mode-regexp parse compile field rest mode_or conds i cond e read at = cc
  by_mode-regexp parse compile field rest mode_or_prefix conds i cond e read at = cc
  by_mode-regexp parse compile field rest mode_and_prefix conds i cond e read at =
      is_match_and-false true conds i cond at
        (condition_of-regexp parse compile field rest cond read)
  by_mode-regexp parse compile field rest _ conds i cond e read at =
      is_match_and-false false conds i cond at
        (condition_of-regexp parse compile field rest cond read)
