-- ===== src/MatchRule/Sets.antt =====
-- How a rule set of cfg/matchrule/matchrule.go joins the answers of its rules.
use file_d.Base.{
  ◌≡◌, ◌↔◌, ◌⊎◌, refl, inl, inr, Bytes, Bool, true, false, not, List, [], ◌∷◌, arith, is_empty,
  if◌then◌else◌, Result, ok, All, Bool-cases, sym, ◌∙◌, if_true, if_false,
}
use file_d.MatchRule.{
  Cond, and, or, Rule, RuleSet, Panic, match, match_rules, match_set, match_values,
}

abbrev pub Some : (Rule → Type 0) → List Rule → Type 0
Some P [] = ⊥
Some P (r ∷ rs) = P r ⊎ Some P rs

-- What the condition asks of the rules.
abbrev pub Joined : Cond → (Rule → Type 0) → List Rule → Type 0
Joined and P rs = All P rs
Joined or P rs = Some P rs

module _ (lower : Bytes → Bytes) (d : Bytes) where
  abbrev pub Says : Rule → Type 0
  Says r = match lower r d ≡ ok true

  -- A prepared rule answers.
  match_answers :
      (r : Rule) → r.prepared ≡ true → (match lower r d ≡ ok true) ⊎ (match lower r d ≡ ok false)
  unfolding match
  match_answers r h =
      elim (Bool-cases
        (if r.invert then not (match_values lower r d) else match_values lower r d)) [
          | inl e ↦ inl (ground arith)
          | inr e ↦ inr (ground arith)
        ]

  abbrev Decides : Result Panic Bool → Type 0 → Type 0
  Decides m F = ((m ≡ ok true) ↔ F) × ((m ≡ ok false) ↔ (¬ F))

  match_rules-Decides :
      (cond : Cond) (rs : List Rule)
      → All (λ (r : Rule). r.prepared ≡ true) rs
      → Decides (match_rules lower cond rs d) (Joined cond Says rs)
  unfolding match_rules
  match_rules-Decides and [] p = ((λ _. tt, λ _. refl), (λ h. cc, λ h. absurd (h tt)))
  match_rules-Decides or [] p = ((λ h. cc, λ h. absurd h), (λ _ h. h, λ _. refl))
  match_rules-Decides and (r ∷ rs) p = elim (match_answers r p.0) [
    | inl e ↦
        let (yes_iff, no_iff) = match_rules-Decides and rs p.1 in
        rw (e, match_rules)
          (
            (λ h. (refl, yes_iff.0 h), λ h. yes_iff.1 h.1),
            (λ h k. no_iff.0 h k.1, λ h. no_iff.1 (λ k. h (refl, k))),
          )
    | inr e ↦
        rw (e, match_rules)
          ((λ h. cc, λ h. let k = h.0 in cc), (λ h k. let l = k.0 in cc, λ _. refl))
  ]
  match_rules-Decides or (r ∷ rs) p = elim (match_answers r p.0) [
    | inl e ↦
        rw (e, match_rules) ((λ h. inl refl, λ _. refl), (λ h k. cc, λ h. absurd (h (inl refl))))
    | inr e ↦
        let (yes_iff, no_iff) = match_rules-Decides or rs p.1 in
        rw (e, match_rules)
          (
            (λ h. inr (yes_iff.0 h), λ h. elim h [ inl k ↦ cc | inr k ↦ yes_iff.1 k ]),
            (λ h k. elim k [ inl l ↦ cc | inr l ↦ no_iff.0 h l ], λ h. no_iff.1 (λ k. h (inr k))),
          )
  ]

-- A set of prepared rules that is not empty answers yes exactly when all its rules do, for `and`, or
-- some rule does, for `or`, and no otherwise; an empty set always answers no. It never panics.
pub match_set_iff :
    (lower : Bytes → Bytes) (rs : RuleSet) (d : Bytes)
    → All (λ (r : Rule). r.prepared ≡ true) rs.rules
    → ((rs.rules ≡ []) × (match_set lower rs d ≡ ok false))
      ⊎ (((match_set lower rs d ≡ ok true) ↔ Joined rs.cond (Says lower d) rs.rules)
          × ((match_set lower rs d ≡ ok false) ↔ (¬ Joined rs.cond (Says lower d) rs.rules)))
unfolding match_set
match_set_iff lower rs d p = elim (Bool-cases (is_empty rs.rules)) [
  | inl e ↦ inl (ground arith, if_true _ _ e)
  | inr e ↦
      let here = if_false _ _ e in
      let (yes_iff, no_iff) = match_rules-Decides lower d rs.cond rs.rules p in
      inr (
        (λ h. yes_iff.0 (sym here ∙ h), λ h. here ∙ yes_iff.1 h),
        (λ h. no_iff.0 (sym here ∙ h), λ h. here ∙ no_iff.1 h),
      )
]
