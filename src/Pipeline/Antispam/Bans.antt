-- ===== src/Pipeline/Antispam/Bans.antt =====
-- Who is banned by pipeline/antispam/antispammer.go: with a threshold over one, nobody.
use file_d.Base.{
  ℕ, ◌^◌, ◌≤◌, ◌<◌, ◌≡◌, refl, sym, ◌∙◌, subst, Bytes, Bool, true, false, some, List, [], ◌∷◌,
  arith, All, All-append, ◌==◌, if_true, if_false, ok, >>=-eq-ok, ok-injective, Bool-cases,
  Option-cases, inl, inr,
}
use file_d.MatchRule.{RuleSet}
use file_d.Pipeline.Antispam.{
  Source, Antispammer, new_antispammer, find_source, get_source, count_source, is_exception,
  is_spam, maintain, maintenance,
}

-- The states of an antispammer, by the calls that lead to them.
pub data Reach (lower : Bytes → Bytes) (threshold iterations : ℕ) (exceptions : List RuleSet)
    : Antispammer → Type 0 where
  start :
      Reach lower threshold iterations exceptions (new_antispammer threshold iterations exceptions)
  counts :
      {a b : Antispammer} (id : ℕ) (name : Bytes) (is_new_source : Bool) (event : Bytes)
      (spam : Bool)
      → Reach lower threshold iterations exceptions a
      → is_spam lower id name is_new_source event a ≡ ok (b, spam)
      → Reach lower threshold iterations exceptions b
  maintains :
      {a : Antispammer}
      → Reach lower threshold iterations exceptions a
      → Reach lower threshold iterations exceptions (maintenance a).0

-- No counter in the map ever moves.
abbrev IsIdle : Source → Type 0
IsIdle s = s.counter ≡ 0

find_source-IsIdle :
    (id : ℕ) (ss : List Source) (s : Source) → All IsIdle ss → find_source id ss ≡ some s → IsIdle s
unfolding find_source
find_source-IsIdle id [] s all h = cc
find_source-IsIdle id (x ∷ xs) s (idle, all) h = ground (arith, find_source-IsIdle id xs s all)

maintain-idle : (a : Antispammer) (ss : List Source) → All IsIdle ss → maintain a ss ≡ ([], true)
unfolding maintain
maintain-idle a [] all = refl
maintain-idle a (s ∷ ss) (idle, all) = rw (idle, maintain-idle a ss all) refl

get_source-IsIdle :
    (id : ℕ) (name : Bytes) (a : Antispammer)
    → All IsIdle a.sources
    → let (b, src) = get_source id name a (find_source id a.sources) in
      All IsIdle b.sources × IsIdle src × (b.threshold ≡ a.threshold)
unfolding get_source
get_source-IsIdle id name a all = elim (Option-cases (find_source id a.sources)) [
  | inl e ↦ rw e (All-append IsIdle a.sources _ all (refl, tt), refl, refl)
  | inr (s, e) ↦ rw e (all, find_source-IsIdle id a.sources s all e, refl)
]

-- One event is under a threshold over one.
count_source-idle :
    (a : Antispammer) (is_new_source : Bool) (src : Source)
    → 2 ≤ a.threshold
    → a.threshold < 2 ^ 31
    → IsIdle src
    → (count_source a is_new_source src).1 ≡ false
unfolding count_source
count_source-idle a true src low high idle = refl
count_source-idle a false src low high idle = ground arith

abbrev Idle : ℕ → Antispammer → Type 0
Idle threshold a = All IsIdle a.sources × (a.threshold ≡ threshold)

module _ (lower : Bytes → Bytes) (threshold : ℕ) where
  is_spam-Idle :
      (id : ℕ) (name : Bytes) (is_new_source : Bool) (event : Bytes) (a b : Antispammer)
      (spam : Bool)
      → 2 ≤ threshold
      → threshold < 2 ^ 31
      → Idle threshold a
      → is_spam lower id name is_new_source event a ≡ ok (b, spam)
      → Idle threshold b × (spam ≡ false)
  unfolding is_spam
  is_spam-Idle id name is_new_source event a b spam low high (all, same) h =
      let (all', idle, same') = get_source-IsIdle id name a all in
      let under =
        count_source-idle (get_source id name a (find_source id a.sources)).0 is_new_source
          (get_source id name a (find_source id a.sources)).1 (rw (same', same) low)
          (rw (same', same) high) idle in
      let on : (a.threshold == 0) ≡ false = ground arith in
      let (found, e, k) =
        >>=-eq-ok (is_exception lower a.exceptions event) _ (sym (if_false _ _ on) ∙ h) in
      elim (Bool-cases found) [
        | inl excepted ↦
            subst (λ (r : Antispammer × Bool). Idle threshold r.0 × (r.1 ≡ false))
              (ok-injective (sym (if_true _ _ excepted) ∙ k)) ((all, same), refl)
        | inr counted ↦
            subst (λ (r : Antispammer × Bool). Idle threshold r.0 × (r.1 ≡ false))
              (ok-injective (sym (if_false _ _ counted) ∙ k)) ((all', same' ∙ same), under)
      ]

  module _ (iterations : ℕ) (exceptions : List RuleSet) where
    Reach-Idle :
        {a : Antispammer}
        → 2 ≤ threshold
        → threshold < 2 ^ 31
        → Reach lower threshold iterations exceptions a
        → Idle threshold a
    unfolding new_antispammer maintenance
    Reach-Idle low high start = (tt, refl)
    Reach-Idle low high (counts {a = a} {b = b} id name is_new_source event spam r h) =
        (is_spam-Idle id name is_new_source event a b spam low high (Reach-Idle low high r) h).0
    Reach-Idle low high (maintains {a = a} r) =
        let (all, same) = Reach-Idle low high r in (rw (maintain-idle a a.sources all) tt, same)

    -- With a threshold of two or more, no event is ever answered to be spam, and `Maintenance` finds no
    -- banned source and forgets every source: whatever calls came before.
    pub nobody_banned :
        (a : Antispammer)
        → 2 ≤ threshold
        → threshold < 2 ^ 31
        → Reach lower threshold iterations exceptions a
        → ((id : ℕ) (name : Bytes) (is_new_source : Bool) (event : Bytes) (b : Antispammer)
            → ¬ (is_spam lower id name is_new_source event a ≡ ok (b, true)))
          × ((maintenance a).0.sources ≡ [])
          × ((maintenance a).1 ≡ true)
    unfolding maintenance
    nobody_banned a low high r =
        let idle = Reach-Idle low high r in
        let forgets = maintain-idle a a.sources idle.0 in
        (
          λ id name is_new_source event b h.
              let under = (is_spam-Idle id name is_new_source event a b true low high idle h).1 in
              cc,
          rw forgets refl,
          rw forgets refl,
        )
