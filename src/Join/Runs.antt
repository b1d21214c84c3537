-- ===== src/Join/Runs.antt =====
-- The plugin of plugin/action/join/join.go makes groups of any sequence of events.
use file_d.Base.{
  ◌≡◌, refl, sym, ap, subst₂, Bytes, true, false, Option, none, some, List, [], ◌∷◌, ◌++◌, All,
  arith, Bool-cases, inl, inr, ok,
}
use file_d.Join.{Node, Event, Plugin, Config, idle, mutate, grow, run}
use file_d.Join.Groups.{
  node_starts, node_continues, value_of, grow_all, Ends, Groups, no_more, alone, joined,
}
use file_d.Join.Steps.{
  waiting, joining, pending, IsRegular, step_alone, step_begin, step_collapse, step_end,
  step_restart,
}

module _ (config : Config) where
  -- What a plugin that holds nothing gives out for `es`, with what it holds in the end.
  abbrev Waits : List Event → Type 0
  Waits es =
      (buff : Bytes)
      → (p : Plugin) × (out : List Event) × (run config (waiting buff) es ≡ ok (p, out))
        × Groups config es (out ++ pending p)

  -- The same for a plugin that holds `first`: the group goes on for a while, then others follow.
  abbrev Joins : List Event → Type 0
  Joins es =
      (first : Event) (buff : Bytes)
      → (p : Plugin) × (out : List Event) × (more : List Event) × (rest : List Event)
        × (groups : List Event) × (run config (joining first buff) es ≡ ok (p, out))
        × (es ≡ more ++ rest)
        × All (λ x. node_continues config x.node ≡ true) more
        × Ends config rest
        × Groups config rest groups
        × (out ++ pending p ≡ mutate first (grow_all config buff more) ∷ groups)

  -- An event that starts a group, in front of what the plugin makes of the others.
  starts_group :
      (e : Event) (es : List Event)
      → node_starts config e.node ≡ true
      → Joins es
      → (p : Plugin) × (out : List Event) × (run config (joining e (value_of config e.node)) es
          ≡ ok (p, out))
        × Groups config (e ∷ es) (out ++ pending p)
  starts_group e es starts j =
      let (p, out, more, rest, groups, runs, split, cont, ends, g, gives) =
        j e (value_of config e.node) in
      (
        p,
        out,
        runs,
        subst₂ (λ a b. Groups config (e ∷ a) b) (sym split) (sym gives)
            (joined e more starts cont ends g),
      )

  node_starts-ends :
      (n : Option Node) → node_starts config n ≡ true → node_continues config n ≡ false
  node_starts-ends none h = refl
  node_starts-ends (some node) h = ground arith

  cons-Waits : (e : Event) (es : List Event) → IsRegular e → Waits es → Joins es → Waits (e ∷ es)
  unfolding run
  cons-Waits e es regular w j buff = elim (Bool-cases (node_starts config e.node)) [
    | inl starts ↦
        let (p, out, runs, g) = starts_group e es starts j in
        (p, out, rw (step_begin config e buff regular starts, runs) refl, g)
    | inr other ↦
        let (p, out, runs, g) = w buff in
        (p, e ∷ out, rw (step_alone config e buff regular other, runs) refl, alone e other g)
  ]

  cons-Joins : (e : Event) (es : List Event) → IsRegular e → Waits es → Joins es → Joins (e ∷ es)
  unfolding run
  cons-Joins e es regular w j first buff = elim (Bool-cases (node_starts config e.node)) [
    | inl starts ↦
        let (p, out, runs, g) = starts_group e es starts j in
        (
          p,
          mutate first buff ∷ out,
          [],
          e ∷ es,
          out ++ pending p,
          rw (step_restart config e first buff regular starts, runs) refl,
          refl,
          tt,
          node_starts-ends e.node starts,
          g,
          refl,
        )
    | inr other ↦ elim (Bool-cases (node_continues config e.node)) [
      | inl cont ↦
          let (p, out, more, rest, groups, runs, split, conts, ends, g, gives) =
            j first (grow config buff (value_of config e.node)) in
          (
            p,
            out,
            e ∷ more,
            rest,
            groups,
            rw (step_collapse config e first buff regular cont, runs) refl,
            ap (◌∷◌ e) split,
            (cont, conts),
            ends,
            g,
            gives,
          )
      | inr ends ↦
          let (p, out, runs, g) = w buff in
          (
            p,
            mutate first buff ∷ e ∷ out,
            [],
            e ∷ es,
            e ∷ (out ++ pending p),
            rw (step_end config e first buff regular other ends, runs) refl,
            refl,
            tt,
            ends,
            alone e other g,
            refl,
          )
    ]
  ]

  run-Waits-Joins : (es : List Event) → All IsRegular es → Waits es × Joins es
  unfolding run
  run-Waits-Joins [] regular = (
    λ buff. (waiting buff, [], refl, no_more),
    λ first buff. (joining first buff, [], [], [], [], refl, refl, tt, tt, no_more, refl),
  )
  run-Waits-Joins (e ∷ es) (one, regular) =
      let (w, j) = run-Waits-Joins es regular in (cons-Waits e es one w j, cons-Joins e es one w j)

  -- For any sequence of events without timeouts the plugin never panics, and what it gives out, with what
  -- it still holds, is the sequence with each event that matches `start` and the run of continuations
  -- behind it made one event.
  pub run-Groups :
      (es : List Event)
      → All IsRegular es
      → (p : Plugin) × (out : List Event) × (run config idle es ≡ ok (p, out))
        × Groups config es (out ++ pending p)
  run-Groups es regular = (run-Waits-Joins es regular).0 []
