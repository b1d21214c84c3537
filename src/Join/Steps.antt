-- ===== src/Join/Steps.antt =====
-- The cases of `Do` in plugin/action/join/join.go, by what the plugin holds.
use file_d.Base.{
  ◌≡◌, Bytes, true, false, none, some, List, [], ◌∷◌, arith, Option-cases, inl, inr, ok,
}
use file_d.Join.{
  Event, Plugin, Config, pass, collapse, hold, mutate, flush, flush_and_pass, hold_first, begin,
  grow, do_node, do_regular, do_event,
}
use file_d.Join.Groups.{node_starts, node_continues, value_of}

abbrev pub waiting : Bytes → Plugin
waiting buff = record { is_joining = false; initial = none; buff = buff }

abbrev pub joining : Event → Bytes → Plugin
joining e buff = record { is_joining = true; initial = some e; buff = buff }

-- What the plugin still holds.
abbrev pub pending : Plugin → List Event
pending p = elim p.initial [ none ↦ [] | some e ↦ mutate e p.buff ∷ [] ]

abbrev pub IsRegular : Event → Type 0
IsRegular e = e.is_timeout ≡ false

module _ (config : Config) where
  pub step_alone :
      (e : Event) (buff : Bytes)
      → IsRegular e
      → node_starts config e.node ≡ false
      → do_event config e (waiting buff) ≡ ok (waiting buff, e ∷ [], pass)
  unfolding do_event do_regular do_node flush_and_pass begin flush
  step_alone e buff regular h = elim (Option-cases e.node) [
    | inl n ↦ ground arith
    | inr (node, n) ↦ ground arith
  ]

  pub step_begin :
      (e : Event) (buff : Bytes)
      → IsRegular e
      → node_starts config e.node ≡ true
      → do_event config e (waiting buff) ≡ ok (joining e (value_of config e.node), [], hold)
  unfolding do_event do_regular do_node flush_and_pass begin flush hold_first
  step_begin e buff regular h = elim (Option-cases e.node) [
    | inl n ↦ ground arith
    | inr (node, n) ↦ ground arith
  ]

  pub step_collapse :
      (e first : Event) (buff : Bytes)
      → IsRegular e
      → node_continues config e.node ≡ true
      → do_event config e (joining first buff)
        ≡ ok (joining first (grow config buff (value_of config e.node)), [], collapse)
  unfolding do_event do_regular do_node flush_and_pass begin flush hold_first
  step_collapse e first buff regular h = elim (Option-cases e.node) [
    | inl n ↦ ground arith
    | inr (node, n) ↦ ground arith
  ]

  pub step_end :
      (e first : Event) (buff : Bytes)
      → IsRegular e
      → node_starts config e.node ≡ false
      → node_continues config e.node ≡ false
      → do_event config e (joining first buff) ≡ ok (waiting buff, mutate first buff ∷ e ∷ [], pass)
  unfolding do_event do_regular do_node flush_and_pass begin flush hold_first
  step_end e first buff regular h k = elim (Option-cases e.node) [
    | inl n ↦ ground arith
    | inr (node, n) ↦ ground arith
  ]

  pub step_restart :
      (e first : Event) (buff : Bytes)
      → IsRegular e
      → node_starts config e.node ≡ true
      → do_event config e (joining first buff)
        ≡ ok (joining e (value_of config e.node), mutate first buff ∷ [], hold)
  unfolding do_event do_regular do_node flush_and_pass begin flush hold_first
  step_restart e first buff regular h = elim (Option-cases e.node) [
    | inl n ↦ ground arith
    | inr (node, n) ↦ ground arith
  ]
