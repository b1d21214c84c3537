-- ===== src/Pipeline/Processor/Actions.antt =====
-- The loop over the actions in pipeline/processor.go.
use file_d.Base.{
  ℕ, zero, suc, not, ◌&&◌, ◌+◌, ◌-◌, ◌<◌, ◌≡◌, refl, sym, ◌∙◌, subst, Bool, true, false, arith,
  if_true, if_false, Bool-cases, inl, inr, Result, ok,
}
use file_d.Pipeline.Processor.{
  ActionResult, pass, discard, collapse, hold, Processor, Panic, Outcome, passed, finalized,
  run_action, after, do_actions, propagate,
}
use file_d.Pipeline.Processor.Busy.{
  busy_count, IsCounted, get_elem?-inside, try_mark_busy-Keeps, try_reset_busy-Keeps,
}

-- An event that is held leaves a busy action behind.
abbrev IsHeldBusy : Processor → Outcome → Type 0
IsHeldBusy p passed = Unit
IsHeldBusy p (finalized last true) = Unit
IsHeldBusy p (finalized last false) = 0 < busy_count p.busy_actions

-- The loop ends with an outcome, the flags are counted, and no action was added.
abbrev pub Ends : Processor → Result Panic (Processor × Outcome) → Type 0
Ends p r =
    (q : Processor) × (out : Outcome) × (r ≡ ok (q, out))
    × IsCounted q
    × (q.actions ≡ p.actions)
    × IsHeldBusy q out

-- An action that returns, on a processor whose flags are counted, and leaves it so.
abbrev pub Returns : (ℕ → Processor → Result Panic (ActionResult × Processor)) → Type 0
Returns do_action =
    (index : ℕ) (p : Processor)
    → IsCounted p
    → index < p.actions
    → (r : ActionResult) × (q : Processor) × (do_action index p ≡ ok (r, q))
      × IsCounted q
      × (q.actions ≡ p.actions)

module _ (do_action : ℕ → Processor → Result Panic (ActionResult × Processor)) (is_match : ℕ → Bool)
    (is_timeout : Bool) where
  after-Ends :
      (index : ℕ) (next : Processor → Result Panic (Processor × Outcome)) (r : ActionResult)
      (p : Processor)
      → IsCounted p
      → index < p.actions
      → ((q : Processor) → IsCounted q → q.actions ≡ p.actions → Ends q (next q))
      → Ends p (after do_action is_match is_timeout index next r p)
  unfolding after
  after-Ends index next pass p c h go_on =
      let (q, e, c', same) = try_reset_busy-Keeps index p c h in
      let (q', out, e', c'', same', busy) = go_on q c' same in
      (q', out, rw (e, e') refl, c'', same' ∙ same, busy)
  after-Ends index next discard p c h go_on =
      let (q, e, c', same) = try_reset_busy-Keeps index p c h in
      (q, finalized index true, rw e refl, c', same, tt)
  after-Ends index next collapse p c h go_on =
      let (q, e, c', same, busy) = try_mark_busy-Keeps index p c h in
      (q, finalized index true, rw e refl, c', same, tt)
  after-Ends index next hold p c h go_on =
      let (q, e, c', same, busy) = try_mark_busy-Keeps index p c h in
      (q, finalized index false, rw e refl, c', same, busy)

  -- If every action returns, the loop over the last actions does: neither of the panics on the count of
  -- busy actions comes, the total is the number of the flags that are set, and after an event that an
  -- action holds it is not zero, so that the processor waits for the next event of the stream.
  pub do_actions-Ends :
      (left index : ℕ) (p : Processor)
      → Returns do_action
      → IsCounted p
      → index + left ≡ p.actions
      → Ends p (do_actions do_action is_match is_timeout left index p)
  unfolding do_actions run_action
  do_actions-Ends zero index p returns c h = (p, passed, refl, c, refl, tt)
  do_actions-Ends (suc left) index p returns c h =
      let (b, found) = get_elem?-inside p.busy_actions index (omega (arith, c.0)) in
      rw found (elim (Bool-cases (not b && not is_timeout && not (is_match index))) [
        | inl skipped ↦
            subst (Ends p) (sym (if_true _ _ skipped))
              (do_actions-Ends left (suc index) p returns c (omega arith))
        | inr runs ↦
            let (r, q, e, c', same) = returns index p c (omega arith) in
            let (q', out, e', c'', same', busy) =
              after-Ends index (do_actions do_action is_match is_timeout left (suc index)) r q c'
                (omega arith)
                (λ s k same''. do_actions-Ends left (suc index) s returns k (omega arith)) in
            (q', out, if_false _ _ runs ∙ rw e e', c'', same' ∙ same, busy)
      ])

  -- The same for an event that a plugin hands on again: the action that held it is free, and the loop over
  -- the actions behind it returns.
  pub propagate-Ends :
      (action : ℕ) (p : Processor)
      → Returns do_action
      → IsCounted p
      → action < p.actions
      → Ends p (propagate do_action is_match is_timeout action p)
  unfolding propagate
  propagate-Ends action p returns c h =
      let (q, e, c', same) = try_reset_busy-Keeps action p c h in
      let (q', out, e', c'', same', busy) =
        do_actions-Ends (q.actions - suc action) (suc action) q returns c' (omega arith) in
      (q', out, rw (e, e') refl, c'', same' ∙ same, busy)
