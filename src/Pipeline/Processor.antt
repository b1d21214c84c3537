-- ===== src/Pipeline/Processor.antt =====
-- pipeline/processor.go: how a processor runs the actions on an event and which actions are busy. An
-- action's `Do` is a parameter that may change the processor, since a plugin may call `Propagate`;
-- whether an event matches an action's conditions is a parameter too. Counters for people are left
-- out. The waits of `processEvent` are those of pipeline/stream.go.
pub mod Busy
pub mod Actions
use file_d.Base.{
  ℕ, zero, suc, ◌+◌, ◌-◌, Bool, true, false, not, ◌&&◌, ◌||◌, Option, none, some, List, [], ◌∷◌,
  ◌++◌, get_elem?, set, ltb, if◌then◌else◌, Result, ok, err, ◌>>=◌,
}
use file_d.Base.Int.{ℤ, pos, negsuc, inc, dec}

pub data ActionResult : Type 0 where
  pass discard collapse hold : ActionResult

-- `actions` is how many there are.
pub record Processor : Type 0 where
  pub actions : ℕ
  pub busy_actions : List Bool
  pub busy_actions_total : ℤ

pub data Panic : Type 0 where
  index_out_of_range blocked_actions_too_big less_than_zero : Panic

-- `AddActionPlugin`.
unfoldable pub add_action_plugin : Processor → Processor
add_action_plugin p = record p {
  actions = p.actions + 1;
  busy_actions = p.busy_actions ++ false ∷ [];
}

abbrev pub over : ℤ → ℕ → Bool
over (pos n) limit = ltb limit n
over (negsuc n) limit = false

abbrev pub is_negative : ℤ → Bool
is_negative (pos n) = false
is_negative (negsuc n) = true

unfoldable pub mark : ℕ → Processor → Option Bool → Result Panic Processor
mark index p none = err index_out_of_range
mark index p (some true) = ok p
mark index p (some false) =
    if over (inc p.busy_actions_total) p.actions
    then err blocked_actions_too_big
    else ok (record p {
      busy_actions = set p.busy_actions index true;
      busy_actions_total = inc p.busy_actions_total;
    })

unfoldable pub try_mark_busy : ℕ → Processor → Result Panic Processor
try_mark_busy index p = mark index p (get_elem? p.busy_actions index)

unfoldable pub reset : ℕ → Processor → Option Bool → Result Panic Processor
reset index p none = err index_out_of_range
reset index p (some false) = ok p
reset index p (some true) =
    if is_negative (dec p.busy_actions_total)
    then err less_than_zero
    else ok (record p {
      busy_actions = set p.busy_actions index false;
      busy_actions_total = dec p.busy_actions_total;
    })

unfoldable pub try_reset_busy : ℕ → Processor → Result Panic Processor
try_reset_busy index p = reset index p (get_elem? p.busy_actions index)

-- How `doActions` leaves an event: passed by all actions, or finalized by the action `last`, and
-- whether it goes back to the pool.
pub data Outcome : Type 0 where
  passed : Outcome
  finalized : (last : ℕ) → (back : Bool) → Outcome

module _ (do_action : ℕ → Processor → Result Panic (ActionResult × Processor)) (is_match : ℕ → Bool)
    (is_timeout : Bool) where
  -- What follows on an action's result, where `next` goes on with the next action.
  unfoldable pub after :
      ℕ
      → (Processor → Result Panic (Processor × Outcome))
      → ActionResult
      → Processor
      → Result Panic (Processor × Outcome)
  after index next pass p = try_reset_busy index p >>= next
  after index next discard p = try_reset_busy index p >>= λ p'. ok (p', finalized index true)
  after index next collapse p = try_mark_busy index p >>= λ p'. ok (p', finalized index true)
  after index next hold p = try_mark_busy index p >>= λ p'. ok (p', finalized index false)

  -- An action that is not busy is skipped for an event that does not match; a timeout event goes on.
  unfoldable pub run_action :
      ℕ
      → (Processor → Result Panic (Processor × Outcome))
      → Processor
      → Option Bool
      → Result Panic (Processor × Outcome)
  run_action index next p none = err index_out_of_range
  run_action index next p (some busy) =
      if not busy && not is_timeout && not (is_match index)
      then next p
      else (do_action index p >>= λ r. after index next r.0 r.1)

  -- The loop over the last `left` actions.
  unfoldable pub do_actions : ℕ → ℕ → Processor → Result Panic (Processor × Outcome)
  do_actions zero index p = ok (p, passed)
  do_actions (suc left) index p =
      let next = do_actions left (suc index) in
      run_action index next p (get_elem? p.busy_actions index)

  -- `Propagate` up to the loop of the actions behind the one that held the event.
  unfoldable pub propagate : ℕ → Processor → Result Panic (Processor × Outcome)
  propagate action p =
      try_reset_busy action p >>= λ p'. do_actions (p'.actions - suc action) (suc action) p'
