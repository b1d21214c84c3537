-- ===== src/Examples/Actions.antt =====
-- Runs of pipeline/processor.go.
use file_d.Base.{ℕ, ◌≡◌, refl, true, false, [], ◌∷◌, arith, Result, ok, ◌==◌, if◌then◌else◌}
use file_d.Base.Int.{pos}
use file_d.Pipeline.Processor.{
  ActionResult, pass, hold, Processor, Panic, finalized, do_actions, try_mark_busy, mark,
  try_reset_busy, reset, run_action, after,
}
use file_d.Pipeline.Processor.Actions.{Returns, Ends, do_actions-Ends}

-- Of three actions the second one holds the event.
abbrev holds : ℕ → Processor → Result Panic (ActionResult × Processor)
holds index p = ok (if index == 1 then hold else pass, p)

holds-Returns : Returns holds
holds-Returns index p c h = (if index == 1 then hold else pass, p, refl, c, refl)

abbrev three : Processor
three = record {
  actions = 3;
  busy_actions = false ∷ false ∷ false ∷ [];
  busy_actions_total = pos 0;
}

abbrev second_busy : Processor
second_busy = record three { busy_actions = false ∷ true ∷ false ∷ []; busy_actions_total = pos 1 }

held : do_actions holds (λ index. true) false 3 0 three ≡ ok (second_busy, finalized 1 false)
unfolding do_actions run_action after try_mark_busy mark try_reset_busy reset
held = refl

do_actions-Ends_example : Ends three (do_actions holds (λ index. true) false 3 0 three)
do_actions-Ends_example =
    do_actions-Ends holds (λ index. true) false 3 0 three holds-Returns (refl, refl) (omega arith)
