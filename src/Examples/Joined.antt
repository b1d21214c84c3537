-- ===== src/Examples/Joined.antt =====
-- Runs of plugin/action/join/join.go.
use file_d.Base.{ℕ, ◌≡◌, refl, Bytes, false, true, List, [], ◌∷◌, ◌++◌, codes, some, ok}
use file_d.MatchRule.{has_prefix}
use file_d.Join.{
  Event, Plugin, Config, idle, run, do_event, do_regular, do_node, flush_and_pass, begin,
  hold_first, flush,
}
use file_d.Join.Groups.{Groups}
use file_d.Join.Steps.{pending, joining}
use file_d.Join.Runs.{run-Groups}

abbrev panics : Config
panics = record {
  start = λ v. has_prefix v (codes "panic:");
  continue = λ v. has_prefix v (codes " ");
  max_event_size = 0;
  negate = false;
}

abbrev event : ℕ → Bytes → Event
event n line = record {
  rest = n;
  node = some (record { value = line; is_string = true });
  is_timeout = false;
}

abbrev events : List Event
events =
    event 1 (codes "start")
    ∷ event 2 (codes "panic: oops")
    ∷ event 3 (codes " main.go")
    ∷ event 4 (codes " run.go")
    ∷ event 5 (codes "end")
    ∷ event 6 (codes "panic: again")
    ∷ []

joined_lines :
    run panics idle events
    ≡ ok (
      joining (event 6 (codes "panic: again")) (codes "panic: again"),
      event 1 (codes "start")
          ∷ event 2 (codes "panic: oops main.go run.go")
          ∷ event 5 (codes "end")
          ∷ [],
    )
unfolding run do_event do_regular do_node flush_and_pass begin hold_first flush
joined_lines = refl

run-Groups_example :
    (p : Plugin) × (out : List Event) × (run panics idle events ≡ ok (p, out))
    × Groups panics events (out ++ pending p)
run-Groups_example = run-Groups panics events (refl, (refl, (refl, (refl, (refl, (refl, tt))))))
