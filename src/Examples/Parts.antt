-- ===== src/Examples/Parts.antt =====
-- Runs of plugin/input/k8s/multiline_action.go.
use file_d.Base.{◌≡◌, refl, codes, false, true, some, [], ◌∷◌, ◌++◌, map, replicate, arith, ok, err}
use file_d.K8s.{
  Config, MultilineAction, Verdict, passes, collapses, discards, slice_out_of_range, fresh, is_end,
  collapse, flush, end_skipped, join_part, do_regular, do_timeout, run,
}
use file_d.K8s.Whole.{Part, quoted, event_of, Answers, run_joins}

abbrev config : Config
config = record { max_event_size = 20; split_event_size = 200000; only_node = false }

abbrev first : Part
first = record { text = codes "one "; size = 10 }

abbrev last : Part
last = record { text = codes "two\\n"; size = 12 }

two_parts :
    run config fresh (map event_of (first ∷ last ∷ []))
    ≡ ok (fresh, collapses ∷ passes (some (quoted (codes "one two\\n"))) ∷ [])
unfolding run do_regular is_end join_part collapse flush
two_parts = refl

run_joins_example :
    (v : Verdict) × (run config fresh (map event_of (first ∷ []) ++ event_of last ∷ [])
      ≡ ok (fresh, replicate 1 collapses ++ v ∷ []))
    × Answers config last (codes "one two\\n") v
unfolding is_end
run_joins_example = run_joins config (first ∷ []) last refl (refl, tt) refl (omega arith)

-- The plugin panics on a part with the empty text: it looks at the two bytes in front of the closing
-- quote, and there is one.
empty_part : do_regular config fresh (quoted []) 2 ≡ err slice_out_of_range
unfolding do_regular is_end
empty_part = refl

-- A log is skipped, and a timeout comes before its end.
abbrev skipping : MultilineAction
skipping = record { event_buf = codes "\"one "; event_size = 10; skip_next_event = true }

-- The timeout leaves the mark, so the next log, which is short and whole, is dropped.
next_is_dropped :
    run config (do_timeout skipping).0 (event_of last ∷ []) ≡ ok (fresh, discards ∷ [])
unfolding run do_regular is_end join_part end_skipped do_timeout
next_is_dropped = refl

-- A part that ends with a backslash and the letter n, which the document writes with two backslashes,
-- is taken for the end of the log.
backslash_ends : is_end (quoted (codes "C:\\\\n")) ≡ ok true
unfolding is_end
backslash_ends = refl
