-- ===== src/K8s.antt =====
-- plugin/input/k8s/multiline_action.go: docker cuts a long log into parts, and the action joins them. An
-- event comes as the JSON text of its field `log` (what `AsEscapedString` gives, with its quotes) and
-- its size. The fields with the names of the pod and its labels are left out.
pub mod Whole
use file_d.Base.{
  ℕ, ◌+◌, ◌-◌, ◌*◌, Bytes, codes, bytes_eq, Bool, true, false, not, ◌&&◌, ◌||◌, Option, none, some,
  List, [], ◌∷◌, ◌++◌, length, take, drop, ltb, ◌==◌, if◌then◌else◌, Result, ok, err, ◌>>=◌,
}

pub record Config : Type 0 where
  pub max_event_size : ℕ
  pub split_event_size : ℕ
  pub only_node : Bool

pub record MultilineAction : Type 0 where
  pub event_buf : Bytes
  pub event_size : ℕ
  pub skip_next_event : Bool

pub data Panic : Type 0 where
  no_log_field slice_out_of_range : Panic

-- The event passes with a new log, or with its own (none).
pub data Verdict : Type 0 where
  passes : Option Bytes → Verdict
  collapses discards : Verdict

abbrev pub quote : ℕ
quote = b'"'

abbrev pub new_line : Bytes
new_line = codes "\\n"

abbrev pub prediction_lookahead : ℕ
prediction_lookahead = 128 * 1024

-- `Start`.
abbrev pub fresh : MultilineAction
fresh = record { event_buf = quote ∷ []; event_size = 0; skip_next_event = false }

abbrev pub reset_log_buf : MultilineAction → MultilineAction
reset_log_buf p = record p { event_buf = take 1 p.event_buf; event_size = 0 }

-- `logFragment[l-3:l-1]` is a newline, in its escaped form.
unfoldable pub is_end : Bytes → Result Panic Bool
is_end [] = err no_log_field
is_end (c ∷ cs) =
    if ltb (length (c ∷ cs)) 3
    then err slice_out_of_range
    else ok (bytes_eq (take 2 (drop (length (c ∷ cs) - 3) (c ∷ cs))) new_line)

-- `logFragment[1:l-1]`.
abbrev pub inner : Bytes → Bytes
inner fragment = drop 1 (take (length fragment - 1) fragment)

-- A part that does not end the log is kept, or makes the whole log be skipped.
unfoldable pub collapse : Config → MultilineAction → Bytes → MultilineAction
collapse config p fragment =
    if config.max_event_size == 0
      || ltb (length p.event_buf + length fragment) config.max_event_size
    then record p { event_buf = p.event_buf ++ inner fragment }
    else record p { skip_next_event = true }

-- The part that ends the log, or that is sent because the log is too long.
unfoldable pub flush : MultilineAction → Bytes → MultilineAction × Verdict
flush p fragment = (
  reset_log_buf p,
  passes (
      if ltb 1 (length p.event_buf)
      then some (p.event_buf ++ (inner fragment ++ quote ∷ []))
      else none),
)

unfoldable pub end_skipped : MultilineAction → Bool → MultilineAction × Verdict
end_skipped p ends =
    if not ends
    then (p, collapses)
    else (reset_log_buf (record p { skip_next_event = false }), discards)

unfoldable pub join_part : Config → MultilineAction → Bytes → Bool → MultilineAction × Verdict
join_part config p fragment ends =
    if not ends && not (ltb config.split_event_size (p.event_size + prediction_lookahead))
    then (collapse config p fragment, collapses)
    else if p.skip_next_event
    then end_skipped p ends
    else flush p fragment

-- `Do` on an event that is no timeout.
unfoldable pub do_regular :
    Config → MultilineAction → Bytes → ℕ → Result Panic (MultilineAction × Verdict)
do_regular config p fragment size =
    if config.only_node
    then ok (p, passes none)
    else is_end fragment >>= λ ends.
        ok (join_part config (record p { event_size = p.event_size + size }) fragment ends)

-- `Do` on a timeout: the parts are dropped.
unfoldable pub do_timeout : MultilineAction → MultilineAction × Verdict
do_timeout p = (reset_log_buf p, discards)

unfoldable pub run :
    Config → MultilineAction → List (Bytes × ℕ) → Result Panic (MultilineAction × List Verdict)
run config p [] = ok (p, [])
run config p ((fragment, size) ∷ parts) =
    do_regular config p fragment size >>= λ (q, v). run config q parts >>= λ (r, vs). ok (r, v ∷ vs)
