-- ===== src/Join.antt =====
-- plugin/action/join/join.go: lines that belong together become one event. An event is its document's
-- field, read and changed by insane-json, with a handle of the rest; the regular expressions are
-- parameters. What `Propagate` hands on and what `Do` passes is the list of what a call gives out.
pub mod Groups
pub mod Steps
pub mod Runs
use file_d.Base.{
  ℕ, Bytes, Bool, true, false, not, ◌&&◌, ◌||◌, Option, none, some, List, [], ◌∷◌, ◌++◌, length,
  ltb, ◌==◌, if◌then◌else◌, Result, ok, err, ◌>>=◌,
}

-- What stands in the field: `AsString` and `IsString`.
pub record Node : Type 0 where
  pub value : Bytes
  pub is_string : Bool

pub record Event : Type 0 where
  pub rest : ℕ
  pub node : Option Node
  pub is_timeout : Bool

pub data ActionResult : Type 0 where
  pass collapse discard hold : ActionResult

pub data Panic : Type 0 where
  first_event_is_nil timeout_without_joining : Panic

pub record Config : Type 0 where
  pub start : Bytes → Bool
  pub continue : Bytes → Bool
  pub max_event_size : ℕ
  pub negate : Bool

pub record Plugin : Type 0 where
  pub is_joining : Bool
  pub initial : Option Event
  pub buff : Bytes

abbrev pub idle : Plugin
idle = record { is_joining = false; initial = none; buff = [] }

-- `MutateToString` of the field.
abbrev pub mutate : Event → Bytes → Event
mutate e buff = record e { node = some (record { value = buff; is_string = true }) }

unfoldable pub flush_initial : Plugin → Option Event → Result Panic (Plugin × List Event)
flush_initial p none = err first_event_is_nil
flush_initial p (some e) =
    ok (record p { initial = none; is_joining = false }, mutate e p.buff ∷ [])

unfoldable pub flush : Plugin → Result Panic (Plugin × List Event)
unfolding flush_initial
flush p = flush_initial p p.initial

-- The end of `Do`, and its case without a field: flush what is joined, and pass the event.
unfoldable pub flush_and_pass : Event → Plugin → Result Panic (Plugin × List Event × ActionResult)
flush_and_pass event p =
    if p.is_joining
    then (flush p >>= λ r. ok (r.0, r.1 ++ event ∷ [], pass))
    else ok (p, event ∷ [], pass)

unfoldable pub hold_first : Event → Bytes → Plugin → Plugin
hold_first event value p = record p { initial = some event; is_joining = true; buff = value }

unfoldable pub begin : Event → Bytes → Plugin → Result Panic (Plugin × List Event × ActionResult)
begin event value p =
    if p.is_joining
    then (flush p >>= λ r. ok (hold_first event value r.0, r.1, hold))
    else ok (hold_first event value p, [], hold)

module _ (config : Config) where
  abbrev pub first_ok : Node → Bool
  first_ok node = node.is_string && config.start node.value

  abbrev pub next_ok : Bytes → Bool
  next_ok value = if config.negate then not (config.continue value) else config.continue value

  -- The buffer takes a whole value as long as it is under the limit; no limit is 0.
  abbrev pub grow : Bytes → Bytes → Bytes
  grow buff value =
      if config.max_event_size == 0 || ltb (length buff) config.max_event_size
      then buff ++ value
      else buff

  unfoldable pub do_node : Event → Node → Plugin → Result Panic (Plugin × List Event × ActionResult)
  do_node event node p =
      if first_ok node
      then begin event node.value p
      else if p.is_joining && next_ok node.value
      then ok (record p { buff = grow p.buff node.value }, [], collapse)
      else flush_and_pass event p

  unfoldable pub do_timeout : Plugin → Result Panic (Plugin × List Event × ActionResult)
  do_timeout p =
      if p.is_joining
      then (flush p >>= λ r. ok (r.0, r.1, discard))
      else err timeout_without_joining

  unfoldable pub do_regular :
      Event → Option Node → Plugin → Result Panic (Plugin × List Event × ActionResult)
  do_regular event none p = flush_and_pass event p
  do_regular event (some node) p = do_node event node p

  unfoldable pub do_event : Event → Plugin → Result Panic (Plugin × List Event × ActionResult)
  do_event event p = if event.is_timeout then do_timeout p else do_regular event event.node p

-- The calls for a sequence of events, and what they give out.
unfoldable pub run : Config → Plugin → List Event → Result Panic (Plugin × List Event)
run config p [] = ok (p, [])
run config p (e ∷ es) = do_event config e p >>= λ r. run config r.0 es >>= λ s. ok (s.0, r.1 ++ s.1)
