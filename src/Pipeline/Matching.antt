-- ===== src/Pipeline/Matching.antt =====
-- The conditions of an action: `isMatch` of pipeline/processor.go, MatchCondition of pipeline/plugin.go
-- and how fd/util.go reads the conditions from the configuration. A regular expression is a handle:
-- whether it matches, what `CompileRegex` makes of a text, and `Dig` with `AsString` of the event's
-- document are parameters, and so is ParseFieldSelector.
pub mod Meaning
use file_d.Base.{
  ℕ, Bytes, Bool, true, false, not, ◌&&◌, ◌||◌, Option, none, some, List, [], ◌∷◌, ◌++◌, ◌==◌,
  bytes_eq, if◌then◌else◌, Result, ok, err, ◌>>=◌,
}

pub record MatchCondition : Type 0 where
  pub field : List Bytes
  pub values : List Bytes
  pub regexp : Option ℕ

pub data MatchMode : Type 0 where
  mode_and mode_or mode_and_prefix mode_or_prefix mode_unknown : MatchMode

-- `strings.HasPrefix`.
unfoldable pub has_prefix : Bytes → Bytes → Bool
has_prefix s [] = true
has_prefix [] (c ∷ cs) = false
has_prefix (b ∷ bs) (c ∷ cs) = b == c && has_prefix bs cs

abbrev pub fits : Bool → Bytes → Bytes → Bool
fits by_prefix value s = if by_prefix then has_prefix s value else bytes_eq value s

unfoldable pub listed : List Bytes → Bytes → Bool → Bool
listed [] s by_prefix = false
listed (v ∷ vs) s by_prefix = fits by_prefix v s || listed vs s by_prefix

abbrev pub value_exists : MatchCondition → Bytes → Bool → Bool
value_exists mc s by_prefix = listed mc.values s by_prefix

abbrev pub is_or : MatchMode → Bool
is_or mode_or = true
is_or mode_or_prefix = true
is_or _ = false

module _ (matches : ℕ → Bytes → Bool) (dig : List Bytes → Option Bytes) where
  abbrev pub regexp_matches : Option ℕ → Bytes → Bool
  regexp_matches none value = false
  regexp_matches (some r) value = matches r value

  unfoldable pub or_at : MatchCondition → Bool → Option Bytes → Bool
  or_at cond by_prefix none = false
  or_at cond by_prefix (some value) =
      regexp_matches cond.regexp value || value_exists cond value by_prefix

  unfoldable pub is_match_or : List MatchCondition → Bool → Bool
  is_match_or [] by_prefix = false
  is_match_or (cond ∷ conds) by_prefix =
      or_at cond by_prefix (dig cond.field) || is_match_or conds by_prefix

  abbrev pub regexp_agrees : Option ℕ → Bytes → Bool
  regexp_agrees none value = true
  regexp_agrees (some r) value = matches r value

  unfoldable pub and_at : MatchCondition → Bool → Option Bytes → Bool
  and_at cond by_prefix none = false
  and_at cond by_prefix (some value) =
      regexp_agrees cond.regexp value && value_exists cond value by_prefix

  unfoldable pub is_match_and : List MatchCondition → Bool → Bool
  is_match_and [] by_prefix = true
  is_match_and (cond ∷ conds) by_prefix =
      and_at cond by_prefix (dig cond.field) && is_match_and conds by_prefix

  unfoldable pub by_mode : MatchMode → List MatchCondition → Bool
  by_mode mode_or conds = is_match_or conds false
  by_mode mode_or_prefix conds = is_match_or conds true
  by_mode mode_and_prefix conds = is_match_and conds true
  by_mode _ conds = is_match_and conds false

  unfoldable pub is_match : MatchMode → Bool → List MatchCondition → Bool
  is_match mode match_invert conds =
      if match_invert then not (by_mode mode conds) else by_mode mode conds

-- A value of `match_fields`: a text, a list (none for what is no text), or anything else.
pub data Json : Type 0 where
  text : Bytes → Json
  list : List (Option Bytes) → Json
  other : Json

pub data Failure : Type 0 where
  bad_regexp not_a_string : Failure

unfoldable pub texts : List (Option Bytes) → Result Failure (List Bytes)
texts [] = ok []
texts (none ∷ vs) = err not_a_string
texts (some v ∷ vs) = let rest = texts vs in rest >>= λ us. ok (v ∷ us)

abbrev pub slash : ℕ
slash = b'/'

abbrev is_regexp : Bytes → Bool
is_regexp [] = false
is_regexp (c ∷ cs) = c == slash

module _ (parse_field_selector : Bytes → List Bytes) (compile : Bytes → Option ℕ) where
  unfoldable pub regexp_condition : List Bytes → Option ℕ → Result Failure (List MatchCondition)
  regexp_condition field none = err bad_regexp
  regexp_condition field (some r) = ok (record { field = field; values = []; regexp = some r } ∷ [])

  -- The condition of one field; `other` values make none.
  unfoldable pub condition_of : List Bytes → Json → Result Failure (List MatchCondition)
  condition_of field (text value) =
      if is_regexp value
      then regexp_condition field (compile value)
      else ok (record { field = field; values = value ∷ []; regexp = none } ∷ [])
  condition_of field (list vs) =
      texts vs >>= λ us. ok (record { field = field; values = us; regexp = none } ∷ [])
  condition_of field other = ok []

  -- The fields come in the order in which Go ranges over the map.
  unfoldable pub extract_conditions : List (Bytes × Json) → Result Failure (List MatchCondition)
  extract_conditions [] = ok []
  extract_conditions ((field, value) ∷ rest) =
      let others = extract_conditions rest in
      condition_of (parse_field_selector field) value >>= λ cs. others >>= λ ds. ok (cs ++ ds)
