-- ===== src/MatchRule.antt =====
-- cfg/matchrule/matchrule.go: rules that test the bytes of an event. Lowering a text is a parameter,
-- `bytes.ToLower` and `strings.ToLower`.
pub mod Values
pub mod Sizes
pub mod Sound
pub mod Sets
use file_d.Base.{
  ℕ, zero, suc, ◌-◌, Bytes, bytes_eq, codes, Bool, true, false, not, ◌&&◌, ◌||◌, Option, none, some,
  List, [], ◌∷◌, map, is_empty, length, take, drop, ltb, if◌then◌else◌, Result, ok, err, ◌>>=◌,
}

pub data Mode : Type 0 where
  prefix contains suffix : Mode

unfoldable pub mode_of_json : Bytes → Option Mode
mode_of_json i =
    if bytes_eq i (codes "\"prefix\"")
    then some prefix
    else if bytes_eq i (codes "\"contains\"")
    then some contains
    else if bytes_eq i (codes "\"suffix\"")
    then some suffix
    else none

pub data Cond : Type 0 where
  and or : Cond

unfoldable pub cond_of_json : Bytes → Option Cond
cond_of_json i =
    if bytes_eq i (codes "\"and\"")
    then some and
    else if bytes_eq i (codes "\"or\"")
    then some or
    else none

pub record Rule : Type 0 where
  pub values : List Bytes
  pub mode : Mode
  pub case_insensitive : Bool
  pub invert : Bool
  pub min_value_size : ℕ
  pub max_value_size : ℕ
  pub prepared : Bool

pub record RuleSet : Type 0 where
  pub name : Bytes
  pub cond : Cond
  pub rules : List Rule

pub data Panic : Type 0 where
  must_be_prepared : Panic

-- `bytes.HasPrefix` and `bytes.Contains`.
abbrev pub has_prefix : Bytes → Bytes → Bool
has_prefix d [] = true
has_prefix [] (v ∷ vs) = false
has_prefix (x ∷ d) (v ∷ vs) = bytes_eq (x ∷ []) (v ∷ []) && has_prefix d vs

abbrev pub has_part : Bytes → Bytes → Bool
has_part [] v = is_empty v
has_part (x ∷ d) v = has_prefix (x ∷ d) v || has_part d v

-- The loop of `Prepare` over the two sizes.
unfoldable pub max_size : ℕ → List Bytes → ℕ
max_size n [] = n
max_size n (v ∷ vs) = max_size (if ltb n (length v) then length v else n) vs

unfoldable pub min_size : ℕ → List Bytes → ℕ
min_size n [] = n
min_size n (v ∷ vs) = min_size (if ltb (length v) n then length v else n) vs

unfoldable pub contains_any : Bytes → List Bytes → Bool
contains_any d [] = false
contains_any d (v ∷ vs) = (not (ltb (length d) (length v)) && has_part d v) || contains_any d vs

-- The part of the data that a value of the given size is compared with.
abbrev pub cut : Mode → ℕ → Bytes → Bytes
cut suffix n d = drop (length d - n) d
cut _ n d = take n d

unfoldable pub equals_any : Mode → Bytes → List Bytes → Bool
equals_any mode d [] = false
equals_any mode d (v ∷ vs) =
    (not (ltb (length d) (length v)) && bytes_eq (cut mode (length v) d) v) || equals_any mode d vs

abbrev pub is_contains : Mode → Bool
is_contains contains = true
is_contains _ = false

module _ (lower : Bytes → Bytes) where
  abbrev pub lowered : Rule → Bytes → Bytes
  lowered r data' = if r.case_insensitive then lower data' else data'

  prepare_values : Rule → List Bytes → Rule
  unfolding max_size min_size
  prepare_values r [] = r
  prepare_values r (v ∷ vs) = record r {
    values = map (lowered r) (v ∷ vs);
    min_value_size = min_size (length v) (map (lowered r) (v ∷ vs));
    max_value_size = max_size (length v) (map (lowered r) (v ∷ vs));
    prepared = true;
  }

  unfoldable pub prepare : Rule → Rule
  unfolding prepare_values
  prepare r = prepare_values r r.values

  unfoldable pub match_values : Rule → Bytes → Bool
  unfolding contains_any equals_any
  match_values r raw =
      if ltb (length raw) r.min_value_size
      then false
      else if is_contains r.mode
      then contains_any (lowered r raw) r.values
      else equals_any r.mode
          (lowered r
            (if ltb (length raw) r.max_value_size then raw else cut r.mode r.max_value_size raw))
          r.values

  unfoldable pub match : Rule → Bytes → Result Panic Bool
  match r raw =
      if not r.prepared
      then err must_be_prepared
      else ok (if r.invert then not (match_values r raw) else match_values r raw)

  unfoldable pub prepare_set : RuleSet → RuleSet
  prepare_set rs = record rs { rules = map prepare rs.rules }

  -- The loop of `Match` of a rule set, and what follows it.
  unfoldable pub match_rules : Cond → List Rule → Bytes → Result Panic Bool
  match_rules and [] d = ok true
  match_rules or [] d = ok false
  match_rules and (r ∷ rs) d =
      let rest = match_rules and rs d in match r d >>= λ m. if not m then ok false else rest
  match_rules or (r ∷ rs) d =
      let rest = match_rules or rs d in match r d >>= λ m. if m then ok true else rest

  unfoldable pub match_set : RuleSet → Bytes → Result Panic Bool
  match_set rs d = if is_empty rs.rules then ok false else match_rules rs.cond rs.rules d

  unfoldable pub prepare_sets : List RuleSet → List RuleSet
  prepare_sets = map prepare_set
