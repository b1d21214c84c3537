-- ===== src/Cfg.antt =====
-- The texts of the configuration: ParseFieldSelector of cfg/config.go and cfg/substitution.go. A round of
-- either loop takes a byte at least, so fuel of one more than the length of the text is enough.
pub mod Selector
pub mod Template
use file_d.Base.{
  ℕ, zero, suc, ◌+◌, ◌-◌, Bytes, index_byte, Bool, true, false, not, ◌&&◌, ◌||◌, Option, none, some,
  List, [], ◌∷◌, ◌++◌, is_empty, length, take, drop, get_elem?, ltb, ◌==◌, if◌then◌else◌, Result,
  ok, err, ◌>>=◌,
}

abbrev pub dot : ℕ
dot = b'.'

abbrev pub backslash : ℕ
backslash = b'\\'

-- `s[i] == c`, where `i` is in range.
unfoldable pub is_at : Bytes → ℕ → ℕ → Bool
is_at [] i c = false
is_at (b ∷ bs) zero c = b == c
is_at (b ∷ bs) (suc i) c = is_at bs i c

-- The variables of the loop of ParseFieldSelector.
pub record Selecting : Type 0 where
  pub selector : Bytes
  pub tail : Bytes
  pub result : List Bytes

-- A round, with a dot at `pos`.
unfoldable pub selector_round : Selecting → ℕ → Selecting
selector_round s pos =
    if ltb 0 pos && is_at s.selector (pos - 1) backslash
    then record s {
      tail = s.tail ++ (take (pos - 1) s.selector ++ dot ∷ []);
      selector = drop (suc pos) s.selector;
    }
    else if ltb (pos + 1) (length s.selector) && is_at s.selector (pos + 1) dot
    then record s { tail = take (pos + 1) s.selector; selector = drop (pos + 2) s.selector }
    else record {
      result = s.result ++ (s.tail ++ take pos s.selector) ∷ [];
      selector = drop (suc pos) s.selector;
      tail = [];
    }

unfoldable pub selector_end : Selecting → List Bytes
selector_end s =
    if length s.selector + length s.tail == 0
    then s.result
    else s.result ++ (s.tail ++ s.selector) ∷ []

unfoldable pub selector_loop : ℕ → Selecting → List Bytes
selector_loop zero s = s.result
selector_loop (suc fuel) s = elim (index_byte s.selector dot) [
  | none ↦ selector_end s
  | some pos ↦ selector_loop fuel (selector_round s pos)
]

unfoldable pub parse_field_selector : Bytes → List Bytes
parse_field_selector selector =
    selector_loop (suc (length selector)) (record { selector = selector; tail = []; result = [] })

pub data SubstitutionOp : Type 0 where
  raw_op : Bytes → SubstitutionOp
  field_op : List Bytes → SubstitutionOp

pub data Failure : Type 0 where
  no_substitution_end : Failure
  -- the two panics
  index_out_of_range slice_out_of_range : Failure

-- The variables of the loop of ParseSubstitution.
pub record Substituting : Type 0 where
  pub substitution : Bytes
  pub tail : Bytes
  pub result : List SubstitutionOp

-- A field, from its dollar sign at `pos` to its brace.
unfoldable pub field_round : Substituting → ℕ → Option ℕ → Result Failure Substituting
field_round s pos none = err no_substitution_end
field_round s pos (some end) =
    if ltb end (pos + 2)
    then err slice_out_of_range
    else ok (record {
      result =
          s.result
          ++ raw_op (s.tail ++ take pos s.substitution)
            ∷ field_op (parse_field_selector (drop (pos + 2) (take end s.substitution)))
            ∷ [];
      substitution = drop (end + 1) s.substitution;
      tail = [];
    })

-- By the byte behind the dollar sign.
unfoldable pub dollar_round : Substituting → ℕ → Option ℕ → Result Failure Substituting
dollar_round s pos none = err index_out_of_range
dollar_round s pos (some c) =
    if c == b'$'
    then ok (record s {
      tail = take (pos + 1) s.substitution;
      substitution = drop (pos + 2) s.substitution;
    })
    else if c == b'{'
    then field_round s pos (index_byte s.substitution b'}')
    else ok (record s {
      tail = take (pos + 1) s.substitution;
      substitution = drop (pos + 1) s.substitution;
    })

-- The first test never holds, since `pos` is an index.
unfoldable pub substitution_round : Substituting → ℕ → Result Failure Substituting
substitution_round s pos =
    if ltb (length s.substitution) (pos + 1)
    then ok (record s { substitution = drop (pos + 1) s.substitution })
    else dollar_round s pos (get_elem? s.substitution (pos + 1))

unfoldable pub substitution_end : Substituting → List SubstitutionOp
substitution_end s =
    if length s.substitution + length s.tail == 0
    then s.result
    else s.result ++ raw_op (s.tail ++ s.substitution) ∷ []

unfoldable pub substitution_loop : ℕ → Substituting → Result Failure (List SubstitutionOp)
substitution_loop zero s = ok s.result
substitution_loop (suc fuel) s = elim (index_byte s.substitution b'$') [
  | none ↦ ok (substitution_end s)
  | some pos ↦ substitution_round s pos >>= substitution_loop fuel
]

unfoldable pub parse_substitution : Bytes → Result Failure (List SubstitutionOp)
parse_substitution text =
    substitution_loop (suc (length text)) (record { substitution = text; tail = []; result = [] })
