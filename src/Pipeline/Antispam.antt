-- ===== src/Pipeline/Antispam.antt =====
-- pipeline/antispam/antispammer.go: which events are dropped because their source sends too many. The
-- map of sources is a list. It holds values of the struct `source`, whose counter is a value of the
-- struct type atomic.Int32, made by the literal `atomic.Int32{}`; so what the code takes out of the
-- map is a copy with a counter of its own. Counters are the bit patterns of an int32; a threshold
-- below zero acts as zero does. Metrics are left out but for what the gauge of activity is set by.
pub mod Bans
use file_d.Base.{
  ℕ, ◌+◌, ◌-◌, ◌*◌, ◌%◌, ◌^◌, Bytes, Bool, true, false, not, ◌&&◌, ◌||◌, Option, none, some, List,
  [], ◌∷◌, ◌++◌, ltb, leb, ◌==◌, if◌then◌else◌, Result, ok, err, ◌>>=◌,
}
use file_d.MatchRule.{RuleSet, Panic, match_set}

pub record Source : Type 0 where
  pub id : ℕ
  pub counter : ℕ
  pub name : Bytes

pub record Antispammer : Type 0 where
  pub unban_iterations : ℕ
  pub threshold : ℕ
  pub sources : List Source
  pub exceptions : List RuleSet

unfoldable pub new_antispammer : ℕ → ℕ → List RuleSet → Antispammer
new_antispammer threshold unban_iterations exceptions = record {
  unban_iterations = unban_iterations;
  threshold = threshold;
  sources = [];
  exceptions = exceptions;
}

-- `>=` on int32.
abbrev pub flip : ℕ → ℕ
flip x = (x + 2 ^ 31) % 2 ^ 32

abbrev pub ge32 : ℕ → ℕ → Bool
ge32 x y = leb (flip y) (flip x)

unfoldable pub find_source : ℕ → List Source → Option Source
find_source id [] = none
find_source id (s ∷ ss) = let rest = find_source id ss in if s.id == id then some s else rest

-- The source, put into the map if it is not there.
unfoldable pub get_source : ℕ → Bytes → Antispammer → Option Source → Antispammer × Source
get_source id name a (some src) = (a, src)
get_source id name a none =
    let src : Source = record { id = id; counter = 0; name = name } in
    (record a { sources = a.sources ++ src ∷ [] }, src)

-- What is done to the copy, and the answer.
unfoldable pub count_source : Antispammer → Bool → Source → Source × Bool
count_source a true src = (record src { counter = 0 }, false)
count_source a false src =
    let x = (src.counter + 1) % 2 ^ 32 in
    (
      record src {
        counter =
            if x == a.threshold % 2 ^ 32 then a.unban_iterations * a.threshold % 2 ^ 32 else x;
      },
      ge32 x (a.threshold % 2 ^ 32),
    )

module _ (lower : Bytes → Bytes) where
  unfoldable pub is_exception : List RuleSet → Bytes → Result Panic Bool
  is_exception [] event = ok false
  is_exception (e ∷ es) event =
      let rest = is_exception es event in
      match_set lower e event >>= λ found. if found then ok true else rest

  -- The counted copy is dropped with the call.
  unfoldable pub is_spam :
      ℕ → Bytes → Bool → Bytes → Antispammer → Result Panic (Antispammer × Bool)
  is_spam id name is_new_source event a =
      let (a', src) = get_source id name a (find_source id a.sources) in
      let (counted, spam) = count_source a' is_new_source src in
      if a.threshold == 0
      then ok (a, false)
      else is_exception a.exceptions event >>= λ found.
          if found then ok (a, false) else ok (a', spam)

-- Whether a source is still banned after one interval more; a negative counter comes to zero. The
-- counter that is written back is that of a copy.
unfoldable pub is_banned : Antispammer → ℕ → Bool
is_banned a counter = leb a.threshold ((if ltb counter (2 ^ 31) then counter else 0) - a.threshold)

-- The sources that stay, and whether none is banned.
unfoldable pub maintain : Antispammer → List Source → List Source × Bool
maintain a [] = ([], true)
maintain a (s ∷ ss) =
    let (kept, all_unbanned) = maintain a ss in
    if s.counter == 0
    then (kept, all_unbanned)
    else (s ∷ kept, not (is_banned a s.counter) && all_unbanned)

unfoldable pub maintenance : Antispammer → Antispammer × Bool
maintenance a =
    let (kept, all_unbanned) = maintain a a.sources in (record a { sources = kept }, all_unbanned)
