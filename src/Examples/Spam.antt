-- ===== src/Examples/Spam.antt =====
-- Runs of pipeline/antispam/antispammer.go.
use file_d.Base.{ℕ, ◌≡◌, refl, Bytes, Bool, true, false, [], ◌∷◌, codes, arith, Result, ok, ◌>>=◌}
use file_d.MatchRule.{Panic}
use file_d.Pipeline.Antispam.{
  Antispammer, new_antispammer, is_spam, maintenance, find_source, get_source, count_source,
  is_exception,
}
use file_d.Pipeline.Antispam.Bans.{start, counts, nobody_banned}

abbrev same : Bytes → Bytes
same d = d

-- Two events of one source, with a threshold of two.
abbrev two_events : Result Panic (Antispammer × Bool)
unfolding is_spam new_antispammer
two_events = is_spam same 1 (codes "app") false (codes "x") (new_antispammer 2 4 []) >>= λ r.
    is_spam same 1 (codes "app") false (codes "x") r.0

abbrev seen_once : Antispammer
seen_once = record {
  unban_iterations = 4;
  threshold = 2;
  sources = record { id = 1; counter = 0; name = codes "app" } ∷ [];
  exceptions = [];
}

not_banned : two_events ≡ ok (seen_once, false)
unfolding two_events is_spam new_antispammer find_source get_source count_source is_exception
not_banned = refl

first_event :
    is_spam same 1 (codes "app") false (codes "x") (new_antispammer 2 4 []) ≡ ok (seen_once, false)
unfolding is_spam new_antispammer find_source get_source count_source is_exception
first_event = refl

nobody_banned_example :
    ((id : ℕ) (name : Bytes) (is_new_source : Bool) (event : Bytes) (b : Antispammer)
      → ¬ (is_spam same id name is_new_source event seen_once ≡ ok (b, true)))
    × ((maintenance seen_once).0.sources ≡ [])
    × ((maintenance seen_once).1 ≡ true)
nobody_banned_example =
    nobody_banned same 2 4 [] seen_once (omega arith) (omega arith)
      (counts 1 (codes "app") false (codes "x") false start first_event)
