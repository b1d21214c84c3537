-- ===== src/Examples/Rules.antt =====
-- Runs of cfg/matchrule/matchrule.go.
use file_d.Base.{arith, ◌≡◌, ◌↔◌, ◌⊎◌, refl, Bytes, true, false, not, [], ◌∷◌, map, codes, ok}
use file_d.MatchRule.{Rule, RuleSet, prefix, and, lowered, prepare, match, match_values, match_set}
use file_d.MatchRule.Values.{Matches, AnyOf}
use file_d.MatchRule.Sound.{lower_letter, match_iff}
use file_d.MatchRule.Sets.{Joined, Says, match_set_iff}

-- ASCII letters.
abbrev lower_ascii : Bytes → Bytes
lower_ascii = map lower_letter

abbrev errors : Rule
errors = record {
  values = codes "ERROR" ∷ codes "fatal" ∷ [];
  mode = prefix;
  case_insensitive = true;
  invert = false;
  min_value_size = 0;
  max_value_size = 0;
  prepared = false;
}

match_iff_example :
    let found =
      AnyOf
        (Matches prefix (lowered lower_ascii errors (codes "Error: x")))
        (map (lowered lower_ascii errors) errors.values) in
    ((match lower_ascii (prepare lower_ascii errors) (codes "Error: x") ≡ ok (not false)) ↔ found)
    × ((match lower_ascii (prepare lower_ascii errors) (codes "Error: x") ≡ ok false) ↔ (¬ found))
match_iff_example =
    match_iff lower_ascii errors (codes "ERROR") (codes "fatal" ∷ []) (codes "Error: x")
      (λ d ascii. refl) (λ e. ground arith) refl

error_found : match lower_ascii (prepare lower_ascii errors) (codes "Error: x") ≡ ok true
unfolding match prepare match_values
error_found = refl

abbrev ready_errors : Rule
unfolding prepare
ready_errors = prepare lower_ascii errors

abbrev both : RuleSet
both = record { name = codes "errors"; cond = and; rules = ready_errors ∷ ready_errors ∷ [] }

match_set_iff_example :
    ((both.rules ≡ []) × (match_set lower_ascii both (codes "fatal") ≡ ok false))
    ⊎ (((match_set lower_ascii both (codes "fatal") ≡ ok true)
          ↔ Joined and (Says lower_ascii (codes "fatal")) both.rules)
        × ((match_set lower_ascii both (codes "fatal") ≡ ok false)
            ↔ (¬ Joined and (Says lower_ascii (codes "fatal")) both.rules)))
unfolding ready_errors prepare
match_set_iff_example = match_set_iff lower_ascii both (codes "fatal") (refl, (refl, tt))
