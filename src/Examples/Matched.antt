-- ===== src/Examples/Matched.antt =====
-- Runs of the conditions of actions: pipeline/processor.go, pipeline/plugin.go and fd/util.go.
use file_d.Base.{
  ℕ, ◌≡◌, ◌↔◌, refl, Bytes, codes, Bool, true, false, Option, none, some, List, [], ◌∷◌, inr, ok,
}
use file_d.Pipeline.Matching.{
  MatchCondition, mode_and, mode_or, is_match, by_mode, is_match_or, or_at, listed, condition_of,
  regexp_condition, extract_conditions, texts, text, list,
}
use file_d.Pipeline.Matching.Meaning.{Meets, is_match_iff, by_mode-regexp}

-- The expression 1 matches every text; a field is one name.
abbrev matches : ℕ → Bytes → Bool
matches r value = true

abbrev one_name : Bytes → List Bytes
one_name selector = selector ∷ []

abbrev compile : Bytes → Option ℕ
compile value = some 1

-- Every field has this text.
abbrev dig : List Bytes → Option Bytes
dig field = some (codes "payment")

abbrev namespace : MatchCondition
namespace = record {
  field = codes "k8s_namespace" ∷ [];
  values = codes "payment" ∷ codes "tarifficator" ∷ [];
  regexp = none;
}

abbrev pod : MatchCondition
pod = record { field = codes "k8s_pod" ∷ []; values = []; regexp = some 1 }

-- The conditions of the example in the documentation.
documented :
    extract_conditions one_name compile (
      (codes "k8s_namespace", list (some (codes "payment") ∷ some (codes "tarifficator") ∷ []))
      ∷ (codes "k8s_pod", text (codes "/^payment-api.*/"))
      ∷ [])
    ≡ ok (namespace ∷ pod ∷ [])
unfolding extract_conditions condition_of regexp_condition texts
documented = refl

matches_or : is_match matches dig mode_or false (namespace ∷ pod ∷ []) ≡ true
unfolding is_match by_mode is_match_or or_at listed
matches_or = refl

is_match_iff_example :
    ((is_match matches dig mode_and false (namespace ∷ []) ≡ true)
      ↔ Meets matches dig mode_and (namespace ∷ []))
    × ((is_match matches dig mode_and true (namespace ∷ []) ≡ true)
        ↔ ¬ Meets matches dig mode_and (namespace ∷ []))
is_match_iff_example = is_match_iff matches dig mode_and (namespace ∷ []) (inr (refl, tt))

by_mode-regexp_example : by_mode matches dig mode_and (namespace ∷ pod ∷ []) ≡ false
unfolding condition_of regexp_condition
by_mode-regexp_example =
    by_mode-regexp matches dig one_name compile (codes "k8s_pod" ∷ []) (codes "^payment-api.*/")
      mode_and (namespace ∷ pod ∷ []) 1 pod refl refl refl
