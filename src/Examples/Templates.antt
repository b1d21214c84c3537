-- ===== src/Examples/Templates.antt =====
-- Runs of ParseFieldSelector of cfg/config.go and of cfg/substitution.go.
use file_d.Base.{◌≡◌, refl, arith, Bytes, codes, [], ◌∷◌, ◌++◌, map, ok, err}
use file_d.Cfg.{
  is_at, selector_round, selector_end, selector_loop, parse_field_selector, raw_op, field_op,
  no_substitution_end, index_out_of_range, slice_out_of_range, field_round, dollar_round,
  substitution_round, substitution_end, substitution_loop, parse_substitution,
}
use file_d.Cfg.Selector.{Name, name_of, selector_of, parse_field_selector-selector_of}
use file_d.Cfg.Template.{
  Segment, template, ops_of, parse_substitution-template, parse_substitution-panics,
}

-- The name `app.kubernetes.io`.
abbrev dotted : Name
dotted = record { piece = codes "app"; pieces = codes "kubernetes" ∷ codes "io" ∷ [] }

abbrev labels : Name
labels = record { piece = codes "labels"; pieces = [] }

abbrev tier : Name
tier = record { piece = codes "tier"; pieces = [] }

selector_text : selector_of labels (dotted ∷ tier ∷ []) ≡ codes "labels.app\\.kubernetes\\.io.tier"
selector_text = refl

parse_field_selector-selector_of_example :
    parse_field_selector (selector_of labels (dotted ∷ tier ∷ []))
    ≡ map name_of (labels ∷ dotted ∷ tier ∷ [])
parse_field_selector-selector_of_example =
    parse_field_selector-selector_of labels (dotted ∷ tier ∷ []) ((refl, refl), tt, omega arith)
      (
        ((refl, refl), ((refl, refl), ((refl, refl), tt)), omega arith),
        (((refl, refl), tt, omega arith), tt),
      )

-- The text in front of the first two dots is lost.
dots_lose : parse_field_selector (codes "a..b..c") ≡ codes "b.c" ∷ []
unfolding parse_field_selector selector_loop selector_round selector_end is_at
dots_lose = refl

-- `days till ${prediction.days}, ${x}. so what?`
abbrev days : Segment
days = record { text = codes "days till "; selector = codes "prediction.days" }

abbrev comma : Segment
comma = record { text = codes ", "; selector = codes "x" }

abbrev so_what : Bytes
so_what = codes ". so what?"

days_ops :
    ops_of (days ∷ comma ∷ []) so_what
    ≡ raw_op (codes "days till ")
      ∷ field_op (codes "prediction" ∷ codes "days" ∷ [])
      ∷ raw_op (codes ", ")
      ∷ field_op (codes "x" ∷ [])
      ∷ raw_op so_what
      ∷ []
unfolding parse_field_selector selector_loop selector_round selector_end is_at
days_ops = refl

parse_substitution-template_example :
    parse_substitution (template (days ∷ comma ∷ []) so_what)
    ≡ ok (ops_of (days ∷ comma ∷ []) so_what)
parse_substitution-template_example =
    parse_substitution-template (days ∷ comma ∷ []) so_what
      (((refl, refl), refl), (((refl, refl), refl), tt)) refl

-- `days till ${prediction.days}5$` and `days till ${prediction.days}{}${x}`.
parse_substitution-panics_example :
    (parse_substitution (template (days ∷ []) (codes "5" ++ b'$' ∷ [])) ≡ err index_out_of_range)
    × (parse_substitution
          (template (days ∷ []) ((codes "{" ++ b'}' ∷ []) ++ b'$' ∷ b'{' ∷ codes "x}"))
        ≡ err slice_out_of_range)
parse_substitution-panics_example =
    parse_substitution-panics (days ∷ []) (codes "5") (codes "{") [] (codes "x}")
      (((refl, refl), refl), tt) refl refl refl

no_brace : parse_substitution (codes "days ${prediction.days. so what?") ≡ err no_substitution_end
unfolding parse_substitution substitution_loop substitution_round dollar_round field_round
no_brace = refl

-- The text in front of the first escaped dollar sign is lost.
dollars_lose : parse_substitution (codes "1 $$ and 2 $$") ≡ ok (raw_op (codes " and 2 $") ∷ [])
unfolding parse_substitution substitution_loop substitution_round dollar_round substitution_end
dollars_lose = refl
