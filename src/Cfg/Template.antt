-- ===== src/Cfg/Template.antt =====
-- ParseSubstitution of cfg/substitution.go: texts with fields in dollar signs and braces.
use file_d.Base.{
  ℕ, zero, suc, ◌+◌, ◌<◌, ◌≡◌, refl, sym, ap, ap₂, ◌∙◌, Bytes, index_byte, index_byte-append,
  index_byte-found, true, false, none, some, List, [], ◌∷◌, ◌++◌, append_assoc, append-nil, length,
  take, drop, get_elem?, length-append, take_prefix, drop_prefix, drop_past, All, ltb, arith, ok,
  err, ◌>>=◌,
}
use file_d.Cfg.{
  parse_field_selector, SubstitutionOp, raw_op, field_op, Failure, index_out_of_range,
  slice_out_of_range, Substituting, field_round, dollar_round, substitution_round, substitution_end,
  substitution_loop, parse_substitution,
}

-- A text and the selector of the field behind it.
pub record Segment : Type 0 where
  pub text : Bytes
  pub selector : Bytes

abbrev pub field_text : Segment → Bytes → Bytes
field_text s rest = s.text ++ b'$' ∷ b'{' ∷ (s.selector ++ b'}' ∷ rest)

abbrev pub template : List Segment → Bytes → Bytes
template [] last = last
template (s ∷ ss) last = field_text s (template ss last)

abbrev pub ops_of : List Segment → Bytes → List SubstitutionOp
ops_of [] [] = []
ops_of [] (c ∷ cs) = raw_op (c ∷ cs) ∷ []
ops_of (s ∷ ss) last = raw_op s.text ∷ field_op (parse_field_selector s.selector) ∷ ops_of ss last

abbrev pub IsText : Bytes → Type 0
IsText t = (index_byte t b'$' ≡ none) × (index_byte t b'}' ≡ none)

abbrev pub IsSegment : Segment → Type 0
IsSegment s = IsText s.text × (index_byte s.selector b'}' ≡ none)

abbrev at : Bytes → List SubstitutionOp → Substituting
at text result = record { substitution = text; tail = []; result = result }

loop_some :
    (fuel pos : ℕ) (s : Substituting)
    → index_byte s.substitution b'$' ≡ some pos
    → substitution_loop (suc fuel) s ≡ (substitution_round s pos >>= substitution_loop fuel)
unfolding substitution_loop
loop_some fuel pos s h = ground arith

loop_none :
    (fuel : ℕ) (s : Substituting)
    → index_byte s.substitution b'$' ≡ none
    → substitution_loop (suc fuel) s ≡ ok (substitution_end s)
unfolding substitution_loop
loop_none fuel s h = ground arith

behind_dollar :
    (t : Bytes) (c : ℕ) (rest : Bytes) → get_elem? (t ++ b'$' ∷ c ∷ rest) (length t + 1) ≡ some c
behind_dollar [] c rest = refl
behind_dollar (x ∷ t) c rest =
    let next : length (x ∷ t) + 1 ≡ suc (length t + 1) = omega arith in
    ap (get_elem? (x ∷ (t ++ b'$' ∷ c ∷ rest))) next ∙ behind_dollar t c rest

inside : (t : Bytes) (c : ℕ) (rest : Bytes) → ltb (length (t ++ c ∷ rest)) (length t + 1) ≡ false
inside t c rest = ground (arith, length-append t (c ∷ rest))

-- A field in a text.
round_field :
    (s : Segment) (rest : Bytes) (result : List SubstitutionOp)
    → IsSegment s
    → substitution_round (at (field_text s rest) result) (length s.text)
      ≡ ok (at rest (result ++ raw_op s.text ∷ field_op (parse_field_selector s.selector) ∷ []))
unfolding substitution_round dollar_round field_round
round_field s rest result ((no_dollar, no_brace), closed) =
    let opened : Bytes = s.text ++ b'$' ∷ b'{' ∷ [] in
    let front : Bytes = s.text ++ b'$' ∷ b'{' ∷ s.selector in
    let text : field_text s rest ≡ front ++ b'}' ∷ rest =
      sym (append_assoc s.text (b'$' ∷ b'{' ∷ s.selector) (b'}' ∷ rest)) in
    let in_front : opened ++ s.selector ≡ front =
      append_assoc s.text (b'$' ∷ b'{' ∷ []) s.selector in
    let no_end : index_byte front b'}' ≡ none =
      index_byte-append s.text (b'$' ∷ b'{' ∷ s.selector) b'}' no_brace (ground arith) in
    let end : index_byte (field_text s rest) b'}' ≡ some (length front) =
      ap (λ t. index_byte t b'}') text ∙ index_byte-found front rest b'}' no_end in
    let long : ltb (length front) (length s.text + 2) ≡ false =
      ground (arith, length-append s.text (b'$' ∷ b'{' ∷ s.selector)) in
    let start : length s.text + 2 ≡ length opened =
      ground (arith, length-append s.text (b'$' ∷ b'{' ∷ [])) in
    let chosen : drop (length s.text + 2) (take (length front) (field_text s rest)) ≡ s.selector =
      ap₂ drop start
        (ap (take (length front)) text ∙ take_prefix front (b'}' ∷ rest) ∙ sym in_front)
      ∙ drop_prefix opened s.selector in
    let next : length front + 1 ≡ suc (length front) = omega arith in
    let behind : drop (length front + 1) (field_text s rest) ≡ rest =
      ap₂ drop next text ∙ drop_past front rest b'}' in
    rw
      (
        inside s.text b'$' (b'{' ∷ (s.selector ++ b'}' ∷ rest)),
        behind_dollar s.text b'{' (s.selector ++ b'}' ∷ rest),
        end,
        long,
        chosen,
        behind,
        take_prefix s.text (b'$' ∷ b'{' ∷ (s.selector ++ b'}' ∷ rest)),
      )
      refl

end_template :
    (last : Bytes) (result : List SubstitutionOp)
    → substitution_end (at last result) ≡ result ++ ops_of [] last
unfolding substitution_end
end_template [] result = sym (append-nil result)
end_template (c ∷ cs) result = ground arith

-- Fuel for what is behind a field stays.
shorter :
    (s : Segment) (rest : Bytes) (fuel : ℕ)
    → length (field_text s rest) < suc fuel
    → length rest < fuel
shorter s rest fuel h = ground (
  arith,
  length-append s.text (b'$' ∷ b'{' ∷ (s.selector ++ b'}' ∷ rest)),
  length-append s.selector (b'}' ∷ rest),
)

loop_field :
    (fuel : ℕ) (s : Segment) (rest : Bytes) (result : List SubstitutionOp)
    → IsSegment s
    → substitution_loop (suc fuel) (at (field_text s rest) result)
      ≡ substitution_loop fuel
          (at rest (result ++ raw_op s.text ∷ field_op (parse_field_selector s.selector) ∷ []))
loop_field fuel s rest result of_s =
    let tail : Bytes = b'{' ∷ (s.selector ++ b'}' ∷ rest) in
    loop_some fuel (length s.text) (at (field_text s rest) result)
      (index_byte-found s.text tail b'$' of_s.0.0)
    ∙ ap (λ r. r >>= substitution_loop fuel) (round_field s rest result of_s)

loop_template :
    (fuel : ℕ) (ss : List Segment) (last : Bytes) (result : List SubstitutionOp)
    → All IsSegment ss
    → index_byte last b'$' ≡ none
    → length (template ss last) < fuel
    → substitution_loop fuel (at (template ss last) result) ≡ ok (result ++ ops_of ss last)
loop_template zero ss last result of_ss plain enough = ground arith
loop_template (suc fuel) [] last result of_ss plain enough =
    loop_none fuel (at last result) plain ∙ ap ok (end_template last result)
loop_template (suc fuel) (s ∷ ss) last result (of_s, of_ss) plain enough =
    let ops = raw_op s.text ∷ field_op (parse_field_selector s.selector) ∷ [] in
    loop_field fuel s (template ss last) result of_s
    ∙ loop_template fuel ss last (result ++ ops) of_ss plain
        (shorter s (template ss last) fuel enough)
    ∙ ap ok (append_assoc result ops (ops_of ss last))

-- A text with fields in it, each written with its selector between a dollar sign with a brace and a brace,
-- is read as the texts and the fields in their order, if no text in front of a field has a dollar sign or
-- a closing brace, no selector has a closing brace, and the text behind the fields has no dollar sign.
pub parse_substitution-template :
    (ss : List Segment) (last : Bytes)
    → All IsSegment ss
    → index_byte last b'$' ≡ none
    → parse_substitution (template ss last) ≡ ok (ops_of ss last)
unfolding parse_substitution
parse_substitution-template ss last of_ss plain =
    loop_template (suc (length (template ss last))) ss last [] of_ss plain (omega arith)

-- What is left at a round decides: behind the fields before, a last dollar sign, or a closing brace in
-- front of a field, ends the loop with a panic.
loop_fails :
    (fuel : ℕ) (ss : List Segment) (last : Bytes) (result : List SubstitutionOp) (pos : ℕ)
    (e : Failure)
    → All IsSegment ss
    → index_byte last b'$' ≡ some pos
    → ((r : List SubstitutionOp) → substitution_round (at last r) pos ≡ err e)
    → length (template ss last) < fuel
    → substitution_loop fuel (at (template ss last) result) ≡ err e
loop_fails zero ss last result pos e of_ss found fails enough = ground arith
loop_fails (suc fuel) [] last result pos e of_ss found fails enough =
    loop_some fuel pos (at last result) found
    ∙ ap (λ r. r >>= substitution_loop fuel) (fails result)
loop_fails (suc fuel) (s ∷ ss) last result pos e (of_s, of_ss) found fails enough =
    loop_field fuel s (template ss last) result of_s
    ∙ loop_fails fuel ss last _ pos e of_ss found fails (shorter s (template ss last) fuel enough)

behind_all : (t : Bytes) (c : ℕ) → get_elem? (t ++ c ∷ []) (length t + 1) ≡ none
behind_all [] c = refl
behind_all (x ∷ t) c =
    let next : length (x ∷ t) + 1 ≡ suc (length t + 1) = omega arith in
    ap (get_elem? (x ∷ (t ++ c ∷ []))) next ∙ behind_all t c

round_last_dollar :
    (t : Bytes) (result : List SubstitutionOp)
    → substitution_round (at (t ++ b'$' ∷ []) result) (length t) ≡ err index_out_of_range
unfolding substitution_round dollar_round
round_last_dollar t result = rw (inside t b'$' [], behind_all t b'$') refl

round_brace :
    (u w rest : Bytes) (result : List SubstitutionOp)
    → index_byte u b'}' ≡ none
    → substitution_round
        (at ((u ++ b'}' ∷ w) ++ b'$' ∷ b'{' ∷ rest) result)
        (length (u ++ b'}' ∷ w))
      ≡ err slice_out_of_range
unfolding substitution_round dollar_round field_round
round_brace u w rest result opens =
    let t : Bytes = u ++ b'}' ∷ w in
    let text : t ++ b'$' ∷ b'{' ∷ rest ≡ u ++ b'}' ∷ (w ++ b'$' ∷ b'{' ∷ rest) =
      append_assoc u (b'}' ∷ w) (b'$' ∷ b'{' ∷ rest) in
    let end : index_byte (t ++ b'$' ∷ b'{' ∷ rest) b'}' ≡ some (length u) =
      ap (λ x. index_byte x b'}') text ∙ index_byte-found u (w ++ b'$' ∷ b'{' ∷ rest) b'}' opens in
    let early : ltb (length u) (length t + 2) ≡ true = ground (arith, length-append u (b'}' ∷ w)) in
    rw (inside t b'$' (b'{' ∷ rest), behind_dollar t b'{' rest, end, early) refl

-- Behind fields as above, whatever they are, ParseSubstitution panics on two kinds of text: one whose first
-- dollar sign is its last byte, and one that has a closing brace in front of its first dollar sign, which
-- opens a field.
pub parse_substitution-panics :
    (ss : List Segment) (t u w rest : Bytes)
    → All IsSegment ss
    → index_byte t b'$' ≡ none
    → index_byte (u ++ b'}' ∷ w) b'$' ≡ none
    → index_byte u b'}' ≡ none
    → (parse_substitution (template ss (t ++ b'$' ∷ [])) ≡ err index_out_of_range)
      × (parse_substitution (template ss ((u ++ b'}' ∷ w) ++ b'$' ∷ b'{' ∷ rest))
          ≡ err slice_out_of_range)
unfolding parse_substitution
parse_substitution-panics ss t u w rest of_ss plain plain' opens =
    let braced : Bytes = (u ++ b'}' ∷ w) ++ b'$' ∷ b'{' ∷ rest in
    (
      loop_fails _ ss (t ++ b'$' ∷ []) [] (length t) index_out_of_range of_ss
          (index_byte-found t [] b'$' plain) (round_last_dollar t) (omega arith),
      loop_fails _ ss braced [] (length (u ++ b'}' ∷ w)) slice_out_of_range of_ss
          (index_byte-found (u ++ b'}' ∷ w) (b'{' ∷ rest) b'$' plain')
          (λ r. round_brace u w rest r opens) (omega arith),
    )
