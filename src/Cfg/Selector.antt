-- ===== src/Cfg/Selector.antt =====
-- ParseFieldSelector of cfg/config.go reads back what is written with a dot between names and a
-- backslash in front of a dot of a name.
use file_d.Base.{
  ℕ, zero, suc, ◌+◌, ◌-◌, ◌<◌, ◌≡◌, refl, sym, ap, ◌∙◌, Bytes, index_byte, index_byte-found, Bool,
  true, false, ◌&&◌, none, some, List, [], ◌∷◌, ◌++◌, map, append_assoc, append-nil, length, drop,
  length-append, take_prefix, drop_past, All, ltb, arith, if_true, if_false,
}
use file_d.Cfg.{
  dot, backslash, is_at, Selecting, selector_round, selector_end, selector_loop,
  parse_field_selector,
}

pub is_at-none :
    (xs ys : Bytes) (i c : ℕ)
    → index_byte xs c ≡ none
    → i < length xs
    → is_at (xs ++ ys) i c ≡ false
unfolding is_at
is_at-none [] ys i c h l = ground arith
is_at-none (x ∷ xs) ys zero c h l = ground arith
is_at-none (x ∷ xs) ys (suc i) c h l = ground (arith, is_at-none xs ys i c)

pub is_at-past : (xs ys : Bytes) (k c : ℕ) → is_at (xs ++ ys) (length xs + k) c ≡ is_at ys k c
unfolding is_at
is_at-past [] ys k c = ap (λ i. is_at ys i c) (omega arith)
is_at-past (x ∷ xs) ys k c =
    let next : length (x ∷ xs) + k ≡ suc (length xs + k) = omega arith in
    ap (λ i. is_at (x ∷ (xs ++ ys)) i c) next ∙ is_at-past xs ys k c

-- A name by its pieces, between which it has dots.
pub record Name : Type 0 where
  pub piece : Bytes
  pub pieces : List Bytes

abbrev pub behind : Bytes → List Bytes → Bytes
behind before [] = []
behind before (p ∷ ps) = before ++ (p ++ behind before ps)

-- The name, and how it is written.
abbrev pub name_of : Name → Bytes
name_of n = n.piece ++ behind (dot ∷ []) n.pieces

abbrev pub written : Name → Bytes
written n = n.piece ++ behind (backslash ∷ dot ∷ []) n.pieces

abbrev pub selector_of : Name → List Name → Bytes
selector_of n [] = written n
selector_of n (m ∷ ns) = written n ++ dot ∷ selector_of m ns

abbrev pub IsPlain : Bytes → Type 0
IsPlain p = (index_byte p dot ≡ none) × (index_byte p backslash ≡ none)

abbrev pub IsName : Name → Type 0
IsName n = IsPlain n.piece × All IsPlain n.pieces × (0 < length (written n))

and_false : (b : Bool) → (b && false) ≡ false
and_false true = refl
and_false false = refl

not_escaped :
    (p rest : Bytes)
    → index_byte p backslash ≡ none
    → (ltb 0 (length p) && is_at (p ++ rest) (length p - 1) backslash) ≡ false
not_escaped [] rest h = refl
not_escaped (c ∷ p) rest h =
    ap (λ b. ltb 0 (length (c ∷ p)) && b)
      (is_at-none (c ∷ p) rest (length (c ∷ p) - 1) backslash h (omega arith))
    ∙ and_false (ltb 0 (length (c ∷ p)))

starts_at : (rest : Bytes) → is_at rest 0 dot ≡ false → is_at (dot ∷ rest) 1 dot ≡ false
unfolding is_at
starts_at rest h = h

round_separates :
    (p rest tail : Bytes) (result : List Bytes)
    → IsPlain p
    → is_at rest 0 dot ≡ false
    → selector_round
        (record { selector = p ++ dot ∷ rest; tail = tail; result = result })
        (length p)
      ≡ record { selector = rest; tail = []; result = result ++ (tail ++ p) ∷ [] }
unfolding selector_round
round_separates p rest tail result (no_dot, no_slash) starts =
    let unescaped : (ltb 0 (length p) && is_at (p ++ dot ∷ rest) (length p - 1) backslash) ≡ false =
      not_escaped p (dot ∷ rest) no_slash in
    let behind_dot : is_at (p ++ dot ∷ rest) (length p + 1) dot ≡ false =
      is_at-past p (dot ∷ rest) 1 dot ∙ starts_at rest starts in
    let single : (ltb (length p + 1) (length (p ++ dot ∷ rest))
          && is_at (p ++ dot ∷ rest) (length p + 1) dot)
        ≡ false =
      ap (λ b. ltb (length p + 1) (length (p ++ dot ∷ rest)) && b) behind_dot
      ∙ and_false (ltb (length p + 1) (length (p ++ dot ∷ rest))) in
    if_false _ _ unescaped
    ∙ if_false _ _ single
    ∙ rw (drop_past p rest dot, take_prefix p (dot ∷ rest)) refl

slash_here : (rest : Bytes) → is_at (backslash ∷ rest) 0 backslash ≡ true
unfolding is_at
slash_here rest = refl

drop_two : (p rest : Bytes) (a b : ℕ) → drop (suc (suc (length p))) (p ++ a ∷ b ∷ rest) ≡ rest
drop_two [] rest a b = refl
drop_two (c ∷ p) rest a b = drop_two p rest a b

round_escapes :
    (p rest tail : Bytes) (result : List Bytes)
    → selector_round
        (record { selector = p ++ backslash ∷ dot ∷ rest; tail = tail; result = result })
        (suc (length p))
      ≡ record { selector = rest; tail = tail ++ (p ++ dot ∷ []); result = result }
unfolding selector_round
round_escapes p rest tail result =
    let text : Bytes = p ++ backslash ∷ dot ∷ rest in
    let at : suc (length p) - 1 ≡ length p + 0 = omega arith in
    let before : suc (length p) - 1 ≡ length p = omega arith in
    let at_slash : is_at text (suc (length p) - 1) backslash ≡ true =
      ap (λ i. is_at text i backslash) at
      ∙ is_at-past p (backslash ∷ dot ∷ rest) 0 backslash
      ∙ slash_here (dot ∷ rest) in
    let escaped : (ltb 0 (suc (length p)) && is_at text (suc (length p) - 1) backslash) ≡ true =
      ground (arith, at_slash) in
    let past : drop (suc (suc (length p))) text ≡ rest = drop_two p rest backslash dot in
    if_true _ _ escaped ∙ rw (before, past, take_prefix p (backslash ∷ dot ∷ rest)) refl

index_dot-escaped :
    (p rest : Bytes)
    → index_byte p dot ≡ none
    → index_byte (p ++ backslash ∷ dot ∷ rest) dot ≡ some (suc (length p))
index_dot-escaped [] rest h = refl
index_dot-escaped (c ∷ p) rest h = ground (arith, index_dot-escaped p rest)

loop_some :
    (fuel pos : ℕ) (s : Selecting)
    → index_byte s.selector dot ≡ some pos
    → selector_loop (suc fuel) s ≡ selector_loop fuel (selector_round s pos)
unfolding selector_loop
loop_some fuel pos s h = ground arith

loop_none :
    (fuel : ℕ) (s : Selecting)
    → index_byte s.selector dot ≡ none
    → selector_loop (suc fuel) s ≡ selector_end s
unfolding selector_loop
loop_none fuel s h = ground arith

abbrev at : Bytes → Bytes → List Bytes → Selecting
at selector tail result = record { selector = selector; tail = tail; result = result }

-- A name with its pieces written, in front of any text.
abbrev before : Bytes → List Bytes → Bytes → Bytes
before p ps rest = (p ++ behind (backslash ∷ dot ∷ []) ps) ++ rest

before_one : (p rest : Bytes) → before p [] rest ≡ p ++ rest
before_one p rest = ap (λ t. t ++ rest) (append-nil p)

before_more :
    (p q : Bytes) (qs : List Bytes) (rest : Bytes)
    → before p (q ∷ qs) rest ≡ p ++ backslash ∷ dot ∷ before q qs rest
before_more p q qs rest = append_assoc p (behind (backslash ∷ dot ∷ []) (q ∷ qs)) rest

-- The first piece of several goes to the tail.
loop_more :
    (fuel : ℕ) (p q : Bytes) (qs : List Bytes) (rest tail : Bytes) (result : List Bytes)
    → IsPlain p
    → selector_loop (suc fuel) (at (before p (q ∷ qs) rest) tail result)
      ≡ selector_loop fuel (at (before q qs rest) (tail ++ (p ++ dot ∷ [])) result)
loop_more fuel p q qs rest tail result plain =
    ap (λ t. selector_loop (suc fuel) (at t tail result)) (before_more p q qs rest)
    ∙ loop_some fuel (suc (length p)) _ (index_dot-escaped p (before q qs rest) plain.0)
    ∙ ap (selector_loop fuel) (round_escapes p (before q qs rest) tail result)

tail_more :
    (tail p q : Bytes) (qs : List Bytes)
    → (tail ++ (p ++ dot ∷ [])) ++ (q ++ behind (dot ∷ []) qs)
      ≡ tail ++ (p ++ behind (dot ∷ []) (q ∷ qs))
tail_more tail p q qs =
    append_assoc tail (p ++ dot ∷ []) (q ++ behind (dot ∷ []) qs)
    ∙ ap (λ t. tail ++ t) (append_assoc p (dot ∷ []) (q ++ behind (dot ∷ []) qs))

-- A name in front of another one takes rounds of its own; fuel for what is left stays.
loop_name :
    (fuel : ℕ) (p : Bytes) (ps : List Bytes) (rest tail : Bytes) (result : List Bytes)
    → IsPlain p
    → All IsPlain ps
    → is_at rest 0 dot ≡ false
    → length (before p ps (dot ∷ rest)) < fuel
    → (left : ℕ) × (length rest < left)
      × (selector_loop fuel (at (before p ps (dot ∷ rest)) tail result)
          ≡ selector_loop left (at rest [] (result ++ (tail ++ (p ++ behind (dot ∷ []) ps)) ∷ [])))
loop_name zero p ps rest tail result plain others starts enough = ground arith
loop_name (suc fuel) p [] rest tail result plain others starts enough = (
  fuel,
  ground (arith, length-append p (dot ∷ rest), ap length (before_one p (dot ∷ rest))),
  ap (λ t. selector_loop (suc fuel) (at t tail result)) (before_one p (dot ∷ rest))
      ∙ loop_some fuel (length p) _ (index_byte-found p rest dot plain.0)
      ∙ ap (selector_loop fuel) (round_separates p rest tail result plain starts)
      ∙ ap (λ t. selector_loop fuel (at rest [] (result ++ (tail ++ t) ∷ []))) (sym (append-nil p)),
)
loop_name (suc fuel) p (q ∷ qs) rest tail result plain (of_q, of_qs) starts enough =
    let after : Bytes = before q qs (dot ∷ rest) in
    let shorter : length after < fuel = ground (
      arith,
      ap length (before_more p q qs (dot ∷ rest)),
      length-append p (backslash ∷ dot ∷ after),
    ) in
    let (left, enough', e) =
      loop_name fuel q qs rest (tail ++ (p ++ dot ∷ [])) result of_q of_qs starts shorter in
    (
      left,
      enough',
      loop_more fuel p q qs (dot ∷ rest) tail result plain
          ∙ e
          ∙ ap (λ t. selector_loop left (at rest [] (result ++ t ∷ []))) (tail_more tail p q qs),
    )

end_some :
    (p tail : Bytes) (result : List Bytes)
    → 0 < length p + length tail
    → selector_end (at p tail result) ≡ result ++ (tail ++ p) ∷ []
unfolding selector_end
end_some p tail result h = ground arith

-- The last name.
loop_last :
    (fuel : ℕ) (p : Bytes) (ps : List Bytes) (tail : Bytes) (result : List Bytes)
    → IsPlain p
    → All IsPlain ps
    → length (before p ps []) < fuel
    → 0 < length (before p ps []) + length tail
    → selector_loop fuel (at (before p ps []) tail result)
      ≡ result ++ (tail ++ (p ++ behind (dot ∷ []) ps)) ∷ []
loop_last zero p ps tail result plain others enough some_text = ground arith
loop_last (suc fuel) p [] tail result plain others enough some_text =
    let text : before p [] [] ≡ p = before_one p [] ∙ append-nil p in
    ap (λ t. selector_loop (suc fuel) (at t tail result)) text
    ∙ loop_none fuel _ plain.0
    ∙ end_some p tail result (omega (arith, ap length text))
    ∙ ap (λ t. result ++ (tail ++ t) ∷ []) (sym (append-nil p))
loop_last (suc fuel) p (q ∷ qs) tail result plain (of_q, of_qs) enough some_text =
    let shorter : length (before q qs []) < fuel = ground (
      arith,
      ap length (before_more p q qs []),
      length-append p (backslash ∷ dot ∷ before q qs []),
    ) in
    let longer : 0 < length (tail ++ (p ++ dot ∷ [])) =
      omega (arith, length-append tail (p ++ dot ∷ []), length-append p (dot ∷ [])) in
    loop_more fuel p q qs [] tail result plain
    ∙ loop_last fuel q qs (tail ++ (p ++ dot ∷ [])) result of_q of_qs shorter (omega arith)
    ∙ ap (λ t. result ++ t ∷ []) (tail_more tail p q qs)

head_plain :
    (p : Bytes) (ps : List Bytes) (rest : Bytes)
    → IsPlain p
    → 0 < length (p ++ behind (backslash ∷ dot ∷ []) ps)
    → is_at (before p ps rest) 0 dot ≡ false
unfolding is_at
head_plain [] [] rest plain h = ground arith
head_plain [] (q ∷ qs) rest plain h = refl
head_plain (c ∷ p) ps rest plain h = ground arith

selector_of-starts : (n : Name) (ns : List Name) → IsName n → is_at (selector_of n ns) 0 dot ≡ false
selector_of-starts n [] (plain, others, some_text) =
    ap (λ t. is_at t 0 dot) (sym (append-nil (written n)))
    ∙ head_plain n.piece n.pieces [] plain some_text
selector_of-starts n (m ∷ ms) (plain, others, some_text) =
    head_plain n.piece n.pieces (dot ∷ selector_of m ms) plain some_text

loop_names :
    (fuel : ℕ) (n : Name) (ns : List Name) (result : List Bytes)
    → IsName n
    → All IsName ns
    → length (selector_of n ns) < fuel
    → selector_loop fuel (at (selector_of n ns) [] result) ≡ result ++ map name_of (n ∷ ns)
loop_names fuel n [] result (plain, others, some_text) of_ns enough =
    let text : before n.piece n.pieces [] ≡ written n = append-nil (written n) in
    ap (λ t. selector_loop fuel (at t [] result)) (sym text)
    ∙ loop_last fuel n.piece n.pieces [] result plain others (omega (arith, ap length text))
        (omega (arith, ap length text))
loop_names fuel n (m ∷ ms) result (plain, others, some_text) (of_m, of_ms) enough =
    let (left, enough', e) =
      loop_name fuel n.piece n.pieces (selector_of m ms) [] result plain others
        (selector_of-starts m ms of_m) enough in
    e
    ∙ loop_names left m ms (result ++ name_of n ∷ []) of_m of_ms enough'
    ∙ append_assoc result (name_of n ∷ []) (map name_of (m ∷ ms))

-- Names with no backslash in them and at least a byte each, written with a dot between them and each of
-- their own dots behind a backslash, are read back as they are.
pub parse_field_selector-selector_of :
    (n : Name) (ns : List Name)
    → IsName n
    → All IsName ns
    → parse_field_selector (selector_of n ns) ≡ map name_of (n ∷ ns)
unfolding parse_field_selector
parse_field_selector-selector_of n ns of_n of_ns =
    loop_names (suc (length (selector_of n ns))) n ns [] of_n of_ns (omega arith)
