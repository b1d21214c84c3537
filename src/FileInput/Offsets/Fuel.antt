-- ===== src/FileInput/Offsets/Fuel.antt =====
-- The parser of plugin/input/file/offset.go comes to an end: its loops take a line in each round.
use file_d.Base.{
  index_byte-lt, ℕ, zero, suc, ◌+◌, ◌≤◌, ◌<◌, ◌≡◌, ◌≢◌, sym, ◌∙◌, subst, Bytes, ◌||◌, Option, none,
  some, List, [], ◌∷◌, arith, length, take, drop, is_empty, index_byte, if_false, ok, err, Result,
  Bool-cases, Option-cases, inl, inr, length-drop, ◌>>=◌, >>=-eq-ok, >>=-eq-err, map-eq-ok,
}
use file_d.FileInput.Offsets.{
  Kv, InodeOffsets, newline, colon, Failure, out_of_fuel, below, parse_uint, parse_int,
  parse_negative, parse_positive, cut_line, parse_line, parse_offset, add_stream, split_stream,
  parse_stream, get, is_new, next_stream, parse_streams_loop, parse_streams, parse_one, parse_loop,
  parse, starts_entry,
}

drop-shorter :
    (xs : Bytes) (c i : ℕ) → index_byte xs c ≡ some i → length (drop (suc i) xs) < length xs
drop-shorter xs c i h = omega (arith, length-drop (suc i) xs, index_byte-lt xs c i h)

parse_line-shorter :
    (content start line rest : Bytes)
    → parse_line content start ≡ ok (line, rest)
    → length rest < length content
unfolding parse_line cut_line
parse_line-shorter content start line rest h = elim (Option-cases (index_byte content newline)) [
  | inl e ↦ ground arith
  | inr (i, e) ↦ ground (arith, drop-shorter content newline i e)
]

parse_line-fuel : (content start : Bytes) → parse_line content start ≢ err out_of_fuel
unfolding parse_line cut_line
parse_line-fuel content start h = elim (Option-cases (index_byte content newline)) [
  | inl e ↦ ground arith
  | inr (i, e) ↦ ground arith
]

below-fuel : (limit : ℕ) (n : Option ℕ) → below limit n ≢ err out_of_fuel
unfolding below
below-fuel limit none h = ground arith
below-fuel limit (some n) h = ground arith

parse_uint-fuel : (ds : Bytes) → parse_uint ds ≢ err out_of_fuel
unfolding parse_uint
parse_uint-fuel [] h = ground arith
parse_uint-fuel (d ∷ ds) h = below-fuel _ _ h

parse_negative-fuel : (ds : Bytes) → parse_negative ds ≢ err out_of_fuel
unfolding parse_negative
parse_negative-fuel ds h = elim (>>=-eq-err (parse_uint ds) _ h) [
  | inl e ↦ parse_uint-fuel ds e
  | inr (n, e, f) ↦ ground arith
]

parse_positive-fuel : (ds : Bytes) → parse_positive ds ≢ err out_of_fuel
unfolding parse_positive
parse_positive-fuel ds h = elim (>>=-eq-err (parse_uint ds) _ h) [
  | inl e ↦ parse_uint-fuel ds e
  | inr (n, e, f) ↦ ground arith
]

parse_int-fuel : (ds : Bytes) → parse_int ds ≢ err out_of_fuel
unfolding parse_int
parse_int-fuel [] h = ground arith
parse_int-fuel (d ∷ ds) h =
    ground (arith, parse_negative-fuel ds, parse_positive-fuel ds, parse_positive-fuel (d ∷ ds))

parse_offset-fuel : (line : Bytes) (pos : ℕ) → parse_offset line pos ≢ err out_of_fuel
unfolding parse_offset
parse_offset-fuel line pos h = ground (arith, parse_int-fuel (drop (pos + 2) line))

add_stream-fuel :
    (streams : List Kv) (stream : Bytes) (old : Option ℕ) (offset : Result Failure ℕ)
    → offset ≢ err out_of_fuel
    → add_stream streams stream old offset ≢ err out_of_fuel
unfolding add_stream
add_stream-fuel streams stream (some n) offset f h = ground arith
add_stream-fuel streams stream none (ok n) f h = ground arith
add_stream-fuel streams stream none (err e) f h = ground (arith, f)

split_stream-fuel :
    (line : Bytes) (streams : List Kv) (pos : Option ℕ)
    → split_stream line streams pos ≢ err out_of_fuel
unfolding split_stream
split_stream-fuel line streams none h = ground arith
split_stream-fuel line streams (some pos) h = ground (
  arith,
  add_stream-fuel streams (drop 4 (take pos line)) (get streams (drop 4 (take pos line)))
      (parse_offset line pos) (parse_offset-fuel line pos),
)

parse_stream-fuel : (line : Bytes) (streams : List Kv) → parse_stream line streams ≢ err out_of_fuel
unfolding parse_stream
parse_stream-fuel line streams h =
    ground (arith, split_stream-fuel line streams (index_byte line colon))

next_stream-fuel :
    (content : Bytes) (streams : List Kv) (pos : Option ℕ)
    → next_stream content streams pos ≢ err out_of_fuel
unfolding next_stream
next_stream-fuel content streams none h = ground arith
next_stream-fuel content streams (some pos) h =
    elim (>>=-eq-err (parse_stream (take pos content) streams) _ h) [
      | inl e ↦ parse_stream-fuel (take pos content) streams e
      | inr (ss, e, f) ↦ ground arith
    ]

next_stream-shorter :
    (content rest : Bytes) (streams ss : List Kv)
    → next_stream content streams (index_byte content newline) ≡ ok (rest, ss)
    → length rest < length content
unfolding next_stream
next_stream-shorter content rest streams ss h = elim (Option-cases (index_byte content newline)) [
  | inl e ↦ ground arith
  | inr (i, e) ↦
      let (s, f, k) =
        map-eq-ok (parse_stream (take i content) streams) _ (rw (e, next_stream) at h) in
      subst (λ (r : Bytes × List Kv). length r.0 < length content) k
        (drop-shorter content newline i e)
]

parse_streams_loop-fuel :
    (fuel : ℕ) (content : Bytes) (streams : List Kv)
    → length content < fuel
    → parse_streams_loop fuel content streams ≢ err out_of_fuel
unfolding parse_streams_loop
parse_streams_loop-fuel zero content streams lt h = elim lt [ ]
parse_streams_loop-fuel (suc fuel) content streams lt h =
    elim (Bool-cases (is_empty content || starts_entry content)) [
      | inl e ↦ ground arith
      | inr e ↦ elim (>>=-eq-err (next_stream content streams _) _ (sym (if_false _ _ e) ∙ h)) [
        | inl f ↦ next_stream-fuel content streams _ f
        | inr ((rest, ss), f, k) ↦
            parse_streams_loop-fuel fuel rest ss
              (omega (arith, next_stream-shorter content rest streams ss f)) k
      ]
    ]

parse_streams_loop-shorter :
    (fuel : ℕ) (content rest : Bytes) (streams ss : List Kv)
    → parse_streams_loop fuel content streams ≡ ok (rest, ss)
    → length rest ≤ length content
unfolding parse_streams_loop
parse_streams_loop-shorter zero content rest streams ss h = ground arith
parse_streams_loop-shorter (suc fuel) content rest streams ss h =
    elim (Bool-cases (is_empty content || starts_entry content)) [
      | inl e ↦ ground arith
      | inr e ↦
          let ((next, s), f, k) =
            >>=-eq-ok (next_stream content streams _) _ (sym (if_false _ _ e) ∙ h) in
          omega (
            arith,
            next_stream-shorter content next streams s f,
            parse_streams_loop-shorter fuel next rest s ss k,
          )
    ]

parse_streams-fuel : (content : Bytes) → parse_streams content ≢ err out_of_fuel
unfolding parse_streams
parse_streams-fuel content h = elim (>>=-eq-err (parse_line content _) _ h) [
  | inl e ↦ parse_line-fuel content _ e
  | inr ((l, rest), e, f) ↦ parse_streams_loop-fuel (suc (length rest)) rest [] (omega arith) f
]

parse_streams-shorter :
    (content rest : Bytes) (ss : List Kv)
    → parse_streams content ≡ ok (rest, ss)
    → length rest < length content
unfolding parse_streams
parse_streams-shorter content rest ss h =
    let ((l, next), e, f) = >>=-eq-ok (parse_line content _) _ h in
    omega
      (arith, parse_line-shorter content _ l next e, parse_streams_loop-shorter _ next rest [] ss f)

is_new-fuel : (offsets : List InodeOffsets) (fp : ℕ) → is_new offsets fp ≢ err out_of_fuel
unfolding is_new
is_new-fuel offsets fp h = ground arith

bind-fuel {ℓ κ} :
    {A : Type ℓ} {B : Type κ} (first : Result Failure A) (then_do : A → Result Failure B)
    → first ≢ err out_of_fuel
    → ((a : A) → then_do a ≢ err out_of_fuel)
    → (first >>= then_do) ≢ err out_of_fuel
bind-fuel (ok a) then_do h k eq = k a eq
bind-fuel (err e) then_do h k eq = ground (arith, h)

parse_one-fuel :
    (content : Bytes) (offsets : List InodeOffsets) → parse_one content offsets ≢ err out_of_fuel
unfolding parse_one
parse_one-fuel content offsets = bind-fuel _ _ (parse_line-fuel content _) (λ l.
    bind-fuel _ _ (parse_line-fuel l.1 _) (λ l'. bind-fuel _ _ (parse_line-fuel l'.1 _) (λ l''.
      bind-fuel _ _ (parse_uint-fuel l'.0) (λ n. bind-fuel _ _ (parse_uint-fuel l''.0) (λ fp.
        bind-fuel _ _ (is_new-fuel offsets fp)
          (λ fp'. bind-fuel _ _ (parse_streams-fuel l''.1) (λ r k. ground arith)))))))

pub parse_one-shorter :
    (content rest : Bytes) (offsets os : List InodeOffsets)
    → parse_one content offsets ≡ ok (rest, os)
    → length rest < length content
unfolding parse_one
parse_one-shorter content rest offsets os h =
    let ((l, c), e, h1) = >>=-eq-ok (parse_line content _) _ h in
    let ((l', c'), e', h2) = >>=-eq-ok (parse_line c _) _ h1 in
    let ((l'', c''), e'', h3) = >>=-eq-ok (parse_line c' _) _ h2 in
    let (n, f, h4) = >>=-eq-ok (parse_uint l') _ h3 in
    let (fp, f', h5) = >>=-eq-ok (parse_uint l'') _ h4 in
    let (fp', f'', h6) = >>=-eq-ok (is_new offsets fp) _ h5 in
    let ((r, ss), g, h7) = >>=-eq-ok (parse_streams c'') _ h6 in
    ground (
      arith,
      parse_line-shorter content _ l c e,
      parse_line-shorter c _ l' c' e',
      parse_line-shorter c' _ l'' c'' e'',
      parse_streams-shorter c'' r ss g,
    )

parse_loop-fuel :
    (fuel : ℕ) (content : Bytes) (offsets : List InodeOffsets)
    → length content < fuel
    → parse_loop fuel content offsets ≢ err out_of_fuel
unfolding parse_loop
parse_loop-fuel zero content offsets lt h = elim lt [ ]
parse_loop-fuel (suc fuel) content offsets lt h = elim (Bool-cases (is_empty content)) [
  | inl e ↦ ground arith
  | inr e ↦ elim (>>=-eq-err (parse_one content offsets) _ (sym (if_false _ _ e) ∙ h)) [
    | inl f ↦ parse_one-fuel content offsets f
    | inr ((rest, os), f, k) ↦
        parse_loop-fuel fuel rest os (omega (arith, parse_one-shorter content rest offsets os f)) k
  ]
]

-- Whatever the file holds, the parser comes to an end: both of its loops have enough fuel.
pub parse-ends : (content : Bytes) → parse content ≢ err out_of_fuel
unfolding parse
parse-ends content = parse_loop-fuel (suc (length content)) content [] (omega arith)
