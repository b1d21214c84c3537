-- ===== src/FileInput/Offsets/Lines.antt =====
-- What the parser of plugin/input/file/offset.go reads from a line that `save` wrote.
use file_d.Base.{
  index_byte-append, index_byte-found, take_prefix, drop_prefix, drop_past, ℕ, suc, ◌+◌, ◌^◌, ◌<◌,
  ◌≡◌, ◌≢◌, refl, ◌∙◌, Bytes, bytes_eq, bytes_eq_iff, true, false, is_empty, none, some, List, [],
  ◌∷◌, ◌++◌, arith, length, take, drop, index_byte, ltb, if_false, ok, inl, length-append,
}
use file_d.FileInput.Offsets.{
  cut_line, split_stream, parse_offset, Kv, newline, colon, indent, digits, parse_line,
  parse_stream, add_stream, get,
}
use file_d.FileInput.Offsets.Numbers.{digits-index_byte, parse_int-digits}

bytes_eq_self : (xs : Bytes) → bytes_eq xs xs ≡ true
bytes_eq_self xs = (bytes_eq_iff xs xs).1 refl

not_empty : (xs : Bytes) → xs ≢ [] → is_empty xs ≡ false
not_empty [] h = absurd (h refl)
not_empty (x ∷ xs) h = refl

-- A line that starts as it should.
pub parse_line_ok :
    (start body rest : Bytes)
    → index_byte (start ++ body) newline ≡ none
    → parse_line ((start ++ body) ++ newline ∷ rest) start ≡ ok (body, rest)
unfolding parse_line cut_line
parse_line_ok start body rest h =
    rw
      (
        index_byte-found (start ++ body) rest newline h,
        take_prefix (start ++ body) (newline ∷ rest),
        drop_past (start ++ body) rest newline,
        take_prefix start body,
        drop_prefix start body,
        bytes_eq_self start,
      )
      (ground (arith, length-append start body))

-- The line of a stream, without its newline.
abbrev pub stream_line : Bytes → ℕ → Bytes
stream_line name n = (indent ++ name) ++ colon ∷ b' ' ∷ digits 20 n

module _ (name : Bytes) (n : ℕ) where
  stream_colon :
      index_byte name colon ≡ none
      → index_byte (stream_line name n) colon ≡ some (length (indent ++ name))
  stream_colon plain =
      index_byte-found (indent ++ name) (b' ' ∷ digits 20 n) colon
        (index_byte-append indent name colon refl plain)

  stream_name : drop 4 (take (length (indent ++ name)) (stream_line name n)) ≡ name
  stream_name = take_prefix name (colon ∷ b' ' ∷ digits 20 n)

  stream_offset : drop (length (indent ++ name) + 2) (stream_line name n) ≡ digits 20 n
  stream_offset = rw two (drop_two name)
    where
      two : length (indent ++ name) + 2 ≡ suc (suc (suc (suc (suc (suc (length name))))))
      two = omega arith

      drop_two :
          (xs : Bytes)
          → drop (suc (suc (length xs))) (xs ++ colon ∷ b' ' ∷ digits 20 n) ≡ digits 20 n
      drop_two [] = refl
      drop_two (x ∷ xs) = drop_two xs

  stream_length : length (stream_line name n) ≡ length name + 6 + length (digits 20 n)
  stream_length = ground (arith, length-append (indent ++ name) (colon ∷ b' ' ∷ digits 20 n))

  parse_offset_ok : n < 2 ^ 63 → parse_offset (stream_line name n) (length (indent ++ name)) ≡ ok n
  unfolding parse_offset
  parse_offset_ok lt = rw stream_offset (rw (parse_int-digits n lt) (ground (arith, stream_length)))

  pub parse_stream_ok :
      (streams : List Kv)
      → index_byte name colon ≡ none
      → name ≢ []
      → n < 2 ^ 63
      → get streams name ≡ none
      → parse_stream (stream_line name n) streams
        ≡ ok (streams ++ record { stream = name; offset = n } ∷ [])
  unfolding parse_stream split_stream add_stream
  parse_stream_ok streams plain named lt new =
      rw (stream_colon plain, stream_name, parse_offset_ok lt, new)
        (if_false _ _ long ∙ if_false _ _ (not_empty name named))
    where
      long : ltb (length (stream_line name n)) 5 ≡ false
      long = ground (arith, stream_length)

  pub stream_line-newline :
      index_byte name newline ≡ none → index_byte (stream_line name n) newline ≡ none
  stream_line-newline plain =
      index_byte-append (indent ++ name) (colon ∷ b' ' ∷ digits 20 n) newline
        (index_byte-append indent name newline refl plain)
        (ground (arith, digits-index_byte 20 n newline (inl (omega arith))))
