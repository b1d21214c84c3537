-- ===== src/FileInput/Offsets/Broken.antt =====
-- What the parser of plugin/input/file/offset.go makes of a stream's name with a colon in it, and of
-- a short line.
use file_d.Base.{
  index_byte-append, index_byte-found, take_prefix, index_byte-lt, ℕ, zero, suc, ◌+◌, ◌-◌, ◌*◌, ◌^◌,
  ◌<◌, ◌≡◌, ◌≢◌, refl, ◌∙◌, Bytes, false, none, some, List, [], ◌∷◌, ◌++◌, arith, length, take,
  drop, is_empty, index_byte, ltb, lt→ltb, if_true, if_false, err, Result, Bool-cases, inl, inr,
  ◌>>=◌,
}
use file_d.FileInput.Offsets.{
  Kv, SavedJob, newline, colon, digits, Failure, bad_number, slice_out_of_range, digits_value,
  below, parse_uint, parse_int, parse_negative, parse_positive, cut_line, parse_line, parse_offset,
  add_stream, split_stream, parse_stream, get, is_new, next_stream, parse_streams_loop,
  parse_streams, parse_one, parse_loop, parse, save_streams, save_job, save, has, file_prefix,
  inode_prefix, source_prefix, streams_prefix,
}
use file_d.FileInput.Offsets.Numbers.{parse_uint-digits}
use file_d.FileInput.Offsets.RoundTrip.{number_line}
use file_d.FileInput.Offsets.Lines.{parse_line_ok, stream_line, stream_line-newline}

abbrev IsSpaced : Bytes → Type 0
IsSpaced ds = index_byte ds b' ' ≢ none

digits_value-IsSpaced : (acc : ℕ) (ds : Bytes) → IsSpaced ds → digits_value acc ds ≡ none
unfolding digits_value
digits_value-IsSpaced acc [] h = absurd (h refl)
digits_value-IsSpaced acc (d ∷ ds) h =
    ground (arith, digits_value-IsSpaced (acc * 10 + (d - b'0')) ds)

parse_uint-IsSpaced : (ds : Bytes) → IsSpaced ds → parse_uint ds ≡ err bad_number
unfolding parse_uint below
parse_uint-IsSpaced [] h = refl
parse_uint-IsSpaced (d ∷ ds) h = rw (digits_value-IsSpaced 0 (d ∷ ds) h) refl

parse_int-IsSpaced : (ds : Bytes) → IsSpaced ds → parse_int ds ≡ err bad_number
unfolding parse_int parse_positive parse_negative
parse_int-IsSpaced [] h = refl
parse_int-IsSpaced (d ∷ ds) h = ground (arith, parse_uint-IsSpaced ds, parse_uint-IsSpaced (d ∷ ds))

-- A space stands behind whatever the name holds.
append-IsSpaced : (name ds : Bytes) (c : ℕ) → IsSpaced (name ++ c ∷ b' ' ∷ ds)
append-IsSpaced [] ds c = ground arith
append-IsSpaced (x ∷ name) ds c = ground (arith, append-IsSpaced name ds c)

-- Behind a colon inside the name and one byte more, that space is still to come.
drop-IsSpaced :
    (name ds : Bytes) (i : ℕ)
    → i < length name
    → IsSpaced (drop (suc (suc i)) (name ++ colon ∷ b' ' ∷ ds))
drop-IsSpaced [] ds i h = elim h [ ]
drop-IsSpaced (x ∷ []) ds zero h = ground arith
drop-IsSpaced (x ∷ y ∷ name) ds zero h = append-IsSpaced name ds colon
drop-IsSpaced (x ∷ name) ds (suc i) h = drop-IsSpaced name ds i (omega arith)

index_byte-first :
    (xs ys : Bytes) (c i : ℕ) → index_byte xs c ≡ some i → index_byte (xs ++ ys) c ≡ some i
index_byte-first [] ys c i h = cc
index_byte-first (x ∷ xs) ys c zero h = ground arith
index_byte-first (x ∷ xs) ys c (suc i) h = ground (arith, index_byte-first xs ys c i)

abbrev Fails {ℓ} : {A : Type ℓ} → Result Failure A → Type ℓ
Fails {A = A} r = (e : Failure) × (r ≡ err e)

fails {ℓ} : {A : Type ℓ} {r : Result Failure A} {e : Failure} → r ≡ err e → Fails r
fails {e = e} h = (e, h)

bind-Fails {ℓ κ} :
    {A : Type ℓ} {B : Type κ} {r : Result Failure A} (then_do : A → Result Failure B)
    → Fails r
    → Fails (r >>= then_do)
bind-Fails then_do (e, h) = rw h (e, refl)

parse_offset-Fails :
    (line : Bytes) (pos : ℕ) → IsSpaced (drop (pos + 2) line) → Fails (parse_offset line pos)
unfolding parse_offset
parse_offset-Fails line pos h = elim (Bool-cases (ltb (length line) (pos + 2))) [
  | inl e ↦ fails (if_true _ _ e)
  | inr e ↦ fails (if_false _ _ e ∙ parse_int-IsSpaced (drop (pos + 2) line) h)
]

module _ (name : Bytes) (n i : ℕ) (found : index_byte name colon ≡ some i) where
  number_IsSpaced : IsSpaced (drop (suc (suc (suc (suc i))) + 2) (stream_line name n))
  number_IsSpaced = rw two (drop-IsSpaced name (digits 20 n) i (index_byte-lt name colon i found))
    where
      two : suc (suc (suc (suc i))) + 2 ≡ suc (suc (suc (suc (suc (suc i)))))
      two = omega arith

  -- The name up to its first colon is taken for the whole name, the rest for the number.
  split_stream-Fails : Fails (split_stream (stream_line name n) [] (some (suc (suc (suc (suc i))))))
  unfolding split_stream add_stream get
  split_stream-Fails = elim (Bool-cases (is_empty (take i (name ++ colon ∷ b' ' ∷ digits 20 n)))) [
    | inl e ↦ fails (if_true _ _ e)
    | inr e ↦ rw (if_false _ _ e) (bind-Fails _ (parse_offset-Fails _ _ number_IsSpaced))
  ]

  stream_colon : index_byte (stream_line name n) colon ≡ some (suc (suc (suc (suc i))))
  stream_colon = rw (index_byte-first name (colon ∷ b' ' ∷ digits 20 n) colon i found) refl

  parse_stream-Fails : Fails (parse_stream (stream_line name n) [])
  unfolding parse_stream
  parse_stream-Fails = elim (Bool-cases (ltb (length (stream_line name n)) 5)) [
    | inl e ↦ fails (if_true _ _ e)
    | inr e ↦ rw (if_false _ _ e, stream_colon) split_stream-Fails
  ]

  next_stream-Fails :
      (after : Bytes)
      → index_byte name newline ≡ none
      → Fails (
          next_stream
            (stream_line name n ++ newline ∷ after)
            []
            (index_byte (stream_line name n ++ newline ∷ after) newline))
  unfolding next_stream
  next_stream-Fails after plain =
      rw
        (
          index_byte-found (stream_line name n) after newline (stream_line-newline name n plain),
          take_prefix (stream_line name n) (newline ∷ after),
        )
        (bind-Fails _ parse_stream-Fails)

parse_streams-Fails :
    (kv : Kv) (so : List Kv) (after : Bytes) (i : ℕ)
    → index_byte kv.stream colon ≡ some i
    → index_byte kv.stream newline ≡ none
    → Fails (parse_streams (streams_prefix ++ newline ∷ save_streams (kv ∷ so) after))
unfolding parse_streams parse_streams_loop save_streams
parse_streams-Fails kv so after i found plain =
    rw (parse_line_ok streams_prefix [] (save_streams (kv ∷ so) after) refl)
      (bind-Fails _ (next_stream-Fails kv.stream kv.offset i found (save_streams so after) plain))

-- A job whose first stream has a colon in its name is saved, and the file that holds its entry first
-- is not read back: `parse` gives an error, whatever jobs come behind.
pub parse-save-colon :
    (job : SavedJob) (kv : Kv) (so : List Kv) (jobs : List SavedJob) (i : ℕ)
    → job.offsets ≡ kv ∷ so
    → index_byte kv.stream colon ≡ some i
    → index_byte kv.stream newline ≡ none
    → index_byte job.filename newline ≡ none
    → job.inode < 2 ^ 64
    → job.source_id < 2 ^ 64
    → (e : Failure) × (parse (save (job ∷ jobs)) ≡ err e)
unfolding parse parse_loop parse_one save save_job is_new has
parse-save-colon job kv so jobs i first found plain name inode source =
    rw
      (
        first,
        parse_line_ok file_prefix job.filename _
            (index_byte-append file_prefix job.filename newline refl name),
        parse_line_ok inode_prefix (digits 20 job.inode) _
            (number_line inode_prefix job.inode refl),
        parse_line_ok source_prefix (digits 20 job.source_id) _
            (number_line source_prefix job.source_id refl),
        parse_uint-digits job.inode inode,
        parse_uint-digits job.source_id source,
      )
      (bind-Fails _ (bind-Fails _ (parse_streams-Fails kv so (save jobs) i found plain)))

short_line :
    (start line rest : Bytes)
    → index_byte line newline ≡ none
    → length line < length start
    → parse_line (line ++ newline ∷ rest) start ≡ err slice_out_of_range
unfolding parse_line cut_line
short_line start line rest plain short =
    rw (index_byte-found line rest newline plain)
      (if_true _ _ (lt→ltb (length line) (length start) short))

line_ne : (line rest : Bytes) → is_empty (line ++ newline ∷ rest) ≡ false
line_ne [] rest = refl
line_ne (x ∷ line) rest = refl

-- A file whose first line is shorter than the prefix that it should start with makes `parse` panic: the
-- message of the error slices the line out of range.
pub parse-short_line :
    (line rest : Bytes)
    → index_byte line newline ≡ none
    → length line < length file_prefix
    → parse (line ++ newline ∷ rest) ≡ err slice_out_of_range
unfolding parse parse_loop parse_one
parse-short_line line rest plain short =
    rw (line_ne line rest, short_line file_prefix line rest plain short) refl
