-- ===== src/Decoder/Cri.antt =====
-- decoder/cri.go: `DecodeCRI` cuts a line of a container runtime into its time, its stream and its log.
use file_d.Base.{
  ℕ, suc, ◌≡◌, ◌≢◌, refl, ◌∙◌, ap, subst, Bytes, Bool, true, false, ◌⊎◌, Option, none, some, [],
  ◌∷◌, ◌++◌, arith, length, take, drop, index_byte, ◌==◌, Option-cases, inl, inr, Result, ok, err,
  ◌>>=◌, >>=-eq-ok, ok-injective, length-append, index_byte-found, take_prefix, drop_past,
  index_byte-split,
}

pub record CriRow : Type 0 where
  pub log : Bytes
  pub time : Bytes
  pub stream : Bytes
  pub is_partial : Bool

-- The errors, and the panic of a slice up to -1.
pub data Failure : Type 0 where
  timestamp_is_not_found stream_type_is_not_found log_tag_is_not_found log_tag_is_empty : Failure
  slice_out_of_range : Failure

abbrev pub cri_delimiter : ℕ
cri_delimiter = b' '

-- A field up to the next delimiter, and what is behind it.
unfoldable pub cut_at : Failure → Bytes → Option ℕ → Result Failure (Bytes × Bytes)
cut_at missing data' none = err missing
cut_at missing data' (some p) = ok (take p data', drop (suc p) data')

unfoldable pub field : Failure → Bytes → Result Failure (Bytes × Bytes)
field missing data' = cut_at missing data' (index_byte data' cri_delimiter)

unfoldable pub is_partial_tag : Bytes → Result Failure Bool
is_partial_tag [] = err log_tag_is_empty
is_partial_tag (c ∷ tags) = ok (c == b'P')

-- A partial log loses its last byte, the newline.
unfoldable pub cut_log : Bool → Bytes → Result Failure Bytes
cut_log false log = ok log
cut_log true [] = err slice_out_of_range
cut_log true (c ∷ log) = ok (take (length log) (c ∷ log))

unfoldable pub decode_cri : Bytes → Result Failure CriRow
decode_cri data' = do
  let (time, after_time) = (← field timestamp_is_not_found data')
  let (stream, after_stream) = (← field stream_type_is_not_found after_time)
  let (tags, after_tags) = (← field log_tag_is_not_found after_stream)
  let is_partial = (← is_partial_tag tags)
  let log = (← cut_log is_partial after_tags)
  ok (record { log = log; time = time; stream = stream; is_partial = is_partial })

-- The line with these fields.
abbrev pub cri_line : Bytes → Bytes → Bytes → Bytes → Bytes
cri_line time stream tags rest =
    time ++ cri_delimiter ∷ (stream ++ cri_delimiter ∷ (tags ++ cri_delimiter ∷ rest))

-- A field without a delimiter in it.
abbrev pub IsField : Bytes → Type 0
IsField f = index_byte f cri_delimiter ≡ none

field_ok :
    (missing : Failure) (f rest : Bytes)
    → IsField f
    → field missing (f ++ cri_delimiter ∷ rest) ≡ ok (f, rest)
unfolding field cut_at
field_ok missing f rest h =
    rw
      (
        index_byte-found f rest cri_delimiter h,
        take_prefix f (cri_delimiter ∷ rest),
        drop_past f rest cri_delimiter,
      )
      refl

cut_log-snoc : (log : Bytes) (end : ℕ) → cut_log true (log ++ end ∷ []) ≡ ok log
unfolding cut_log
cut_log-snoc [] end = refl
cut_log-snoc (x ∷ log) end =
    let all_but_one : length (log ++ end ∷ []) ≡ suc (length log) =
      omega (arith, length-append log (end ∷ [])) in
    rw all_but_one (ap (λ l. ok (x ∷ l)) (take_prefix log (end ∷ [])))

-- The three fields of a line, and what is left to do with the log.
fields_ok :
    (time stream tags rest : Bytes) (c : ℕ)
    → IsField time
    → IsField stream
    → IsField (c ∷ tags)
    → decode_cri (cri_line time stream (c ∷ tags) rest) ≡ (
        cut_log (c == b'P') rest >>= λ log.
        ok (record { log = log; time = time; stream = stream; is_partial = c == b'P' }))
unfolding decode_cri is_partial_tag
fields_ok time stream tags rest c t s g =
    rw
      (
        field_ok timestamp_is_not_found time _ t,
        field_ok stream_type_is_not_found stream _ s,
        field_ok log_tag_is_not_found (c ∷ tags) rest g,
      )
      refl

-- A line of three fields without a space, the third not empty, and a log is decoded to them. A tag that
-- starts with P marks a part of a log, and there the last byte of the line is cut off.
pub decode_cri-cri_line :
    (time stream tags log : Bytes) (c end : ℕ)
    → IsField time
    → IsField stream
    → IsField (c ∷ tags)
    → (c ≢ b'P'
        → decode_cri (cri_line time stream (c ∷ tags) log)
          ≡ ok (record { log = log; time = time; stream = stream; is_partial = false }))
      × (c ≡ b'P'
          → decode_cri (cri_line time stream (c ∷ tags) (log ++ end ∷ []))
            ≡ ok (record { log = log; time = time; stream = stream; is_partial = true }))
unfolding cut_log
decode_cri-cri_line time stream tags log c end t s g = (
  λ full.
      let e : (c == b'P') ≡ false = ground arith in
      fields_ok time stream tags log c t s g ∙ rw e refl,
  λ part.
      let e : (c == b'P') ≡ true = ground arith in
      fields_ok time stream tags (log ++ end ∷ []) c t s g ∙ rw (e, cut_log-snoc log end) refl,
)

-- A part of a log that is empty, with no newline behind it, makes the decoder panic.
pub decode_cri-empty_part :
    (time stream tags : Bytes)
    → IsField time
    → IsField stream
    → IsField (b'P' ∷ tags)
    → decode_cri (cri_line time stream (b'P' ∷ tags) []) ≡ err slice_out_of_range
unfolding cut_log
decode_cri-empty_part time stream tags t s g = fields_ok time stream tags [] b'P' t s g

field_split :
    (missing : Failure) (data' f rest : Bytes)
    → field missing data' ≡ ok (f, rest)
    → data' ≡ f ++ cri_delimiter ∷ rest
unfolding field cut_at
field_split missing data' f rest h = elim (Option-cases (index_byte data' cri_delimiter)) [
  | inl e ↦ ground arith
  | inr (i, e) ↦
      subst (λ (r : Bytes × Bytes). data' ≡ r.0 ++ cri_delimiter ∷ r.1)
        (ok-injective (rw (e, cut_at) at h)) (index_byte-split data' cri_delimiter i e)
]

last_byte : (x : ℕ) (xs : Bytes) → (end : ℕ) × (x ∷ xs ≡ take (length xs) (x ∷ xs) ++ end ∷ [])
last_byte x [] = (x, refl)
last_byte x (y ∷ xs) = let (end, e) = last_byte y xs in (end, ap (◌∷◌ x) e)

-- What `cut_log` leaves of the rest of a line.
abbrev pub IsLogOf : Bool → Bytes → Bytes → Type 0
IsLogOf is_partial log rest =
    ((is_partial ≡ false) × (rest ≡ log))
    ⊎ ((is_partial ≡ true) × ((end : ℕ) × (rest ≡ log ++ end ∷ [])))

cut_log-IsLogOf :
    (is_partial : Bool) (rest log : Bytes)
    → cut_log is_partial rest ≡ ok log
    → IsLogOf is_partial log rest
unfolding cut_log
cut_log-IsLogOf false rest log h = inl (refl, ok-injective h)
cut_log-IsLogOf true [] log h = ground arith
cut_log-IsLogOf true (x ∷ xs) log h =
    let (end, e) = last_byte x xs in inr (refl, (end, e ∙ ap (λ l. l ++ end ∷ []) (ok-injective h)))

-- Whatever is decoded, the line was made of the fields of the row, a tag and the log: nothing is lost
-- but the last byte of a part.
decode_cri-split :
    (line : Bytes) (row : CriRow)
    → decode_cri line ≡ ok row
    → (tags : Bytes) × (rest : Bytes) × (line ≡ cri_line row.time row.stream tags rest)
      × IsLogOf row.is_partial row.log rest
unfolding decode_cri
decode_cri-split line row h =
    let ((time, a), e, h1) = >>=-eq-ok (field timestamp_is_not_found line) _ h in
    let ((stream, b), f, h2) = >>=-eq-ok (field stream_type_is_not_found a) _ h1 in
    let ((tags, rest), g, h3) = >>=-eq-ok (field log_tag_is_not_found b) _ h2 in
    let (is_partial, p, h4) = >>=-eq-ok (is_partial_tag tags) _ h3 in
    let (log, c, h5) = >>=-eq-ok (cut_log is_partial rest) _ h4 in
    let k1 = field_split _ line time a e in
    let k2 = field_split _ a stream b f in
    let k3 = field_split _ b tags rest g in
    subst
      (λ (r : CriRow).
        (ts : Bytes) × (rs : Bytes) × (line ≡ cri_line r.time r.stream ts rs)
        × IsLogOf r.is_partial r.log rs)
      (ok-injective h5)
      (
        tags,
        rest,
        k1 ∙ ap (λ x. time ++ cri_delimiter ∷ x) (k2 ∙ ap (λ x. stream ++ cri_delimiter ∷ x) k3),
        cut_log-IsLogOf is_partial rest log c,
      )
