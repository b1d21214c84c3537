-- ===== src/FileInput/Offsets/RoundTrip.antt =====
-- Reading back the offsets that `save` of plugin/input/file/offset.go wrote.
use file_d.Base.{
  index_byte-append, index_byte-found, take_prefix, drop_past, ℕ, zero, suc, ◌^◌, ◌≤◌, ◌<◌, ◌≡◌,
  ◌≢◌, refl, sym, ap, ◌∙◌, Bytes, true, false, ◌||◌, none, List, [], ◌∷◌, ◌++◌, arith, length, All,
  is_empty, index_byte, if◌then◌else◌, if_true, if_false, ok, Bool-cases, inl, inr, append_assoc,
  append-nil, length-append,
}
use file_d.FileInput.Offsets.{
  Kv, SavedJob, InodeOffsets, newline, colon, digits, get, has, is_new, next_stream,
  parse_streams_loop, parse_streams, parse_one, parse_loop, parse, save_streams, save_job, save,
  file_prefix, inode_prefix, source_prefix, streams_prefix, starts_entry,
}
use file_d.FileInput.Offsets.Numbers.{digits-index_byte, parse_uint-digits}
use file_d.FileInput.Offsets.Fuel.{parse_one-shorter}
use file_d.FileInput.Offsets.Lines.{
  parse_line_ok, stream_line, parse_stream_ok, stream_line-newline,
}

-- A stream that can be saved. Its name comes from the data.
abbrev pub IsPlain : Kv → Type 0
IsPlain kv =
    (kv.stream ≢ [])
    × (index_byte kv.stream colon ≡ none)
    × (index_byte kv.stream newline ≡ none)
    × (kv.offset < 2 ^ 63)

-- The streams differ from each other and from those of `seen`.
abbrev pub AreNew : List Kv → List Kv → Type 0
AreNew seen [] = Unit
AreNew seen (kv ∷ so) = (get seen kv.stream ≡ none) × AreNew (seen ++ kv ∷ []) so

next_stream_ok :
    (kv : Kv) (after : Bytes) (seen : List Kv)
    → IsPlain kv
    → get seen kv.stream ≡ none
    → next_stream
        (stream_line kv.stream kv.offset ++ newline ∷ after)
        seen
        (index_byte (stream_line kv.stream kv.offset ++ newline ∷ after) newline)
      ≡ ok (after, seen ++ kv ∷ [])
unfolding next_stream
next_stream_ok kv after seen (named, no_colon, no_newline, lt) new =
    rw
      (
        index_byte-found (stream_line kv.stream kv.offset) after newline
            (stream_line-newline kv.stream kv.offset no_newline),
        take_prefix (stream_line kv.stream kv.offset) (newline ∷ after),
        drop_past (stream_line kv.stream kv.offset) after newline,
        parse_stream_ok kv.stream kv.offset seen no_colon named lt new,
      )
      refl

-- The text ends, or the next entry starts.
abbrev IsEnd : Bytes → Type 0
IsEnd after = (is_empty after || starts_entry after) ≡ true

parse_streams_loop_ok :
    (fuel : ℕ) (so seen : List Kv) (after : Bytes)
    → length so < fuel
    → All IsPlain so
    → AreNew seen so
    → IsEnd after
    → parse_streams_loop fuel (save_streams so after) seen ≡ ok (after, seen ++ so)
unfolding parse_streams_loop save_streams
parse_streams_loop_ok zero so seen after h plain new end = elim h [ ]
parse_streams_loop_ok (suc fuel) [] seen after h plain new end =
    if_true _ _ end ∙ ap (λ s. ok (after, s)) (sym (append-nil seen))
parse_streams_loop_ok (suc fuel) (kv ∷ so) seen after h (p, plain) (n, new) end =
    rw (next_stream_ok kv (save_streams so after) seen p n) (
      parse_streams_loop_ok fuel so (seen ++ kv ∷ []) after (omega arith) plain new end
      ∙ ap (λ s. ok (after, s)) (append_assoc seen (kv ∷ []) so))

length-save_streams : (so : List Kv) (after : Bytes) → length so ≤ length (save_streams so after)
unfolding save_streams
length-save_streams [] after = omega arith
length-save_streams (kv ∷ so) after = ground (
  arith,
  length-append (stream_line kv.stream kv.offset) (newline ∷ save_streams so after),
  length-save_streams so after,
)

parse_streams_ok :
    (so : List Kv) (after : Bytes)
    → All IsPlain so
    → AreNew [] so
    → IsEnd after
    → parse_streams (streams_prefix ++ newline ∷ save_streams so after) ≡ ok (after, so)
unfolding parse_streams
parse_streams_ok so after plain new end =
    rw (parse_line_ok streams_prefix [] (save_streams so after) refl) (
      parse_streams_loop_ok (suc (length (save_streams so after))) so [] after
        (omega (arith, length-save_streams so after)) plain new end)

-- A job that can be saved.
abbrev pub IsSavable : SavedJob → Type 0
IsSavable job =
    (index_byte job.filename newline ≡ none)
    × (job.inode < 2 ^ 64)
    × (job.source_id < 2 ^ 64)
    × All IsPlain job.offsets
    × AreNew [] job.offsets

abbrev pub entry : SavedJob → InodeOffsets
entry job = record { filename = job.filename; source_id = job.source_id; streams = job.offsets }

-- What is saved of the jobs: a job without offsets is left out.
abbrev pub entries : List SavedJob → List InodeOffsets
entries [] = []
entries (job ∷ jobs) =
    let rest = entries jobs in if is_empty job.offsets then rest else entry job ∷ rest

-- The source identifiers differ from each other and from those of `seen`.
abbrev pub AreOther : List InodeOffsets → List InodeOffsets → Type 0
AreOther seen [] = Unit
AreOther seen (o ∷ os) = (has seen o.source_id ≡ false) × AreOther (seen ++ o ∷ []) os

pub number_line :
    (start : Bytes) (n : ℕ)
    → index_byte start newline ≡ none
    → index_byte (start ++ digits 20 n) newline ≡ none
number_line start n h =
    index_byte-append start (digits 20 n) newline h
      (digits-index_byte 20 n newline (inl (omega arith)))

parse_one_ok :
    (job : SavedJob) (after : Bytes) (seen : List InodeOffsets)
    → IsSavable job
    → is_empty job.offsets ≡ false
    → has seen job.source_id ≡ false
    → IsEnd after
    → parse_one (save_job job after) seen ≡ ok (after, seen ++ entry job ∷ [])
unfolding parse_one save_job is_new
parse_one_ok job after seen (name, inode, source, plain, new) some_offsets other end =
    rw
      (
        if_false _ _ some_offsets,
        parse_line_ok file_prefix job.filename _
            (index_byte-append file_prefix job.filename newline refl name),
        parse_line_ok inode_prefix (digits 20 job.inode) _
            (number_line inode_prefix job.inode refl),
        parse_line_ok source_prefix (digits 20 job.source_id) _
            (number_line source_prefix job.source_id refl),
        parse_uint-digits job.inode inode,
        parse_uint-digits job.source_id source,
        other,
        parse_streams_ok job.offsets after plain new end,
      )
      refl

save-IsEnd : (jobs : List SavedJob) → IsEnd (save jobs)
unfolding save save_job
save-IsEnd [] = refl
save-IsEnd (job ∷ jobs) = elim (Bool-cases (is_empty job.offsets)) [
  | inl e ↦ rw e (save-IsEnd jobs)
  | inr e ↦ rw e refl
]

save_job_skipped :
    (job : SavedJob) (after : Bytes) → is_empty job.offsets ≡ true → save_job job after ≡ after
unfolding save_job
save_job_skipped job after h = if_true _ _ h

save_job_kept :
    (job : SavedJob) (after : Bytes)
    → is_empty job.offsets ≡ false
    → is_empty (save_job job after) ≡ false
unfolding save_job
save_job_kept job after h = rw h refl

parse_loop_ok :
    (fuel : ℕ) (jobs : List SavedJob) (seen : List InodeOffsets)
    → length (save jobs) < fuel
    → All IsSavable jobs
    → AreOther seen (entries jobs)
    → parse_loop fuel (save jobs) seen ≡ ok (seen ++ entries jobs)
unfolding parse_loop save
parse_loop_ok zero jobs seen h all other = elim h [ ]
parse_loop_ok (suc fuel) [] seen h all other = ap ok (sym (append-nil seen))
parse_loop_ok (suc fuel) (job ∷ jobs) seen h (one, all) other =
    elim (Bool-cases (is_empty job.offsets)) [
      | inl e ↦
          rw (save_job_skipped job (save jobs) e, e)
            (parse_loop_ok (suc fuel) jobs seen (rw (save_job_skipped job (save jobs) e, save) at h)
              all (rw e at other))
      | inr e ↦
          let (new, others) = rw e at other in
          let one_ok = parse_one_ok job (save jobs) seen one e new (save-IsEnd jobs) in
          rw (save_job_kept job (save jobs) e, one_ok, e)
            (parse_loop_ok fuel jobs (seen ++ entry job ∷ [])
                (omega (arith, parse_one-shorter _ _ seen _ one_ok)) all others
              ∙ ap ok (append_assoc seen (entry job ∷ []) (entries jobs)))
    ]

-- The file that `save` writes for jobs that can be saved and whose saved source identifiers differ is
-- read back by `parse`: each job with an offset gives its name, its identifier and its offsets, in
-- order, and nothing else is read.
pub parse-save :
    (jobs : List SavedJob)
    → All IsSavable jobs
    → AreOther [] (entries jobs)
    → parse (save jobs) ≡ ok (entries jobs)
unfolding parse
parse-save jobs all other = parse_loop_ok (suc (length (save jobs))) jobs [] (omega arith) all other
