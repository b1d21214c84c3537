-- ===== src/FileInput/Jobs/Restart.antt =====
-- The offsets that plugin/input/file/provider.go commits, and what is read again after a restart.
use file_d.Base.{
  ℕ, ltb, leb, Bytes, bytes_eq, ◌+◌, ◌-◌, ◌^◌, ◌≤◌, ◌<◌, ◌≡◌, ◌≢◌, ◌↔◌, refl, sym, subst, ap, ◌∙◌,
  inl, inr, ◌⊎◌, Bool, true, false, not, ◌||◌, Option, none, some, List, [], ◌∷◌, length, All,
  if◌then◌else◌, arith, Bool-cases, if_true, if_false, ltb→lt, leb→le, ok, err, ok-injective,
}
use file_d.Base.Int.{inc}
use file_d.Pipeline.Event.{Event, is_regular}
use file_d.FileInput.Offsets.{Kv, get, set}
use file_d.FileInput.Offsets.Map.{get-set}
use file_d.FileInput.Worker.{total_length}
use file_d.FileInput.Worker
use file_d.FileInput.Jobs.{
  Job, Turn, Provider, offset_corruption, exceeds_count, with_job, seek, find_job, min_offset,
  continue_at, done_job, check_file_was_truncated, truncate_job,
}
use file_d.FileInput.Jobs.Calls.{value_of, commit_to, pass_offset, pass_event}
use file_d.FileInput.Jobs.Turns.{process_eof, end_with}
use file_d.FileInput.Jobs.Table.{find_job-put_job}

min_offset-le :
    (least : ℕ) (so : List Kv)
    → (min_offset least so ≤ least)
      × ((name : Bytes) (n : ℕ) → get so name ≡ some n → min_offset least so ≤ n)
unfolding min_offset get
min_offset-le least [] = (omega arith, λ name n h. cc)
min_offset-le least (kv ∷ so) = elim (Bool-cases (ltb kv.offset least)) [
  | inl e ↦
      let (l, m) = min_offset-le kv.offset so in
      rw (if_true kv.offset least e) (
        omega (arith, ltb→lt kv.offset least e),
        λ name n h. elim (Bool-cases (bytes_eq kv.stream name)) [
          | inl f ↦ ground (arith, l)
          | inr f ↦ m name n (sym (if_false _ _ f) ∙ h)
        ],
      )
  | inr e ↦
      let (l, m) = min_offset-le least so in
      rw (if_false kv.offset least e) (
        l,
        λ name n h. elim (Bool-cases (bytes_eq kv.stream name)) [
          | inl f ↦ ground (arith, l)
          | inr f ↦ m name n (sym (if_false _ _ f) ∙ h)
        ],
      )
]

le-min_offset :
    (bound least : ℕ) (so : List Kv)
    → bound ≤ least
    → All (λ (kv : Kv). bound ≤ kv.offset) so
    → bound ≤ min_offset least so
unfolding min_offset
le-min_offset bound least [] h all = h
le-min_offset bound least (kv ∷ so) h (here, all) =
    le-min_offset bound (if ltb kv.offset least then kv.offset else least) so (ground arith) all

continue_at-job :
    (so : List Kv) (job j : Job)
    → continue_at (some so) job ≡ ok j
    → (j.offsets ≡ so) × (j.cur_offset ≡ min_offset (2 ^ 63 - 1) so)
unfolding continue_at
continue_at-job [] job j h = cc
continue_at-job (kv ∷ so) job j h =
    let e = ok-injective h in
    (ap (λ (x : Job). x.offsets) (sym e), ap (λ (x : Job). x.cur_offset) (sym e))

pass_offset_iff : (saved offset : ℕ) → (pass_offset (some saved) offset ≡ true) ↔ (saved < offset)
unfolding pass_offset
pass_offset_iff saved offset = ground arith

-- After a restart, a job starts at or before every offset that was saved for it. So an event of a
-- stream with a saved offset that was not committed, its offset is over the saved one, is behind the
-- place where the reading starts, and is passed; one that was committed is not passed again.
pub restart_reads_again :
    (so : List Kv) (job j : Job) (event : Event) (saved : ℕ)
    → continue_at (some so) job ≡ ok j
    → get so event.stream_name ≡ some saved
    → ((pass_event j event ≡ true) ↔ (saved < event.offset))
      × (saved < event.offset → j.cur_offset < event.offset)
unfolding pass_event
restart_reads_again so job j event saved h found =
    let (same, at) = continue_at-job so job j h in
    let (l, m) = min_offset-le (2 ^ 63 - 1) so in
    (
      subst (λ o. (pass_offset o event.offset ≡ true) ↔ (saved < event.offset))
          (sym (ap (λ os. get os event.stream_name) same ∙ found))
          (pass_offset_iff saved event.offset),
      λ newer. omega (arith, at, m event.stream_name saved found),
    )

-- An event of a stream without a saved offset is not read again if its offset is not over the saved
-- ones of the other streams, although it would be passed: it is lost if it was not committed.
pub restart_skips_unsaved :
    (so : List Kv) (job j : Job) (event : Event)
    → continue_at (some so) job ≡ ok j
    → event.offset < 2 ^ 63
    → get so event.stream_name ≡ none
    → All (λ (kv : Kv). event.offset ≤ kv.offset) so
    → (event.offset ≤ j.cur_offset) × (pass_event j event ≡ true)
unfolding pass_event pass_offset
restart_skips_unsaved so job j event h small absent all =
    let (same, at) = continue_at-job so job j h in
    (
      omega (arith, at, le-min_offset event.offset (2 ^ 63 - 1) so (omega arith) all),
      rw (same, absent) refl,
    )

stale_by :
    (regular : Bool) (n m : ℕ) → (not regular || leb n m) ≡ true → (regular ≡ false) ⊎ (n ≤ m)
stale_by true n m h = inr (leb→le n m h)
stale_by false n m h = inl refl

-- A commit that the job counts, of a regular event that no truncation made stale, gives its stream the
-- event's offset, which is over the one before, and leaves every other stream its own; without that
-- order it is refused, and a commit that the job does not count changes nothing.
pub commit_to-offsets :
    (p : Provider) (event : Event) (job : Job)
    → find_job job.source_id p.jobs ≡ some job
    → ((is_regular event.kind ≡ false) ⊎ (event.seq_id ≤ job.ignore_events_le))
        × (commit_to p event job ≡ ok p)
      ⊎ ((event.offset ≤ value_of (get job.offsets event.stream_name))
          × (commit_to p event job ≡ err offset_corruption))
      ⊎ ((value_of (get job.offsets event.stream_name) < event.offset)
          × ((q : Provider) × (j : Job) × (commit_to p event job ≡ ok q)
              × (find_job job.source_id q.jobs ≡ some j)
              × (get j.offsets event.stream_name ≡ some event.offset)
              × ((other : Bytes)
                  → event.stream_name ≢ other
                  → get j.offsets other ≡ get job.offsets other)))
unfolding commit_to
commit_to-offsets p event job found =
    let stale = not (is_regular event.kind) || leb event.seq_id job.ignore_events_le in
    let value = value_of (get job.offsets event.stream_name) in
    elim (Bool-cases stale) [
      | inl e ↦
          inl (stale_by (is_regular event.kind) event.seq_id job.ignore_events_le e, if_true _ _ e)
      | inr e ↦ elim (Bool-cases (leb event.offset value)) [
        | inl f ↦ inr (inl (leb→le event.offset value f, if_false _ _ e ∙ if_true _ _ f))
        | inr f ↦
            let j : Job = record job { offsets = set job.offsets event.stream_name event.offset } in
            let (here, others) = get-set job.offsets event.stream_name event.offset in
            inr (
              inr (
                ground arith,
                (
                  _,
                  j,
                  if_false _ _ e ∙ if_false _ _ f,
                  find_job-put_job job j p.jobs found,
                  here,
                  others,
                ),
              ))
      ]
    ]

done_job-job :
    (p q : Provider) (job k : Job)
    → find_job job.source_id p.jobs ≡ some k
    → done_job p job ≡ ok q
    → find_job job.source_id q.jobs ≡ some (record job { is_done = true; is_virgin = false })
unfolding done_job
done_job-job p q job k found h = elim (Bool-cases job.is_done) [
  | inl e ↦ ground arith
  | inr e ↦ elim (Bool-cases (exceeds_count (inc p.jobs_done) (length p.jobs))) [
    | inl f ↦ ground arith
    | inr f ↦
        let result = ok-injective (sym (if_false _ _ e ∙ if_false _ _ f) ∙ h) in
        ap (λ (r : Provider). find_job job.source_id r.jobs) (sym result)
        ∙ find_job-put_job k (record job { is_done = true; is_virgin = false }) p.jobs found
  ]
]

process_eof-job :
    (p q : Provider) (job k : Job) (total size : ℕ)
    → find_job job.source_id p.jobs ≡ some k
    → total ≤ size
    → process_eof p job total size ≡ ok q
    → find_job job.source_id q.jobs ≡ some (record job { is_done = true; is_virgin = false })
unfolding process_eof
process_eof-job p q job k total size found fits h =
    let e : ltb size total ≡ false = ground arith in
    let checked : (if ltb size total then truncate_job job else job) ≡ job = if_false _ _ e in
    done_job-job _ q job job (find_job-put_job k job p.jobs found)
      (ap (λ (x : Job). done_job (with_job p x) x) (sym checked) ∙ h)

some_eq : (a b : Job) → ◌≡◌ {A = Option Job} (some a) (some b) → a ≡ b
some_eq a b h = cc

-- A write to a file that a worker reads: checkFileWasTruncated moves `curOffset` to where the
-- descriptor stands, behind the chunks of the turn, and the end of the turn adds their length again.
-- The next turn gives its lines offsets that are too large by the bytes that the turn had read.
pub read_counted_twice :
    (p q : Provider) (t : Turn) (others : List Turn) (job j : Job) (size seq : ℕ)
    (after : Worker.Job) (calls : List Worker.Call)
    → find_job job.source_id p.jobs ≡ some job
    → job.position ≡ job.cur_offset + total_length t.bufs
    → t.seen.cur_offset ≡ job.cur_offset
    → job.position ≤ size
    → end_with p t others size seq (check_file_was_truncated job size) (ok (after, calls)) ≡ ok q
    → find_job job.source_id q.jobs ≡ some j
    → j.cur_offset ≡ j.position + total_length t.bufs
unfolding end_with check_file_was_truncated
read_counted_twice p q t others job j size seq after calls found at began fits ends has =
    let e : ltb size job.position ≡ false = ground arith in
    let checked : check_file_was_truncated job size ≡ seek job.position job = if_false _ _ e in
    let ends' =
      ap (λ (x : Job). end_with p t others size seq x (ok (after, calls))) (sym checked) ∙ ends in
    let finds = process_eof-job _ q _ job _ size found (omega arith) ends' in
    let same = some_eq j _ (sym has ∙ finds) in
    ap (λ (x : Job). x.cur_offset) same
    ∙ ap (λ (x : Job). x.position + total_length t.bufs) (sym same)
