-- ===== src/FileInput/Jobs/Turned.antt =====
-- The turns of the workers and the reset keep the jobs of plugin/input/file counted right.
use file_d.Base.{
  ℕ, suc, ltb, Bytes, ◌+◌, ◌<◌, ◌≡◌, refl, sym, subst, ap, ◌∙◌, inl, inr, Bool, true, false, some,
  List, [], ◌∷◌, length, ◌==◌, if◌then◌else◌, arith, sum-map, Bool-cases, if_false, Option-cases,
  List-cases, ok, ◌||◌, map,
}
use file_d.Base.Int.{pos}
use file_d.FileInput.Worker.{work}
use file_d.FileInput.Worker
use file_d.FileInput.Jobs.{Job, Turn, Config, Provider, find_job, with_job, truncate_job}
use file_d.FileInput.Jobs.Turns.{
  receive_job, receive_from, receive, take_turn, read_buf, process_eof, end_turn, read_turn,
  finish_turn, truncate_jobs, reset_job, end_with,
}
use file_d.FileInput.Jobs.Table.{
  find_job_self, find_job-source_id, has_id, le-sum-find_job, find_job-put_job, sum-take_turn,
}
use file_d.FileInput.Jobs.Counted.{
  busy, rest_at, busy_rest_all, done, works_on, asleep, held, Inv, with_job-Inv, Good,
  done_job-Good,
}
use file_d.FileInput.Jobs.Safe.{Fine, Good-Fine}

-- A job that is in the channel or with a worker is not done.
held-works :
    (m : ℕ) (p : Provider) (id : ℕ) (job : Job)
    → find_job id p.jobs ≡ some job
    → 0 < held id p
    → Inv m p
    → job.is_done ≡ false
held-works m p id job found some_hold v = elim (Bool-cases job.is_done) [
  | inr works ↦ works
  | inl rests ↦
      let all = busy_rest_all id p.jobs in
      let here = le-sum-find_job (rest_at id) id job p.jobs found in
      let same = find_job-source_id id p.jobs job found in
      let one : rest_at id job ≡ 1 = ground arith in ground (arith, v.once id, v.queued id)
]

pub receive-Fine : (m : ℕ) (p : Provider) → Inv m p → Fine m (receive p)
unfolding receive receive_from receive_job
receive-Fine m p v = elim (List-cases p.jobs_chan) [
  | inl e ↦ rw e tt
  | inr (id, rest, e) ↦ elim (Option-cases (find_job id p.jobs)) [
    | inl absent ↦ rw (e, absent) tt
    | inr (job, found) ↦
        let works = held-works m p id job found (ground arith) v in
        let same = find_job-source_id id p.jobs job found in
        rw (e, found)
          (subst (Fine m) (sym (if_false _ _ works)) (record {
            once = v.once;
            queued = λ i. ground (arith, v.queued i);
            settled = v.settled;
            counted = ground (arith, v.counted);
            room = v.room;
            awake = ground (arith, v.awake);
            leaving = v.leaving;
          }))
  ]
]

pub read_turn-Fine :
    (m i : ℕ) (p : Provider) (buf : Bytes)
    → Inv m p
    → Fine m (read_turn p buf (take_turn i p.working))
unfolding read_turn read_buf
read_turn-Fine m i p buf v = elim (Option-cases (take_turn i p.working)) [
  | inl e ↦ rw e tt
  | inr ((t, others), e) ↦ elim (Option-cases (find_job t.seen.source_id p.jobs)) [
    | inl absent ↦ rw (e, absent) tt
    | inr (job, found) ↦
        let here = find_job_self t.seen.source_id p.jobs job found in
        let on : Job = record job { position = job.position + length buf } in
        let w = with_job-Inv m p job on here refl v in
        rw (e, found)
          (record {
            once = w.once;
            queued =
                λ k. ground (arith, w.queued k, sum-take_turn (works_on k) i p.working t others e);
            settled = w.settled;
            counted = ground (arith, w.counted, sum-take_turn asleep i p.working t others e);
            room = w.room;
            awake = ground (arith, w.awake, sum-take_turn asleep i p.working t others e);
            leaving = w.leaving;
          })
  ]
]

truncate_job-keeps :
    (b : Bool) (job : Job)
    → ((if b then truncate_job job else job).source_id ≡ job.source_id)
      × ((if b then truncate_job job else job).is_done ≡ job.is_done)
unfolding truncate_job
truncate_job-keeps true job = (refl, refl)
truncate_job-keeps false job = (refl, refl)

work-total :
    (max : ℕ) (job : Worker.Job) (bufs : List Bytes)
    → job.is_done ≡ false
    → (after : Worker.Job) × (calls : List Worker.Call) × (work max job bufs ≡ ok (after, calls))
unfolding work
work-total max job bufs works = (_, _, if_false _ _ works)

-- A turn ends: its job was not done, and is done now.
process_eof-Good :
    (m i : ℕ) (p : Provider) (t : Turn) (others : List Turn) (job after : Job) (total size : ℕ)
    → take_turn i p.working ≡ some (t, others)
    → find_job t.seen.source_id p.jobs ≡ some job
    → after.source_id ≡ job.source_id
    → after.is_done ≡ job.is_done
    → Inv m p
    → Good m (process_eof (record p { working = others }) after total size)
unfolding process_eof
process_eof-Good m i p t others job after total size e found same_id same v =
    let checked : Job = if ltb size total then truncate_job after else after in
    let (kept_id, kept) = truncate_job-keeps (ltb size total) after in
    let here = find_job_self t.seen.source_id p.jobs job found in
    let to_job : find_job checked.source_id p.jobs ≡ some job =
      subst (λ k. find_job k p.jobs ≡ some job) (sym (kept_id ∙ same_id)) here in
    let shares = λ (k : ℕ). sum-take_turn (works_on k) i p.working t others e in
    let same_turn : t.seen.source_id ≡ checked.source_id =
      sym (find_job-source_id t.seen.source_id p.jobs job found) ∙ sym (kept_id ∙ same_id) in
    let works =
      held-works m p t.seen.source_id job found (ground (arith, shares t.seen.source_id)) v in
    let w = with_job-Inv m p job checked to_job (kept ∙ same) v in
    let p' : Provider = record (with_job p checked) { working = others } in
    done_job-Good m p' checked checked (find_job-put_job job checked p.jobs to_job)
      (kept ∙ same ∙ works) (kept ∙ same ∙ works) w.once
      (λ k. ground (arith, w.queued k, shares k, same_turn)) w.settled
      (omega (arith, w.counted, shares 0)) w.room
      (omega (arith, w.awake, sum-take_turn asleep i p.working t others e)) w.leaving

pub finish_turn-Fine :
    (config : Config) (i : ℕ) (p : Provider) (size seq : ℕ)
    → Inv config.max_files p
    → Fine config.max_files (finish_turn config p size seq (take_turn i p.working))
unfolding finish_turn end_turn end_with
finish_turn-Fine config i p size seq v = elim (Option-cases (take_turn i p.working)) [
  | inl e ↦ rw e tt
  | inr ((t, others), e) ↦ elim (Option-cases (find_job t.seen.source_id p.jobs)) [
    | inl absent ↦ rw (e, absent) tt
    | inr (job, found) ↦
        let awake : t.seen.is_done ≡ false =
          ground (arith, v.awake, sum-take_turn asleep i p.working t others e) in
        let (after, calls, w) = work-total config.max_event_size t.seen t.bufs awake in
        rw (e, found, w)
          (Good-Fine config.max_files _
            (process_eof-Good config.max_files i p t others job _ _ size e found refl refl v))
  ]
]

-- A change of every job that leaves the ids and the states alone.
reset_job-keeps :
    (all : Bool) (inode id : ℕ) (j : Job)
    → ((reset_job all inode id j).source_id ≡ j.source_id)
      × ((reset_job all inode id j).is_done ≡ j.is_done)
unfolding reset_job
reset_job-keeps all inode id j = truncate_job-keeps (all || j.inode == inode || j.source_id == id) j

reset_job-weighs :
    (all : Bool) (inode id : ℕ) (k : ℕ) (j : Job)
    → (has_id k (reset_job all inode id j) ≡ has_id k j)
      × (busy k (reset_job all inode id j) ≡ busy k j)
      × (done (reset_job all inode id j) ≡ done j)
      × (rest_at k (reset_job all inode id j) ≡ rest_at k j)
reset_job-weighs all inode id k j =
    let (same_id, same) = reset_job-keeps all inode id j in
    rw (same_id, same) (refl, refl, refl, refl)

length-map {ℓ κ} :
    {A : Type ℓ} {B : Type κ} (f : A → B) (xs : List A) → length (map f xs) ≡ length xs
length-map f [] = refl
length-map f (x ∷ xs) = ap suc (length-map f xs)

pub truncate_jobs-Inv :
    (m : ℕ) (all : Bool) (inode id : ℕ) (p : Provider)
    → Inv m p
    → Inv m (record p { jobs = truncate_jobs all inode id p.jobs })
truncate_jobs-Inv m all inode id p v =
    let f : Job → Job = reset_job all inode id in
    let weighs = reset_job-weighs all inode id in
    record {
      once = λ k. rw (sum-map (has_id k) f (λ j. (weighs k j).0) p.jobs) (v.once k);
      queued = λ k. rw (sum-map (busy k) f (λ j. (weighs k j).1) p.jobs) (v.queued k);
      settled = v.settled ∙ ap pos (sym (sum-map done f (λ j. (weighs 0 j).2) p.jobs));
      counted = rw (sum-map done f (λ j. (weighs 0 j).2) p.jobs, length-map f p.jobs) v.counted;
      room = rw (length-map f p.jobs) v.room;
      awake = v.awake;
      leaving = λ k h. rw (sum-map (rest_at k) f (λ j. (weighs k j).3) p.jobs) (v.leaving k h);
    }
