-- ===== src/FileInput/Jobs/Counted.antt =====
-- The jobs of plugin/input/file/provider.go are counted right: a job that is not done is with one
-- worker, in the channel, or about to be sent there, once, and `jobsDone` is the number of the others.
use file_d.Base.{
  ℕ, suc, ltb, Bytes, ◌+◌, ◌-◌, ◌≤◌, ◌≡◌, ◌≢◌, refl, sum_add, ap, ◌∙◌, inl, inr, true, false, some,
  List, [], ◌∷◌, ◌++◌, length, count, count-append, length-append, ◌==◌, if◌then◌else◌, arith, sum,
  Bool-cases, Result, ok,
}
use file_d.Base.Int.{pos}
use file_d.FileInput.Jobs.{
  Job, Turn, Provider, Fault, find_job, put_job, with_job, send_job, try_resume_job, take_at,
  send_resumed, done_job,
}
use file_d.FileInput.Jobs.Table.{
  find_job-source_id, length-put_job, sum-put_job, has_id, le-sum-find_job, take_at-length,
  count-take_at,
}

abbrev pub busy : ℕ → Job → ℕ
busy i j = if j.is_done then 0 else has_id i j

abbrev pub rest_at : ℕ → Job → ℕ
rest_at i j = if j.is_done then has_id i j else 0

busy_add_rest : (i : ℕ) (j : Job) → busy i j + rest_at i j ≡ has_id i j
busy_add_rest i j = ground arith

pub busy_rest_all :
    (i : ℕ) (js : List Job) → sum (busy i) js + sum (rest_at i) js ≡ sum (has_id i) js
busy_rest_all i js = sum_add (busy i) (rest_at i) (has_id i) (busy_add_rest i) js

abbrev pub done : Job → ℕ
done j = if j.is_done then 1 else 0

abbrev pub works_on : ℕ → Turn → ℕ
works_on i t = if t.seen.source_id == i then 1 else 0

-- A worker has a turn with a job that is done.
abbrev pub asleep : Turn → ℕ
asleep t = if t.seen.is_done then 1 else 0

-- How often a job is about to be sent, in the channel, or with a worker.
abbrev pub held : ℕ → Provider → ℕ
held i p = count i p.sending + count i p.jobs_chan + sum (works_on i) p.working

pub record Inv (max_files : ℕ) (p : Provider) : Type 0 where
  pub once : (i : ℕ) → sum (has_id i) p.jobs ≤ 1
  pub queued : (i : ℕ) → held i p ≡ sum (busy i) p.jobs
  pub settled : p.jobs_done ≡ pos (sum done p.jobs)
  pub counted :
      length p.sending + length p.jobs_chan + length p.working + sum done p.jobs ≡ length p.jobs
  pub room : length p.jobs ≤ max_files
  pub awake : sum asleep p.working ≡ 0
  -- what the maintenance deletes is in the map, and done
  pub leaving : (i : ℕ) → p.deleting ≡ some i → 1 ≤ sum (rest_at i) p.jobs

-- A write to a job that leaves its id and its state alone.
pub with_job-Inv :
    (max_files : ℕ) (p : Provider) (j j' : Job)
    → find_job j'.source_id p.jobs ≡ some j
    → j'.is_done ≡ j.is_done
    → Inv max_files p
    → Inv max_files (with_job p j')
with_job-Inv m p j j' found same v =
    let id = find_job-source_id j'.source_id p.jobs j found in
    record {
      once = λ i. ground (arith, v.once i, sum-put_job (has_id i) j j' p.jobs found);
      queued = λ i. ground (arith, v.queued i, sum-put_job (busy i) j j' p.jobs found);
      settled = v.settled ∙ ap pos (ground (arith, sum-put_job done j j' p.jobs found));
      counted =
          ground (arith, v.counted, sum-put_job done j j' p.jobs found, length-put_job j' p.jobs);
      room = omega (arith, v.room, length-put_job j' p.jobs);
      awake = v.awake;
      leaving = λ i h. ground (arith, v.leaving i h, sum-put_job (rest_at i) j j' p.jobs found);
    }

abbrev pub Good : ℕ → Result Fault Provider → Type 0
Good m r = (q : Provider) × (r ≡ ok q) × Inv m q

done_one : (j : Job) → j.is_done ≡ true → done j ≡ 1
done_one j h = ground arith

pub try_resume_job-Good :
    (m : ℕ) (p : Provider) (job : Job) (filename : Bytes)
    → find_job job.source_id p.jobs ≡ some job
    → p.deleting ≢ some job.source_id
    → Inv m p
    → Good m (try_resume_job p job filename)
unfolding try_resume_job
try_resume_job-Good m p job filename found stays v = elim (Bool-cases job.is_done) [
  | inr works ↦ (p, rw works refl, v)
  | inl rests ↦
      let here = le-sum-find_job done job.source_id job p.jobs found in
      let job' : Job = record job { filename = filename; is_done = false } in
      let left : ℕ = sum done p.jobs - 1 in
      let counter : p.jobs_done ≡ pos (suc left) = v.settled ∙ ap pos (ground arith) in
      let q : Provider = record p {
        jobs = put_job job' p.jobs;
        jobs_done = pos left;
        sending = p.sending ++ job.source_id ∷ [];
      } in
      (
        q,
        rw (rests, counter) refl,
        record {
          once = λ i. ground (arith, v.once i, sum-put_job (has_id i) job job' p.jobs found);
          queued = λ i. ground (
            arith,
            v.queued i,
            sum-put_job (busy i) job job' p.jobs found,
            count-append i p.sending (job.source_id ∷ []),
          );
          settled = ap pos (ground (arith, sum-put_job done job job' p.jobs found));
          counted = ground (
            arith,
            v.counted,
            sum-put_job done job job' p.jobs found,
            length-put_job job' p.jobs,
            length-append p.sending (job.source_id ∷ []),
          );
          room = omega (arith, v.room, length-put_job job' p.jobs);
          awake = v.awake;
          leaving = λ i h. elim (Bool-cases (job.source_id == i)) [
            | inl same ↦
                let to_job : i ≡ job.source_id = ground arith in absurd (stays (h ∙ ap some to_job))
            | inr apart ↦
                ground (arith, v.leaving i h, sum-put_job (rest_at i) job job' p.jobs found)
          ];
        },
      )
]

-- The channel has room for a job that was resumed.
pub send_resumed-Good :
    (m : ℕ) (p : Provider) (i id : ℕ) (others : List ℕ)
    → take_at i p.sending ≡ some (id, others)
    → Inv m p
    → Good m (send_resumed m p (some (id, others)))
unfolding send_resumed send_job
send_resumed-Good m p i id others e v =
    let shorter = take_at-length i p.sending id others e in
    let fits : ltb (length p.jobs_chan) m ≡ true = ground (arith, v.counted, v.room, shorter) in
    (
      record p { sending = others; jobs_chan = p.jobs_chan ++ id ∷ [] },
      rw fits refl,
      record {
        once = v.once;
        queued = λ n. ground (
          arith,
          v.queued n,
          count-take_at n i p.sending id others e,
          count-append n p.jobs_chan (id ∷ []),
        );
        settled = v.settled;
        counted = omega (arith, v.counted, shorter, length-append p.jobs_chan (id ∷ []));
        room = v.room;
        awake = v.awake;
        leaving = v.leaving;
      },
    )

-- A worker that has let its turn go marks the job.
pub done_job-Good :
    (m : ℕ) (p : Provider) (job : Job) (j : Job)
    → find_job job.source_id p.jobs ≡ some j
    → job.is_done ≡ false
    → j.is_done ≡ false
    → ((i : ℕ) → sum (has_id i) p.jobs ≤ 1)
    → ((i : ℕ) → held i p + has_id i job ≡ sum (busy i) p.jobs)
    → p.jobs_done ≡ pos (sum done p.jobs)
    → suc (length p.sending + length p.jobs_chan + length p.working + sum done p.jobs)
      ≡ length p.jobs
    → length p.jobs ≤ m
    → sum asleep p.working ≡ 0
    → ((i : ℕ) → p.deleting ≡ some i → 1 ≤ sum (rest_at i) p.jobs)
    → Good m (done_job p job)
unfolding done_job
done_job-Good m p job j found works worked once queued settled counted room awake leaving =
    let job' : Job = record job { is_done = true; is_virgin = false } in
    let few : ltb (length p.jobs) (suc (sum done p.jobs)) ≡ false = ground arith in
    let q : Provider = record p {
      jobs = put_job job' p.jobs;
      jobs_done = pos (suc (sum done p.jobs));
    } in
    (
      q,
      rw (works, settled, few) refl,
      record {
        once = λ i. ground (
          arith,
          once i,
          sum-put_job (has_id i) j job' p.jobs found,
          find_job-source_id job.source_id p.jobs j found,
        );
        queued = λ i. ground (
          arith,
          queued i,
          sum-put_job (busy i) j job' p.jobs found,
          find_job-source_id job.source_id p.jobs j found,
        );
        settled = ap pos (ground (arith, sum-put_job done j job' p.jobs found));
        counted =
            ground
              (arith, counted, sum-put_job done j job' p.jobs found, length-put_job job' p.jobs);
        room = omega (arith, room, length-put_job job' p.jobs);
        awake = awake;
        leaving = λ i h. ground (arith, leaving i h, sum-put_job (rest_at i) j job' p.jobs found);
      },
    )
