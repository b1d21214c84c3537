-- ===== src/FileInput/Jobs/Deleted.antt =====
-- The deletion of a job of plugin/input/file/provider.go, and a new job, keep the jobs counted right.
use file_d.Base.{
  ℕ, suc, ◌-◌, ◌≤◌, ◌<◌, ◌≡◌, ◌≢◌, refl, subst, some-injective, Option-cases, ap, ◌∙◌, inl, inr,
  true, none, some, List, ◌∷◌, length, arith, sum, Bool-cases,
}
use file_d.Base.Int.{pos, inc}
use file_d.FileInput.Jobs.{Job, Provider, find_job, delete_job}
use file_d.FileInput.Jobs.Table.{
  find_job-source_id, sum-delete_job, has_id, find_job-none, le-sum-find_job,
}
use file_d.FileInput.Jobs.Calls.{release_job, delete_released}
use file_d.FileInput.Jobs.Counted.{busy, rest_at, busy_rest_all, done, Inv, Good}

pub release_job-Good :
    (m : ℕ) (p : Provider) (job : Job)
    → find_job job.source_id p.jobs ≡ some job
    → job.is_done ≡ true
    → Inv m p
    → Good m (release_job p job)
unfolding release_job
release_job-Good m p job found rests v =
    let here = le-sum-find_job (rest_at job.source_id) job.source_id job p.jobs found in
    (
      record p { deleting = some job.source_id },
      rw rests refl,
      record {
        once = v.once;
        queued = v.queued;
        settled = v.settled;
        counted = v.counted;
        room = v.room;
        awake = v.awake;
        leaving = λ i h.
            let same : job.source_id ≡ i = some-injective _ _ h in
            subst (λ k. 1 ≤ sum (rest_at k) p.jobs) same (ground (arith, here));
      },
    )

-- The job that is deleted is there, and done.
find_leaving :
    (m : ℕ) (p : Provider) (id : ℕ)
    → p.deleting ≡ some id
    → Inv m p
    → (job : Job) × (find_job id p.jobs ≡ some job) × (job.is_done ≡ true)
find_leaving m p id e v = elim (Option-cases (find_job id p.jobs)) [
  | inl absent ↦
      absurd
        (omega (arith, v.leaving id e, busy_rest_all id p.jobs, find_job-none id p.jobs absent))
  | inr (job, found) ↦ elim (Bool-cases job.is_done) [
    | inl rests ↦ (job, found, rests)
    | inr works ↦
        let same = find_job-source_id id p.jobs job found in
        let one : busy id job ≡ 1 = ground (arith, same) in
        absurd (
          omega (
            arith,
            one,
            v.leaving id e,
            v.once id,
            busy_rest_all id p.jobs,
            le-sum-find_job (busy id) id job p.jobs found,
          ))
  ]
]

pub delete_released-Good :
    (m : ℕ) (p : Provider) (id : ℕ)
    → p.deleting ≡ some id
    → Inv m p
    → Good m (delete_released p (some id))
unfolding delete_released
delete_released-Good m p id e v =
    let (job, found, rests) = find_leaving m p id e v in
    let js : List Job = delete_job id p.jobs in
    let left : ℕ = sum done p.jobs - 1 in
    let here = le-sum-find_job done id job p.jobs found in
    let (gone, shorter) = sum-delete_job done id job p.jobs found in
    let counter : p.jobs_done ≡ pos (suc left) = v.settled ∙ ap pos (ground arith) in
    (
      record p { jobs = js; jobs_done = pos left; deleting = none },
      rw counter refl,
      record {
        once = λ i. ground (arith, v.once i, sum-delete_job (has_id i) id job p.jobs found);
        queued = λ i. ground (arith, v.queued i, sum-delete_job (busy i) id job p.jobs found);
        settled = ap pos (ground arith);
        counted = ground (arith, v.counted);
        room = omega (arith, v.room, shorter);
        awake = v.awake;
        leaving = λ i h. cc;
      },
    )

-- A new job, which is done, and is resumed at once.
pub insert_job-Inv :
    (m : ℕ) (p : Provider) (job : Job)
    → find_job job.source_id p.jobs ≡ none
    → job.is_done ≡ true
    → length p.jobs < m
    → Inv m p
    → Inv m (record p { jobs = job ∷ p.jobs; jobs_done = inc p.jobs_done })
insert_job-Inv m p job absent rests fits v = record {
  once = λ i. ground (arith, v.once i, find_job-none job.source_id p.jobs absent);
  queued = λ i. ground (arith, v.queued i);
  settled = ap inc v.settled ∙ ap pos (ground arith);
  counted = ground (arith, v.counted);
  room = omega arith;
  awake = v.awake;
  leaving = λ i h. ground (arith, v.leaving i h);
}

-- It is not the one that is deleted.
pub leaving_apart :
    (m : ℕ) (p : Provider) (id : ℕ) → find_job id p.jobs ≡ none → Inv m p → p.deleting ≢ some id
leaving_apart m p id absent v e =
    omega (arith, v.leaving id e, busy_rest_all id p.jobs, find_job-none id p.jobs absent)
