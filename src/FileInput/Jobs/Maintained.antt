-- ===== src/FileInput/Jobs/Maintained.antt =====
-- Commits and the maintenance keep the jobs of plugin/input/file counted right.
use file_d.Base.{
  ℕ, bytes_eq, ◌+◌, ◌≡◌, ◌≢◌, refl, sym, subst, inl, inr, true, false, not, Option, none, some,
  ◌++◌, ◌==◌, arith, Bool-cases, if_true, if_false, Option-cases, leb, ◌||◌,
}
use file_d.Pipeline.Event.{Event, is_regular}
use file_d.FileInput.Offsets.{get, set}
use file_d.FileInput.Jobs.{Job, Provider, Stat, find_job, with_job, seek}
use file_d.FileInput.Jobs.Calls.{
  value_of, commit_to, commit_found, commit, Look, reopen, inspect, base, dir, maintain_at, resumed,
  deleted, maintenance_job,
}
use file_d.FileInput.Jobs.Table.{find_job_self, find_job-put_job}
use file_d.FileInput.Jobs.Counted.{Inv, with_job-Inv, try_resume_job-Good}
use file_d.FileInput.Jobs.Deleted.{release_job-Good}
use file_d.FileInput.Jobs.Safe.{Fine, FinePair, Good-FinePair, elsewhere-Inv}

pub commit-Fine : (m : ℕ) (p : Provider) (event : Event) → Inv m p → Fine m (commit p event)
unfolding commit commit_found commit_to
commit-Fine m p event v = elim (Option-cases (find_job event.source_id p.jobs)) [
  | inl absent ↦ rw absent v
  | inr (job, found) ↦
      let here = find_job_self event.source_id p.jobs job found in
      elim (Bool-cases (not (is_regular event.kind) || leb event.seq_id job.ignore_events_le)) [
        | inl ignored ↦ rw (found, ignored) v
        | inr counts ↦
            elim (Bool-cases (leb event.offset (value_of (get job.offsets event.stream_name)))) [
              | inl back ↦ rw (found, counts, back) tt
              | inr on ↦
                  let committed : Job = record job {
                    offsets = set job.offsets event.stream_name event.offset;
                  } in
                  rw (found, counts, on)
                    (with_job-Inv m (record p { offsets_committed = p.offsets_committed + 1 }) job
                      committed here refl
                      (elsewhere-Inv m p p.is_started (p.offsets_committed + 1) p.refreshing v))
            ]
      ]
]

not_leaving : (p : Provider) (id : ℕ) → p.deleting ≡ none → p.deleting ≢ some id
not_leaving p id idle h = cc

reopen-Fine :
    (m : ℕ) (p : Provider) (job : Job) (reopened : Option ℕ)
    → find_job job.source_id p.jobs ≡ some job
    → job.is_done ≡ true
    → Inv m p
    → FinePair m (reopen p job reopened)
unfolding reopen
reopen-Fine m p job none found rests v =
    Good-FinePair m _ deleted (release_job-Good m p job found rests v)
reopen-Fine m p job (some inode) found rests v = elim (Bool-cases (inode == job.inode)) [
  | inl same ↦ rw same (with_job-Inv m p job (seek job.position job) found refl v)
  | inr other ↦ rw other (Good-FinePair m _ deleted (release_job-Good m p job found rests v))
]

inspect-Fine :
    (m : ℕ) (p : Provider) (job : Job) (stat : Stat) (reopened : Option ℕ)
    → find_job job.source_id p.jobs ≡ some job
    → job.is_done ≡ true
    → p.deleting ≡ none
    → Inv m p
    → FinePair m (inspect p job stat reopened)
unfolding inspect
inspect-Fine m p job stat reopened found rests idle v =
    elim (Bool-cases (not (stat.size == job.position))) [
      | inl grew ↦ rw grew (
          Good-FinePair m _ resumed
            (try_resume_job-Good m p job job.filename found (not_leaving p job.source_id idle) v))
      | inr ended ↦ elim (Bool-cases (not (bytes_eq (base job.filename) stat.name))) [
        | inl moved ↦
            let renamed : Job = record job { filename = dir job.filename ++ stat.name } in
            rw (ended, moved) (with_job-Inv m p job renamed found refl v)
        | inr stays ↦ rw (ended, stays) (reopen-Fine m p job reopened found rests v)
      ]
    ]

pub maintenance_job-Fine :
    (m : ℕ) (p : Provider) (job : Job) (look : Look)
    → find_job job.source_id p.jobs ≡ some job
    → p.deleting ≡ none
    → Inv m p
    → FinePair m (maintenance_job p job look)
unfolding maintenance_job maintain_at
maintenance_job-Fine m p job look found idle v = elim (Bool-cases job.is_done) [
  | inr works ↦
      let still : not job.is_done ≡ true = ground arith in
      subst (FinePair m) (sym (if_true _ _ still)) v
  | inl rests ↦
      let resting : not job.is_done ≡ false = ground arith in
      subst (FinePair m) (sym (if_false _ _ resting)) (elim (Option-cases look.stat) [
        | inl e ↦ rw e v
        | inr (stat, e) ↦
            let seen : Job = seek job.position job in
            rw e (
              inspect-Fine m (with_job p seen) seen stat look.reopened
                (find_job-put_job job seen p.jobs found) rests idle
                (with_job-Inv m p job seen found refl v))
      ])
]
