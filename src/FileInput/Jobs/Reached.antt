-- ===== src/FileInput/Jobs/Reached.antt =====
-- The jobs of plugin/input/file are counted right in every state that calls and turns lead to.
use file_d.Base.{
  ℕ, ◌+◌, ◌≤◌, ◌<◌, ◌≡◌, refl, subst, inl, inr, true, false, none, Option, some, List, length,
  arith, sum, Option-cases, Result, ok, err, ◌>>=◌,
}
use file_d.Base.Int.{pos}
use file_d.FileInput.Offsets.{InodeOffsets}
use file_d.FileInput.Jobs.{Job, Config, Provider, Fault, find_job, take_at, send_resumed}
use file_d.FileInput.Jobs.Calls.{
  new_provider, Look, MaintenanceResult, refresh_file, delete_released,
}
use file_d.FileInput.Jobs.Turns.{
  maintain, Call, starts, refreshes, goes_on, sends, maintains, deletes, runs_into, commits, resets,
  receives, reads, finishes, step, Reach, start, next,
}
use file_d.FileInput.Jobs.Table.{find_job_self}
use file_d.FileInput.Jobs.Counted.{busy, busy_rest_all, done, held, Inv, send_resumed-Good}
use file_d.FileInput.Jobs.Deleted.{delete_released-Good}
use file_d.FileInput.Jobs.Safe.{Fine, FinePair, Good-Fine, elsewhere-Inv, refresh_on-Fine}
use file_d.FileInput.Jobs.Maintained.{commit-Fine, maintenance_job-Fine}
use file_d.FileInput.Jobs.Turned.{receive-Fine, read_turn-Fine, finish_turn-Fine, truncate_jobs-Inv}

FinePair-Fine :
    (m : ℕ) (r : Result Fault (Provider × MaintenanceResult))
    → FinePair m r
    → Fine m (r >>= λ s. ok s.0)
FinePair-Fine m (ok s) h = h
FinePair-Fine m (err e) h = h

maintain-Fine :
    (m : ℕ) (p : Provider) (id : ℕ) (look : Look) (deleting : Option ℕ)
    → p.deleting ≡ deleting
    → Inv m p
    → Fine m (maintain p look (find_job id p.jobs) deleting)
unfolding maintain
maintain-Fine m p id look deleting idle v = elim (Option-cases (find_job id p.jobs)) [
  | inl absent ↦ rw absent tt
  | inr (job, found) ↦ rw found (found_one job found deleting idle)
]
  where
    found_one :
        (job : Job)
        → find_job id p.jobs ≡ some job
        → (d : Option ℕ) → p.deleting ≡ d
        → Fine m (maintain p look (some job) d)
    found_one job found none none_left =
        FinePair-Fine m _
          (maintenance_job-Fine m p job look (find_job_self id p.jobs job found) none_left v)
    found_one job found (some other) h = tt

delete_released-Fine :
    (m : ℕ) (p : Provider) (deleting : Option ℕ)
    → p.deleting ≡ deleting
    → Inv m p
    → Fine m (delete_released p deleting)
unfolding delete_released
delete_released-Fine m p none h v = tt
delete_released-Fine m p (some id) h v = Good-Fine m _ (delete_released-Good m p id h v)

send_resumed-Fine :
    (m : ℕ) (p : Provider) (i : ℕ) → Inv m p → Fine m (send_resumed m p (take_at i p.sending))
unfolding send_resumed
send_resumed-Fine m p i v = elim (Option-cases (take_at i p.sending)) [
  | inl e ↦ rw e tt
  | inr ((id, others), e) ↦ rw e (Good-Fine m _ (send_resumed-Good m p i id others e v))
]

step-Fine :
    (config : Config) (p : Provider) (c : Call)
    → runs_into p c ≡ false
    → Inv config.max_files p
    → Fine config.max_files (step config p c)
unfolding step runs_into refresh_file
step-Fine config p starts clear v =
    elsewhere-Inv config.max_files p true p.offsets_committed p.refreshing v
step-Fine config p (refreshes stat filename symlink is_write) clear v =
    elsewhere-Inv config.max_files p p.is_started p.offsets_committed
      (refresh_file p stat filename symlink is_write).refreshing v
step-Fine config p (goes_on i opens) clear v =
    refresh_on-Fine config p opens (take_at i p.refreshing) clear v
step-Fine config p (sends i) clear v = send_resumed-Fine config.max_files p i v
step-Fine config p (maintains id look) clear v =
    maintain-Fine config.max_files p id look p.deleting refl v
step-Fine config p deletes clear v = delete_released-Fine config.max_files p p.deleting refl v
step-Fine config p (commits event) clear v = commit-Fine config.max_files p event v
step-Fine config p (resets all inode id) clear v =
    truncate_jobs-Inv config.max_files all inode id p v
step-Fine config p receives clear v = receive-Fine config.max_files p v
step-Fine config p (reads i buf) clear v = read_turn-Fine config.max_files i p buf v
step-Fine config p (finishes i size seq) clear v = finish_turn-Fine config i p size seq v

new_provider-Inv : (m : ℕ) (loaded : List InodeOffsets) → Inv m (new_provider loaded)
unfolding new_provider
new_provider-Inv m loaded = record {
  once = λ i. omega arith;
  queued = λ i. refl;
  settled = refl;
  counted = refl;
  room = omega arith;
  awake = refl;
  leaving = λ i h. cc;
}

Reach-Inv :
    {config : Config} {loaded : List InodeOffsets} {p : Provider}
    → Reach config loaded p
    → Inv config.max_files p
Reach-Inv {config = k} {loaded = loaded} start = new_provider-Inv k.max_files loaded
Reach-Inv {config = k} (next {p = p} c r clear h) =
    subst (Fine k.max_files) h (step-Fine k p c clear (Reach-Inv r))

-- In every state that notifications, maintenance, commits, resets and the turns of the workers lead
-- to, provided that no refreshFile that has found a job goes on, or is still under way, between the
-- moment when the maintenance unlocks this job to delete it and the deletion: a job that is not done is
-- about to be sent, in the channel or with a worker, once, and any other job is not; `jobsDone` is the
-- number of the jobs that are done; and the channel has room for each job that is done or about to be
-- sent. The code does not ensure the proviso: deleteJobAndUnlock lets the mutex of the job go before it
-- takes that of the map.
pub held-eq-busy :
    (config : Config) (loaded : List InodeOffsets) (p : Provider)
    → Reach config loaded p
    → ((id : ℕ) → (held id p ≡ sum (busy id) p.jobs) × (held id p ≤ 1))
      × (p.jobs_done ≡ pos (sum done p.jobs))
      × (0 < sum done p.jobs + length p.sending → length p.jobs_chan < config.max_files)
held-eq-busy config loaded p r =
    let v = Reach-Inv r in
    (
      λ id. (v.queued id, omega (arith, v.queued id, v.once id, busy_rest_all id p.jobs)),
      v.settled,
      λ some_done. omega (arith, v.counted, v.room),
    )
