-- ===== src/FileInput/Jobs/Calls.antt =====
-- What plugin/input/file does to its jobs: notifications, maintenance, commits (provider.go), the turns
-- of the workers (worker.go), PassEvent (file.go) and the reset of the plugin (resetter.go).
use file_d.Base.{
  ℕ, ◌+◌, Bytes, bytes_eq, Bool, true, false, not, ◌||◌, Option, none, some, List, [], ◌∷◌, ◌++◌,
  is_empty, length, ltb, leb, ◌==◌, if◌then◌else◌, Result, ok, err, ◌>>=◌,
}
use file_d.Base.Int.{pos, inc, dec}
use file_d.Pipeline.Event.{Event, is_regular}
use file_d.FileInput.Offsets.{get, set, InodeOffsets}
use file_d.FileInput.Jobs.{
  Job, reset, Config, Provider, Fault, offset_corruption, done_below_zero, not_done,
  max_files_reached, no_call, Stat, Stage, checks, resumes, adds, Refresh, source_id_by_stat,
  find_job, put_job, delete_job, with_job, seek, init_job_offset, try_resume_job,
  check_file_was_truncated, new_job, is_negative,
}

unfoldable pub new_provider : List InodeOffsets → Provider
new_provider loaded = record {
  is_started = false;
  jobs = [];
  jobs_chan = [];
  working = [];
  jobs_done = pos 0;
  refreshing = [];
  sending = [];
  deleting = none;
  loaded_offsets = loaded;
  offsets_committed = 0;
}

-- The job stands in the map before the count is checked. addJob keeps the mutex of the map until the job
-- is sent; here the send is a step of its own, which allows more orders than the code.
unfoldable pub insert_job : Config → Provider → Bytes → Job → Result Fault Provider
insert_job config p filename job =
    if ltb config.max_files (length p.jobs + 1)
    then err max_files_reached
    else try_resume_job (record p { jobs = job ∷ p.jobs; jobs_done = inc p.jobs_done }) job filename

-- `initJobOffset` uses the saved offsets until the provider is started.
unfoldable pub add_job :
    Config → Provider → Stat → Bytes → Bytes → Option Job → Result Fault Provider
add_job config p stat filename symlink (some job) = ok p
add_job config p stat filename symlink none =
    init_job_offset (if p.is_started then reset else config.offsets_op) p.loaded_offsets stat.size
      (new_job stat filename symlink)
    >>= λ job. insert_job config p filename job

abbrev pub refresh_id : Refresh → ℕ
refresh_id r = source_id_by_stat r.stat r.symlink

abbrev stage_of : Option Job → Bool → Stage
stage_of none is_write = adds
stage_of (some job) is_write = if is_write then checks else resumes

-- The lookup.
unfoldable pub refresh_file : Provider → Stat → Bytes → Bytes → Bool → Provider
refresh_file p stat filename symlink is_write = record p {
  refreshing =
      record {
        stat = stat;
        filename = filename;
        symlink = symlink;
        stage = stage_of (find_job (source_id_by_stat stat symlink) p.jobs) is_write;
      }
      ∷ p.refreshing;
}

-- The next part of a call that found a job.
unfoldable pub refresh_job : Provider → Refresh → Job → Stage → Result Fault Provider
refresh_job p r job checks = ok (record (with_job p (check_file_was_truncated job r.stat.size)) {
  refreshing = record r { stage = resumes } ∷ p.refreshing;
})
refresh_job p r job _ = try_resume_job p job r.filename

-- `opens`: whether os.Open finds the file. addJob looks the job up again.
unfoldable pub refresh_part :
    Config → Provider → Refresh → Bool → Stage → Option Job → Result Fault Provider
refresh_part config p r opens adds found =
    if opens then add_job config p r.stat r.filename r.symlink found else ok p
refresh_part config p r opens _ none = err no_call
refresh_part config p r opens stage (some job) = refresh_job p r job stage

unfoldable pub refresh_on :
    Config → Provider → Bool → Option (Refresh × List Refresh) → Result Fault Provider
refresh_on config p opens none = err no_call
refresh_on config p opens (some (r, others)) =
    refresh_part config (record p { refreshing = others }) r opens r.stage
      (find_job (refresh_id r) p.jobs)

-- `value, has := job.offsets.get(...)`: the value is 0 if there is none.
abbrev pub value_of : Option ℕ → ℕ
value_of none = 0
value_of (some n) = n

unfoldable pub commit_to : Provider → Event → Job → Result Fault Provider
commit_to p event job =
    if not (is_regular event.kind) || leb event.seq_id job.ignore_events_le
    then ok p
    else if leb event.offset (value_of (get job.offsets event.stream_name))
    then err offset_corruption
    else ok (record p {
      jobs =
          put_job (record job { offsets = set job.offsets event.stream_name event.offset }) p.jobs;
      offsets_committed = p.offsets_committed + 1;
    })

unfoldable pub commit_found : Provider → Event → Option Job → Result Fault Provider
commit_found p event none = ok p
commit_found p event (some job) = commit_to p event job

unfoldable pub commit : Provider → Event → Result Fault Provider
unfolding commit_found
commit p event = commit_found p event (find_job event.source_id p.jobs)

unfoldable pub pass_offset : Option ℕ → ℕ → Bool
pass_offset none offset = true
pass_offset (some saved) offset = ltb saved offset

-- `PassEvent` of file.go, on the job of the event.
unfoldable pub pass_event : Job → Event → Bool
unfolding pass_offset
pass_event job event = pass_offset (get job.offsets event.stream_name) event.offset

-- What the maintenance sees of the file of a job: `fstat` (none is an error), and after the close the
-- inode of what is now under the name (none if it does not open).
pub record Look : Type 0 where
  pub stat : Option Stat
  pub reopened : Option ℕ

pub data MaintenanceResult : Type 0 where
  failed still_works resumed deleted noop : MaintenanceResult

-- `filepath.Base` and `filepath.Dir` of a clean path that is no directory: the part behind the last
-- slash, and what is in front of it.
abbrev slash : ℕ
slash = b'/'

unfoldable pub split_path : Bytes → Option (Bytes × Bytes)
split_path [] = none
split_path (c ∷ cs) = elim (split_path cs) [
  | none ↦ if c == slash then some ([], cs) else none
  | some (d, b) ↦ some (c ∷ d, b)
]

unfoldable pub base : Bytes → Bytes
base path = elim (split_path path) [ none ↦ path | some (d, b) ↦ b ]

unfoldable pub dir : Bytes → Bytes
dir path = elim (split_path path) [
  | none ↦ b'.' ∷ []
  | some (d, b) ↦ if is_empty d then slash ∷ [] else d
]

-- `deleteJobAndUnlock` up to the unlock, and behind it.
unfoldable pub release_job : Provider → Job → Result Fault Provider
release_job p job =
    if not job.is_done then err not_done else ok (record p { deleting = some job.source_id })

unfoldable pub delete_released : Provider → Option ℕ → Result Fault Provider
delete_released p none = err no_call
delete_released p (some id) =
    if is_negative (dec p.jobs_done)
    then err done_below_zero
    else ok (record p { jobs = delete_job id p.jobs; jobs_done = dec p.jobs_done; deleting = none })

-- After the close, with what is under the name now.
unfoldable pub reopen : Provider → Job → Option ℕ → Result Fault (Provider × MaintenanceResult)
reopen p job none = release_job p job >>= λ q. ok (q, deleted)
reopen p job (some inode) =
    if inode == job.inode
    then ok (with_job p (seek job.position job), noop)
    else release_job p job >>= λ q. ok (q, deleted)

unfoldable pub inspect :
    Provider → Job → Stat → Option ℕ → Result Fault (Provider × MaintenanceResult)
inspect p job stat reopened =
    if not (stat.size == job.position)
    then (try_resume_job p job job.filename >>= λ q. ok (q, resumed))
    else if not (bytes_eq (base job.filename) stat.name)
    then ok (with_job p (record job { filename = dir job.filename ++ stat.name }), noop)
    else reopen p job reopened

unfoldable pub maintain_at :
    Provider → Job → Option Stat → Option ℕ → Result Fault (Provider × MaintenanceResult)
maintain_at p job none reopened = ok (p, failed)
maintain_at p job (some stat) reopened =
    let seen = seek job.position job in inspect (with_job p seen) seen stat reopened

unfoldable pub maintenance_job : Provider → Job → Look → Result Fault (Provider × MaintenanceResult)
unfolding maintain_at
maintenance_job p job look =
    if not job.is_done then ok (p, still_works) else maintain_at p job look.stat look.reopened
