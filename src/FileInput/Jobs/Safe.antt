-- ===== src/FileInput/Jobs/Safe.antt =====
-- Notifications keep the jobs of plugin/input/file counted right, and what a call may end in.
use file_d.Base.{
  ℕ, ltb, Bytes, ◌+◌, ◌≡◌, ◌≢◌, ◌⊎◌, ap, some-injective, refl, sym, subst, inl, inr, Bool, true,
  false, Option, none, some, List, [], ◌∷◌, length, if◌then◌else◌, arith, Bool-cases, if_true,
  if_false, Option-cases, Result-cases, Result, ok, err, ◌>>=◌,
}
use file_d.Base.Int.{inc}
use file_d.FileInput.Offsets.{Kv, InodeOffsets}
use file_d.FileInput.Jobs.{
  Job, OffsetsOp, tail, reset, continue, Config, Provider, Fault, offset_corruption, no_streams,
  max_files_reached, waits, no_call, Stat, find_job, with_job, find_loaded, continue_at,
  init_job_offset, truncate_job, check_file_was_truncated, new_job, source_id_by_stat, Stage,
  checks, resumes, adds, Refresh,
}
use file_d.FileInput.Jobs.Turns.{has_found, is_deleting, meets}
use file_d.FileInput.Jobs.Calls.{
  insert_job, add_job, refresh_id, refresh_job, refresh_part, refresh_on, MaintenanceResult,
}
use file_d.FileInput.Jobs.Table.{find_job_self, find_job-source_id}
use file_d.FileInput.Jobs.Counted.{Inv, with_job-Inv, Good, try_resume_job-Good}
use file_d.FileInput.Jobs.Deleted.{insert_job-Inv, leaving_apart}

-- What a call may end in but a state: the count of the files, the content of an offset, a wait.
abbrev pub Expected : Fault → Type 0
Expected max_files_reached = Unit
Expected offset_corruption = Unit
Expected no_streams = Unit
Expected waits = Unit
Expected no_call = Unit
Expected _ = ⊥

abbrev pub Fine : ℕ → Result Fault Provider → Type 0
Fine m (ok q) = Inv m q
Fine m (err e) = Expected e

pub Good-Fine : (m : ℕ) (r : Result Fault Provider) → Good m r → Fine m r
Good-Fine m r (q, e, v) = subst (Fine m) (sym e) v

abbrev pub FinePair : ℕ → Result Fault (Provider × MaintenanceResult) → Type 0
FinePair m (ok r) = Inv m r.0
FinePair m (err e) = Expected e

pub Good-FinePair :
    (m : ℕ) (r : Result Fault Provider) (a : MaintenanceResult)
    → Good m r
    → FinePair m (r >>= λ q. ok (q, a))
Good-FinePair m r a (q, e, v) = rw e v

find_here : (job : Job) (js : List Job) → find_job job.source_id (job ∷ js) ≡ some job
unfolding find_job
find_here job js = ground arith

insert_job-Fine :
    (config : Config) (p : Provider) (filename : Bytes) (job : Job)
    → find_job job.source_id p.jobs ≡ none
    → job.is_done ≡ true
    → Inv config.max_files p
    → Fine config.max_files (insert_job config p filename job)
unfolding insert_job
insert_job-Fine config p filename job absent rests v =
    elim (Bool-cases (ltb config.max_files (length p.jobs + 1))) [
      | inl over ↦ rw (if_true _ _ over) tt
      | inr fits ↦ subst (Fine config.max_files) (sym (if_false _ _ fits)) (
          Good-Fine config.max_files _ (
            try_resume_job-Good config.max_files
              (record p { jobs = job ∷ p.jobs; jobs_done = inc p.jobs_done }) job filename
              (find_here job p.jobs) (leaving_apart config.max_files p job.source_id absent v)
              (insert_job-Inv config.max_files p job absent rests (ground arith) v)))
    ]

init_job_offset-keeps :
    (op : OffsetsOp) (loaded : List InodeOffsets) (size : ℕ) (job j : Job)
    → init_job_offset op loaded size job ≡ ok j
    → (j.source_id ≡ job.source_id) × (j.is_done ≡ job.is_done)
unfolding init_job_offset continue_at
init_job_offset-keeps tail loaded size job j h = ground arith
init_job_offset-keeps reset loaded size job j h = ground arith
init_job_offset-keeps continue loaded size job j h =
    elim (Option-cases (find_loaded job.source_id loaded)) [
      | inl e ↦ ground arith
      | inr ([], e) ↦ ground arith
      | inr (kv ∷ so, e) ↦ ground arith
    ]

continue_at-Expected :
    (o : Option (List Kv)) (job : Job) (e : Fault) → continue_at o job ≡ err e → Expected e
unfolding continue_at
continue_at-Expected none job e h = cc
continue_at-Expected (some []) job e h = let same : no_streams ≡ e = cc in subst Expected same tt
continue_at-Expected (some (kv ∷ so)) job e h = cc

init_job_offset-Expected :
    (op : OffsetsOp) (loaded : List InodeOffsets) (size : ℕ) (job : Job) (e : Fault)
    → init_job_offset op loaded size job ≡ err e
    → Expected e
unfolding init_job_offset
init_job_offset-Expected tail loaded size job e h = cc
init_job_offset-Expected reset loaded size job e h = cc
init_job_offset-Expected continue loaded size job e h =
    continue_at-Expected (find_loaded job.source_id loaded) job e h

add_job-Fine :
    (config : Config) (p : Provider) (stat : Stat) (filename symlink : Bytes)
    → find_job (source_id_by_stat stat symlink) p.jobs ≡ none
    → Inv config.max_files p
    → Fine config.max_files (add_job config p stat filename symlink none)
unfolding add_job
add_job-Fine config p stat filename symlink absent v =
    let op = if p.is_started then reset else config.offsets_op in
    let job = new_job stat filename symlink in
    elim (Result-cases (init_job_offset op p.loaded_offsets stat.size job)) [
      | inl (e, h) ↦ rw h (init_job_offset-Expected op p.loaded_offsets stat.size job e h)
      | inr (j, h) ↦
          let (id, rests) = init_job_offset-keeps op p.loaded_offsets stat.size job j h in
          rw h (insert_job-Fine config p filename j (rw id absent) rests v)
    ]

check_file_was_truncated-keeps :
    (job : Job) (size : ℕ)
    → ((check_file_was_truncated job size).source_id ≡ job.source_id)
      × ((check_file_was_truncated job size).is_done ≡ job.is_done)
unfolding check_file_was_truncated truncate_job
check_file_was_truncated-keeps job size = elim (Bool-cases (ltb size job.position)) [
  | inl e ↦ rw e (refl, refl)
  | inr e ↦ rw e (refl, refl)
]

-- The other fields do not matter.
pub elsewhere-Inv :
    (m : ℕ) (p : Provider) (started : Bool) (n : ℕ) (refreshing : List Refresh)
    → Inv m p
    → Inv m (record p { is_started = started; offsets_committed = n; refreshing = refreshing })
elsewhere-Inv m p started n refreshing v = record {
  once = v.once;
  queued = v.queued;
  settled = v.settled;
  counted = v.counted;
  room = v.room;
  awake = v.awake;
  leaving = v.leaving;
}

refresh_job-Fine :
    (m : ℕ) (p : Provider) (r : Refresh) (job : Job) (stage : Stage)
    → find_job job.source_id p.jobs ≡ some job
    → (p.deleting ≢ some job.source_id)
    → Inv m p
    → Fine m (refresh_job p r job stage)
unfolding refresh_job
refresh_job-Fine m p r job checks found stays v =
    let seen : Job = check_file_was_truncated job r.stat.size in
    let (same_id, same) = check_file_was_truncated-keeps job r.stat.size in
    let w = with_job-Inv m p job seen (rw same_id found) same v in
    elsewhere-Inv m (with_job p seen) p.is_started p.offsets_committed
      (record r { stage = resumes } ∷ p.refreshing) w
refresh_job-Fine m p r job resumes found stays v =
    Good-Fine m _ (try_resume_job-Good m p job r.filename found stays v)
refresh_job-Fine m p r job adds found stays v =
    Good-Fine m _ (try_resume_job-Good m p job r.filename found stays v)

refresh_adds-Fine :
    (config : Config) (p : Provider) (r : Refresh) (opens : Bool) (found : Option Job)
    → find_job (refresh_id r) p.jobs ≡ found
    → Inv config.max_files p
    → Fine config.max_files (refresh_part config p r opens adds found)
unfolding refresh_part
refresh_adds-Fine config p r false found e v = v
refresh_adds-Fine config p r true none e v = add_job-Fine config p r.stat r.filename r.symlink e v
refresh_adds-Fine config p r true (some job) e v = unfold add_job in v

found_adds : (stage : Stage) → has_found stage ≡ false → stage ≡ adds
found_adds adds h = refl
found_adds checks h = cc
found_adds resumes h = cc

found_none : (stage : Stage) → stage ≡ adds → ¬ (has_found stage ≡ true)
found_none adds e h = cc
found_none checks e h = let k : true ≡ false = ap has_found e in cc
found_none resumes e h = let k : true ≡ false = ap has_found e in cc

-- A part that does not meet the deletion.
clear_cases :
    (deleting : Option ℕ) (r : Refresh)
    → is_deleting deleting r ≡ false
    → (r.stage ≡ adds) ⊎ (deleting ≢ some (refresh_id r))
clear_cases none r clear = inr (λ h. cc)
clear_cases (some id) r clear = elim (Bool-cases (has_found r.stage)) [
  | inr e ↦ inl (found_adds r.stage e)
  | inl e ↦ inr λ h. let same : id ≡ refresh_id r = some-injective _ _ h in ground (arith, same)
]

refresh_part-Fine :
    (config : Config) (p : Provider) (r : Refresh) (opens : Bool) (stage : Stage)
    (found : Option Job)
    → find_job (refresh_id r) p.jobs ≡ found
    → (stage ≡ adds) ⊎ (p.deleting ≢ some (refresh_id r))
    → Inv config.max_files p
    → Fine config.max_files (refresh_part config p r opens stage found)
unfolding refresh_part
refresh_part-Fine config p r opens adds found e free v =
    refresh_adds-Fine config p r opens found e v
refresh_part-Fine config p r opens checks none e free v = tt
refresh_part-Fine config p r opens resumes none e free v = tt
refresh_part-Fine config p r opens checks (some job) e (inl only) v =
    absurd (found_none _ only refl)
refresh_part-Fine config p r opens resumes (some job) e (inl only) v =
    absurd (found_none _ only refl)
refresh_part-Fine config p r opens checks (some job) e (inr stays) v =
    refresh_job-Fine config.max_files p r job checks (find_job_self (refresh_id r) p.jobs job e)
      (subst (λ k. p.deleting ≢ some k) (sym (find_job-source_id (refresh_id r) p.jobs job e))
        stays)
      v
refresh_part-Fine config p r opens resumes (some job) e (inr stays) v =
    refresh_job-Fine config.max_files p r job resumes (find_job_self (refresh_id r) p.jobs job e)
      (subst (λ k. p.deleting ≢ some k) (sym (find_job-source_id (refresh_id r) p.jobs job e))
        stays)
      v

pub refresh_on-Fine :
    (config : Config) (p : Provider) (opens : Bool) (taken : Option (Refresh × List Refresh))
    → meets p.deleting taken ≡ false
    → Inv config.max_files p
    → Fine config.max_files (refresh_on config p opens taken)
unfolding refresh_on
refresh_on-Fine config p opens none clear v = tt
refresh_on-Fine config p opens (some (r, others)) clear v =
    refresh_part-Fine config (record p { refreshing = others }) r opens r.stage
      (find_job (refresh_id r) p.jobs) refl (clear_cases p.deleting r clear)
      (elsewhere-Inv config.max_files p p.is_started p.offsets_committed others v)
