-- ===== src/FileInput/Jobs/Turns.antt =====
-- The turns of the workers (plugin/input/file/worker.go) between the calls of the job provider, and
-- the states that all of them lead to.
use file_d.Base.{
  ℕ, zero, suc, ◌+◌, ◌≡◌, Bytes, Bool, true, false, ◌&&◌, ◌||◌, Option, none, some, List, [], ◌∷◌,
  ◌++◌, map, length, ltb, ◌==◌, if◌then◌else◌, Result, ok, err, ◌>>=◌,
}
use file_d.Pipeline.Event.{Event}
use file_d.FileInput.Offsets.{InodeOffsets}
use file_d.FileInput.Worker.{gives, exceeds, total_length, work}
use file_d.FileInput.Worker
use file_d.FileInput.Jobs.{
  Job, Turn, Config, Provider, Fault, worker_on_done, waits, no_call, Stat, Stage, checks, resumes,
  adds, Refresh, take_at, send_resumed, find_job, put_job, with_job, done_job, truncate_job,
}
use file_d.FileInput.Jobs.Calls.{
  new_provider, refresh_id, refresh_file, refresh_on, commit, Look, maintenance_job,
  delete_released,
}

-- What a worker reads of a job before it lets the mutex go.
abbrev pub seen_of : Job → Worker.Job
seen_of job = record {
  source_id = job.source_id;
  filename = job.filename;
  symlink = job.symlink;
  cur_offset = job.cur_offset;
  tail = job.tail;
  is_virgin = job.is_virgin;
  is_done = job.is_done;
  should_skip = job.should_skip;
}

unfoldable pub receive_job : Provider → List ℕ → Option Job → Result Fault Provider
receive_job p rest none = err no_call
receive_job p rest (some job) =
    if job.is_done
    then err worker_on_done
    else ok (record p {
      jobs_chan = rest;
      working = record { seen = seen_of job; bufs = [] } ∷ p.working;
    })

unfoldable pub receive_from : Provider → List ℕ → Result Fault Provider
unfolding receive_job
receive_from p [] = err waits
receive_from p (id ∷ rest) = receive_job p rest (find_job id p.jobs)

unfoldable pub receive : Provider → Result Fault Provider
unfolding receive_from
receive p = receive_from p p.jobs_chan

-- A turn by its place, its job and the other turns.
unfoldable pub take_turn : ℕ → List Turn → Option (Turn × List Turn)
take_turn i [] = none
take_turn zero (t ∷ ts) = some (t, ts)
take_turn (suc i) (t ∷ ts) = elim (take_turn i ts) [ none ↦ none | some (u, us) ↦ some (u, t ∷ us) ]

-- `file.Read`: the descriptor moves on.
unfoldable pub read_buf : Provider → Turn → List Turn → Bytes → Option Job → Result Fault Provider
read_buf p t others buf none = err no_call
read_buf p t others buf (some job) = ok (record p {
  jobs = put_job (record job { position = job.position + length buf }) p.jobs;
  working = record t { bufs = t.bufs ++ buf ∷ [] } ∷ others;
})

-- `processEOF`; `size` is what `fstat` says.
unfoldable pub process_eof : Provider → Job → ℕ → ℕ → Result Fault Provider
process_eof p job total_offset size =
    let checked = if ltb size total_offset then truncate_job job else job in
    done_job (with_job p checked) checked

abbrev is_in : Worker.Call → Bool
is_in (gives i) = true
is_in exceeds = false

abbrev pub any_in : List Worker.Call → Bool
any_in [] = false
any_in (c ∷ cs) = is_in c || any_in cs

unfoldable pub end_with :
    Provider
    → Turn
    → List Turn
    → ℕ
    → ℕ
    → Job
    → Result Worker.Panic (Worker.Job × List Worker.Call)
    → Result Fault Provider
end_with p t others size seq job (err e) = err worker_on_done
end_with p t others size seq job (ok (after, calls)) =
    process_eof (record p { working = others })
      (record job {
        tail = after.tail;
        cur_offset = job.cur_offset + total_length t.bufs;
        should_skip = job.should_skip && after.should_skip;
        last_event_seq = if any_in calls then seq else job.last_event_seq;
      })
      (t.seen.cur_offset + total_length t.bufs) size

-- The end of a turn: the job gets its new tail and offset. The worker's loop runs over the chunks here;
-- what it calls of the pipeline meets no field of the provider but `lastEventSeq`. `seq` is what the
-- last `controller.In` gave.
unfoldable pub end_turn :
    Config → Provider → Turn → List Turn → ℕ → ℕ → Option Job → Result Fault Provider
end_turn config p t others size seq none = err no_call
end_turn config p t others size seq (some job) =
    end_with p t others size seq job (work config.max_event_size t.seen t.bufs)

unfoldable pub read_turn : Provider → Bytes → Option (Turn × List Turn) → Result Fault Provider
read_turn p buf none = err no_call
read_turn p buf (some (t, others)) = read_buf p t others buf (find_job t.seen.source_id p.jobs)

unfoldable pub finish_turn :
    Config → Provider → ℕ → ℕ → Option (Turn × List Turn) → Result Fault Provider
finish_turn config p size seq none = err no_call
finish_turn config p size seq (some (t, others)) =
    end_turn config p t others size seq (find_job t.seen.source_id p.jobs)

-- `truncateJobs` of resetter.go: each job that the request names.
unfoldable pub reset_job : Bool → ℕ → ℕ → Job → Job
reset_job all inode source_id j =
    if all || j.inode == inode || j.source_id == source_id then truncate_job j else j

abbrev pub truncate_jobs : Bool → ℕ → ℕ → List Job → List Job
truncate_jobs all inode source_id jobs = map (reset_job all inode source_id) jobs

-- The maintenance is one goroutine: it goes on when its deletion is done.
unfoldable pub maintain : Provider → Look → Option Job → Option ℕ → Result Fault Provider
maintain p look none _ = err no_call
maintain p look (some job) (some id) = err no_call
maintain p look (some job) none = maintenance_job p job look >>= λ r. ok r.0

pub data Call : Type 0 where
  starts : Call
  -- refreshFile, of a notification or of the maintenance of the links, and a part of such a call
  refreshes : Stat → Bytes → Bytes → Bool → Call
  goes_on : ℕ → Bool → Call
  -- a resumed job comes to the channel
  sends : ℕ → Call
  -- maintenanceJob, of the job with this id
  maintains : ℕ → Look → Call
  deletes : Call
  commits : Event → Call
  resets : Bool → ℕ → ℕ → Call
  receives : Call
  reads : ℕ → Bytes → Call
  finishes : ℕ → ℕ → ℕ → Call

unfoldable pub step : Config → Provider → Call → Result Fault Provider
unfolding maintain
step config p starts = ok (record p { is_started = true })
step config p (refreshes stat filename symlink is_write) =
    ok (refresh_file p stat filename symlink is_write)
step config p (goes_on i opens) = refresh_on config p opens (take_at i p.refreshing)
step config p (sends i) = send_resumed config.max_files p (take_at i p.sending)
step config p (maintains id look) = maintain p look (find_job id p.jobs) p.deleting
step config p deletes = delete_released p p.deleting
step config p (commits event) = commit p event
step config p (resets all inode id) = ok (record p { jobs = truncate_jobs all inode id p.jobs })
step config p receives = receive p
step config p (reads i buf) = read_turn p buf (take_turn i p.working)
step config p (finishes i size seq) = finish_turn config p size seq (take_turn i p.working)

abbrev pub has_found : Stage → Bool
has_found adds = false
has_found checks = true
has_found resumes = true

-- Whether a refreshFile has found this job and still holds its pointer.
abbrev pub holds : ℕ → Refresh → Bool
holds id r = has_found r.stage && refresh_id r == id

abbrev pub any_holds : ℕ → List Refresh → Bool
any_holds id [] = false
any_holds id (r ∷ rs) = holds id r || any_holds id rs

abbrev pub is_deleting : Option ℕ → Refresh → Bool
is_deleting none r = false
is_deleting (some id) r = holds id r

abbrev pub meets : Option ℕ → Option (Refresh × List Refresh) → Bool
meets deleting none = false
meets deleting (some (r, others)) = is_deleting deleting r

abbrev pub held_by_any : Option ℕ → List Refresh → Bool
held_by_any none rs = false
held_by_any (some id) rs = any_holds id rs

-- Whether a refreshFile meets the deletion of its job: it goes on between the unlock and the deletion,
-- or is still under way when the job is deleted.
unfoldable pub runs_into : Provider → Call → Bool
runs_into p (goes_on i opens) = meets p.deleting (take_at i p.refreshing)
runs_into p deletes = held_by_any p.deleting p.refreshing
runs_into p _ = false

pub data Reach (config : Config) (loaded : List InodeOffsets) : Provider → Type 0 where
  start : Reach config loaded (new_provider loaded)
  next :
      {p q : Provider} (c : Call)
      → Reach config loaded p
      → runs_into p c ≡ false
      → step config p c ≡ ok q
      → Reach config loaded q
