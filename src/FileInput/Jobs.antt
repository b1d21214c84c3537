-- ===== src/FileInput/Jobs.antt =====
-- plugin/input/file/provider.go, the type `jobProvider`, with what worker.go and file.go do to it. A
-- job is a pointer into `jobs`: its source id stands for it. What holds the mutex of a job or of the
-- map without a break is one step. So the lookup of refreshFile and what it does with the job are steps
-- of their own, and so are the send of a resumed job, which comes after the unlock, and the deletion
-- of a job, which lets the job's mutex go before it takes that of the map. checkFileWasTruncated is one
-- step. A worker's turn is a step that takes the job from the channel, one for each `Read` and one at
-- the end of the file. `position` is where the file descriptor stands. Offsets in files stay below
-- 2 ^ 63.
pub mod Calls
pub mod Turns
pub mod Table
pub mod Counted
pub mod Deleted
pub mod Safe
pub mod Maintained
pub mod Turned
pub mod Reached
pub mod Race
pub mod Restart
use file_d.Base.{
  ℕ, zero, suc, ◌+◌, ◌-◌, ◌*◌, ◌%◌, ◌^◌, Bytes, bytes_eq, Bool, true, false, not, ◌&&◌, ◌||◌,
  Option, none, some, List, [], ◌∷◌, ◌++◌, map, is_empty, length, ltb, leb, ◌==◌, if◌then◌else◌,
  Result, ok, err, ◌>>=◌,
}
use file_d.Base.Int.{ℤ, pos, negsuc, inc, dec}
use file_d.Pipeline.Event.{Event, Kind, is_regular}
use file_d.FileInput.Offsets.{Kv, get, set, InodeOffsets}
use file_d.FileInput.Worker.{gives, exceeds, total_length}
use file_d.FileInput.Worker

pub record Job : Type 0 where
  pub position : ℕ
  pub inode : ℕ
  pub source_id : ℕ
  pub filename : Bytes
  pub symlink : Bytes
  pub cur_offset : ℕ
  pub tail : Bytes
  pub ignore_events_le : ℕ
  pub last_event_seq : ℕ
  pub is_virgin : Bool
  pub is_done : Bool
  pub should_skip : Bool
  pub offsets : List Kv

-- A worker with a job: what it read of the job's fields, and the chunks since.
pub record Turn : Type 0 where
  pub seen : Worker.Job
  pub bufs : List Bytes

-- What `os.FileInfo` says; the name is the last part of the name that the file was opened by.
pub record Stat : Type 0 where
  pub inode : ℕ
  pub size : ℕ
  pub name : Bytes

-- What a refreshFile does next: checkFileWasTruncated, the lock of the job that it found, or, as it
-- found none, addJob.
pub data Stage : Type 0 where
  checks resumes adds : Stage

pub record Refresh : Type 0 where
  pub stat : Stat
  pub filename : Bytes
  pub symlink : Bytes
  pub stage : Stage

pub data OffsetsOp : Type 0 where
  continue tail reset : OffsetsOp

pub record Config : Type 0 where
  pub max_files : ℕ
  pub max_event_size : ℕ
  pub offsets_op : OffsetsOp

pub record Provider : Type 0 where
  pub is_started : Bool
  pub jobs : List Job
  pub jobs_chan : List ℕ
  pub working : List Turn
  pub jobs_done : ℤ
  -- the calls of refreshFile under way
  pub refreshing : List Refresh
  -- jobs that were resumed and not yet sent to the channel
  pub sending : List ℕ
  -- the job that the maintenance has unlocked, and not yet deleted
  pub deleting : Option ℕ
  pub loaded_offsets : List InodeOffsets
  pub offsets_committed : ℕ

pub data Fault : Type 0 where
  -- panics
  offset_corruption no_streams done_below_zero already_done done_over_count not_done : Fault
  -- a worker's panic on a job that is done, and the Fatal of addJob
  worker_on_done max_files_reached : Fault
  -- a send on a full channel or a receive from an empty one
  waits : Fault
  -- no such job or turn
  no_call : Fault

-- The bits of an int64 `h`; `c` is a rune of the name of the link.
sym_hash : ℕ → List ℕ → ℕ
sym_hash h [] = h
sym_hash h (c ∷ cs) = sym_hash ((h * 4 + (2 ^ 64 - 1) + c * 8460724049) % 2 ^ 64) cs

unfoldable pub source_id_by_stat : Stat → Bytes → ℕ
unfolding sym_hash
source_id_by_stat s symlink =
    (s.inode + sym_hash (s.inode * 8922886018542929 % 2 ^ 64) symlink % 2 ^ 32) % 2 ^ 64

-- The map of jobs: a lookup, a write through a pointer, and `delete`.
unfoldable pub find_job : ℕ → List Job → Option Job
find_job id [] = none
find_job id (j ∷ js) = let rest = find_job id js in if j.source_id == id then some j else rest

unfoldable pub put_job : Job → List Job → List Job
put_job job [] = []
put_job job (j ∷ js) =
    let rest = put_job job js in if j.source_id == job.source_id then job ∷ js else j ∷ rest

unfoldable pub delete_job : ℕ → List Job → List Job
delete_job id [] = []
delete_job id (j ∷ js) = let rest = delete_job id js in if j.source_id == id then js else j ∷ rest

abbrev pub with_job : Provider → Job → Provider
with_job p job = record p { jobs = put_job job p.jobs }

-- `Job.seek`: both the descriptor and `curOffset`.
abbrev pub seek : ℕ → Job → Job
seek n job = record job { position = n; cur_offset = n }

-- `Offset` of a stream that is less than every one before it.
unfoldable pub min_offset : ℕ → List Kv → ℕ
min_offset least [] = least
min_offset least (kv ∷ so) = min_offset (if ltb kv.offset least then kv.offset else least) so

unfoldable pub find_loaded : ℕ → List InodeOffsets → Option (List Kv)
find_loaded id [] = none
find_loaded id (o ∷ os) =
    let rest = find_loaded id os in if o.source_id == id then some o.streams else rest

unfoldable pub continue_at : Option (List Kv) → Job → Result Fault Job
continue_at none job = ok (seek 0 job)
continue_at (some []) job = err no_streams
continue_at (some (kv ∷ so)) job =
    ok (seek (min_offset (2 ^ 63 - 1) (kv ∷ so)) (record job { offsets = kv ∷ so }))

-- `size` is the end of the file.
unfoldable pub init_job_offset : OffsetsOp → List InodeOffsets → ℕ → Job → Result Fault Job
init_job_offset tail loaded size job =
    ok (if size == 0 then seek size job else record (seek (size - 1) job) { should_skip = true })
init_job_offset reset loaded size job = ok (seek 0 job)
init_job_offset continue loaded size job = continue_at (find_loaded job.source_id loaded) job

abbrev pub is_negative : ℤ → Bool
is_negative (pos n) = false
is_negative (negsuc n) = true

-- `len(jobs) < v`.
abbrev pub exceeds_count : ℤ → ℕ → Bool
exceeds_count (pos v) n = ltb n v
exceeds_count (negsuc v) n = false

-- An element by its place, and the others.
unfoldable pub take_at {ℓ} : {A : Type ℓ} → ℕ → List A → Option (A × List A)
take_at i [] = none
take_at zero (x ∷ xs) = some (x, xs)
take_at (suc i) (x ∷ xs) = elim (take_at i xs) [ none ↦ none | some (y, ys) ↦ some (y, x ∷ ys) ]

-- A send on `jobsChan`, which holds so many jobs.
unfoldable pub send_job : ℕ → Provider → ℕ → Result Fault Provider
send_job max_files p id =
    if ltb (length p.jobs_chan) max_files
    then ok (record p { jobs_chan = p.jobs_chan ++ id ∷ [] })
    else err waits

-- Up to the unlock.
unfoldable pub try_resume_job : Provider → Job → Bytes → Result Fault Provider
try_resume_job p job filename =
    if not job.is_done
    then ok p
    else if is_negative (dec p.jobs_done)
    then err done_below_zero
    else ok (record p {
      jobs = put_job (record job { filename = filename; is_done = false }) p.jobs;
      jobs_done = dec p.jobs_done;
      sending = p.sending ++ job.source_id ∷ [];
    })

-- The send behind it.
unfoldable pub send_resumed : ℕ → Provider → Option (ℕ × List ℕ) → Result Fault Provider
send_resumed max_files p none = err no_call
send_resumed max_files p (some (id, rest)) = send_job max_files (record p { sending = rest }) id

unfoldable pub done_job : Provider → Job → Result Fault Provider
done_job p job =
    if job.is_done
    then err already_done
    else if exceeds_count (inc p.jobs_done) (length p.jobs)
    then err done_over_count
    else ok (record p {
      jobs = put_job (record job { is_done = true; is_virgin = false }) p.jobs;
      jobs_done = inc p.jobs_done;
    })

unfoldable pub truncate_job : Job → Job
truncate_job job = record (seek 0 job) {
  ignore_events_le = job.last_event_seq;
  offsets = map (λ (kv : Kv). record kv { offset = 0 }) job.offsets;
}

-- Without the mutex of the job.
unfoldable pub check_file_was_truncated : Job → ℕ → Job
check_file_was_truncated job size =
    if ltb size job.position then truncate_job (seek job.position job) else seek job.position job

abbrev pub new_job : Stat → Bytes → Bytes → Job
new_job stat filename symlink = record {
  position = 0;
  inode = stat.inode;
  source_id = source_id_by_stat stat symlink;
  filename = filename;
  symlink = symlink;
  cur_offset = 0;
  tail = [];
  ignore_events_le = 0;
  last_event_seq = 0;
  is_virgin = true;
  is_done = true;
  should_skip = false;
  offsets = [];
}
