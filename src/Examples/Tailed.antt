-- ===== src/Examples/Tailed.antt =====
-- Runs of the job provider of plugin/input/file/provider.go.
use file_d.Base.{
  ℕ, ◌+◌, ◌≤◌, ◌<◌, ◌≡◌, ◌≢◌, ◌↔◌, ◌⊎◌, refl, Bytes, codes, some, List, [], ◌∷◌, true, false,
  length, sum, arith, ok, err,
}
use file_d.Base.Int.{pos}
use file_d.Pipeline.Event.{Event, is_regular}
use file_d.FileInput.Offsets.{Kv, get}
use file_d.FileInput.Worker.{total_length}
use file_d.FileInput.Jobs.{
  Job, Turn, Refresh, resumes, done_below_zero, Config, Provider, offset_corruption, Stat, reset,
  source_id_by_stat, new_job, find_job, put_job, min_offset, seek, continue_at, init_job_offset,
  send_job, take_at, send_resumed, try_resume_job, done_job, check_file_was_truncated,
}
use file_d.FileInput.Jobs.Calls.{
  new_provider, release_job, delete_released, insert_job, add_job, refresh_part, refresh_on,
  refresh_file, value_of, commit_to, pass_event,
}
use file_d.FileInput.Jobs.Turns.{
  seen_of, Call, refreshes, goes_on, sends, runs_into, step, end_with, process_eof, Reach, start,
  next,
}
use file_d.FileInput.Jobs.Counted.{held, busy, done}
use file_d.FileInput.Jobs.Reached.{held-eq-busy}
use file_d.FileInput.Jobs.Race.{delete_released-resumed}
use file_d.FileInput.Jobs.Restart.{
  restart_reads_again, restart_skips_unsaved, commit_to-offsets, read_counted_twice,
}
use file_d.Examples.Streams.{line}

abbrev config : Config
config = record { max_files = 1; max_event_size = 0; offsets_op = reset }

abbrev app_log : Stat
app_log = record { inode = 7; size = 3; name = codes "app.log" }

abbrev path : Bytes
path = codes "/var/app.log"

-- A file is found: its job is added, resumed, and sent to the channel.
abbrev found : Call
found = refreshes app_log path [] false

after : Provider → Call → Provider
after p c = elim (step config p c) [ ok q ↦ q | err f ↦ p ]

looked_up : Provider
unfolding after step refresh_file find_job new_provider
looked_up = after (new_provider []) found

added : Provider
unfolding looked_up after step refresh_on refresh_part add_job init_job_offset insert_job
    try_resume_job find_job put_job source_id_by_stat take_at
added = after looked_up (goes_on 0 true)

queued : Provider
unfolding added after step send_resumed send_job take_at
queued = after added (sends 0)

queued-Reach : Reach config [] queued
unfolding queued runs_into
queued-Reach =
    next (sends 0) (next (goes_on 0 true) (next found start refl refl) refl refl) refl refl

held-eq-busy_example :
    ((id : ℕ) → (held id queued ≡ sum (busy id) queued.jobs) × (held id queued ≤ 1))
    × (queued.jobs_done ≡ pos (sum done queued.jobs))
    × (0 < sum done queued.jobs + length queued.sending → length queued.jobs_chan < 1)
held-eq-busy_example = held-eq-busy config [] queued queued-Reach

abbrev other_log : Stat
other_log = record { inode = 8; size = 3; name = codes "b.log" }

other_found : Provider
unfolding queued after step refresh_file find_job
other_found = after queued (refreshes other_log path [] false)

abbrev job : Job
job = new_job app_log path []

-- The streams of the line and of another one, with their saved offsets.
abbrev saved : List Kv
saved =
    record { stream = line.stream_name; offset = 30 }
    ∷ record { stream = codes "b"; offset = 25 }
    ∷ []

abbrev other_saved : List Kv
other_saved = record { stream = codes "b"; offset = 45 } ∷ []

abbrev continued : Job
continued = record (seek 25 job) { offsets = saved }

abbrev behind : Job
behind = record (seek 45 job) { offsets = other_saved }

restart_reads_again_example :
    ((pass_event continued line ≡ true) ↔ (30 < line.offset))
    × (30 < line.offset → continued.cur_offset < line.offset)
unfolding continue_at min_offset get
restart_reads_again_example = restart_reads_again saved job continued line 30 refl refl

restart_skips_unsaved_example : (line.offset ≤ behind.cur_offset) × (pass_event behind line ≡ true)
unfolding continue_at min_offset get
restart_skips_unsaved_example =
    restart_skips_unsaved other_saved job behind line refl (omega arith) refl (omega arith, tt)

abbrev event : Event
event = record line { seq_id = 1 }

abbrev with_one : Provider
with_one = record (new_provider []) { jobs = continued ∷ [] }

commit_to-offsets_example :
    ((is_regular event.kind ≡ false) ⊎ (event.seq_id ≤ continued.ignore_events_le))
      × (commit_to with_one event continued ≡ ok with_one)
    ⊎ ((event.offset ≤ value_of (get continued.offsets event.stream_name))
        × (commit_to with_one event continued ≡ err offset_corruption))
    ⊎ ((value_of (get continued.offsets event.stream_name) < event.offset)
        × ((q : Provider) × (j : Job) × (commit_to with_one event continued ≡ ok q)
            × (find_job continued.source_id q.jobs ≡ some j)
            × (get j.offsets event.stream_name ≡ some event.offset)
            × ((other : Bytes)
                → event.stream_name ≢ other
                → get j.offsets other ≡ get continued.offsets other)))
unfolding find_job source_id_by_stat
commit_to-offsets_example = commit_to-offsets with_one event continued refl

-- A worker has read three bytes of the file when a write to it is noticed.
abbrev read_on : Job
read_on = record job { position = 3; is_done = false }

abbrev turn : Turn
turn = record { seen = seen_of (record job { is_done = false }); bufs = (1 ∷ 2 ∷ 10 ∷ []) ∷ [] }

abbrev busy_one : Provider
busy_one = record (new_provider []) { jobs = read_on ∷ [] }

ended : Provider
unfolding end_with process_eof done_job check_file_was_truncated put_job source_id_by_stat
ended =
    elim (end_with busy_one turn [] 3 0 (check_file_was_truncated read_on 3) (ok (turn.seen, []))) [
      | ok q ↦ q
      | err f ↦ busy_one
    ]

read_counted_twice_example : 6 ≡ 3 + total_length turn.bufs
unfolding ended find_job new_provider
read_counted_twice_example =
    read_counted_twice busy_one ended turn [] read_on
      (record job { position = 3; cur_offset = 6; is_virgin = false }) 3 0 turn.seen [] refl refl
      refl (omega arith) refl refl

-- A job that is done is deleted, and a refreshFile that found it goes on in between.
abbrev late : Refresh
late = record { stat = app_log; filename = path; symlink = []; stage = resumes }

abbrev ended_one : Provider
ended_one = record (new_provider []) { jobs = job ∷ []; jobs_done = pos 1 }

deletion_panics :
    (q : Provider) × (r : Provider) × (release_job ended_one job ≡ ok q)
    × (refresh_on config q true (some (late, [])) ≡ ok r)
    × (r.sending ≡ job.source_id ∷ [])
    × (delete_released r r.deleting ≡ err done_below_zero)
unfolding find_job source_id_by_stat new_provider
deletion_panics = delete_released-resumed config ended_one job late [] true refl refl refl refl
