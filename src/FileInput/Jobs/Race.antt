-- ===== src/FileInput/Jobs/Race.antt =====
-- The gap in deleteJobAndUnlock of plugin/input/file/provider.go, between the unlock of the job and the
-- lock of the map.
use file_d.Base.{◌≡◌, refl, Bool, true, false, some, List, [], ◌∷◌, ◌++◌, ok, err}
use file_d.Base.Int.{pos}
use file_d.FileInput.Jobs.{
  Job, Provider, done_below_zero, find_job, put_job, try_resume_job, Refresh, resumes, Config,
}
use file_d.FileInput.Jobs.Calls.{
  release_job, delete_released, refresh_job, refresh_id, refresh_part, refresh_on,
}

-- The maintenance has unlocked a job that is done, the only one, to delete it, and a refreshFile that
-- had found the job locks it then: the job is resumed, and about to be sent to the channel. The deletion
-- that follows panics, since the counter of the done jobs is zero already.
pub delete_released-resumed :
    (config : Config) (p : Provider) (job : Job) (x : Refresh) (others : List Refresh)
    (opens : Bool)
    → find_job (refresh_id x) p.jobs ≡ some job
    → job.is_done ≡ true
    → p.jobs_done ≡ pos 1
    → x.stage ≡ resumes
    → (q : Provider) × (r : Provider) × (release_job p job ≡ ok q)
      × (refresh_on config q opens (some (x, others)) ≡ ok r)
      × (r.sending ≡ p.sending ++ job.source_id ∷ [])
      × (delete_released r r.deleting ≡ err done_below_zero)
unfolding release_job delete_released refresh_on refresh_part refresh_job try_resume_job
delete_released-resumed config p job x others opens found rests one stage = (
  record p { deleting = some job.source_id },
  record p {
    deleting = some job.source_id;
    refreshing = others;
    jobs = put_job (record job { filename = x.filename; is_done = false }) p.jobs;
    jobs_done = pos 0;
    sending = p.sending ++ job.source_id ∷ [];
  },
  rw rests refl,
  rw (stage, found, refresh_part, rests, one) refl,
  refl,
  refl,
)
