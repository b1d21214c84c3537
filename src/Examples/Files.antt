-- ===== src/Examples/Files.antt =====
-- Runs of plugin/input/file/worker.go.
use file_d.Base.{
  ◌+◌, ◌≤◌, ◌≡◌, ◌⊎◌, refl, inl, true, false, List, [], ◌∷◌, codes, arith, ok, length, Bytes,
}
use file_d.FileInput.Worker.{Call, Job, over_max, first_scan, scan_chunks, work}
use file_d.FileInput.Worker.Lines.{lines, unfinished}
use file_d.FileInput.Worker.Refinement.{join_bufs, work-lines}
use file_d.FileInput.Worker.Bounds.{scan_chunks-bound}

abbrev log_job : Job
log_job = record {
  source_id = 7;
  filename = codes "a.log";
  symlink = [];
  cur_offset = 10;
  tail = codes "x";
  is_virgin = false;
  is_done = false;
  should_skip = false;
}

-- The lines `xab` and `c`, and the beginning of a third one, in three chunks.
abbrev chunks : List Bytes
chunks = (97 ∷ []) ∷ (98 ∷ 10 ∷ 99 ∷ []) ∷ (10 ∷ 100 ∷ []) ∷ []

work-lines_example :
    (job' : Job) × (calls : List Call) × (work 8 log_job chunks ≡ ok (job', calls))
    × (calls ≡ lines 8 log_job false (codes "x") 0 (join_bufs chunks))
    × (job'.cur_offset ≡ log_job.cur_offset + length (join_bufs chunks))
    × ((job'.tail ≡ unfinished (codes "x") (join_bufs chunks))
        ⊎ ((over_max 8 (length job'.tail) ≡ true)
            × (over_max 8 (length (unfinished (codes "x") (join_bufs chunks))) ≡ true)))
work-lines_example = work-lines 8 log_job chunks (codes "x") refl (inl refl)

scan_chunks-bound_example :
    length (scan_chunks 8 log_job chunks (first_scan log_job)).accum_buf ≤ 8 + 3
scan_chunks-bound_example =
    scan_chunks-bound 8 log_job (omega arith) 3 chunks (first_scan log_job) (omega arith)
      (omega arith)
