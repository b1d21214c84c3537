-- ===== src/FileInput/Worker.antt =====
-- plugin/input/file/worker.go: the worker reads a file up to its end in chunks, and hands each line to
-- the pipeline. The file is the list of the chunks that `Read` returns before the end of the file,
-- the calls of the controller are the list `calls`. Offsets count bytes of one file and stay within
-- an int64.
pub mod Lines
pub mod Refinement
pub mod Bounds
use file_d.Base.{
  ℕ, zero, suc, ◌+◌, Bytes, Bool, true, false, not, ◌&&◌, Option, none, some, List, [], ◌∷◌, ◌++◌,
  is_empty, length, take, drop, index_byte, ltb, ◌==◌, if◌then◌else◌, Result, ok, err,
}

-- The arguments of `controller.In`.
pub record Input : Type 0 where
  pub source_id : ℕ
  pub source_name : Bytes
  pub offset : ℕ
  pub line : Bytes
  pub is_new_source : Bool

pub data Call : Type 0 where
  gives : Input → Call
  exceeds : Call  -- IncMaxEventSizeExceeded

-- The fields of `Job` that the worker uses.
pub record Job : Type 0 where
  pub source_id : ℕ
  pub filename : Bytes
  pub symlink : Bytes
  pub cur_offset : ℕ
  pub tail : Bytes
  pub is_virgin : Bool
  pub is_done : Bool
  pub should_skip : Bool

-- The variables of the reading loop.
pub record Scan : Type 0 where
  pub accum_buf : Bytes
  pub skip_line : Bool
  pub should_skip : Bool
  pub scanned : ℕ
  pub calls : List Call

pub data Panic : Type 0 where
  job_is_done : Panic

abbrev pub newline : ℕ
newline = 10

-- `maxEventSize`, with `shouldCheckMax`: no limit is 0.
abbrev pub over_max : ℕ → ℕ → Bool
over_max max_event_size size = not (max_event_size == 0) && ltb max_event_size size

-- The name that the pipeline sees.
abbrev pub source_name_of : Job → Bytes
source_name_of job = if is_empty job.symlink then job.filename else job.symlink

module _ (max_event_size : ℕ) (job : Job) where
  abbrev pub input_at : ℕ → Bytes → Input
  input_at scanned line = record {
    source_id = job.source_id;
    source_name = source_name_of job;
    offset = job.cur_offset + scanned;
    line = line;
    is_new_source = job.is_virgin;
  }

  -- The size is checked before the skip.
  check_size : Bytes → Scan → Scan
  check_size line s =
      if over_max max_event_size (length s.accum_buf + length line)
      then record s { skip_line = true; calls = s.calls ++ exceeds ∷ [] }
      else s

  give_line : Bytes → Scan → Scan
  give_line line s =
      if s.skip_line then record s { should_skip = false; skip_line = false } else record s {
        calls =
            s.calls
            ++ gives
                (input_at s.scanned (if is_empty s.accum_buf then line else s.accum_buf ++ line))
              ∷ [];
      }

  -- One round of the parsing loop, over a line with its newline.
  pub scan_line : Bytes → Scan → Scan
  unfolding check_size give_line
  scan_line line s =
      record (give_line line (check_size line (record s { scanned = s.scanned + length line }))) {
        accum_buf = [];
      }

  -- The parsing loop, with what is left of the chunk. A round takes a byte at least.
  pub scan_loop : ℕ → Bytes → Scan → Scan × Bytes
  scan_loop zero buf s = (s, buf)
  scan_loop (suc fuel) buf s = elim (index_byte buf newline) [
    | none ↦ (record s { scanned = s.scanned + length buf }, buf)
    | some pos ↦ scan_loop fuel (drop (suc pos) buf) (scan_line (take (suc pos) buf) s)
  ]

  -- What is left is dropped if the buffer is over the limit already.
  keep_rest : Scan × Bytes → Scan
  keep_rest (s, buf) =
      if over_max max_event_size (length s.accum_buf)
      then s
      else record s { accum_buf = s.accum_buf ++ buf }

  unfoldable pub scan_chunk : Bytes → Scan → Scan
  unfolding keep_rest
  scan_chunk buf s = keep_rest (scan_loop (suc (length buf)) buf s)

  unfoldable pub scan_chunks : List Bytes → Scan → Scan
  scan_chunks [] s = s
  scan_chunks (buf ∷ bufs) s = scan_chunks bufs (scan_chunk buf s)

abbrev pub total_length : List Bytes → ℕ
total_length [] = 0
total_length (b ∷ bs) = length b + total_length bs

abbrev pub first_scan : Job → Scan
first_scan job = record {
  accum_buf = job.tail;
  skip_line = job.should_skip;
  should_skip = job.should_skip;
  scanned = 0;
  calls = [];
}

-- A job's turn, up to the end of the file.
unfoldable pub work : ℕ → Job → List Bytes → Result Panic (Job × List Call)
work max_event_size job bufs =
    if job.is_done
    then err job_is_done
    else let s = scan_chunks max_event_size job bufs (first_scan job) in
      ok (
        record job {
          tail = s.accum_buf;
          cur_offset = job.cur_offset + total_length bufs;
          should_skip = s.should_skip;
        },
        s.calls,
      )
