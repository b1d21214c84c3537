-- ===== src/FileInput/Worker/Refinement.antt =====
-- The worker of plugin/input/file/worker.go hands over the lines of the file, however it is cut into
-- chunks.
use file_d.Base.{
  ℕ, zero, suc, ◌+◌, ◌<◌, ◌≡◌, ◌⊎◌, refl, ap, subst, sym, Bytes, true, false, none, some, List, [],
  ◌∷◌, ◌++◌, arith, length, length-append, take, drop, index_byte, append-nil, append_assoc,
  Option-cases, List-cases, inl, inr, ok,
}
use file_d.FileInput.Worker.{
  Call, Job, Scan, newline, over_max, scan_line, scan_loop, keep_rest, scan_chunk, scan_chunks,
  total_length, first_scan, work,
}
use file_d.FileInput.Worker.Lines.{
  finish, lines, unfinished, still, unfinished-none, still-none, unfinished-some, still-some,
  first_line, lines-none, lines-some, lines-append, unfinished-append, still-append,
}

-- The file behind the chunks.
abbrev pub join_bufs : List Bytes → Bytes
join_bufs [] = []
join_bufs (b ∷ bs) = b ++ join_bufs bs

total_length-join : (bufs : List Bytes) → total_length bufs ≡ length (join_bufs bufs)
total_length-join [] = refl
total_length-join (b ∷ bs) = omega (arith, total_length-join bs, length-append b (join_bufs bs))

module _ (max_event_size : ℕ) (job : Job) where
  -- The buffer holds the line so far, or both are over the limit.
  abbrev Holds : Bytes → Bytes → Type 0
  Holds buf line =
      (buf ≡ line)
      ⊎ ((over_max max_event_size (length buf) ≡ true)
          × (over_max max_event_size (length line) ≡ true))

  -- From `s`, where the line so far is `line`, the bytes `buf` lead to `t`.
  record Reads (line buf : Bytes) (s t : Scan) : Type 0 where
    calls : t.calls ≡ s.calls ++ lines max_event_size job s.skip_line line s.scanned buf
    scanned : t.scanned ≡ s.scanned + length buf
    buffer : Holds t.accum_buf (unfinished line buf)
    skip : t.skip_line ≡ still s.skip_line buf

  scan_line_lem :
      (line more : Bytes) (s : Scan)
      → Holds s.accum_buf line
      → let t = scan_line max_event_size job more s in
        (t.calls
          ≡ s.calls
            ++ finish max_event_size job s.skip_line (line ++ more) (s.scanned + length more))
        × (t.scanned ≡ s.scanned + length more)
        × (t.accum_buf ≡ [])
        × (t.skip_line ≡ false)
  unfolding scan_line
  scan_line_lem line more s h = elim (List-cases s.accum_buf) [
    | inl e ↦ ground (arith, length-append line more, append-nil s.calls)
    | inr (x, xs, e) ↦ ground (arith, length-append line more, append-nil s.calls)
  ]

  -- The last part of a chunk has no newline.
  keep_rest-Reads :
      (line buf : Bytes) (s : Scan)
      → index_byte buf newline ≡ none
      → Holds s.accum_buf line
      → Reads line buf s
          (keep_rest max_event_size job (record s { scanned = s.scanned + length buf }, buf))
  unfolding keep_rest
  keep_rest-Reads line buf s none_left h =
      let facts = lines-none max_event_size job s.skip_line line s.scanned buf none_left in
      let rest = unfinished-none line buf none_left in
      let skips = still-none s.skip_line buf none_left in
      record {
        calls = ground (arith, facts, append-nil s.calls);
        scanned = ground arith;
        buffer = ground (arith, rest, length-append line buf);
        skip = ground (arith, skips);
      }

  -- A line, and then the rest of the chunk.
  Reads-line :
      (line buf : Bytes) (i : ℕ) (s t : Scan)
      → index_byte buf newline ≡ some i
      → Holds s.accum_buf line
      → Reads [] (drop (suc i) buf) (scan_line max_event_size job (take (suc i) buf) s) t
      → Reads line buf s t
  Reads-line line buf i s t found h r =
      let (size, total) = first_line buf i found in
      let (calls, scanned, buffer, skip) = scan_line_lem line (take (suc i) buf) s h in
      let place : s.scanned + length (take (suc i) buf) ≡ s.scanned + suc i =
        ap (λ n. s.scanned + n) size in
      record {
        calls = cc (
          lines-some max_event_size job s.skip_line line s.scanned buf i found,
          append_assoc s.calls
              (finish max_event_size job s.skip_line (line ++ take (suc i) buf) (s.scanned + suc i))
              (lines max_event_size job false [] (s.scanned + suc i) (drop (suc i) buf)),
        );
        scanned = omega (arith, r.scanned);
        buffer = subst (Holds t.accum_buf) (sym (unfinished-some line buf i found)) r.buffer;
        skip = cc (still-some s.skip_line buf i found);
      }

  scan_loop-Reads :
      (fuel : ℕ) (line buf : Bytes) (s : Scan)
      → length buf < fuel
      → Holds s.accum_buf line
      → Reads line buf s (keep_rest max_event_size job (scan_loop max_event_size job fuel buf s))
  unfolding scan_loop
  scan_loop-Reads zero line buf s enough h = absurd (omega arith)
  scan_loop-Reads (suc fuel) line buf s enough h = elim (Option-cases (index_byte buf newline)) [
    | inl e ↦ rw (e, scan_loop) (keep_rest-Reads line buf s e h)
    | inr (i, e) ↦
        let (size, total) = first_line buf i e in
        let (calls, scanned, buffer, skip) = scan_line_lem line (take (suc i) buf) s h in
        rw (e, scan_loop)
          (Reads-line line buf i s _ e h (
            scan_loop-Reads fuel [] (drop (suc i) buf)
              (scan_line max_event_size job (take (suc i) buf) s) (omega arith) (inl buffer)))
  ]

  Reads-append :
      (line a b : Bytes) (s t u : Scan)
      → Reads line a s t
      → Reads (unfinished line a) b t u
      → Reads line (a ++ b) s u
  Reads-append line a b s t u r q = record {
    calls = cc (
      lines-append max_event_size job s.skip_line line s.scanned a b,
      append_assoc s.calls (lines max_event_size job s.skip_line line s.scanned a) (
          lines max_event_size job (still s.skip_line a) (unfinished line a) (s.scanned + length a)
            b),
    );
    scanned = omega (arith, r.scanned, q.scanned, length-append a b);
    buffer = subst (Holds u.accum_buf) (sym (unfinished-append line a b)) q.buffer;
    skip = cc (still-append s.skip_line a b);
  }

  Reads-transport :
      (line buf : Bytes) (s t : Scan)
      → Holds s.accum_buf line
      → t ≡ scan_chunk max_event_size job buf s
      → Reads line buf s t
  unfolding scan_chunk
  Reads-transport line buf s t h e =
      rw e (scan_loop-Reads (suc (length buf)) line buf s (omega arith) h)

  scan_chunks-Reads :
      (line : Bytes) (bufs : List Bytes) (s : Scan)
      → Holds s.accum_buf line
      → Reads line (join_bufs bufs) s (scan_chunks max_event_size job bufs s)
  unfolding scan_chunks unfinished still lines
  scan_chunks-Reads line [] s h = record {
    calls = sym (append-nil s.calls);
    scanned = omega arith;
    buffer = h;
    skip = refl;
  }
  scan_chunks-Reads line (buf ∷ bufs) s h =
      let r = Reads-transport line buf s (scan_chunk max_event_size job buf s) h refl in
      Reads-append line buf (join_bufs bufs) s _ _ r (
        scan_chunks-Reads (unfinished line buf) bufs (scan_chunk max_event_size job buf s) r.buffer)

-- A turn of a worker ends, unless the job is done already. If the job's tail is the beginning `line`
-- of a line, or both are over the limit, the calls are those that the bytes of the file give, however
-- the file is cut into chunks: each line with the offset behind it, the first one left out on
-- request, and those over the limit counted and left out. The offset goes on by the bytes read, and
-- the tail is the line without an end, or both are over the limit.
pub work-lines :
    (max_event_size : ℕ) (job : Job) (bufs : List Bytes) (line : Bytes)
    → job.is_done ≡ false
    → (job.tail ≡ line)
      ⊎ ((over_max max_event_size (length job.tail) ≡ true)
          × (over_max max_event_size (length line) ≡ true))
    → (job' : Job) × (calls : List Call) × (work max_event_size job bufs ≡ ok (job', calls))
      × (calls ≡ lines max_event_size job job.should_skip line 0 (join_bufs bufs))
      × (job'.cur_offset ≡ job.cur_offset + length (join_bufs bufs))
      × ((job'.tail ≡ unfinished line (join_bufs bufs))
          ⊎ ((over_max max_event_size (length job'.tail) ≡ true)
              × (over_max max_event_size (length (unfinished line (join_bufs bufs))) ≡ true)))
unfolding work
work-lines max_event_size job bufs line ready h =
    let r = scan_chunks-Reads max_event_size job line bufs (first_scan job) h in
    let t = scan_chunks max_event_size job bufs (first_scan job) in
    (
      record job {
        tail = t.accum_buf;
        cur_offset = job.cur_offset + total_length bufs;
        should_skip = t.should_skip;
      },
      t.calls,
      ground arith,
      r.calls,
      ap (λ n. job.cur_offset + n) (total_length-join bufs),
      r.buffer,
    )
