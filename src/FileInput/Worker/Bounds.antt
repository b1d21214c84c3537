-- ===== src/FileInput/Worker/Bounds.antt =====
-- The buffer of plugin/input/file/worker.go does not grow with the length of a line.
use file_d.Base.{
  ℕ, zero, suc, ◌+◌, ◌≤◌, ◌≡◌, ◌≢◌, refl, Bytes, List, [], ◌∷◌, arith, length, length-append,
  length-drop, take, drop, index_byte, Option-cases, inl, inr, All,
}
use file_d.FileInput.Worker.{
  Job, Scan, newline, scan_line, scan_loop, keep_rest, scan_chunk, scan_chunks,
}

module _ (max_event_size : ℕ) (job : Job) (limited : max_event_size ≢ 0) (size : ℕ) where
  scan_line-accum :
      (line : Bytes) (s : Scan) → length (scan_line max_event_size job line s).accum_buf ≡ 0
  unfolding scan_line
  scan_line-accum line s = refl

  keep_rest-bound :
      (s : Scan) (buf : Bytes)
      → length buf ≤ size
      → length s.accum_buf ≤ max_event_size + size
      → length (keep_rest max_event_size job (s, buf)).accum_buf ≤ max_event_size + size
  unfolding keep_rest
  keep_rest-bound s buf small h = ground (arith, length-append s.accum_buf buf)

  scan_loop-bound :
      (fuel : ℕ) (buf : Bytes) (s : Scan)
      → length buf ≤ size
      → length s.accum_buf ≤ max_event_size + size
      → length (keep_rest max_event_size job (scan_loop max_event_size job fuel buf s)).accum_buf
        ≤ max_event_size + size
  unfolding scan_loop
  scan_loop-bound zero buf s small h = keep_rest-bound s buf small h
  scan_loop-bound (suc fuel) buf s small h = elim (Option-cases (index_byte buf newline)) [
    | inl e ↦
        rw (e, scan_loop)
          (keep_rest-bound (record s { scanned = s.scanned + length buf }) buf small h)
    | inr (i, e) ↦
        rw (e, scan_loop)
          (scan_loop-bound fuel (drop (suc i) buf)
            (scan_line max_event_size job (take (suc i) buf) s)
            (omega (arith, length-drop (suc i) buf))
            (omega (arith, scan_line-accum (take (suc i) buf) s)))
  ]

  -- With a limit on the size of an event, the buffer never holds more than the limit and one chunk.
  pub scan_chunks-bound :
      (bufs : List Bytes) (s : Scan)
      → All (λ (buf : Bytes). length buf ≤ size) bufs
      → length s.accum_buf ≤ max_event_size + size
      → length (scan_chunks max_event_size job bufs s).accum_buf ≤ max_event_size + size
  unfolding scan_chunks scan_chunk
  scan_chunks-bound [] s small h = h
  scan_chunks-bound (buf ∷ bufs) s small h =
      scan_chunks-bound bufs (scan_chunk max_event_size job buf s) small.1
        (scan_loop-bound (suc (length buf)) buf s small.0 h)
