-- ===== src/FileInput/Worker/Lines.antt =====
-- What the worker of plugin/input/file/worker.go should hand over, read off the bytes of the file one
-- by one: no chunk, no buffer.
use file_d.Base.{
  ℕ, zero, suc, ◌+◌, ◌≡◌, refl, sym, Bytes, Bool, false, none, some, List, [], ◌∷◌, ◌++◌, arith,
  length, take, drop, index_byte, ◌==◌, if◌then◌else◌, append-nil, append_assoc, Bool-cases, inl,
  inr,
}
use file_d.FileInput.Worker.{Call, gives, exceeds, Job, newline, over_max, input_at}

module _ (max_event_size : ℕ) (job : Job) where
  -- A line is handed over with the offset behind it, unless it is over the limit or to be skipped.
  abbrev pub finish : Bool → Bytes → ℕ → List Call
  finish skip line pos =
      if over_max max_event_size (length line)
      then exceeds ∷ []
      else if skip
      then []
      else gives (input_at max_event_size job pos line) ∷ []

  -- `line` is what the line has so far, and `pos` how many bytes were read.
  unfoldable pub lines : Bool → Bytes → ℕ → Bytes → List Call
  lines skip line pos [] = []
  lines skip line pos (b ∷ bs) =
      let ended = finish skip (line ++ b ∷ []) (suc pos) ++ lines false [] (suc pos) bs in
      let longer = lines skip (line ++ b ∷ []) (suc pos) bs in
      if b == newline then ended else longer

-- The line without an end, and whether it is to be skipped.
unfoldable pub unfinished : Bytes → Bytes → Bytes
unfinished line [] = line
unfinished line (b ∷ bs) = unfinished (if b == newline then [] else line ++ b ∷ []) bs

unfoldable pub still : Bool → Bytes → Bool
still skip [] = skip
still skip (b ∷ bs) = still (if b == newline then false else skip) bs

pub unfinished-none :
    (line buf : Bytes) → index_byte buf newline ≡ none → unfinished line buf ≡ line ++ buf
unfolding unfinished
unfinished-none line [] h = sym (append-nil line)
unfinished-none line (b ∷ bs) h =
    ground (arith, unfinished-none (line ++ b ∷ []) bs, append_assoc line (b ∷ []) bs)

pub still-none : (skip : Bool) (buf : Bytes) → index_byte buf newline ≡ none → still skip buf ≡ skip
unfolding still
still-none skip [] h = refl
still-none skip (b ∷ bs) h = ground (arith, still-none skip bs)

pub unfinished-some :
    (line buf : Bytes) (i : ℕ)
    → index_byte buf newline ≡ some i
    → unfinished line buf ≡ unfinished [] (drop (suc i) buf)
unfolding unfinished
unfinished-some line [] i h = cc
unfinished-some line (b ∷ bs) zero h = ground arith
unfinished-some line (b ∷ bs) (suc i) h = ground (arith, unfinished-some (line ++ b ∷ []) bs i)

pub still-some :
    (skip : Bool) (buf : Bytes) (i : ℕ)
    → index_byte buf newline ≡ some i
    → still skip buf ≡ still false (drop (suc i) buf)
unfolding still
still-some skip [] i h = cc
still-some skip (b ∷ bs) zero h = ground arith
still-some skip (b ∷ bs) (suc i) h = ground (arith, still-some skip bs i)

-- The chunk up to its first newline.
pub first_line :
    (buf : Bytes) (i : ℕ)
    → index_byte buf newline ≡ some i
    → (length (take (suc i) buf) ≡ suc i) × (length buf ≡ suc i + length (drop (suc i) buf))
first_line [] i h = cc
first_line (b ∷ bs) zero h = omega arith
first_line (b ∷ bs) (suc i) h = ground (arith, first_line bs i)

index_here :
    (b : ℕ) (bs : Bytes) → (b == newline) ≡ false → ¬ (index_byte (b ∷ bs) newline ≡ some 0)
index_here b bs e h = ground arith

module _ (max_event_size : ℕ) (job : Job) where
  pub lines-none :
      (skip : Bool) (line : Bytes) (pos : ℕ) (buf : Bytes)
      → index_byte buf newline ≡ none
      → lines max_event_size job skip line pos buf ≡ []
  unfolding lines
  lines-none skip line pos [] h = refl
  lines-none skip line pos (b ∷ bs) h =
      ground (arith, lines-none skip (line ++ b ∷ []) (suc pos) bs)

  pub lines-some :
      (skip : Bool) (line : Bytes) (pos : ℕ) (buf : Bytes) (i : ℕ)
      → index_byte buf newline ≡ some i
      → lines max_event_size job skip line pos buf
        ≡ finish max_event_size job skip (line ++ take (suc i) buf) (pos + suc i)
          ++ lines max_event_size job false [] (pos + suc i) (drop (suc i) buf)
  unfolding lines
  lines-some skip line pos [] i h = cc
  lines-some skip line pos (b ∷ bs) zero h = elim (Bool-cases (b == newline)) [
    | inl e ↦ let k : pos + 1 ≡ suc pos = omega arith in rw (e, k)
    | inr e ↦ absurd (index_here b bs e h)
  ]
  lines-some skip line pos (b ∷ bs) (suc i) h = elim (Bool-cases (b == newline)) [
    | inl e ↦ absurd (ground arith)
    | inr e ↦
        let k : suc pos + suc i ≡ pos + suc (suc i) = omega arith in
        let further : index_byte bs newline ≡ some i = ground arith in
        rw (
          e,
          lines-some skip (line ++ b ∷ []) (suc pos) bs i further,
          append_assoc line (b ∷ []) (take (suc i) bs),
          k,
        )
  ]

  -- Bytes in two parts.
  pub lines-append :
      (skip : Bool) (line : Bytes) (pos : ℕ) (a b : Bytes)
      → lines max_event_size job skip line pos (a ++ b)
        ≡ lines max_event_size job skip line pos a
          ++ lines max_event_size job (still skip a) (unfinished line a) (pos + length a) b
  unfolding lines still unfinished
  lines-append skip line pos [] b = let k : pos + 0 ≡ pos = omega arith in rw k
  lines-append skip line pos (c ∷ a) b =
      let k : suc pos + length a ≡ pos + suc (length a) = omega arith in
      elim (Bool-cases (c == newline)) [
        | inl e ↦
            rw (e, lines-append false [] (suc pos) a b, k)
              (sym (append_assoc (finish max_event_size job skip (line ++ c ∷ []) (suc pos)) _ _))
        | inr e ↦ rw (e, lines-append skip (line ++ c ∷ []) (suc pos) a b, k)
      ]

pub unfinished-append :
    (line a b : Bytes) → unfinished line (a ++ b) ≡ unfinished (unfinished line a) b
unfolding unfinished
unfinished-append line [] b = refl
unfinished-append line (c ∷ a) b =
    unfinished-append (if c == newline then [] else line ++ c ∷ []) a b

pub still-append : (skip : Bool) (a b : Bytes) → still skip (a ++ b) ≡ still (still skip a) b
unfolding still
still-append skip [] b = refl
still-append skip (c ∷ a) b = still-append (if c == newline then false else skip) a b
