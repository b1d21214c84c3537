-- ===== src/Pipeline/Streamer/Cells.antt =====
-- What the calls of pipeline/streamer.go write through pointers: parts that the invariants of the
-- charged streams and of the order share.
use file_d.Base.{
  ℕ, suc, ◌≡◌, refl, none, List, [], ◌∷◌, arith, if◌then◌else◌, ok, Option-cases, zero, length, ltb,
  pop_last, ok-injective, Bool-cases, sym, ◌∙◌, inl, inr, ◌>>=◌,
}
use file_d.Base.Int.{ℤ, pos, negsuc}
use file_d.Pipeline.Event.{Event}
use file_d.Pipeline.Stream.{Stream, get}
use file_d.Pipeline.Streamer.{
  Streamer, update, make_blocked, swapped, swap_remove, reset_index, block_round,
}

-- What the charged streams and the order depend on.
pub record Same (s t : Stream) : Type 0 where
  pub detaching : t.is_detaching ≡ s.is_detaching
  pub attached : t.is_attached ≡ s.is_attached
  pub queue : t.queue ≡ s.queue
  pub away : t.away_seq ≡ s.away_seq
  pub current : t.current_seq ≡ s.current_seq

pub update-Same :
    (cell : ℕ → Stream) (p : ℕ) (t : Stream)
    → Same (cell p) t
    → (q : ℕ) → Same (cell q) (update cell p t q)
update-Same cell p t h q = record {
  detaching = ground (arith, h);
  attached = ground (arith, h);
  queue = ground (arith, h);
  away = ground (arith, h);
  current = ground (arith, h);
}

pub update_twice-Same :
    (cell : ℕ → Stream) (p q : ℕ) (t u : Stream)
    → Same (cell q) t
    → Same (update cell q t p) u
    → (r : ℕ) → Same (cell r) (update (update cell q t) p u r)
update_twice-Same cell p q t u h k r = record {
  detaching = ground (arith, h, k);
  attached = ground (arith, h, k);
  queue = ground (arith, h, k);
  away = ground (arith, h, k);
  current = ground (arith, h, k);
}

abbrev pub timed : Streamer → ℕ → ℕ → Streamer
timed st p now = record st { cell = update st.cell p (record (st.cell p) { block_time = now }) }

pub block_round_empty :
    (st : Streamer) (p now : ℕ)
    → (st.cell p).queue ≡ []
    → block_round st p now ≡ ok (make_blocked (timed st p now) p, none)
unfolding block_round
block_round_empty st p now q = rw (q, block_round)

pub block_round_some :
    (st : Streamer) (p now : ℕ) (x : Event) (xs : List Event)
    → (st.cell p).queue ≡ x ∷ xs
    → block_round st p now
      ≡ (get (st.cell p) >>= λ (s, e). ok (record st { cell = update st.cell p s }, e))
unfolding block_round
block_round_some st p now x xs q = ground arith

-- `resetBlocked` moves indices only.
abbrev pub Moves : Streamer → Streamer → Type 0
Moves st st' =
    (cell : ℕ → Stream) × (blocked : List ℕ) × ((q : ℕ) → Same (st.cell q) (cell q))
    × (record st { cell = cell; blocked = blocked } ≡ st')

swap_remove-Moves :
    (st st' : Streamer) (p i : ℕ) (l : List ℕ × ℕ) → swap_remove st p i l ≡ ok st' → Moves st st'
unfolding swap_remove swapped
swap_remove-Moves st st' p i (rest, last) h = elim (Bool-cases (ltb i (length st.blocked))) [
  | inl e ↦ (
    _,
    _,
    update_twice-Same st.cell p last _ _
        (record { detaching = refl; attached = refl; queue = refl; away = refl; current = refl })
        (record { detaching = refl; attached = refl; queue = refl; away = refl; current = refl }),
    ok-injective (rw (e, if◌then◌else◌) at h),
  )
  | inr e ↦ ground arith
]

pub reset_index-Moves :
    (st st' : Streamer) (p : ℕ) (i : ℤ) → reset_index st p i ≡ ok st' → Moves st st'
unfolding reset_index
reset_index-Moves st st' p (negsuc zero) h = cc
reset_index-Moves st st' p (negsuc (suc n)) h = elim (Option-cases (pop_last st.blocked)) [
  | inl e ↦ ground arith
  | inr (l, e) ↦ ground arith
]
reset_index-Moves st st' p (pos i) h = elim (Option-cases (pop_last st.blocked)) [
  | inl e ↦ ground arith
  | inr (l, e) ↦ swap_remove-Moves st st' p i l (sym (rw (e, reset_index)) ∙ h)
]
