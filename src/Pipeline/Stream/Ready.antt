-- ===== src/Pipeline/Stream/Ready.antt =====
-- When a stream waits for a processor, and what each method of pipeline/stream.go makes of that.
use file_d.Base.{
  ℕ, ◌+◌, ◌≡◌, Bool, true, false, not, ◌&&◌, Option, is_empty, arith, ok, List-cases, inl, inr,
}
use file_d.Pipeline.Event.{Event}
use file_d.Pipeline.Stream.{Stream, commit, attach, put, get, instant_get, try_unblock}

-- It has events and no processor.
abbrev pub ready : Stream → Bool
ready s = not s.is_attached && not (is_empty s.queue)

abbrev pub bit : Bool → ℕ
bit true = 1
bit false = 0

-- Only an attached stream is detaching.
abbrev pub IsSound : Stream → Type 0
IsSound s = s.is_detaching ≡ true → s.is_attached ≡ true

-- A method that makes `t` of `s` charges the stream when it becomes ready, and only then.
pub record Charges (s t : Stream) (charged : Bool) : Type 0 where
  pub counted : bit (ready s) + bit charged ≡ bit (ready t)
  pub sound : IsSound t

module _ (s : Stream) (sound : IsSound s) where
  pub put-Charges : (p : ℕ) (e : Event) → Charges s (put p s e).0 (put p s e).1
  unfolding put
  put-Charges p e = elim (List-cases s.queue) [
    | inl q ↦ ground arith
    | inr (x, xs, q) ↦ elim (List-cases xs) [ inl r ↦ ground arith | inr (y, ys, r) ↦ ground arith ]
  ]

  pub commit-Charges : (e : Event) → Charges s (commit s e).0 (commit s e).1
  unfolding commit
  commit-Charges e = ground arith

  pub attach-ready :
      (t : Stream) → attach s ≡ ok t → (ready s ≡ true) × (ready t ≡ false) × IsSound t
  unfolding attach
  attach-ready t h = ground arith

  -- A stream that is ready can be attached: none of the panics of `attach` is reached.
  pub attach-ready_ok : ready s ≡ true → (t : Stream) × (attach s ≡ ok t)
  unfolding attach
  attach-ready_ok h = (record s { is_attached = true }, ground arith)

  pub instant_get-Charges :
      (t : Stream) (charged : Bool) (e : Option Event)
      → instant_get s ≡ ok (t, charged, e)
      → Charges s t charged
  unfolding instant_get
  instant_get-Charges t charged e h = elim (List-cases s.queue) [
    | inl q ↦ ground arith
    | inr (x, xs, q) ↦ ground arith
  ]

  pub get-Charges :
      (t : Stream) (e : Option Event)
      → s.is_attached ≡ true
      → get s ≡ ok (t, e)
      → (t.is_attached ≡ true) × IsSound t
  unfolding get
  get-Charges t e a h = elim (List-cases s.queue) [
    | inl q ↦ ground arith
    | inr (x, xs, q) ↦ ground arith
  ]

  pub try_unblock-Charges :
      (p now timeout : ℕ) (t : Stream) (told : Bool)
      → s.is_attached ≡ true
      → try_unblock p now timeout s ≡ ok (t, told)
      → (t.is_attached ≡ true) × IsSound t
  unfolding try_unblock
  try_unblock-Charges p now timeout t told a h = ground arith
