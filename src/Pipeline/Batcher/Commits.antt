-- ===== src/Pipeline/Batcher/Commits.antt =====
-- The order of the commits of pipeline/batch.go.
use file_d.Base.{
  ℕ, suc, ◌+◌, ◌<◌, ◌%◌, ◌^◌, ◌≡◌, refl, sym, subst, ap, ap₂, ◌∙◌, inl, inr, some, List, [], ◌∷◌,
  ◌++◌, arith, ok, All, All-append, append_assoc, Option-cases, List-cases, Bool-cases, if_true,
  if_false, ok-injective, map-eq-ok,
}
use file_d.Pipeline.Event.{Event}
use file_d.Pipeline.Batch.{Batch, append, update_status}
use file_d.Pipeline.Batcher.{
  Batcher, new_batcher, get_batch, add, heartbeat, take_at, send, work, commit_batch, stop, Call,
  adds, beats, sends, works, commits, stops, step,
}
use file_d.Pipeline.Batcher.Content.{
  concat, current, IsFlying, Inv, try_send_batch-Inv, get_batch-Leaves, keep-InvAt, grow-InvAt,
  take_at-All, concat_split,
}

add-Inv :
    (now : ℕ) (s t : Batcher) (e : Event)
    → s.out_seq + 1 < 2 ^ 64
    → Inv s
    → add now s e ≡ ok t
    → Inv t
unfolding add append update_status
add-Inv now s t e room (content, v) h = elim (Bool-cases s.should_stop) [
  | inl stopped ↦ subst Inv (ok-injective (sym (if_true _ _ stopped) ∙ h)) (content, v)
  | inr runs ↦
      let ((u, b), got, k) = map-eq-ok (get_batch now s) _ (sym (if_false _ _ runs) ∙ h) in
      let l = get_batch-Leaves now s u b got in
      subst Inv k (
        try_send_batch-Inv content _ _ _ (rw l.out room)
          (grow-InvAt content u b.events (e ∷ []) (keep-InvAt content s u b l v)))
]

heartbeat-Inv :
    (now : ℕ) (s t : Batcher) → s.out_seq + 1 < 2 ^ 64 → Inv s → heartbeat now s ≡ ok t → Inv t
unfolding heartbeat update_status
heartbeat-Inv now s t room (content, v) h = elim (Bool-cases s.should_stop) [
  | inl stopped ↦ subst Inv (ok-injective (sym (if_true _ _ stopped) ∙ h)) (content, v)
  | inr runs ↦
      let ((u, b), got, k) = map-eq-ok (get_batch now s) _ (sym (if_false _ _ runs) ∙ h) in
      let l = get_batch-Leaves now s u b got in
      subst Inv k (try_send_batch-Inv content _ _ _ (rw l.out room) (keep-InvAt content s u b l v))
]

send_result :
    (i : ℕ) (s t : Batcher) (b : Batch) (rest : List Batch)
    → take_at i s.sending ≡ some (b, rest)
    → send i s ≡ ok t
    → record s { sending = rest; full_batches = s.full_batches ++ b ∷ [] } ≡ t
unfolding send
send_result i s t b rest e h = ground arith

send-Inv : (i : ℕ) (s t : Batcher) → Inv s → send i s ≡ ok t → Inv t
unfolding send
send-Inv i s t (content, v) h = elim (Option-cases (take_at i s.sending)) [
  | inl e ↦ ground arith
  | inr ((b, rest), e) ↦
      let (flies, others) =
        take_at-All (IsFlying content s.out_seq) i s.sending b rest e v.sending in
      subst Inv (send_result i s t b rest e h) (
        content,
        record {
          below = v.below;
          took = v.took;
          gave = v.gave;
          sending = others;
          full = All-append (IsFlying content s.out_seq) s.full_batches (b ∷ []) v.full (flies, tt);
          working = v.working;
        },
      )
]

work_result :
    (s t : Batcher) (b : Batch) (rest : List Batch)
    → s.full_batches ≡ b ∷ rest
    → work s ≡ ok t
    → record s { full_batches = rest; working = b ∷ s.working } ≡ t
unfolding work
work_result s t b rest e h = ground arith

work-Inv : (s t : Batcher) → Inv s → work s ≡ ok t → Inv t
unfolding work
work-Inv s t (content, v) h = elim (List-cases s.full_batches) [
  | inl e ↦ ground arith
  | inr (b, rest, e) ↦
      let flying : All (IsFlying content s.out_seq) (b ∷ rest) =
        subst (All (IsFlying content s.out_seq)) e v.full in
      subst Inv (work_result s t b rest e h) (
        content,
        record {
          below = v.below;
          took = v.took;
          gave = v.gave;
          sending = v.sending;
          full = flying.1;
          working = (flying.0, v.working);
        },
      )
]

commit_result :
    (i : ℕ) (s t : Batcher) (b : Batch) (rest : List Batch)
    → take_at i s.working ≡ some (b, rest)
    → commit_batch i s ≡ ok t
    → (s.commit_seq ≡ b.seq)
      × (record s {
        working = rest;
        commit_seq = (s.commit_seq + 1) % 2 ^ 64;
        committed = s.committed ++ b.events;
        free_batches = s.free_batches ++ b ∷ [];
      }
          ≡ t)
unfolding commit_batch
commit_result i s t b rest e h = ground arith

commit_batch-Inv :
    (i : ℕ) (s t : Batcher) → s.out_seq < 2 ^ 64 → Inv s → commit_batch i s ≡ ok t → Inv t
unfolding commit_batch
commit_batch-Inv i s t room (content, v) h = elim (Option-cases (take_at i s.working)) [
  | inl e ↦ ground arith
  | inr ((b, rest), e) ↦
      let (flies, others) =
        take_at-All (IsFlying content s.out_seq) i s.working b rest e v.working in
      let (due, result) = commit_result i s t b rest e h in
      let next : (s.commit_seq + 1) % 2 ^ 64 ≡ suc s.commit_seq = omega arith in
      subst Inv result (
        content,
        record {
          below = omega arith;
          took = v.took;
          gave = rw next (ap₂ ◌++◌ v.gave (flies.1 ∙ ap content (sym due)));
          sending = v.sending;
          full = v.full;
          working = others;
        },
      )
]

step-Inv : (s t : Batcher) (c : Call) → s.out_seq + 1 < 2 ^ 64 → Inv s → step s c ≡ ok t → Inv t
unfolding step stop
step-Inv s t (adds now e) room v h = add-Inv now s t e room v h
step-Inv s t (beats now) room v h = heartbeat-Inv now s t room v h
step-Inv s t (sends i) room v h = send-Inv i s t v h
step-Inv s t works room v h = work-Inv s t v h
step-Inv s t (commits i) room v h = commit_batch-Inv i s t (omega arith) v h
step-Inv s t stops room (content, v) h = subst Inv (ok-injective h) (
  content,
  record {
    below = v.below;
    took = v.took;
    gave = v.gave;
    sending = v.sending;
    full = v.full;
    working = v.working;
  },
)

new_batcher-Inv : (workers : ℕ) (b : Batch) → Inv (new_batcher workers b)
unfolding new_batcher
new_batcher-Inv workers b = (
  λ _. [],
  record { below = omega arith; took = refl; gave = refl; sending = tt; full = tt; working = tt },
)

-- The states of a batcher with so many workers; no number comes near the end of an int64.
pub data Reach (workers : ℕ) (b : Batch) : Batcher → Type 0 where
  start : Reach workers b (new_batcher workers b)
  next :
      {s t : Batcher} (c : Call)
      → Reach workers b s
      → s.out_seq + 1 < 2 ^ 64
      → step s c ≡ ok t
      → Reach workers b t

Reach-Inv : {workers : ℕ} {b : Batch} {s : Batcher} → Reach workers b s → Inv s
Reach-Inv {workers = w} {b = b} start = new_batcher-Inv w b
Reach-Inv (next {s = s} {t = t} c r room h) = step-Inv s t c room (Reach-Inv r) h

-- Whatever the order in which senders and workers run, the commits are a prefix of what was added:
-- no event is committed before one that was added earlier, and none twice.
pub committed_prefix :
    (workers : ℕ) (b : Batch) (s : Batcher)
    → Reach workers b s
    → (rest : List Event) × (s.added ≡ s.committed ++ rest)
committed_prefix workers b s r =
    let (content, v) = Reach-Inv r in
    let (rest, e) = concat_split content s.commit_seq s.out_seq v.below in
    (
      rest ++ current s.batch,
      v.took
          ∙ ap (λ a. a ++ current s.batch) e
          ∙ append_assoc (concat content s.commit_seq) rest (current s.batch)
          ∙ ap (λ a. a ++ (rest ++ current s.batch)) (sym v.gave),
    )

-- Where no number is due, what was taken in is what was committed and the open batch.
pub drained :
    (workers : ℕ) (b : Batch) (s : Batcher)
    → Reach workers b s
    → s.commit_seq ≡ s.out_seq
    → s.added ≡ s.committed ++ current s.batch
drained workers b s r e =
    let (content, v) = Reach-Inv r in
    v.took ∙ ap (λ c. c ++ current s.batch) (ap (concat content) (sym e) ∙ sym v.gave)
