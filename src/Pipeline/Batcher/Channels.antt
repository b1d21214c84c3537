-- ===== src/Pipeline/Batcher/Channels.antt =====
-- The batches of pipeline/batch.go are as many as the workers, and none is lost: so neither channel
-- is ever full for a sender, and the batch whose commit is due is on its way.
use file_d.Base.{
  ℕ, zero, suc, ◌+◌, ◌≤◌, ◌<◌, ◌^◌, ◌≡◌, refl, sym, subst, ap, ◌∙◌, inl, inr, ◌&&◌, Option, none,
  some, List, [], ◌∷◌, ◌++◌, arith, ◌==◌, if◌then◌else◌, leb, ltb, ok, err, length, length-append,
  replicate, Option-cases, List-cases, Bool-cases, if_true, if_false, ok-injective, map-eq-ok,
}
use file_d.Pipeline.Event.{Event}
use file_d.Pipeline.Batch.{Batch, BatchStatus, not_ready, reset, append, update_status}
use file_d.Pipeline.Batcher.{
  Batcher, send_on_closed, new_batcher, get_batch, try_send_batch, add, heartbeat, take_at, send,
  work, commit_batch, stop, Call, adds, beats, sends, works, commits, stops, step,
}
use file_d.Pipeline.Batcher.Commits.{Reach, start, next}

abbrev open_count : Option Batch → ℕ
open_count none = 0
open_count (some b) = 1

-- How many batches stand in the channels, with their senders, and with the workers.
abbrev elsewhere : Batcher → ℕ
elsewhere s = length s.free_batches + length s.full_batches + length s.sending + length s.working

abbrev total : Batcher → ℕ
total s = open_count s.batch + elsewhere s

abbrev pub count_seq : ℕ → List Batch → ℕ
count_seq n [] = 0
count_seq n (b ∷ bs) = let rest = count_seq n bs in if b.seq == n then suc rest else rest

count_seq-append :
    (n : ℕ) (xs ys : List Batch) → count_seq n (xs ++ ys) ≡ count_seq n xs + count_seq n ys
count_seq-append n [] ys = omega arith
count_seq-append n (x ∷ xs) ys = ground (arith, count_seq-append n xs ys)

-- How many batches with the number `n` were sealed and not committed.
abbrev pub flying : ℕ → Batcher → ℕ
flying n s = count_seq n s.sending + count_seq n s.full_batches + count_seq n s.working

-- Whether the number `n` is due.
abbrev pub due : ℕ → Batcher → ℕ
due n s = if leb s.commit_seq n && ltb n s.out_seq then 1 else 0

record Inv (workers : ℕ) (s : Batcher) : Type 0 where
  kept : total s ≡ workers
  once : (n : ℕ) → flying n s ≡ due n s
  below : s.commit_seq ≤ s.out_seq

get_batch_lem :
    (now n : ℕ) (s t : Batcher) (b : Batch)
    → get_batch now s ≡ ok (t, b)
    → (elsewhere t + 1 ≡ total s)
      × (flying n t ≡ flying n s)
      × (t.out_seq ≡ s.out_seq)
      × (t.commit_seq ≡ s.commit_seq)
unfolding get_batch reset
get_batch_lem now n s t b h = elim (Option-cases s.batch) [
  | inl e ↦ elim (List-cases s.free_batches) [
    | inl f ↦ ground arith
    | inr (x, xs, f) ↦ ground arith
  ]
  | inr (c, e) ↦ ground arith
]

try_send_batch-Inv :
    (workers : ℕ) (s : Batcher) (b : Batch) (status : BatchStatus)
    → s.out_seq + 1 < 2 ^ 64
    → elsewhere s + 1 ≡ workers
    → ((n : ℕ) → flying n s ≡ due n s)
    → s.commit_seq ≤ s.out_seq
    → Inv workers (try_send_batch s b status)
unfolding try_send_batch
try_send_batch-Inv workers s b not_ready room kept once below = record {
  kept = omega arith;
  once = once;
  below = below;
}
try_send_batch-Inv workers s b _ room kept once below = record {
  kept = omega arith;
  once = λ n. ground (arith, once n);
  below = omega arith;
}

take_at_lem :
    (n i : ℕ) (bs : List Batch) (b : Batch) (rest : List Batch)
    → take_at i bs ≡ some (b, rest)
    → (length bs ≡ suc (length rest)) × (count_seq n bs ≡ count_seq n (b ∷ rest))
unfolding take_at
take_at_lem n i [] b rest h = cc
take_at_lem n zero (x ∷ xs) b rest h = ground arith
take_at_lem n (suc i) (x ∷ xs) b rest h = elim (Option-cases (take_at i xs)) [
  | inl e ↦ ground arith
  | inr ((c, cs), e) ↦ ground (arith, take_at_lem n i xs c cs e)
]

send-Inv : (workers i : ℕ) (s t : Batcher) → Inv workers s → send i s ≡ ok t → Inv workers t
unfolding send
send-Inv workers i s t v h = elim (Option-cases (take_at i s.sending)) [
  | inl e ↦ ground arith
  | inr ((b, rest), e) ↦ record {
    kept =
        ground (
          arith,
          v.kept,
          take_at_lem 0 i s.sending b rest e,
          length-append s.full_batches (b ∷ []),
        );
    once = λ n. ground (
      arith,
      v.once n,
      take_at_lem n i s.sending b rest e,
      count_seq-append n s.full_batches (b ∷ []),
    );
    below = ground (arith, v.below);
  }
]

work-Inv : (workers : ℕ) (s t : Batcher) → Inv workers s → work s ≡ ok t → Inv workers t
unfolding work
work-Inv workers s t v h = elim (List-cases s.full_batches) [
  | inl e ↦ ground arith
  | inr (b, rest, e) ↦ record {
    kept = ground (arith, v.kept);
    once = λ n. ground (arith, v.once n);
    below = ground (arith, v.below);
  }
]

commit_batch-Inv :
    (workers i : ℕ) (s t : Batcher)
    → s.out_seq + 1 < 2 ^ 64
    → Inv workers s
    → commit_batch i s ≡ ok t
    → Inv workers t
unfolding commit_batch
commit_batch-Inv workers i s t room v h = elim (Option-cases (take_at i s.working)) [
  | inl e ↦ ground arith
  | inr ((b, rest), e) ↦
      let on_time : s.commit_seq < s.out_seq =
        ground (arith, v.once s.commit_seq, take_at_lem s.commit_seq i s.working b rest e) in
      record {
        kept = ground (
          arith,
          v.kept,
          take_at_lem 0 i s.working b rest e,
          length-append s.free_batches (b ∷ []),
        );
        once = λ n. ground (arith, on_time, v.once n, take_at_lem n i s.working b rest e);
        below = ground (arith, on_time);
      }
]

add-Inv :
    (workers now : ℕ) (s t : Batcher) (e : Event)
    → s.out_seq + 1 < 2 ^ 64
    → Inv workers s
    → add now s e ≡ ok t
    → Inv workers t
unfolding add append update_status
add-Inv workers now s t e room v h = elim (Bool-cases s.should_stop) [
  | inl stopped ↦ subst (Inv workers) (ok-injective (sym (if_true _ _ stopped) ∙ h)) v
  | inr runs ↦
      let ((u, b), got, k) = map-eq-ok (get_batch now s) _ (sym (if_false _ _ runs) ∙ h) in
      let facts = λ (n : ℕ). get_batch_lem now n s u b got in
      subst (Inv workers) k (
        try_send_batch-Inv workers _ _ _ (omega (arith, facts 0)) (omega (arith, facts 0, v.kept))
          (λ n. ground (arith, facts n, v.once n)) (omega (arith, facts 0, v.below)))
]

heartbeat-Inv :
    (workers now : ℕ) (s t : Batcher)
    → s.out_seq + 1 < 2 ^ 64
    → Inv workers s
    → heartbeat now s ≡ ok t
    → Inv workers t
unfolding heartbeat update_status
heartbeat-Inv workers now s t room v h = elim (Bool-cases s.should_stop) [
  | inl stopped ↦ subst (Inv workers) (ok-injective (sym (if_true _ _ stopped) ∙ h)) v
  | inr runs ↦
      let ((u, b), got, k) = map-eq-ok (get_batch now s) _ (sym (if_false _ _ runs) ∙ h) in
      let facts = λ (n : ℕ). get_batch_lem now n s u b got in
      subst (Inv workers) k (
        try_send_batch-Inv workers _ _ _ (omega (arith, facts 0)) (omega (arith, facts 0, v.kept))
          (λ n. ground (arith, facts n, v.once n)) (omega (arith, facts 0, v.below)))
]

step-Inv :
    (workers : ℕ) (s t : Batcher) (c : Call)
    → s.out_seq + 1 < 2 ^ 64
    → Inv workers s
    → step s c ≡ ok t
    → Inv workers t
unfolding step stop
step-Inv workers s t (adds now e) room v h = add-Inv workers now s t e room v h
step-Inv workers s t (beats now) room v h = heartbeat-Inv workers now s t room v h
step-Inv workers s t (sends i) room v h = send-Inv workers i s t v h
step-Inv workers s t works room v h = work-Inv workers s t v h
step-Inv workers s t (commits i) room v h = commit_batch-Inv workers i s t room v h
step-Inv workers s t stops room v h =
    subst (Inv workers) (ok-injective h) (record { kept = v.kept; once = v.once; below = v.below })

length-replicate {ℓ} : {A : Type ℓ} (n : ℕ) (a : A) → length (replicate n a) ≡ n
length-replicate zero a = refl
length-replicate (suc n) a = ap suc (length-replicate n a)

new_batcher-Inv : (workers : ℕ) (b : Batch) → Inv workers (new_batcher workers b)
unfolding new_batcher
new_batcher-Inv workers b = record {
  kept = omega (arith, length-replicate workers b);
  once = λ n. ground arith;
  below = omega arith;
}

Reach-Inv : {workers : ℕ} {b : Batch} {s : Batcher} → Reach workers b s → Inv workers s
Reach-Inv {workers = w} {b = b} start = new_batcher-Inv w b
Reach-Inv {workers = w} (next {s = s} {t = t} c r room h) = step-Inv w s t c room (Reach-Inv r) h

pub commit_seq-le-out_seq :
    (workers : ℕ) (b : Batch) (s : Batcher) → Reach workers b s → s.commit_seq ≤ s.out_seq
commit_seq-le-out_seq workers b s r = (Reach-Inv r).below

-- Each number that was given to a batch and is not committed yet stands on exactly one batch that a
-- sender, the channel or a worker holds; no other number stands on any. So no sealed batch is lost or
-- doubled, and the one that the waiting workers wait for is on its way.
pub flying-eq-due :
    (workers : ℕ) (b : Batch) (s : Batcher) (n : ℕ) → Reach workers b s → flying n s ≡ due n s
flying-eq-due workers b s n r = (Reach-Inv r).once n

-- A sender finds room in `fullBatches`, and a worker in `freeBatches`: the channels hold as many
-- batches as there are workers, and one of them is in hand.
pub channels_have_room :
    (workers : ℕ) (b : Batch) (s : Batcher)
    → Reach workers b s
    → (0 < length s.sending → length s.full_batches < workers)
      × (0 < length s.working → length s.free_batches < workers)
channels_have_room workers b s r = omega (arith, (Reach-Inv r).kept)

-- A batch that was sealed and not sent when `Stop` closes the channel: its sender panics.
pub send_after_stop :
    (i : ℕ) (s : Batcher) (b : Batch) (rest : List Batch)
    → take_at i s.sending ≡ some (b, rest)
    → send i (stop s) ≡ err send_on_closed
unfolding send stop
send_after_stop i s b rest e = ground arith
