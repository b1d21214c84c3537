-- ===== src/Pipeline/Batcher/Delivery.antt =====
-- That the senders and the workers of pipeline/batch.go never wait for each other without end: what
-- they can still do while a sealed batch is not committed.
use file_d.Base.{
  ℕ, zero, suc, ◌+◌, ◌*◌, ◌%◌, ◌≤◌, ◌<◌, ◌^◌, ◌≡◌, refl, sym, ap, ◌∙◌, inl, inr, ◌⊎◌, false, some,
  List, [], ◌∷◌, ◌++◌, arith, ◌==◌, ok, length, length-append, List-cases, Bool-cases, ltb, true,
}
use file_d.Pipeline.Batch.{Batch}
use file_d.Pipeline.Batcher.{
  Batcher, take_at, send, work, commit_batch, sends, works, commits, step,
}
use file_d.Pipeline.Batcher.Content.{current}
use file_d.Pipeline.Batcher.Commits.{Reach, next, drained}
use file_d.Pipeline.Batcher.Channels.{count_seq, flying, flying-eq-due, commit_seq-le-out_seq}

-- Calls of senders and workers only: no event comes in, and the batcher is not stopped.
pub data Delivers : Batcher → Batcher → Type 0 where
  settled : {s : Batcher} → Delivers s s
  sent : (i : ℕ) {s u t : Batcher} → send i s ≡ ok u → Delivers u t → Delivers s t
  received : {s u t : Batcher} → work s ≡ ok u → Delivers u t → Delivers s t
  committed : (i : ℕ) {s u t : Batcher} → commit_batch i s ≡ ok u → Delivers u t → Delivers s t

-- A batch that is counted stands at some place.
count_seq-take_at :
    (n : ℕ) (bs : List Batch)
    → 0 < count_seq n bs
    → (i : ℕ) × (b : Batch) × (rest : List Batch) × (take_at i bs ≡ some (b, rest))
      × (b.seq ≡ n)
      × (length bs ≡ suc (length rest))
unfolding take_at
count_seq-take_at n [] h = ground arith
count_seq-take_at n (b ∷ bs) h = elim (Bool-cases (b.seq == n)) [
  | inl e ↦ (0, b, bs, refl, ground arith, refl)
  | inr e ↦
      let (i, c, rest, found, eq, long) = count_seq-take_at n bs (ground arith) in
      (suc i, c, b ∷ rest, ground arith, eq, ap suc long)
]

-- How many of the three calls are left before everything sealed is committed.
abbrev left : Batcher → ℕ
left s = 3 * length s.sending + 2 * length s.full_batches + length s.working

-- One call that gets a batch further, and what it leaves alone.
abbrev Kept : Batcher → Batcher → Type 0
Kept s u =
    (left u < left s)
    × (u.should_stop ≡ s.should_stop)
    × (u.out_seq ≡ s.out_seq)
    × (u.batch ≡ s.batch)
    × (u.added ≡ s.added)

abbrev Progress : Batcher → Type 0
Progress s =
    ((i : ℕ) × (u : Batcher) × (commit_batch i s ≡ ok u) × Kept s u)
    ⊎ (((u : Batcher) × (work s ≡ ok u) × Kept s u)
        ⊎ ((i : ℕ) × (u : Batcher) × (send i s ≡ ok u) × Kept s u))

commits_due :
    (s : Batcher)
    → 0 < count_seq s.commit_seq s.working
    → (i : ℕ) × (u : Batcher) × (commit_batch i s ≡ ok u) × Kept s u
unfolding commit_batch
commits_due s h =
    let (i, b, rest, found, eq, long) = count_seq-take_at s.commit_seq s.working h in
    let its_turn : (s.commit_seq == b.seq) ≡ true = ground arith in
    let u : Batcher = record s {
      working = rest;
      commit_seq = (s.commit_seq + 1) % 2 ^ 64;
      committed = s.committed ++ b.events;
      free_batches = s.free_batches ++ b ∷ [];
    } in
    (i, u, ground (arith, found, its_turn), (omega arith, refl, refl, refl, refl))

receives_first :
    (s : Batcher) → 0 < length s.full_batches → (u : Batcher) × (work s ≡ ok u) × Kept s u
unfolding work
receives_first s h = elim (List-cases s.full_batches) [
  | inl e ↦ ground arith
  | inr (b, rest, e) ↦
      (record s { full_batches = rest; working = b ∷ s.working }, rw e, ground arith)
]

sends_first :
    (s : Batcher)
    → s.should_stop ≡ false
    → 0 < length s.sending
    → (i : ℕ) × (u : Batcher) × (send i s ≡ ok u) × Kept s u
unfolding send take_at
sends_first s runs h = elim (List-cases s.sending) [
  | inl e ↦ ground arith
  | inr (b, rest, e) ↦ (
    0,
    record s { sending = rest; full_batches = s.full_batches ++ b ∷ [] },
    ground arith,
    ground (arith, length-append s.full_batches (b ∷ [])),
  )
]

count_seq-le-length : (n : ℕ) (bs : List Batch) → count_seq n bs ≤ length bs
count_seq-le-length n [] = omega arith
count_seq-le-length n (b ∷ bs) = ground (arith, count_seq-le-length n bs)

-- The batch that is due is with a worker, or in the channel, or with its sender.
progress :
    (workers : ℕ) (b : Batch) (s : Batcher)
    → Reach workers b s
    → s.should_stop ≡ false
    → s.commit_seq < s.out_seq
    → Progress s
progress workers b s r runs late =
    let on_its_way : flying s.commit_seq s ≡ 1 =
      ground (arith, flying-eq-due workers b s s.commit_seq r) in
    elim (Bool-cases (ltb 0 (count_seq s.commit_seq s.working))) [
      | inl e ↦ inl (commits_due s (ground arith))
      | inr e ↦ elim (Bool-cases (ltb 0 (length s.full_batches))) [
        | inl f ↦ inr (inl (receives_first s (ground arith)))
        | inr f ↦ inr (
            inr (
              sends_first s runs (
                ground (
                  arith,
                  count_seq-le-length s.commit_seq s.full_batches,
                  count_seq-le-length s.commit_seq s.sending,
                ))))
      ]
    ]

-- A state that senders and workers alone reach, with everything sealed committed.
abbrev pub Drains : Batcher → Type 0
Drains s =
    (t : Batcher) × Delivers s t
    × (t.commit_seq ≡ s.out_seq)
    × (s.added ≡ t.committed ++ current s.batch)

-- What a call leaves alone is left alone by the calls that follow it.
after_call :
    (s u : Batcher) → Kept s u → ((t : Batcher) → Delivers u t → Delivers s t) → Drains u → Drains s
after_call s u (less, stop, out, open_batch, added) first (t, d, c, e) =
    (t, first t d, c ∙ out, sym added ∙ e ∙ ap (λ b. t.committed ++ current b) open_batch)

ends_within :
    (workers : ℕ) (b : Batch) (n : ℕ) (s : Batcher)
    → left s < n
    → Reach workers b s
    → s.out_seq + 1 < 2 ^ 64
    → s.should_stop ≡ false
    → Drains s
unfolding step
ends_within workers b zero s less r room runs = ground arith
ends_within workers b (suc n) s less r room runs = elim (Bool-cases (ltb s.commit_seq s.out_seq)) [
  | inl late ↦ elim (progress workers b s r runs (ground arith)) [
    | inl (i, u, c, k) ↦
        after_call s u k (λ t d. committed i c d)
          (ends_within workers b n u (ground arith) (next (commits i) r room c) (ground arith)
            (ground arith))
    | inr (inl (u, c, k)) ↦
        after_call s u k (λ t d. received c d)
          (ends_within workers b n u (ground arith) (next works r room c) (ground arith)
            (ground arith))
    | inr (inr (i, u, c, k)) ↦
        after_call s u k (λ t d. sent i c d)
          (ends_within workers b n u (ground arith) (next (sends i) r room c) (ground arith)
            (ground arith))
  ]
  | inr e ↦
      let all_out : s.commit_seq ≡ s.out_seq =
        ground (arith, commit_seq-le-out_seq workers b s r) in
      (s, settled, all_out, drained workers b s r all_out)
]

-- No deadlock: from every state of a batcher that is not stopped, sends, receives and commits alone,
-- with no further event and no heartbeat, lead to a state in which every sealed batch is committed;
-- what is then committed is everything that was added but the open batch. So neither a full channel
-- nor the wait for an earlier commit holds a batch back for good.
pub sealed-Drains :
    (workers : ℕ) (b : Batch) (s : Batcher)
    → Reach workers b s
    → s.out_seq + 1 < 2 ^ 64
    → s.should_stop ≡ false
    → Drains s
sealed-Drains workers b s r room runs =
    ends_within workers b (suc (left s)) s (omega arith) r room runs
