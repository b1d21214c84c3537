-- ===== src/Pipeline/Batcher/Content.antt =====
-- The events of the batches of pipeline/batch.go by their numbers: what is on its way, taken in and
-- committed.
use file_d.Base.{
  ℕ, zero, suc, ◌+◌, ◌≤◌, ◌<◌, ◌%◌, ◌^◌, ◌≡◌, refl, sym, subst, ap, ap₂, ◌∙◌, inl, inr, Option,
  none, some, List, [], ◌∷◌, ◌++◌, arith, ◌==◌, if◌then◌else◌, ok, All, All-map, append_assoc,
  append-nil, Option-cases, List-cases, Bool-cases, leb, leb→le, some-injective,
}
use file_d.Pipeline.Event.{Event}
use file_d.Pipeline.Batch.{Batch, BatchStatus, not_ready, reset}
use file_d.Pipeline.Batcher.{Batcher, get_batch, try_send_batch, take_at}

-- The events of the batches 0 to n - 1, by their numbers.
abbrev pub concat : (ℕ → List Event) → ℕ → List Event
concat content zero = []
concat content (suc n) = concat content n ++ content n

abbrev assign : (ℕ → List Event) → ℕ → List Event → ℕ → List Event
assign content n es k = if k == n then es else content k

concat-assign :
    (content : ℕ → List Event) (n : ℕ) (es : List Event) (k : ℕ)
    → k ≤ n
    → concat (assign content n es) k ≡ concat content k
concat-assign content n es zero h = refl
concat-assign content n es (suc k) h = ground (arith, concat-assign content n es k)

abbrev pub current : Option Batch → List Event
current none = []
current (some b) = b.events

-- A batch on its way holds the events of its number.
abbrev pub IsFlying : (ℕ → List Event) → ℕ → Batch → Type 0
IsFlying content out b = (b.seq < out) × (b.events ≡ content b.seq)

-- What was taken in is the sealed batches and the open one, with the events `es`; what was committed
-- is the batches up to the number due.
pub record InvAt (content : ℕ → List Event) (es : List Event) (s : Batcher) : Type 0 where
  pub below : s.commit_seq ≤ s.out_seq
  pub took : s.added ≡ concat content s.out_seq ++ es
  pub gave : s.committed ≡ concat content s.commit_seq
  pub sending : All (IsFlying content s.out_seq) s.sending
  pub full : All (IsFlying content s.out_seq) s.full_batches
  pub working : All (IsFlying content s.out_seq) s.working

abbrev pub Inv : Batcher → Type 0
Inv s = (content : ℕ → List Event) × InvAt content (current s.batch) s

IsFlying-assign :
    (content : ℕ → List Event) (out : ℕ) (es : List Event) (b : Batch)
    → IsFlying content out b
    → IsFlying (assign content out es) (suc out) b
IsFlying-assign content out es b h = ground arith

concat-assign-suc :
    (content : ℕ → List Event) (n : ℕ) (es : List Event)
    → concat (assign content n es) (suc n) ++ [] ≡ concat content n ++ es
concat-assign-suc content n es =
    append-nil (concat (assign content n es) (suc n))
    ∙ ap₂ ◌++◌ (concat-assign content n es n (omega arith)) (ground arith)

-- A sealed batch takes the next number.
seal-Inv :
    (content : ℕ → List Event) (s : Batcher) (b : Batch)
    → s.out_seq + 1 < 2 ^ 64
    → InvAt content b.events s
    → Inv (record s {
      batch = none;
      out_seq = (s.out_seq + 1) % 2 ^ 64;
      sending = record b { seq = s.out_seq } ∷ s.sending;
    })
seal-Inv content s b room v = (
  content',
  record {
    below = omega (arith, v.below);
    took = rw next (v.took ∙ sym (concat-assign-suc content s.out_seq b.events));
    gave = v.gave ∙ sym (concat-assign content s.out_seq b.events s.commit_seq v.below);
    sending = ((omega arith, ground arith), fly s.sending v.sending);
    full = fly s.full_batches v.full;
    working = fly s.working v.working;
  },
)
  where
    content' : ℕ → List Event
    content' = assign content s.out_seq b.events

    next : (s.out_seq + 1) % 2 ^ 64 ≡ suc s.out_seq
    next = omega arith

    fly :
        (bs : List Batch)
        → All (IsFlying content s.out_seq) bs
        → All (IsFlying content' ((s.out_seq + 1) % 2 ^ 64)) bs
    fly bs h =
        subst (λ n. All (IsFlying content' n) bs) (sym next)
          (All-map (IsFlying content s.out_seq) (IsFlying content' (suc s.out_seq))
            (IsFlying-assign content s.out_seq b.events) bs h)

pub try_send_batch-Inv :
    (content : ℕ → List Event) (s : Batcher) (b : Batch) (status : BatchStatus)
    → s.out_seq + 1 < 2 ^ 64
    → InvAt content b.events s
    → Inv (try_send_batch s b status)
unfolding try_send_batch
try_send_batch-Inv content s b not_ready room v = (
  content,
  record {
    below = v.below;
    took = v.took;
    gave = v.gave;
    sending = v.sending;
    full = v.full;
    working = v.working;
  },
)
try_send_batch-Inv content s b _ room v = seal-Inv content s b room v

-- What `getBatch` leaves alone; the batch that it hands out holds the events of the open one.
pub record Leaves (s t : Batcher) (b : Batch) : Type 0 where
  pub out : t.out_seq ≡ s.out_seq
  pub commit : t.commit_seq ≡ s.commit_seq
  pub added : t.added ≡ s.added
  pub committed : t.committed ≡ s.committed
  pub sending : t.sending ≡ s.sending
  pub full : t.full_batches ≡ s.full_batches
  pub working : t.working ≡ s.working
  pub events : b.events ≡ current s.batch

pub get_batch-Leaves :
    (now : ℕ) (s t : Batcher) (b : Batch) → get_batch now s ≡ ok (t, b) → Leaves s t b
unfolding get_batch reset
get_batch-Leaves now s t b h = elim (Option-cases s.batch) [
  | inl e ↦ elim (List-cases s.free_batches) [
    | inl f ↦ ground arith
    | inr (x, xs, f) ↦ ground arith
  ]
  | inr (c, e) ↦ ground arith
]

pub keep-InvAt :
    (content : ℕ → List Event) (s t : Batcher) (b : Batch)
    → Leaves s t b
    → InvAt content (current s.batch) s
    → InvAt content b.events t
keep-InvAt content s t b l v = record {
  below = rw (l.out, l.commit) v.below;
  took = rw (l.out, l.events, l.added) v.took;
  gave = rw (l.commit, l.committed) v.gave;
  sending = rw (l.out, l.sending) v.sending;
  full = rw (l.out, l.full) v.full;
  working = rw (l.out, l.working) v.working;
}

-- The events `fs` more are taken in.
pub grow-InvAt :
    (content : ℕ → List Event) (s : Batcher) (es fs : List Event)
    → InvAt content es s
    → InvAt content (es ++ fs) (record s { added = s.added ++ fs })
grow-InvAt content s es fs v = record {
  below = v.below;
  took = ap (λ a. a ++ fs) v.took ∙ append_assoc (concat content s.out_seq) es fs;
  gave = v.gave;
  sending = v.sending;
  full = v.full;
  working = v.working;
}

pub take_at-All :
    (P : Batch → Type 0) (i : ℕ) (bs : List Batch) (b : Batch) (rest : List Batch)
    → take_at i bs ≡ some (b, rest)
    → All P bs
    → P b × All P rest
unfolding take_at
take_at-All P i [] b rest h a = cc
take_at-All P zero (x ∷ xs) b rest h a =
    subst (λ (r : Batch × List Batch). P r.0 × All P r.1) (some-injective _ _ h) a
take_at-All P (suc i) (x ∷ xs) b rest h a = elim (Option-cases (take_at i xs)) [
  | inl e ↦ ground arith
  | inr ((c, cs), e) ↦
      let (pc, pcs) = take_at-All P i xs c cs e a.1 in
      subst (λ (r : Batch × List Batch). P r.0 × All P r.1)
        (some-injective _ _ (rw (e, take_at) at h)) (pc, (a.0, pcs))
]

pub concat_split :
    (content : ℕ → List Event) (m n : ℕ)
    → m ≤ n
    → (rest : List Event) × (concat content n ≡ concat content m ++ rest)
concat_split content m zero h = let e : m ≡ 0 = omega arith in ([], rw e)
concat_split content m (suc n) h = elim (Bool-cases (leb m n)) [
  | inl le ↦
      let (rest, e) = concat_split content m n (leb→le m n le) in
      (
        rest ++ content n,
        ap (λ a. a ++ content n) e ∙ append_assoc (concat content m) rest (content n),
      )
  | inr gt ↦
      let e : m ≡ suc n = ground arith in ([], rw e (sym (append-nil (concat content (suc n)))))
]
