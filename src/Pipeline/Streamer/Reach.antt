-- ===== src/Pipeline/Streamer/Reach.antt =====
-- Every call of pipeline/streamer.go keeps the invariant of the charged streams, so it holds in each
-- state that the calls reach. What a heartbeat that comes too late does is in Timeouts and Stranded.
use file_d.Base.{
  ℕ, ◌+◌, ◌<◌, ◌≤◌, ◌≡◌, ◌≢◌, ◌⊎◌, ◌==◌, Bool, refl, true, false, Option, arith, if◌then◌else◌, ok,
  count, >>=-eq-ok, map-eq-ok, ok-injective, Bool-cases, not, sym, ◌∙◌, List-cases, subst, ap, inl,
  inr,
}
use file_d.Pipeline.Event.{Event}
use file_d.Pipeline.Stream.{Stream, attach, get, try_unblock}
use file_d.Pipeline.Stream.Ready.{ready, bit, IsSound, get-Charges, try_unblock-Charges}
use file_d.Pipeline.Streamer.{
  Streamer, update, new_streamer, get_stream, store, put_event, remove, attach_joined,
  instant_get_from, make_blocked, reset_blocked, block_round, block_get, block_wake, try_unblock_at,
  Call, puts, joins, attaches, gets, commits, blocks, wakes, unblocks, step,
}
use file_d.Pipeline.Streamer.Cells.{
  update-Same, timed, block_round_empty, block_round_some, reset_index-Moves,
}
use file_d.Pipeline.Streamer.Charged.{
  Inv, new_streamer-Inv, store-Inv, cells-Inv, get_stream-Inv, put_to-Inv, join_stream-Inv,
  attach_joined-Inv, commit_to-Inv, instant_get_from-Inv,
}

-- A method that keeps the processor of the stream charges nothing.
keep-Inv :
    {timely : Bool} (st : Streamer) (p : ℕ) (s : Stream)
    → Inv timely st
    → (st.cell p).is_attached ≡ true
    → (s.is_attached ≡ true) × IsSound s
    → Inv timely (record st { cell = update st.cell p s })
unfolding store
keep-Inv st p s v a k =
    store-Inv st p s false v (record { counted = ground arith; sound = k.1 })
      (λ old. ground (arith, v.untouched p old))

make_blocked-Inv :
    {timely : Bool} (st : Streamer) (p : ℕ) → Inv timely st → Inv timely (make_blocked st p)
unfolding make_blocked
make_blocked-Inv st p = cells-Inv st _ _ (
    update-Same st.cell p _
      (record { detaching = refl; attached = refl; queue = refl; away = refl; current = refl }))

timed-Inv :
    {timely : Bool} (st : Streamer) (p now : ℕ) → Inv timely st → Inv timely (timed st p now)
timed-Inv st p now = cells-Inv st _ _ (
    update-Same st.cell p _
      (record { detaching = refl; attached = refl; queue = refl; away = refl; current = refl }))

block_round-Inv :
    {timely : Bool} (st st' : Streamer) (p now : ℕ) (e : Option Event)
    → Inv timely st
    → (st.cell p).is_attached ≡ true
    → block_round st p now ≡ ok (st', e)
    → Inv timely st'
block_round-Inv st st' p now e v a h = elim (List-cases (st.cell p).queue) [
  | inl q ↦
      subst (Inv _)
        (ap (λ (r : Streamer × Option Event). r.0)
          (ok-injective (sym (block_round_empty st p now q) ∙ h)))
        (make_blocked-Inv (timed st p now) p (timed-Inv st p now v))
  | inr (x, xs, q) ↦
      let ((s, f), got, k) =
        map-eq-ok (get (st.cell p)) _ (sym (block_round_some st p now x xs q) ∙ h) in
      subst (Inv _) (ap (λ (r : Streamer × Option Event). r.0) k)
        (keep-Inv st p s v a (get-Charges (st.cell p) (v.sound p) s f a got))
]

block_get-Inv :
    {timely : Bool} (st st' : Streamer) (p now : ℕ) (e : Option Event)
    → Inv timely st
    → block_get st p now ≡ ok (st', e)
    → Inv timely st'
unfolding block_get
block_get-Inv st st' p now e v h = elim (Bool-cases (st.cell p).is_attached) [
  | inl a ↦ block_round-Inv st st' p now e v a (rw (a, not, if◌then◌else◌) at h)
  | inr a ↦ ground arith
]

block_wake-Inv :
    {timely : Bool} (st st' : Streamer) (p now : ℕ) (e : Option Event)
    → Inv timely st
    → (st.cell p).is_attached ≡ true
    → block_wake st p now ≡ ok (st', e)
    → Inv timely st'
unfolding block_wake reset_blocked
block_wake-Inv st st' p now e v a h =
    let (t, reset, k) = >>=-eq-ok (reset_blocked st p) _ h in
    let (cell, blocked, same, eq) = reset_index-Moves st t p (st.cell p).block_index reset in
    block_round-Inv t st' p now e (subst (Inv _) eq (cells-Inv st cell blocked same v))
      (subst (λ (u : Streamer). (u.cell p).is_attached ≡ true) eq ((same p).attached ∙ a)) k

-- The heartbeat gives an event to a stream that has none, or does nothing.
try_unblock-grows :
    (self now event_timeout : ℕ) (s t : Stream) (told : Bool)
    → try_unblock self now event_timeout s ≡ ok (t, told)
    → (t.is_attached ≡ s.is_attached)
      × (t.is_detaching ≡ s.is_detaching)
      × (ready s ≡ true → ready t ≡ true)
unfolding try_unblock
try_unblock-grows self now event_timeout s t told h =
    (ground arith, ground arith, λ r. ground arith)

-- It meets a stream without a processor.
unblock_left-Inv :
    {timely : Bool} (st : Streamer) (p now : ℕ) (s : Stream) (told : Bool)
    → Inv timely st
    → timely ≢ true
    → p < st.fresh
    → (st.cell p).is_attached ≡ false
    → try_unblock p now st.event_timeout (st.cell p) ≡ ok (s, told)
    → Inv timely (record st { cell = update st.cell p s })
unblock_left-Inv st p now s told v late known a got =
    let (same, same', grows) = try_unblock-grows p now st.event_timeout (st.cell p) s told got in
    record {
      sound = λ q. ground (arith, v.sound q, same, same');
      counted = λ q. elim (Bool-cases (p == q)) [
        | inl e ↦ elim (Bool-cases (ready (st.cell p))) [
          | inl r ↦ ground (arith, v.counted q, grows r)
          | inr r ↦ ground (arith, v.counted q)
        ]
        | inr e ↦ ground (arith, v.counted q)
      ];
      whole = λ t. absurd (late t);
      untouched = λ q h. ground (arith, v.untouched q h);
      known = v.known;
    }

try_unblock_at-Inv :
    {timely : Bool} (st st' : Streamer) (p now : ℕ)
    → Inv timely st
    → p < st.fresh
    → (timely ≡ true → (st.cell p).is_attached ≡ true)
    → try_unblock_at st p now ≡ ok st'
    → Inv timely st'
unfolding try_unblock_at
try_unblock_at-Inv st st' p now v known on_time h =
    let ((s, told), got, k) = map-eq-ok (try_unblock p now st.event_timeout (st.cell p)) _ h in
    subst (Inv _) k (elim (Bool-cases (st.cell p).is_attached) [
      | inl a ↦
          keep-Inv st p s v a
            (try_unblock-Charges (st.cell p) (v.sound p) p now st.event_timeout s told a got)
      | inr a ↦ unblock_left-Inv st p now s told v (λ t. ground (arith, on_time t)) known a got
    ])

-- Who may make a call: a stream is attached only by the processor that popped it, and only one that
-- still has its processor is woken. The heartbeat works on a copy of the block list; if all is timely, the
-- streams of the copy still have their processors when it meets them.
abbrev pub IsTimely : Bool → Streamer → Call → Type 0
IsTimely timely st (attaches p) = 0 < count p st.taken
IsTimely timely st (wakes p now) = (st.cell p).is_attached ≡ true
IsTimely timely st (unblocks p now) =
    (p < st.fresh) × (timely ≡ true → (st.cell p).is_attached ≡ true)
IsTimely timely st _ = Unit {0}

pub step-Inv :
    {timely : Bool} (st st' : Streamer) (c : Call)
    → Inv timely st
    → IsTimely timely st c
    → step st c ≡ ok st'
    → Inv timely st'
unfolding step
step-Inv st st' (puts i name e) v ok_call h = subst (Inv _) (ok-injective h) (
    unfold put_event in
    let (w, known) = get_stream-Inv st i name v in
    put_to-Inv (get_stream st i name).0 (get_stream st i name).1 e known w)
step-Inv st st' joins v ok_call h = subst (Inv _) (ok-injective h) (join_stream-Inv st v)
step-Inv st st' (attaches p) v ok_call h = attach_joined-Inv st st' p ok_call v h
step-Inv st st' (gets p) v ok_call h =
    let ((t, e), got, k) = map-eq-ok (instant_get_from st p) _ h in
    subst (Inv _) k (instant_get_from-Inv st t p e v got)
step-Inv st st' (commits p e) v ok_call h = subst (Inv _) (ok-injective h) (commit_to-Inv st p e v)
step-Inv st st' (blocks p now) v ok_call h =
    let ((t, e), got, k) = map-eq-ok (block_get st p now) _ h in
    subst (Inv _) k (block_get-Inv st t p now e v got)
step-Inv st st' (wakes p now) v ok_call h =
    let ((t, e), got, k) = map-eq-ok (block_wake st p now) _ h in
    subst (Inv _) k (block_wake-Inv st t p now e v ok_call got)
step-Inv st st' (unblocks p now) v ok_call h =
    try_unblock_at-Inv st st' p now v ok_call.0 ok_call.1 h

-- The states that the calls lead to; `timely` is what is asked of the heartbeat.
pub data Reach (timely : Bool) (timeout : ℕ) : Streamer → Type 0 where
  start : Reach timely timeout (new_streamer timeout)
  next :
      {st st' : Streamer} (c : Call)
      → Reach timely timeout st
      → IsTimely timely st c
      → step st c ≡ ok st'
      → Reach timely timeout st'

pub Reach-Inv :
    {timely : Bool} {timeout : ℕ} {st : Streamer} → Reach timely timeout st → Inv timely st
Reach-Inv {timely = b} {timeout = t} start = new_streamer-Inv b t
Reach-Inv (next {st = st} {st' = st'} c r t h) = step-Inv st st' c (Reach-Inv r) t h

-- In every state that the calls lead to, where a stream is attached by the processor that popped it, and
-- only a stream with a processor is woken, whatever streams the heartbeat meets: a stream stands at most
-- once among the charged streams and those just popped from there, and only if it has events and no
-- processor. If the heartbeat has met only streams with a processor, each stream that has events and no
-- processor does stand there. The code does not ensure the latter, since the heartbeat's copy of the
-- block list may name a stream that has lost its processor since.
pub count-charged :
    (timely : Bool) (timeout : ℕ) (st : Streamer) (p : ℕ)
    → Reach timely timeout st
    → (count p st.charged + count p st.taken ≤ bit (ready (st.cell p)))
      × ((timely ≡ false) ⊎ (count p st.charged + count p st.taken ≡ bit (ready (st.cell p))))
count-charged timely timeout st p r =
    let v = Reach-Inv r in
    (
      v.counted p,
      elim (Bool-cases timely) [
        | inl t ↦ inr (omega (arith, v.counted p, v.whole t p))
        | inr f ↦ inl f
      ],
    )

-- In the same states, whatever the heartbeat meets, a stream that `joinStream` has popped is attached
-- without a panic.
attach_joined_ok :
    (timely : Bool) (timeout : ℕ) (st : Streamer) (p : ℕ)
    → Reach timely timeout st
    → 0 < count p st.taken
    → (st' : Streamer) × (attach_joined st p ≡ ok st') × (((st'.cell p).is_attached) ≡ true)
unfolding attach_joined attach
attach_joined_ok timely timeout st p r taken =
    let v = Reach-Inv r in
    (
      record st {
        cell = update st.cell p (record (st.cell p) { is_attached = true });
        taken = remove p st.taken;
      },
      ground (arith, v.counted p, v.sound p),
      ground arith,
    )
