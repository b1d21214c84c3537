-- ===== src/Pipeline/Streamer/Ordered.antt =====
-- Every call of pipeline/streamer.go keeps the order of each stream.
use file_d.Base.{
  ℕ, ◌+◌, ◌<◌, ◌^◌, ◌≡◌, refl, sym, subst, ap, ◌∙◌, Bool, true, false, Bytes, Option, arith, ok,
  >>=-eq-ok, map-eq-ok, ok-injective, List-cases, Option-cases, inl, inr, ◌==◌, if◌then◌else◌,
  pop_last-Pops, Bool-cases, not,
}
use file_d.Pipeline.Event.{Event}
use file_d.Pipeline.Stream.{Stream, new_stream, attach, get, instant_get, try_unblock}
use file_d.Pipeline.Stream.Order.{
  IsOrdered, Keeps, Keeps-IsOrdered, put-IsOrdered, commit-Keeps, attach-Keeps,
  instant_get-IsOrdered, get-IsOrdered, try_unblock-IsOrdered,
}
use file_d.Pipeline.Streamer.{
  Streamer, update, find_stream, get_stream, store, put_to, put_event, join_stream, attach_joined,
  commit_to, instant_get_from, make_blocked, reset_blocked, block_round, block_get, block_wake,
  try_unblock_at, Call, puts, joins, attaches, gets, commits, blocks, wakes, unblocks, step,
}
use file_d.Pipeline.Streamer.Cells.{
  Same, timed, block_round_empty, block_round_some, reset_index-Moves,
}

abbrev pub AllOrdered : (ℕ → Stream) → Type 0
AllOrdered cell = (p : ℕ) → IsOrdered (cell p)

update-AllOrdered :
    (cell : ℕ → Stream) (p : ℕ) (s : Stream)
    → AllOrdered cell
    → IsOrdered s
    → AllOrdered (update cell p s)
update-AllOrdered cell p s v o q = elim (Bool-cases (p == q)) [
  | inl e ↦ rw (e, if◌then◌else◌) o
  | inr e ↦ rw (e, if◌then◌else◌) (v q)
]

-- A write of other fields.
touch-AllOrdered :
    (cell : ℕ → Stream) (p : ℕ) (s : Stream)
    → Keeps (cell p) s
    → AllOrdered cell
    → AllOrdered (update cell p s)
touch-AllOrdered cell p s k v = update-AllOrdered cell p s v (Keeps-IsOrdered (cell p) s k (v p))

store-cell :
    (st : Streamer) (p : ℕ) (s : Stream) (c : Bool) → (store st p s c).cell ≡ update st.cell p s
unfolding store
store-cell st p s true = refl
store-cell st p s false = refl

store-AllOrdered :
    (st : Streamer) (p : ℕ) (s : Stream) (c : Bool)
    → AllOrdered st.cell
    → IsOrdered s
    → AllOrdered (store st p s c).cell
store-AllOrdered st p s c v o = rw (store-cell st p s c) (update-AllOrdered st.cell p s v o)

get_stream-AllOrdered :
    (st : Streamer) (i : ℕ) (name : Bytes)
    → AllOrdered st.cell
    → AllOrdered (get_stream st i name).0.cell
unfolding get_stream new_stream
get_stream-AllOrdered st i name v = elim (Option-cases (find_stream st.directory i name)) [
  | inr (p, e) ↦ rw (e, get_stream) v
  | inl e ↦ rw (e, get_stream) (update-AllOrdered st.cell st.fresh _ v refl)
]

Same-Keeps : (s t : Stream) → Same s t → Keeps s t
Same-Keeps s t k = record { away = k.away; queue = k.queue; current = k.current }

Same-AllOrdered :
    (cell cell' : ℕ → Stream)
    → ((q : ℕ) → Same (cell q) (cell' q))
    → AllOrdered cell
    → AllOrdered cell'
Same-AllOrdered cell cell' same v p =
    Keeps-IsOrdered (cell p) (cell' p) (Same-Keeps (cell p) (cell' p) (same p)) (v p)

make_blocked-AllOrdered :
    (st : Streamer) (p : ℕ) → AllOrdered st.cell → AllOrdered (make_blocked st p).cell
unfolding make_blocked
make_blocked-AllOrdered st p =
    touch-AllOrdered st.cell p _ (record { away = refl; queue = refl; current = refl })

abbrev IsOrdering : Streamer → Type 0
IsOrdering st = AllOrdered st.cell

block_round-AllOrdered :
    (st st' : Streamer) (p now : ℕ) (e : Option Event)
    → IsOrdering st
    → block_round st p now ≡ ok (st', e)
    → IsOrdering st'
block_round-AllOrdered st st' p now e v h = elim (List-cases (st.cell p).queue) [
  | inl q ↦
      subst IsOrdering
        (ap (λ (r : Streamer × Option Event). r.0)
          (ok-injective (sym (block_round_empty st p now q) ∙ h)))
        (make_blocked-AllOrdered (timed st p now) p
          (touch-AllOrdered st.cell p _ (record { away = refl; queue = refl; current = refl }) v))
  | inr (x, xs, q) ↦
      let ((s, f), got, k) =
        map-eq-ok (get (st.cell p)) _ (sym (block_round_some st p now x xs q) ∙ h) in
      subst IsOrdering (ap (λ (r : Streamer × Option Event). r.0) k)
        (update-AllOrdered st.cell p s v (get-IsOrdered (st.cell p) s f x xs q (v p) got))
]

block_get-AllOrdered :
    (st st' : Streamer) (p now : ℕ) (e : Option Event)
    → IsOrdering st
    → block_get st p now ≡ ok (st', e)
    → IsOrdering st'
unfolding block_get
block_get-AllOrdered st st' p now e v h = elim (Bool-cases (st.cell p).is_attached) [
  | inl a ↦ block_round-AllOrdered st st' p now e v (rw (a, not, if◌then◌else◌) at h)
  | inr a ↦ ground arith
]

block_wake-AllOrdered :
    (st st' : Streamer) (p now : ℕ) (e : Option Event)
    → IsOrdering st
    → block_wake st p now ≡ ok (st', e)
    → IsOrdering st'
unfolding block_wake reset_blocked
block_wake-AllOrdered st st' p now e v h =
    let (t, reset, k) = >>=-eq-ok (reset_blocked st p) _ h in
    let (cell, blocked, same, eq) = reset_index-Moves st t p (st.cell p).block_index reset in
    block_round-AllOrdered t st' p now e (subst IsOrdering eq (Same-AllOrdered st.cell cell same v))
      k

join_stream-cell : (st : Streamer) → (join_stream st).0.cell ≡ st.cell
unfolding join_stream
join_stream-cell st = elim (pop_last-Pops st.charged) [
  | inl (_, e) ↦ rw (e, join_stream)
  | inr (rest, p, q, e) ↦ rw (e, join_stream)
]

-- No stream is about to run out of numbers.
abbrev pub HasRoom : Streamer → Type 0
HasRoom st = (p : ℕ) → (st.cell p).current_seq + 1 < 2 ^ 64

get_stream_room :
    (st : Streamer) (i : ℕ) (name : Bytes) → HasRoom st → HasRoom (get_stream st i name).0
unfolding get_stream new_stream
get_stream_room st i name v p = elim (Option-cases (find_stream st.directory i name)) [
  | inr (q, e) ↦ rw (e, get_stream) (v p)
  | inl e ↦ rw (e, get_stream) (ground (arith, v p))
]

put_event-AllOrdered :
    (st : Streamer) (i : ℕ) (name : Bytes) (e : Event)
    → HasRoom st
    → IsOrdering st
    → IsOrdering (put_event st i name e).0
unfolding put_event put_to
put_event-AllOrdered st i name e room v =
    let found = get_stream st i name in
    let w = get_stream-AllOrdered st i name v in
    store-AllOrdered found.0 found.1 _ _ w (
      put-IsOrdered found.1 (found.0.cell found.1) e (get_stream_room st i name room found.1)
        (w found.1))

-- Every call, whoever makes it, keeps each stream in order: from the last number handed out, the
-- queue goes on without a gap up to the last number given, and only a timeout repeats a number.
pub step-AllOrdered :
    (st st' : Streamer) (c : Call)
    → ((p : ℕ) → (st.cell p).current_seq + 1 < 2 ^ 64)
    → AllOrdered st.cell
    → step st c ≡ ok st'
    → AllOrdered st'.cell
unfolding step
step-AllOrdered st st' (puts i name e) room v h =
    subst IsOrdering (ok-injective h) (put_event-AllOrdered st i name e room v)
step-AllOrdered st st' joins room v h =
    subst IsOrdering (ok-injective h) (rw (join_stream-cell st) v)
step-AllOrdered st st' (attaches p) room v h =
    unfold attach_joined in
    let (s, got, k) = map-eq-ok (attach (st.cell p)) _ h in
    subst IsOrdering k (touch-AllOrdered st.cell p s (attach-Keeps (st.cell p) s got) v)
step-AllOrdered st st' (gets p) room v h =
    unfold instant_get_from in
    let ((t, e), got, k) = map-eq-ok (instant_get_from st p) _ h in
    let ((s, c, f), got', k') = map-eq-ok (instant_get (st.cell p)) _ got in
    subst IsOrdering (ap (λ (r : Streamer × Option Event). r.0) k' ∙ k)
      (store-AllOrdered st p s c v (instant_get-IsOrdered (st.cell p) s c f (v p) got'))
step-AllOrdered st st' (commits p e) room v h =
    unfold commit_to in
    subst IsOrdering (ok-injective h) (
      store-AllOrdered st p _ _ v
        (Keeps-IsOrdered (st.cell p) _ (commit-Keeps (st.cell p) e) (v p)))
step-AllOrdered st st' (blocks p now) room v h =
    let ((t, e), got, k) = map-eq-ok (block_get st p now) _ h in
    subst IsOrdering k (block_get-AllOrdered st t p now e v got)
step-AllOrdered st st' (wakes p now) room v h =
    let ((t, e), got, k) = map-eq-ok (block_wake st p now) _ h in
    subst IsOrdering k (block_wake-AllOrdered st t p now e v got)
step-AllOrdered st st' (unblocks p now) room v h =
    unfold try_unblock_at in
    let ((s, told), got, k) = map-eq-ok (try_unblock p now st.event_timeout (st.cell p)) _ h in
    subst IsOrdering k (
      update-AllOrdered st.cell p s v
        (try_unblock-IsOrdered p now st.event_timeout (st.cell p) s told (v p) got))
