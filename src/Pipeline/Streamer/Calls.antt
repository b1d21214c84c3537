-- ===== src/Pipeline/Streamer/Calls.antt =====
-- A stranded stream of pipeline/streamer.go stays so, whatever is called.
use file_d.Base.{
  ℕ, ◌≡◌, ◌≢◌, refl, sym, subst, ap, ◌∙◌, inl, inr, Bool, true, false, not, Option, arith,
  if◌then◌else◌, ok, >>=-eq-ok, map-eq-ok, ok-injective, Bool-cases, List-cases,
}
use file_d.Pipeline.Event.{Event}
use file_d.Pipeline.Stream.{Stream, put, commit, get, try_unblock}
use file_d.Pipeline.Streamer.{
  Streamer, get_stream, store, put_to, put_event, commit_to, instant_get_from, make_blocked,
  reset_blocked, block_round, block_get, block_wake, try_unblock_at, Call, puts, joins, attaches,
  gets, commits, blocks, wakes, unblocks, step,
}
use file_d.Pipeline.Streamer.Cells.{timed, block_round_empty, block_round_some, reset_index-Moves}
use file_d.Pipeline.Streamer.Stranded.{
  IsIdle, Stranded, IsAllowed, Runs, stays, calls, put-IsIdle, commit-IsIdle, store-Stranded,
  cells-Stranded, write-Stranded, get_stream-Stranded, join_stream-Stranded, attach_joined-Stranded,
  attached_apart, instant_get_from-Stranded,
}

block_round-Stranded :
    (p q now : ℕ) (st st' : Streamer) (e : Option Event)
    → q ≢ p
    → Stranded p st
    → block_round st q now ≡ ok (st', e)
    → Stranded p st'
unfolding make_blocked
block_round-Stranded p q now st st' e apart v h = elim (List-cases (st.cell q).queue) [
  | inl empty ↦
      let w = write-Stranded p q st (record (st.cell q) { block_time = now }) apart v in
      let u = write-Stranded p q (timed st q now) _ apart w in
      subst (Stranded p)
        (ap (λ (r : Streamer × Option Event). r.0)
          (ok-injective (sym (block_round_empty st q now empty) ∙ h)))
        (record { idle = u.idle; absent = u.absent; known = u.known })
  | inr (x, xs, some_queue) ↦
      let ((s, f), got, k) =
        map-eq-ok (get (st.cell q)) _ (sym (block_round_some st q now x xs some_queue) ∙ h) in
      subst (Stranded p) (ap (λ (r : Streamer × Option Event). r.0) k)
        (write-Stranded p q st s apart v)
]

block_get-Stranded :
    (p q now : ℕ) (st st' : Streamer) (e : Option Event)
    → Stranded p st
    → block_get st q now ≡ ok (st', e)
    → Stranded p st'
unfolding block_get
block_get-Stranded p q now st st' e v h = elim (Bool-cases (st.cell q).is_attached) [
  | inl a ↦
      block_round-Stranded p q now st st' e (attached_apart p q st v a) v
        (rw (a, not, if◌then◌else◌) at h)
  | inr a ↦ ground arith
]

block_wake-Stranded :
    (p q now : ℕ) (st st' : Streamer) (e : Option Event)
    → (st.cell q).is_attached ≡ true
    → Stranded p st
    → block_wake st q now ≡ ok (st', e)
    → Stranded p st'
unfolding block_wake reset_blocked
block_wake-Stranded p q now st st' e a v h =
    let (t, reset, k) = >>=-eq-ok (reset_blocked st q) _ h in
    let (cell, blocked, same, eq) = reset_index-Moves st t q (st.cell q).block_index reset in
    block_round-Stranded p q now t st' e (attached_apart p q st v a)
      (subst (Stranded p) eq (cells-Stranded p st cell blocked same v)) k

-- The heartbeat puts nothing into a stream that has events.
try_unblock-IsIdle :
    (self now event_timeout : ℕ) (s t : Stream) (told : Bool)
    → IsIdle s
    → try_unblock self now event_timeout s ≡ ok (t, told)
    → IsIdle t
unfolding try_unblock
try_unblock-IsIdle self now event_timeout s t told h k = ground arith

try_unblock_at-Stranded :
    (p q now : ℕ) (st st' : Streamer)
    → Stranded p st
    → try_unblock_at st q now ≡ ok st'
    → Stranded p st'
unfolding try_unblock_at store
try_unblock_at-Stranded p q now st st' v h =
    let ((s, told), got, k) = map-eq-ok (try_unblock q now st.event_timeout (st.cell q)) _ h in
    subst (Stranded p) k (
      store-Stranded p q st s false
        (λ same. (
          try_unblock-IsIdle q now st.event_timeout (st.cell q) s told
              (subst (λ x. IsIdle (st.cell x)) (sym same) v.idle) got,
          refl,
        ))
        v)

step-Stranded :
    (p : ℕ) (st st' : Streamer) (c : Call)
    → Stranded p st
    → IsAllowed st c
    → step st c ≡ ok st'
    → Stranded p st'
unfolding step
step-Stranded p st st' (puts i name e) v may h = subst (Stranded p) (ok-injective h) (
    unfold put_event put_to in
    let t = (get_stream st i name).0 in
    let q = (get_stream st i name).1 in
    let w = get_stream-Stranded p st i name v in
    store-Stranded p q t (put q (t.cell q) e).0 (put q (t.cell q) e).1
      (λ same. put-IsIdle q (t.cell q) e (subst (λ x. IsIdle (t.cell x)) (sym same) w.idle)) w)
step-Stranded p st st' joins v may h =
    subst (Stranded p) (ok-injective h) (join_stream-Stranded p st v)
step-Stranded p st st' (attaches q) v may h = attach_joined-Stranded p q st st' may v h
step-Stranded p st st' (gets q) v may h =
    let ((t, e), got, k) = map-eq-ok (instant_get_from st q) _ h in
    subst (Stranded p) k (instant_get_from-Stranded p q st t e v got)
step-Stranded p st st' (commits q e) v may h = subst (Stranded p) (ok-injective h) (
    unfold commit_to in
    store-Stranded p q st (commit (st.cell q) e).0 (commit (st.cell q) e).1
      (λ same. commit-IsIdle (st.cell q) e (subst (λ x. IsIdle (st.cell x)) (sym same) v.idle)) v)
step-Stranded p st st' (blocks q now) v may h =
    let ((t, e), got, k) = map-eq-ok (block_get st q now) _ h in
    subst (Stranded p) k (block_get-Stranded p q now st t e v got)
step-Stranded p st st' (wakes q now) v may h =
    let ((t, e), got, k) = map-eq-ok (block_wake st q now) _ h in
    subst (Stranded p) k (block_wake-Stranded p q now st t e may v got)
step-Stranded p st st' (unblocks q now) v may h = try_unblock_at-Stranded p q now st st' v h

pub Runs-Stranded : (p : ℕ) {st later : Streamer} → Runs st later → Stranded p st → Stranded p later
Runs-Stranded p stays v = v
Runs-Stranded p (calls {t = t} {u = u} c r may h) v =
    step-Stranded p t u c (Runs-Stranded p r v) may h
