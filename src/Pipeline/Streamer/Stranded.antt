-- ===== src/Pipeline/Streamer/Stranded.antt =====
-- A stream of pipeline/streamer.go that has events, no processor, and no place among the charged ones:
-- the writes and calls that leave it so, and runs of calls.
use file_d.Base.{
  ℕ, ◌+◌, ◌<◌, ◌≡◌, ◌≢◌, refl, sym, subst, ap, inl, inr, Bytes, Bool, true, false, Option, List, [],
  ◌∷◌, is_empty, arith, ◌==◌, ok, count, count-append, map-eq-ok, Bool-cases, Option-cases,
  List-cases, pop_last-Pops,
}
use file_d.Pipeline.Event.{Event}
use file_d.Pipeline.Stream.{Stream, put, attach, commit, instant_get}
use file_d.Pipeline.Streamer.{
  Streamer, update, find_stream, get_stream, store, join_stream, remove, attach_joined,
  instant_get_from, Call, attaches, wakes, step,
}
use file_d.Pipeline.Streamer.Cells.{Same}

-- Events and no processor.
abbrev pub IsIdle : Stream → Type 0
IsIdle s = (s.is_attached ≡ false) × (s.is_detaching ≡ false) × (is_empty s.queue ≡ false)

pub record Stranded (p : ℕ) (st : Streamer) : Type 0 where
  pub idle : IsIdle (st.cell p)
  pub absent : count p st.charged + count p st.taken ≡ 0
  pub known : p < st.fresh

-- What a call may do: only a stream that `joinStream` has popped is attached, and only a stream with a
-- processor is woken. The heartbeat may meet any stream.
abbrev pub IsAllowed : Streamer → Call → Type 0
IsAllowed st (attaches q) = 0 < count q st.taken
IsAllowed st (wakes q now) = (st.cell q).is_attached ≡ true
IsAllowed st _ = Unit {0}

pub data Runs (st : Streamer) : Streamer → Type 0 where
  stays : Runs st st
  calls : {t u : Streamer} (c : Call) → Runs st t → IsAllowed t c → step t c ≡ ok u → Runs st u

pub put-IsIdle :
    (q : ℕ) (s : Stream) (e : Event) → IsIdle s → IsIdle (put q s e).0 × ((put q s e).1 ≡ false)
unfolding put
put-IsIdle q s e h = elim (List-cases s.queue) [
  | inl empty ↦ ground arith
  | inr (x, xs, some_queue) ↦ ground arith
]

pub commit-IsIdle :
    (s : Stream) (e : Event) → IsIdle s → IsIdle (commit s e).0 × ((commit s e).1 ≡ false)
unfolding commit
commit-IsIdle s e h = ground arith

other : (p q : ℕ) → (p == q) ≡ false → (q == p) ≡ false
other p q h = ground arith

-- A method of a stream, which leaves this one idle, or another one.
pub store-Stranded :
    (p q : ℕ) (st : Streamer) (s : Stream) (charged : Bool)
    → (q ≡ p → IsIdle s × (charged ≡ false))
    → Stranded p st
    → Stranded p (store st q s charged)
unfolding store
store-Stranded p q st s charged kept v = elim (Bool-cases (q == p)) [
  | inl e ↦
      let same : q ≡ p = ground arith in
      let (idle, free) = kept same in
      record {
        idle = ground (arith, idle, free);
        absent = ground (arith, v.absent, free);
        known = ground (arith, v.known, free);
      }
  | inr e ↦ record {
    idle = ground (arith, v.idle);
    absent = ground (arith, v.absent, count-append p st.charged (q ∷ []));
    known = ground (arith, v.known);
  }
]

pub cells-Stranded :
    (p : ℕ) (st : Streamer) (cell : ℕ → Stream) (blocked : List ℕ)
    → ((q : ℕ) → Same (st.cell q) (cell q))
    → Stranded p st
    → Stranded p (record st { cell = cell; blocked = blocked })
cells-Stranded p st cell blocked same v = record {
  idle = ground (arith, v.idle, same p);
  absent = v.absent;
  known = v.known;
}

-- A write to another stream.
pub write-Stranded :
    (p q : ℕ) (st : Streamer) (s : Stream)
    → q ≢ p
    → Stranded p st
    → Stranded p (record st { cell = update st.cell q s })
unfolding store
write-Stranded p q st s apart v = store-Stranded p q st s false (λ h. absurd (apart h)) v

pub get_stream-Stranded :
    (p : ℕ) (st : Streamer) (i : ℕ) (name : Bytes)
    → Stranded p st
    → Stranded p (get_stream st i name).0
unfolding get_stream
get_stream-Stranded p st i name v = elim (Option-cases (find_stream st.directory i name)) [
  | inr (q, e) ↦ rw (e, get_stream) v
  | inl e ↦
      rw (e, get_stream)
        (record {
          idle = ground (arith, v.idle, v.known);
          absent = v.absent;
          known = omega (arith, v.known);
        })
]

pub join_stream-Stranded : (p : ℕ) (st : Streamer) → Stranded p st → Stranded p (join_stream st).0
unfolding join_stream
join_stream-Stranded p st v = elim (pop_last-Pops st.charged) [
  | inl (_, e) ↦ rw (e, join_stream) v
  | inr (rest, q, whole, e) ↦
      rw (e, join_stream)
        (record {
          idle = v.idle;
          absent = ground (arith, v.absent, count-append p rest (q ∷ []));
          known = v.known;
        })
]

count-remove-none : (p q : ℕ) (xs : List ℕ) → count p xs ≡ 0 → count p (remove q xs) ≡ 0
unfolding remove
count-remove-none p q [] h = refl
count-remove-none p q (x ∷ xs) h = ground (arith, count-remove-none p q xs)

pub attach_joined-Stranded :
    (p q : ℕ) (st st' : Streamer)
    → 0 < count q st.taken
    → Stranded p st
    → attach_joined st q ≡ ok st'
    → Stranded p st'
unfolding attach_joined
attach_joined-Stranded p q st st' taken v h =
    let (s, e, k) = map-eq-ok (attach (st.cell q)) _ h in
    let apart : q ≢ p = λ same. ground (arith, v.absent) in
    let w = write-Stranded p q st s apart v in
    subst (Stranded p) k (record {
      idle = w.idle;
      absent = omega (arith, v.absent, count-remove-none p q st.taken (omega (arith, v.absent)));
      known = v.known;
    })

-- Only an attached stream is read.
instant_get_attached :
    (s t : Stream) (c : Bool) (e : Option Event)
    → instant_get s ≡ ok (t, c, e)
    → s.is_attached ≡ true
unfolding instant_get
instant_get_attached s t c e h = ground arith

-- A stream with a processor is another one.
pub attached_apart :
    (p q : ℕ) (st : Streamer) → Stranded p st → (st.cell q).is_attached ≡ true → q ≢ p
attached_apart p q st v a same =
    let b : (st.cell q).is_attached ≡ false =
      subst (λ x. (st.cell x).is_attached ≡ false) (sym same) v.idle.0 in
    ground arith

pub instant_get_from-Stranded :
    (p q : ℕ) (st st' : Streamer) (e : Option Event)
    → Stranded p st
    → instant_get_from st q ≡ ok (st', e)
    → Stranded p st'
unfolding instant_get_from
instant_get_from-Stranded p q st st' e v h =
    let ((s, c, f), got, k) = map-eq-ok (instant_get (st.cell q)) _ h in
    let apart = attached_apart p q st v (instant_get_attached (st.cell q) s c f got) in
    subst (Stranded p) (ap (λ (r : Streamer × Option Event). r.0) k)
      (store-Stranded p q st s c (λ same. absurd (apart same)) v)
