-- ===== src/Pipeline/Streamer/Charged.antt =====
-- The charged streams of pipeline/streamer.go: each stream that has events and no processor is there
-- once, and no other.
use file_d.Base.{
  ℕ, suc, ◌+◌, ◌≤◌, ◌<◌, ◌≡◌, refl, Bytes, Bool, true, false, Option, some, List, [], ◌∷◌, arith,
  ◌==◌, ok, count, count-append, Option-cases, pop_last-Pops, map-eq-ok, subst, ap, inl, inr, All,
}
use file_d.Pipeline.Event.{Event}
use file_d.Pipeline.Stream.{Stream, put, attach, commit, instant_get, new_stream}
use file_d.Pipeline.Stream.Ready.{
  ready, bit, IsSound, Charges, put-Charges, commit-Charges, attach-ready, instant_get-Charges,
}
use file_d.Pipeline.Streamer.{
  Streamer, new_streamer, find_stream, get_stream, store, put_to, join_stream, remove,
  attach_joined, commit_to, instant_get_from,
}
use file_d.Pipeline.Streamer.Cells.{Same}

-- `timely`: the heartbeat meets only streams with a processor.
pub record Inv (timely : Bool) (st : Streamer) : Type 0 where
  pub sound : (p : ℕ) → IsSound (st.cell p)
  pub counted : (p : ℕ) → count p st.charged + count p st.taken ≤ bit (ready (st.cell p))
  pub whole :
      timely ≡ true → (p : ℕ) → bit (ready (st.cell p)) ≤ count p st.charged + count p st.taken
  pub untouched :
      (p : ℕ) → st.fresh ≤ p → ((st.cell p).is_attached ≡ false) × ((st.cell p).queue ≡ [])
  pub known : All (λ (d : (ℕ × Bytes) × ℕ). d.1 < st.fresh) st.directory

pub new_streamer-Inv : (timely : Bool) (t : ℕ) → Inv timely (new_streamer t)
unfolding new_streamer
new_streamer-Inv timely t = record {
  sound = λ p. ground arith;
  counted = λ p. ground arith;
  whole = λ _ p. ground arith;
  untouched = λ p h. (refl, refl);
  known = tt;
}

abbrev pub IsKnown : ℕ → List ((ℕ × Bytes) × ℕ) → Type 0
IsKnown n = All (λ (d : (ℕ × Bytes) × ℕ). d.1 < n)

store-IsKnown :
    (st : Streamer) (p : ℕ) (s : Stream) (charged : Bool)
    → IsKnown st.fresh st.directory
    → IsKnown (store st p s charged).fresh (store st p s charged).directory
unfolding store
store-IsKnown st p s true h = h
store-IsKnown st p s false h = h

-- A method of a stream, with its call of `makeCharged`, keeps the invariant.
pub store-Inv :
    {timely : Bool} (st : Streamer) (p : ℕ) (s : Stream) (charged : Bool)
    → Inv timely st
    → Charges (st.cell p) s charged
    → (st.fresh ≤ p → (s.is_attached ≡ false) × (s.queue ≡ []))
    → Inv timely (store st p s charged)
unfolding store
store-Inv st p s charged v c idle = record {
  sound = λ q. ground (arith, v.sound q, c);
  counted = λ q. ground (arith, v.counted q, c, count-append q st.charged (p ∷ []));
  whole = λ timely_run q.
      ground (arith, v.whole timely_run q, v.counted q, c, count-append q st.charged (p ∷ []));
  untouched = λ q h. ground (arith, v.untouched q, idle);
  known = store-IsKnown st p s charged v.known;
}

-- The block list and its indices do not matter.
pub cells-Inv :
    {timely : Bool} (st : Streamer) (cell : ℕ → Stream) (blocked : List ℕ)
    → ((q : ℕ) → Same (st.cell q) (cell q))
    → Inv timely st
    → Inv timely (record st { cell = cell; blocked = blocked })
cells-Inv st cell blocked same v = record {
  sound = λ q. ground (arith, v.sound q, same q);
  counted = λ q. ground (arith, v.counted q, same q);
  whole = λ timely_run q. ground (arith, v.whole timely_run q, v.counted q, same q);
  untouched = λ q h. ground (arith, v.untouched q, same q);
  known = v.known;
}

find_stream-lt :
    (n : ℕ) (d : List ((ℕ × Bytes) × ℕ)) (i : ℕ) (name : Bytes) (p : ℕ)
    → IsKnown n d
    → find_stream d i name ≡ some p
    → p < n
unfolding find_stream
find_stream-lt n [] i name p v h = cc
find_stream-lt n (((j, m), q) ∷ d) i name p v h = ground (arith, find_stream-lt n d i name p v.1)

IsKnown-suc : (n : ℕ) (d : List ((ℕ × Bytes) × ℕ)) → IsKnown n d → IsKnown (suc n) d
IsKnown-suc n [] h = tt
IsKnown-suc n (x ∷ d) h = (omega arith, IsKnown-suc n d h.1)

pub get_stream-Inv :
    {timely : Bool} (st : Streamer) (i : ℕ) (name : Bytes)
    → Inv timely st
    → Inv timely (get_stream st i name).0
      × ((get_stream st i name).1 < (get_stream st i name).0.fresh)
unfolding get_stream new_stream
get_stream-Inv st i name v = elim (Option-cases (find_stream st.directory i name)) [
  | inr (p, e) ↦ rw (e, get_stream) (v, find_stream-lt st.fresh st.directory i name p v.known e)
  | inl e ↦
      rw (e, get_stream)
        (
          record {
            sound = λ q. ground (arith, v.sound q);
            counted = λ q. ground (arith, v.counted q, v.untouched st.fresh);
            whole = λ timely_run q.
                ground (arith, v.whole timely_run q, v.counted q, v.untouched st.fresh);
            untouched = λ q h. ground (arith, v.untouched q);
            known = (omega arith, IsKnown-suc st.fresh st.directory v.known);
          },
          omega arith,
        )
]

pub put_to-Inv :
    {timely : Bool} (st : Streamer) (p : ℕ) (e : Event)
    → p < st.fresh
    → Inv timely st
    → Inv timely (put_to st p e).0
unfolding put_to
put_to-Inv st p e h v =
    store-Inv st p (put p (st.cell p) e).0 (put p (st.cell p) e).1 v
      (put-Charges (st.cell p) (v.sound p) p e) (λ k. absurd (omega arith))

pub join_stream-Inv :
    {timely : Bool} (st : Streamer) → Inv timely st → Inv timely (join_stream st).0
unfolding join_stream
join_stream-Inv st v = elim (pop_last-Pops st.charged) [
  | inl (_, e) ↦ rw (e, join_stream) v
  | inr (rest, p, q, e) ↦
      rw (e, join_stream)
        (record {
          sound = v.sound;
          counted = λ r. ground (arith, v.counted r, count-append r rest (p ∷ []));
          whole = λ timely_run r.
              ground (arith, v.whole timely_run r, v.counted r, count-append r rest (p ∷ []));
          untouched = v.untouched;
          known = v.known;
        })
]

count-remove :
    (p q : ℕ) (xs : List ℕ) → 0 < count p xs → count q (remove p xs) + bit (p == q) ≡ count q xs
unfolding remove
count-remove p q [] h = absurd (omega arith)
count-remove p q (x ∷ xs) h = ground (arith, count-remove p q xs)

-- Only a stream that `joinStream` has popped is attached.
abbrev pub IsTaken : Streamer → ℕ → Type 0
IsTaken st p = 0 < count p st.taken

pub attach_joined-Inv :
    {timely : Bool} (st st' : Streamer) (p : ℕ)
    → IsTaken st p
    → Inv timely st
    → attach_joined st p ≡ ok st'
    → Inv timely st'
unfolding attach_joined
attach_joined-Inv st st' p taken v h =
    let (s, e, k) = map-eq-ok (attach (st.cell p)) _ h in
    let facts = attach-ready (st.cell p) (v.sound p) s e in
    let live : st.fresh ≤ p → ⊥ = λ k. ground (arith, v.untouched p, facts) in
    subst (Inv _) k (record {
      sound = λ q. ground (arith, v.sound q, facts);
      counted = λ q. ground (arith, v.counted q, facts, count-remove p q st.taken);
      whole = λ timely_run q.
          ground (arith, v.whole timely_run q, v.counted q, facts, count-remove p q st.taken);
      untouched = λ q k. ground (arith, v.untouched q, live);
      known = v.known;
    })

pub commit_to-Inv :
    {timely : Bool} (st : Streamer) (p : ℕ) (e : Event)
    → Inv timely st
    → Inv timely (commit_to st p e)
unfolding commit_to
commit_to-Inv st p e v =
    store-Inv st p (commit (st.cell p) e).0 (commit (st.cell p) e).1 v
      (commit-Charges (st.cell p) (v.sound p) e)
      (λ k. unfold commit in ground (arith, v.untouched p k, v.sound p))

-- Only an attached stream is read.
instant_get_attached :
    (s t : Stream) (c : Bool) (e : Option Event)
    → instant_get s ≡ ok (t, c, e)
    → s.is_attached ≡ true
unfolding instant_get
instant_get_attached s t c e h = ground arith

pub instant_get_from-Inv :
    {timely : Bool} (st st' : Streamer) (p : ℕ) (e : Option Event)
    → Inv timely st
    → instant_get_from st p ≡ ok (st', e)
    → Inv timely st'
unfolding instant_get_from
instant_get_from-Inv st st' p e v h =
    let ((s, c, f), got, k) = map-eq-ok (instant_get (st.cell p)) _ h in
    subst (Inv _) (ap (λ (r : Streamer × Option Event). r.0) k) (
      store-Inv st p s c v (instant_get-Charges (st.cell p) (v.sound p) s c f got)
        (λ k. ground (arith, v.untouched p k, instant_get_attached (st.cell p) s c f got)))
