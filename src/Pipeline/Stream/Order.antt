-- ===== src/Pipeline/Stream/Order.antt =====
-- The order in which a stream hands its events out.
use file_d.Base.{
  ℕ, ◌+◌, ◌<◌, ◌^◌, ◌≡◌, refl, ◌⊎◌, inl, inr, Bool, Option, none, some, List, [], ◌∷◌, ◌++◌, arith,
  ok, List-cases, sym, subst, ◌∙◌,
}
use file_d.Pipeline.Event.{Event, timeout, in_stream, new_timeout_event}
use file_d.Pipeline.Stream.{Stream, put, commit, attach, get, instant_get, try_unblock}

-- From the last number handed out, `a`, the queue goes on one by one up to the last number given,
-- `c`; only a timeout event repeats a number.
abbrev pub Chain : ℕ → List Event → ℕ → Type 0
Chain a [] c = a ≡ c
Chain a (e ∷ es) c =
    ((e.seq_id ≡ a + 1) ⊎ ((e.kind ≡ timeout) × (e.seq_id ≡ a))) × Chain e.seq_id es c

abbrev pub IsOrdered : Stream → Type 0
IsOrdered s = Chain s.away_seq s.queue s.current_seq

Chain-append :
    (a c : ℕ) (es : List Event) (e : Event)
    → Chain a es c
    → e.seq_id ≡ c + 1
    → Chain a (es ++ e ∷ []) (c + 1)
Chain-append a c [] e h k = (inl (rw h k), k)
Chain-append a c (x ∷ es) e h k = (h.0, Chain-append x.seq_id c es e h.1 k)

-- What `put` stores: the event with the stream's next number.
abbrev stored : ℕ → Stream → Event → Event
stored p s e = record e { stream = some p; stage = in_stream; seq_id = s.current_seq + 1 }

put_fields :
    (p : ℕ) (s : Stream) (e : Event)
    → s.current_seq + 1 < 2 ^ 64
    → ((put p s e).0.away_seq ≡ s.away_seq)
      × ((put p s e).0.queue ≡ s.queue ++ stored p s e ∷ [])
      × ((put p s e).0.current_seq ≡ s.current_seq + 1)
unfolding put
put_fields p s e h = elim (List-cases s.queue) [
  | inl q ↦ ground arith
  | inr (x, xs, q) ↦ ground arith
]

pub put-IsOrdered :
    (p : ℕ) (s : Stream) (e : Event)
    → s.current_seq + 1 < 2 ^ 64
    → IsOrdered s
    → IsOrdered (put p s e).0
put-IsOrdered p s e h o =
    let (away, queue, current) = put_fields p s e h in
    rw (away, queue, current) (Chain-append s.away_seq s.current_seq s.queue (stored p s e) o refl)

-- What `instantGet` hands out is the head of the queue.
instant_get_fields :
    (s t : Stream) (charged : Bool) (e x : Event) (xs : List Event)
    → s.queue ≡ x ∷ xs
    → instant_get s ≡ ok (t, charged, some e)
    → (t.away_seq ≡ x.seq_id)
      × (t.queue ≡ xs)
      × (t.current_seq ≡ s.current_seq)
      × (e.seq_id ≡ x.seq_id)
      × (e.kind ≡ x.kind)
unfolding instant_get
instant_get_fields s t charged e x xs q h = ground arith

instant_get_empty :
    (s t : Stream) (charged : Bool) (e : Event)
    → s.queue ≡ []
    → ¬ (instant_get s ≡ ok (t, charged, some e))
unfolding instant_get
instant_get_empty s t charged e q h = ground arith

-- An event that `instantGet` takes from an ordered stream has the number after the last one, or is a
-- timeout event with the number of the last one; what is left is ordered behind it.
pub instant_get_next :
    (s t : Stream) (charged : Bool) (e : Event)
    → IsOrdered s
    → instant_get s ≡ ok (t, charged, some e)
    → IsOrdered t
      × (t.away_seq ≡ e.seq_id)
      × ((e.seq_id ≡ s.away_seq + 1) ⊎ ((e.kind ≡ timeout) × (e.seq_id ≡ s.away_seq)))
instant_get_next s t charged e o h = elim (List-cases s.queue) [
  | inl q ↦ absurd (instant_get_empty s t charged e q h)
  | inr (x, xs, q) ↦
      let (away, queue, current, seq, kind) = instant_get_fields s t charged e x xs q h in
      let chained : Chain s.away_seq (x ∷ xs) s.current_seq =
        subst (λ l. Chain s.away_seq l s.current_seq) q o in
      (rw (away, queue, current) chained.1, away ∙ sym seq, rw (seq, kind) chained.0)
]

-- The number and the queue of a stream are left alone.
pub record Keeps (s t : Stream) : Type 0 where
  pub away : t.away_seq ≡ s.away_seq
  pub queue : t.queue ≡ s.queue
  pub current : t.current_seq ≡ s.current_seq

pub Keeps-IsOrdered : (s t : Stream) → Keeps s t → IsOrdered s → IsOrdered t
Keeps-IsOrdered s t k o = rw (k.away, k.queue, k.current) o

pub commit-Keeps : (s : Stream) (e : Event) → Keeps s (commit s e).0
unfolding commit
commit-Keeps s e = record { away = ground arith; queue = ground arith; current = ground arith }

pub attach-Keeps : (s t : Stream) → attach s ≡ ok t → Keeps s t
unfolding attach
attach-Keeps s t h = record { away = ground arith; queue = ground arith; current = ground arith }

-- Without an event `instantGet` leaves the queue alone.
instant_get-Keeps :
    (s t : Stream) (charged : Bool) → instant_get s ≡ ok (t, charged, none) → Keeps s t
unfolding instant_get
instant_get-Keeps s t charged h = elim (List-cases s.queue) [
  | inl q ↦ record { away = ground arith; queue = ground arith; current = ground arith }
  | inr (x, xs, q) ↦ ground arith
]

pub instant_get-IsOrdered :
    (s t : Stream) (charged : Bool) (e : Option Event)
    → IsOrdered s
    → instant_get s ≡ ok (t, charged, e)
    → IsOrdered t
instant_get-IsOrdered s t charged (some e) o h = (instant_get_next s t charged e o h).0
instant_get-IsOrdered s t charged none o h = Keeps-IsOrdered s t (instant_get-Keeps s t charged h) o

get_fields :
    (s t : Stream) (e : Option Event) (x : Event) (xs : List Event)
    → s.queue ≡ x ∷ xs
    → get s ≡ ok (t, e)
    → (t.away_seq ≡ x.seq_id) × (t.queue ≡ xs) × (t.current_seq ≡ s.current_seq)
unfolding get
get_fields s t e x xs q h = ground arith

pub get-IsOrdered :
    (s t : Stream) (e : Option Event) (x : Event) (xs : List Event)
    → s.queue ≡ x ∷ xs
    → IsOrdered s
    → get s ≡ ok (t, e)
    → IsOrdered t
get-IsOrdered s t e x xs q o h =
    let (away, queue, current) = get_fields s t e x xs q h in
    let chained : Chain s.away_seq (x ∷ xs) s.current_seq =
      subst (λ l. Chain s.away_seq l s.current_seq) q o in
    rw (away, queue, current) chained.1

try_unblock_fields :
    (p now event_timeout : ℕ) (s t : Stream) (told : Bool)
    → IsOrdered s
    → try_unblock p now event_timeout s ≡ ok (t, told)
    → (t ≡ s)
      ⊎ ((s.queue ≡ [])
          × (s.away_seq ≡ s.commit_seq)
          × (t ≡ record s { queue = new_timeout_event p s.commit_seq s.stream_id s.name ∷ [] }))
unfolding try_unblock
try_unblock_fields p now event_timeout s t told o h = ground arith

pub try_unblock-IsOrdered :
    (p now event_timeout : ℕ) (s t : Stream) (told : Bool)
    → IsOrdered s
    → try_unblock p now event_timeout s ≡ ok (t, told)
    → IsOrdered t
unfolding new_timeout_event
try_unblock-IsOrdered p now event_timeout s t told o h =
    elim (try_unblock_fields p now event_timeout s t told o h) [
      | inl e ↦ rw e o
      | inr (q, done, e) ↦
          let empty : s.away_seq ≡ s.current_seq =
            subst (λ l. Chain s.away_seq l s.current_seq) q o in
          rw e (inr (refl, sym done), omega arith)
    ]
