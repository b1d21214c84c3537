-- ===== src/Pipeline/Pool.antt =====
-- pipeline/event.go, the type `eventPool`: a ring of slots with two flags each. The k-th `get` and
-- the k-th `back` are bound to the slot k % capacity by two counters; the flag `free1` opens a slot to
-- a `get`, and a false `free2` opens it to a `back`. An event is a pointer, a number here. The calls
-- run at once in goroutines: a goroutine stands between two accesses to what they share, and `advance`
-- makes its next one. A loop's failed attempt is such an access too. `out` lists the pointers that
-- the pipeline holds. The counters are int64, far from their end.
pub mod Slots
pub mod Moves
pub mod Places
pub mod Events
use file_d.Base.{
  ℕ, zero, suc, ◌+◌, ◌%◌, Bool, true, false, Option, none, some, List, [], ◌∷◌, map, replicate, ltb,
  ◌==◌, ◌&&◌, not, ◌≡◌, get_elem?, set, if◌then◌else◌, Result, ok, err,
}
use file_d.Base.Int.{ℤ, pos, inc, dec}

-- Where a goroutine stands. A slot's number comes first; `o` is what it read from the slot.
pub data Op : Type 0 where
  idle : Op
  -- `get`: the slot, the rounds since the last sleep, the attempts of this round
  getting : ℕ → ℕ → ℕ → Op
  -- before `getMu.Lock` and `getCond.Wait`, and in the wait
  sleepy : ℕ → Op
  asleep : ℕ → Op
  -- `free1` is taken; the event is read; the slot is cleared; `free2` is down
  won : ℕ → Op
  read : ℕ → Option ℕ → Op
  cleared : ℕ → Option ℕ → Op
  freed : Option ℕ → Op
  -- `back`: with its event; `free2` is taken; the slot is written; `free1` is up; `inUseEvents` is down
  giving : ℕ → ℕ → Op
  claimed : ℕ → ℕ → Op
  stored : ℕ → Op
  opened : Op
  given : Op

pub record Pool : Type 0 where
  pub capacity : ℕ
  pub in_use_events : ℤ
  pub get_counter : ℕ
  pub back_counter : ℕ
  pub events : ℕ → Option ℕ
  pub free1 : ℕ → Bool
  pub free2 : ℕ → Bool
  pub goroutines : List Op
  pub out : List ℕ

pub data Fault : Type 0 where
  -- `event.reset` of nil
  nil_event : Fault
  -- a call that cannot be made: no such goroutine, or it is not idle, or no such event
  no_call : Fault

abbrev pub write {ℓ} : {A : Type ℓ} → (ℕ → A) → ℕ → A → ℕ → A
write f x v y = if y == x then v else f y

-- `events`, `free1` and `free2` are slices of `capacity` entries, and no other index is used.
unfoldable pub new_event_pool : ℕ → ℕ → Pool
new_event_pool capacity goroutines = record {
  capacity = capacity;
  in_use_events = pos 0;
  get_counter = 0;
  back_counter = capacity;
  events = some;
  free1 = λ _. true;
  free2 = λ _. true;
  goroutines = replicate goroutines idle;
  out = [];
}

-- A goroutine leaves its place.
abbrev pub at : Pool → ℕ → Op → Pool
at p g o = record p { goroutines = set p.goroutines g o }

abbrev max_tries : ℕ
max_tries = 3

-- The end of a round without success.
unfoldable pub next_round : ℕ → ℕ → Op
next_round x tries = if (tries + 1) % max_tries == 0 then sleepy x else getting x (tries + 1) 0

-- A failed attempt; a round has three.
unfoldable pub failed : ℕ → ℕ → ℕ → Op
failed x tries k = if k == 2 then next_round x tries else getting x tries (k + 1)

-- One attempt of the loop of `get`; the counter is loaded once in a round.
unfoldable pub try_get : Pool → ℕ → ℕ → ℕ → ℕ → Pool
try_get p g x tries k =
    if k == 0 && not (ltb x p.back_counter)
    then at p g (next_round x tries)
    else if p.free1 x
    then record p { free1 = write p.free1 x false; goroutines = set p.goroutines g (won x) }
    else at p g (failed x tries k)

-- One attempt of the loop of `back`; the pauses between the attempts change nothing.
unfoldable pub try_back : Pool → ℕ → ℕ → ℕ → Pool
try_back p g x e =
    if p.free2 x
    then p
    else record p { free2 = write p.free2 x true; goroutines = set p.goroutines g (claimed x e) }

-- `inUseEvents.Inc`, the reset and the return.
unfoldable pub hand_out : Pool → ℕ → Option ℕ → Result Fault Pool
hand_out p g none = err nil_event
hand_out p g (some e) = ok (record p {
  in_use_events = inc p.in_use_events;
  goroutines = set p.goroutines g idle;
  out = e ∷ p.out;
})

-- `getCond.Broadcast`.
abbrev pub wake : Op → Op
wake (asleep x) = getting x 0 0
wake o = o

-- The next access of the goroutine `g`, which stands at the given place.
unfoldable pub advance : Pool → ℕ → Op → Result Fault Pool
advance p g idle = ok p
advance p g (getting x tries k) = ok (try_get p g x tries k)
advance p g (sleepy x) = ok (at p g (asleep x))
advance p g (asleep x) = ok p
advance p g (won x) = ok (at p g (read x (p.events x)))
advance p g (read x o) =
    ok (record p { events = write p.events x none; goroutines = set p.goroutines g (cleared x o) })
advance p g (cleared x o) =
    ok (record p { free2 = write p.free2 x false; goroutines = set p.goroutines g (freed o) })
advance p g (freed o) = hand_out p g o
advance p g (giving x e) = ok (try_back p g x e)
advance p g (claimed x e) =
    ok (record p { events = write p.events x (some e); goroutines = set p.goroutines g (stored x) })
advance p g (stored x) =
    ok (record p { free1 = write p.free1 x true; goroutines = set p.goroutines g opened })
advance p g opened =
    ok (record p { in_use_events = dec p.in_use_events; goroutines = set p.goroutines g given })
advance p g given = ok (record p { goroutines = map wake (set p.goroutines g idle) })

-- The start of `get` in a goroutine.
unfoldable pub get : Pool → ℕ → Pool
get p g = record p {
  get_counter = p.get_counter + 1;
  goroutines = set p.goroutines g (getting (p.get_counter % p.capacity) 0 0);
}

-- One of the events that are out, by its place, and the others.
unfoldable pub pick : ℕ → List ℕ → Option (ℕ × List ℕ)
pick i [] = none
pick zero (e ∷ es) = some (e, es)
pick (suc i) (e ∷ es) = elim (pick i es) [ none ↦ none | some (d, ds) ↦ some (d, e ∷ ds) ]

-- The start of `back` in a goroutine.
unfoldable pub back : Pool → ℕ → ℕ → List ℕ → Pool
back p g e rest = record p {
  back_counter = p.back_counter + 1;
  goroutines = set p.goroutines g (giving (p.back_counter % p.capacity) e);
  out = rest;
}

pub data Call : Type 0 where
  gets : Call
  -- with the place in `out` of the event that comes back
  backs : ℕ → Call
  goes : Call

unfoldable pub give_back : Pool → ℕ → Option (ℕ × List ℕ) → Result Fault Pool
give_back p g none = err no_call
give_back p g (some (e, rest)) = ok (back p g e rest)

unfoldable pub act : Pool → ℕ → Call → Option Op → Result Fault Pool
act p g c none = err no_call
act p g gets (some idle) = ok (get p g)
act p g (backs i) (some idle) = give_back p g (pick i p.out)
act p g goes (some o) = advance p g o
act p g _ (some o) = err no_call

-- The goroutine `g` begins a call, or makes its next access.
unfoldable pub step : Pool → ℕ → Call → Result Fault Pool
step p g c = act p g c (get_elem? p.goroutines g)

-- What a pool can come to, whatever the order of the accesses.
pub data Reach (capacity : ℕ) (goroutines : ℕ) : Pool → Type 0 where
  start : Reach capacity goroutines (new_event_pool capacity goroutines)
  next :
      {p q : Pool} (g : ℕ) (c : Call)
      → Reach capacity goroutines p
      → step p g c ≡ ok q
      → Reach capacity goroutines q
