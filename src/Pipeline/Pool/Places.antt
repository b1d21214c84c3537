-- ===== src/Pipeline/Pool/Places.antt =====
-- Where the events of a pool (pipeline/event.go) can be, and how a goroutine moves them.
use file_d.Base.{
  ℕ, zero, suc, ◌+◌, ◌-◌, ◌%◌, ◌≤◌, ◌<◌, ◌≡◌, refl, ap, ◌∙◌, inl, inr, Option, none, some, ltb,
  ◌==◌, get_elem?, set, length, count, All, arith, Bool-cases,
}
use file_d.Base.Int.{pos}
use file_d.Pipeline.Pool.{
  Op, getting, sleepy, asleep, won, read, cleared, freed, giving, claimed, stored, opened, Pool,
  write, at, next_round, failed,
}
use file_d.Base.{sum-set, le-sum, All-set}
use file_d.Pipeline.Pool.Slots.{bit, same, ops}

abbrev pub has : ℕ → Option ℕ → ℕ
has e none = 0
has e (some d) = same e d

-- How often an event stands in the first slots.
abbrev pub in_slots : ℕ → ℕ → (ℕ → Option ℕ) → ℕ
in_slots zero e events = 0
in_slots (suc n) e events = in_slots n e events + has e (events n)

in_slots-write_above :
    (n e : ℕ) (events : ℕ → Option ℕ) (x : ℕ) (o : Option ℕ)
    → n ≤ x
    → in_slots n e (write events x o) ≡ in_slots n e events
in_slots-write_above zero e events x o h = refl
in_slots-write_above (suc n) e events x o h = ground (arith, in_slots-write_above n e events x o)

pub in_slots-write :
    (n e : ℕ) (events : ℕ → Option ℕ) (x : ℕ) (o : Option ℕ)
    → x < n
    → in_slots n e (write events x o) + has e (events x) ≡ in_slots n e events + has e o
in_slots-write zero e events x o h = ground arith
in_slots-write (suc n) e events x o h = elim (Bool-cases (n == x)) [
  | inl eq ↦ ground (arith, in_slots-write_above n e events x o)
  | inr ne ↦ ground (arith, in_slots-write n e events x o)
]

-- Whether a goroutine has an event in hand that stands in no slot.
abbrev pub carries : ℕ → Op → ℕ
carries e (cleared x o) = has e o
carries e (freed o) = has e o
carries e (giving x d) = same e d
carries e (claimed x d) = same e d
carries e _ = 0

-- Whether a goroutine gives back an event that the counter still has.
abbrev pub gives : Op → ℕ
gives (giving x e) = 1
gives (claimed x e) = 1
gives (stored x) = 1
gives opened = 1
gives _ = 0

-- A goroutine is bound to a slot of the ring; what it read from its slot is still there.
abbrev pub Placed : ℕ → (ℕ → Option ℕ) → Op → Type 0
Placed capacity events (getting x tries k) = x < capacity
Placed capacity events (sleepy x) = x < capacity
Placed capacity events (asleep x) = x < capacity
Placed capacity events (won x) = x < capacity
Placed capacity events (read x o) = (x < capacity) × (o ≡ events x)
Placed capacity events (cleared x o) = x < capacity
Placed capacity events (giving x e) = x < capacity
Placed capacity events (claimed x e) = x < capacity
Placed capacity events (stored x) = x < capacity
Placed capacity events _ = Unit

-- How often an event stands in the slots, in the hands of the pool's goroutines, and outside.
abbrev pub places : ℕ → Pool → ℕ
places e p = in_slots p.capacity e p.events + ops (carries e) p + count e p.out

abbrev pub in_use : Pool → ℕ
in_use p = length p.out + ops gives p

pub record Whole (p : Pool) : Type 0 where
  pub positive : 0 < p.capacity
  pub placed : All (Placed p.capacity p.events) p.goroutines
  pub owned : (e : ℕ) → places e p ≡ bit (ltb e p.capacity)
  pub used : p.in_use_events ≡ pos (in_use p)

-- An access of one goroutine, which stood at `o` and comes to `o'`.
pub moves-Whole :
    (p q : Pool) (g : ℕ) (o o' : Op)
    → get_elem? p.goroutines g ≡ some o
    → q.goroutines ≡ set p.goroutines g o'
    → q.capacity ≡ p.capacity
    → ((e : ℕ)
        → in_slots p.capacity e q.events + carries e o' + count e q.out
          ≡ in_slots p.capacity e p.events + carries e o + count e p.out)
    → ((n : ℕ)
        → p.in_use_events ≡ pos (length p.out + n + gives o)
        → q.in_use_events ≡ pos (length q.out + n + gives o'))
    → All (Placed p.capacity q.events) (set p.goroutines g o')
    → Whole p
    → Whole q
moves-Whole p q g o o' stands comes same_size owned used placed v =
    let least = le-sum gives p.goroutines g o stands in
    let change = sum-set gives p.goroutines g o o' stands in
    let others : ℕ = ops gives p - gives o in
    let before : p.in_use_events ≡ pos (length p.out + others + gives o) =
      v.used ∙ ap pos (omega arith) in
    record {
      positive = rw same_size v.positive;
      placed = rw (comes, same_size) placed;
      owned = λ e.
          rw (comes, same_size)
            (omega (arith, owned e, v.owned e, sum-set (carries e) p.goroutines g o o' stands));
      used = used others before ∙ ap pos (rw comes (omega arith));
    }

-- Where the slots and what is out stay as they are.
pub quietly-Whole :
    (p : Pool) (g : ℕ) (o o' : Op)
    → get_elem? p.goroutines g ≡ some o
    → ((e : ℕ) → carries e o' ≡ carries e o)
    → gives o' ≡ gives o
    → Placed p.capacity p.events o'
    → Whole p
    → Whole (at p g o')
quietly-Whole p g o o' stands same_hands same_gives place v =
    moves-Whole p _ g o o' stands refl refl (λ e. omega (arith, same_hands e))
      (λ n h. rw same_gives h)
      (All-set (Placed p.capacity p.events) p.goroutines g o' place v.placed) v

pub next_round-place :
    (capacity : ℕ) (events : ℕ → Option ℕ) (x tries : ℕ)
    → x < capacity
    → Placed capacity events (next_round x tries)
      × ((e : ℕ) → carries e (next_round x tries) ≡ 0)
      × (gives (next_round x tries) ≡ 0)
unfolding next_round
next_round-place capacity events x tries h = elim (Bool-cases ((tries + 1) % 3 == 0)) [
  | inl e ↦ rw e (h, λ e. refl, refl)
  | inr e ↦ rw e (h, λ e. refl, refl)
]

pub failed-place :
    (capacity : ℕ) (events : ℕ → Option ℕ) (x tries k : ℕ)
    → x < capacity
    → Placed capacity events (failed x tries k)
      × ((e : ℕ) → carries e (failed x tries k) ≡ 0)
      × (gives (failed x tries k) ≡ 0)
unfolding failed
failed-place capacity events x tries k h = elim (Bool-cases (k == 2)) [
  | inl e ↦ rw e (next_round-place capacity events x tries h)
  | inr e ↦ rw e (h, λ e. refl, refl)
]
