-- ===== src/Pipeline/Pool/Slots.antt =====
-- The slots of a pool (pipeline/event.go): what a goroutine that is between the two flags of a slot
-- knows of it.
use file_d.Base.{
  ℕ, ◌+◌, ◌≤◌, ◌≡◌, Bool, true, false, Option, none, some, ◌==◌, get_elem?, set, arith,
}
use file_d.Pipeline.Pool.{Op, won, read, cleared, freed, claimed, stored, Pool}
use file_d.Base.{sum, sum_add, sum-set, le-sum}

abbrev pub bit : Bool → ℕ
bit true = 1
bit false = 0

abbrev pub full : Option ℕ → ℕ
full none = 0
full (some e) = 1

abbrev pub same : ℕ → ℕ → ℕ
same x y = bit (x == y)

-- A goroutine between the flag that it took of the slot `x` and the flag that it gives up.
abbrev pub inside : ℕ → Op → ℕ
inside x (won y) = same x y
inside x (read y o) = same x y
inside x (cleared y o) = same x y
inside x (claimed y e) = same x y
inside x (stored y) = same x y
inside x _ = 0

-- Of these, one that finds or leaves an event in the slot.
abbrev pub holding : ℕ → Op → ℕ
holding x (won y) = same x y
holding x (read y o) = same x y
holding x (stored y) = same x y
holding x _ = 0

-- A goroutine that read a slot and found nothing.
abbrev pub empty_handed : Op → ℕ
empty_handed (read y none) = 1
empty_handed (cleared y none) = 1
empty_handed (freed none) = 1
empty_handed _ = 0

abbrev pub ops : (Op → ℕ) → Pool → ℕ
ops w p = sum w p.goroutines

pub record Inv (p : Pool) : Type 0 where
  pub flags : (x : ℕ) → bit (p.free2 x) ≡ bit (p.free1 x) + ops (inside x) p
  pub filled : (x : ℕ) → full (p.events x) ≡ bit (p.free1 x) + ops (holding x) p
  pub found : ops empty_handed p ≡ 0

-- An access of one goroutine, which stood at `o` and comes to `o'`.
pub moves-Inv :
    (p q : Pool) (g : ℕ) (o o' : Op)
    → get_elem? p.goroutines g ≡ some o
    → q.goroutines ≡ set p.goroutines g o'
    → ((x : ℕ)
        → bit (q.free2 x) + bit (p.free1 x) + inside x o
          ≡ bit (p.free2 x) + bit (q.free1 x) + inside x o')
    → ((x : ℕ)
        → full (q.events x) + bit (p.free1 x) + holding x o
          ≡ full (p.events x) + bit (q.free1 x) + holding x o')
    → empty_handed o' ≡ empty_handed o
    → Inv p
    → Inv q
moves-Inv p q g o o' stands comes flags filled found v = record {
  flags = λ x.
      rw comes (omega (arith, flags x, v.flags x, sum-set (inside x) p.goroutines g o o' stands));
  filled = λ x.
      rw comes
        (omega (arith, filled x, v.filled x, sum-set (holding x) p.goroutines g o o' stands));
  found = rw comes (omega (arith, found, v.found, sum-set empty_handed p.goroutines g o o' stands));
}

-- One that is inside and finds nothing in the slot.
abbrev pub emptied : ℕ → Op → ℕ
emptied x (cleared y o) = same x y
emptied x (claimed y e) = same x y
emptied x _ = 0

holding_add_emptied : (x : ℕ) (o : Op) → holding x o + emptied x o ≡ inside x o
holding_add_emptied x (won y) = ground arith
holding_add_emptied x (read y o) = ground arith
holding_add_emptied x (cleared y o) = ground arith
holding_add_emptied x (claimed y e) = ground arith
holding_add_emptied x (stored y) = ground arith
holding_add_emptied x _ = ground arith

pub bit-le : (b : Bool) → bit b ≤ 1
bit-le true = omega arith
bit-le false = omega arith

full-le : (o : Option ℕ) → full o ≤ 1
full-le none = omega arith
full-le (some e) = omega arith

bit_low : (b : Bool) → bit b ≡ 0 → b ≡ false
bit_low b h = ground arith

bit_high : (b : Bool) → bit b ≡ 1 → b ≡ true
bit_high b h = ground arith

-- What a goroutine that is inside knows of its slot.
pub record Alone (p : Pool) (x : ℕ) (o : Op) : Type 0 where
  pub shut : p.free1 x ≡ false
  pub up : p.free2 x ≡ true
  pub only : ops (inside x) p ≡ 1
  pub sees : full (p.events x) ≡ holding x o

pub inside-Alone :
    (p : Pool) (g x : ℕ) (o : Op)
    → get_elem? p.goroutines g ≡ some o
    → inside x o ≡ 1
    → Inv p
    → Alone p x o
inside-Alone p g x o stands is_in v =
    let flags = v.flags x in
    let filled = v.filled x in
    let here = le-sum (inside x) p.goroutines g o stands in
    let holds = le-sum (holding x) p.goroutines g o stands in
    let empties = le-sum (emptied x) p.goroutines g o stands in
    let split = holding_add_emptied x o in
    let both = sum_add (holding x) (emptied x) (inside x) (holding_add_emptied x) p.goroutines in
    record {
      shut = bit_low (p.free1 x) (omega (arith, bit-le (p.free2 x)));
      up = bit_high (p.free2 x) (omega (arith, bit-le (p.free2 x)));
      only = omega (arith, bit-le (p.free2 x));
      sees = omega (arith, bit-le (p.free2 x));
    }
