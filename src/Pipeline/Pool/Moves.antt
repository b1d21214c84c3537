-- ===== src/Pipeline/Pool/Moves.antt =====
-- Every access of a goroutine keeps the slots of a pool (pipeline/event.go) in order.
use file_d.Base.{
  ℕ, ◌+◌, ◌%◌, ◌≤◌, ◌≡◌, refl, sym, subst, ◌∙◌, inl, inr, Option, none, some, List, map, ltb, ◌==◌,
  ◌&&◌, not, get_elem?, ok, arith, Bool-cases, if_true, if_false, ok-injective,
}
use file_d.Pipeline.Pool.{
  Op, act, give_back, idle, getting, sleepy, asleep, won, read, cleared, freed, giving, claimed,
  stored, opened, given, Pool, new_event_pool, at, next_round, failed, try_get, try_back, hand_out,
  wake, advance, get, pick, back, Call, gets, backs, goes, step, Reach, start, next,
}
use file_d.Base.{sum, le-sum, sum-map, sum-replicate}
use file_d.Pipeline.Pool.Slots.{
  bit-le, full, inside, holding, empty_handed, ops, Inv, moves-Inv, inside-Alone,
}

-- Two places at which a goroutine has no flag and no event of a slot.
abbrev Quiet : Op → Type 0
Quiet o = ((x : ℕ) → (inside x o ≡ 0) × (holding x o ≡ 0)) × (empty_handed o ≡ 0)

quietly-Inv :
    (p : Pool) (g : ℕ) (o o' : Op)
    → get_elem? p.goroutines g ≡ some o
    → Quiet o
    → Quiet o'
    → Inv p
    → Inv (at p g o')
quietly-Inv p g o o' stands (a, b) (c, d) v =
    moves-Inv p _ g o o' stands refl (λ x. omega (arith, a x, c x)) (λ x. omega (arith, a x, c x))
      (d ∙ sym b) v

next_round-Quiet : (x tries : ℕ) → Quiet (next_round x tries)
unfolding next_round
next_round-Quiet x tries = elim (Bool-cases ((tries + 1) % 3 == 0)) [
  | inl e ↦ rw e (λ x. (refl, refl), refl)
  | inr e ↦ rw e (λ x. (refl, refl), refl)
]

failed-Quiet : (x tries k : ℕ) → Quiet (failed x tries k)
unfolding failed
failed-Quiet x tries k = elim (Bool-cases (k == 2)) [
  | inl e ↦ rw e (next_round-Quiet x tries)
  | inr e ↦ rw e (λ x. (refl, refl), refl)
]

try_get-Inv :
    (p : Pool) (g x tries k : ℕ)
    → get_elem? p.goroutines g ≡ some (getting x tries k)
    → Inv p
    → Inv (try_get p g x tries k)
unfolding try_get
try_get-Inv p g x tries k stands v = elim (Bool-cases (k == 0 && not (ltb x p.back_counter))) [
  | inl e ↦
      subst Inv (sym (if_true _ _ e))
        (quietly-Inv p g _ _ stands (λ x. (refl, refl), refl) (next_round-Quiet x tries) v)
  | inr e ↦ subst Inv (sym (if_false _ _ e)) (elim (Bool-cases (p.free1 x)) [
    | inl b ↦ subst Inv (sym (if_true _ _ b)) (
        moves-Inv p _ g (getting x tries k) (won x) stands refl (λ y. ground arith)
          (λ y. ground arith) refl v)
    | inr b ↦
        subst Inv (sym (if_false _ _ b))
          (quietly-Inv p g _ _ stands (λ x. (refl, refl), refl) (failed-Quiet x tries k) v)
  ])
]

try_back-Inv :
    (p : Pool) (g x e : ℕ)
    → get_elem? p.goroutines g ≡ some (giving x e)
    → Inv p
    → Inv (try_back p g x e)
unfolding try_back
try_back-Inv p g x e stands v = elim (Bool-cases (p.free2 x)) [
  | inl b ↦ subst Inv (sym (if_true _ _ b)) v
  | inr b ↦ subst Inv (sym (if_false _ _ b)) (
      moves-Inv p _ g (giving x e) (claimed x e) stands refl (λ y. ground arith) (λ y. ground arith)
        refl v)
]

found_full : (x : ℕ) (o : Option ℕ) → full o ≡ 1 → empty_handed (read x o) ≡ 0
found_full x none h = ground arith
found_full x (some e) h = refl

cleared_as_read : (x : ℕ) (o : Option ℕ) → empty_handed (cleared x o) ≡ empty_handed (read x o)
cleared_as_read x none = refl
cleared_as_read x (some e) = refl

freed_as_cleared : (x : ℕ) (o : Option ℕ) → empty_handed (freed o) ≡ empty_handed (cleared x o)
freed_as_cleared x none = refl
freed_as_cleared x (some e) = refl

-- A broadcast changes the places of those who wait only.
abbrev pub Unwoken : (Op → ℕ) → Type 0
Unwoken w = (x : ℕ) → (w (asleep x) ≡ 0) × (w (getting x 0 0) ≡ 0)

wake-weight : (w : Op → ℕ) → Unwoken w → (o : Op) → w (wake o) ≡ w o
wake-weight w h (asleep x) = ground (arith, h x)
wake-weight w h _ = refl

pub woken : (w : Op → ℕ) → Unwoken w → (gs : List Op) → sum w (map wake gs) ≡ sum w gs
woken w h gs = sum-map w wake (wake-weight w h) gs

woken-Inv : (p : Pool) → Inv p → Inv (record p { goroutines = map wake p.goroutines })
woken-Inv p v = record {
  flags = λ x. rw (woken (inside x) (λ y. (refl, refl)) p.goroutines) (v.flags x);
  filled = λ x. rw (woken (holding x) (λ y. (refl, refl)) p.goroutines) (v.filled x);
  found = rw (woken empty_handed (λ y. (refl, refl)) p.goroutines) v.found;
}

advance-Inv :
    (p q : Pool) (g : ℕ) (o : Op)
    → get_elem? p.goroutines g ≡ some o
    → advance p g o ≡ ok q
    → Inv p
    → Inv q
unfolding advance hand_out
advance-Inv p q g idle stands h v = subst Inv (ok-injective h) v
advance-Inv p q g (getting x tries k) stands h v =
    subst Inv (ok-injective h) (try_get-Inv p g x tries k stands v)
advance-Inv p q g (sleepy x) stands h v =
    subst Inv (ok-injective h) (
      moves-Inv p _ g (sleepy x) (asleep x) stands refl (λ x. omega arith) (λ x. omega arith) refl
        v)
advance-Inv p q g (asleep x) stands h v = subst Inv (ok-injective h) v
advance-Inv p q g (won x) stands h v =
    let a = inside-Alone p g x (won x) stands (ground arith) v in
    let sees = a.sees in
    subst Inv (ok-injective h) (
      moves-Inv p _ g (won x) (read x (p.events x)) stands refl (λ y. ground arith)
        (λ y. ground arith) (found_full x (p.events x) (ground arith)) v)
advance-Inv p q g (read x o) stands h v =
    let a = inside-Alone p g x (read x o) stands (ground arith) v in
    let sees = a.sees in
    subst Inv (ok-injective h) (
      moves-Inv p _ g (read x o) (cleared x o) stands refl (λ y. ground arith) (λ y. ground arith)
        (cleared_as_read x o) v)
advance-Inv p q g (cleared x o) stands h v =
    let a = inside-Alone p g x (cleared x o) stands (ground arith) v in
    subst Inv (ok-injective h) (
      moves-Inv p _ g _ (freed o) stands refl (λ y. ground (arith, a.up))
        (λ y. ground (arith, a.up)) (freed_as_cleared x o) v)
advance-Inv p q g (freed none) stands h v = cc
advance-Inv p q g (freed (some e)) stands h v = subst Inv (ok-injective h) (
    moves-Inv p _ g (freed (some e)) idle stands refl (λ y. ground arith) (λ y. ground arith) refl
      v)
advance-Inv p q g (giving x e) stands h v =
    subst Inv (ok-injective h) (try_back-Inv p g x e stands v)
advance-Inv p q g (claimed x e) stands h v =
    let a = inside-Alone p g x (claimed x e) stands (ground arith) v in
    subst Inv (ok-injective h) (
      moves-Inv p _ g _ (stored x) stands refl (λ y. ground (arith, a.sees))
        (λ y. ground (arith, a.sees)) refl v)
advance-Inv p q g (stored x) stands h v =
    let a = inside-Alone p g x (stored x) stands (ground arith) v in
    subst Inv (ok-injective h) (
      moves-Inv p _ g _ opened stands refl (λ y. ground (arith, a.shut))
        (λ y. ground (arith, a.shut)) refl v)
advance-Inv p q g opened stands h v =
    subst Inv (ok-injective h)
      (moves-Inv p _ g opened given stands refl (λ x. omega arith) (λ x. omega arith) refl v)
advance-Inv p q g given stands h v = subst Inv (ok-injective h) (
    woken-Inv (at p g idle)
      (quietly-Inv p g given idle stands (λ x. (refl, refl), refl) (λ x. (refl, refl), refl) v))

give_back-Inv :
    (p q : Pool) (g : ℕ) (o : Option (ℕ × List ℕ))
    → get_elem? p.goroutines g ≡ some idle
    → give_back p g o ≡ ok q
    → Inv p
    → Inv q
unfolding give_back back
give_back-Inv p q g none stands h v = cc
give_back-Inv p q g (some (e, rest)) stands h v =
    subst Inv (ok-injective h)
      (moves-Inv p _ g idle _ stands refl (λ x. omega arith) (λ x. omega arith) refl v)

act-Inv :
    (p q : Pool) (g : ℕ) (c : Call) (o : Option Op)
    → get_elem? p.goroutines g ≡ o
    → act p g c o ≡ ok q
    → Inv p
    → Inv q
unfolding act get
act-Inv p q g c none stands h v = cc
act-Inv p q g gets (some idle) stands h v =
    subst Inv (ok-injective h)
      (moves-Inv p _ g idle _ stands refl (λ x. omega arith) (λ x. omega arith) refl v)
act-Inv p q g (backs i) (some idle) stands h v = give_back-Inv p q g (pick i p.out) stands h v
act-Inv p q g goes (some o) stands h v = advance-Inv p q g o stands h v
act-Inv p q g _ (some o) stands h v = cc

pub Reach-Inv : {capacity n : ℕ} {p : Pool} → Reach capacity n p → Inv p
unfolding new_event_pool step
Reach-Inv {n = n} start = record {
  flags = λ x. omega (arith, sum-replicate (inside x) n idle refl);
  filled = λ x. omega (arith, sum-replicate (holding x) n idle refl);
  found = sum-replicate empty_handed n idle refl;
}
Reach-Inv (next {p = p} {q = q} g c r h) =
    act-Inv p q g c (get_elem? p.goroutines g) refl h (Reach-Inv r)

full_high : (o : Option ℕ) → full o ≡ 1 → (e : ℕ) × (o ≡ some e)
full_high none h = ground arith
full_high (some e) h = (e, refl)

pub full_low : (o : Option ℕ) → full o ≡ 0 → o ≡ none
full_low none h = refl
full_low (some e) h = ground arith

at_most_one : (p : Pool) (x : ℕ) → Inv p → ops (inside x) p ≤ 1
at_most_one p x v = omega (arith, v.flags x, bit-le (p.free2 x))

-- One goroutine at most is between the two flags of a slot. One that is about to read the slot finds
-- an event there, and one that is about to write an event there overwrites none.
pub slot_is_exclusive :
    (capacity n : ℕ) (p : Pool) (x : ℕ)
    → Reach capacity n p
    → (ops (inside x) p ≤ 1)
      × ((g : ℕ) → get_elem? p.goroutines g ≡ some (won x) → (e : ℕ) × (p.events x ≡ some e))
      × ((g e : ℕ) → get_elem? p.goroutines g ≡ some (claimed x e) → p.events x ≡ none)
slot_is_exclusive capacity n p x r =
    let v = Reach-Inv r in
    (
      at_most_one p x v,
      λ g h.
          full_high (p.events x)
            ((inside-Alone p g x (won x) h (ground arith) v).sees ∙ ground arith),
      λ g e h. full_low (p.events x) ((inside-Alone p g x (claimed x e) h (ground arith) v).sees),
    )

-- No `get` comes to reset nil: every access that a goroutine can make succeeds.
advance_ok :
    (capacity n : ℕ) (p : Pool) (g : ℕ) (o : Op)
    → Reach capacity n p
    → get_elem? p.goroutines g ≡ some o
    → (q : Pool) × (advance p g o ≡ ok q)
unfolding advance hand_out
advance_ok capacity n p g (freed none) r h =
    ground (arith, le-sum empty_handed p.goroutines g (freed none) h, (Reach-Inv r).found)
advance_ok capacity n p g (freed (some e)) r h = (_, refl)
advance_ok capacity n p g _ r h = (_, refl)
