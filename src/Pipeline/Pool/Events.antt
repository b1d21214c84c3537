-- ===== src/Pipeline/Pool/Events.antt =====
-- The events of a pool (pipeline/event.go): whatever the goroutines do, each is in one place.
use file_d.Base.{
  ℕ, zero, suc, ◌+◌, ◌%◌, ◌<◌, ◌≡◌, refl, sym, subst, ap, ◌∙◌, inl, inr, ◌&&◌, not, Option, none,
  some, List, [], ◌∷◌, map, ltb, ◌==◌, get_elem?, set, length, count, ok, arith, Bool-cases,
  if_true, if_false, Option-cases, ok-injective,
}
use file_d.Base.Int.{pos, inc, dec}
use file_d.Pipeline.Pool.{
  Op, act, give_back, idle, getting, sleepy, asleep, won, read, cleared, freed, giving, claimed,
  stored, opened, given, Pool, write, new_event_pool, at, try_get, try_back, hand_out, wake,
  advance, get, pick, back, Call, gets, backs, goes, step, Reach, start, next,
}
use file_d.Base.{sum-replicate, All-get, All-set, All-replicate, All-of-map, All-alone}
use file_d.Pipeline.Pool.Slots.{bit, inside, ops, Inv, inside-Alone}
use file_d.Pipeline.Pool.Moves.{Reach-Inv, woken, full_low}
use file_d.Pipeline.Pool.Places.{
  in_slots, in_slots-write, carries, gives, Placed, places, in_use, Whole, moves-Whole,
  quietly-Whole, next_round-place, failed-place,
}

-- A write to a slot is seen by nobody who has read another.
write-Placed :
    (capacity : ℕ) (events : ℕ → Option ℕ) (x : ℕ) (v : Option ℕ) (o : Op)
    → inside x o ≡ 0
    → Placed capacity events o
    → Placed capacity (write events x v) o
write-Placed capacity events x v (read y o) away (below, same_event) =
    (below, ground (arith, same_event))
write-Placed capacity events x v (won y) away h = h
write-Placed capacity events x v (cleared y o) away h = h
write-Placed capacity events x v (claimed y e) away h = h
write-Placed capacity events x v (stored y) away h = h
write-Placed capacity events x v (getting y tries k) away h = h
write-Placed capacity events x v (sleepy y) away h = h
write-Placed capacity events x v (asleep y) away h = h
write-Placed capacity events x v (giving y e) away h = h
write-Placed capacity events x v _ away h = tt

try_get-Whole :
    (p : Pool) (g x tries k : ℕ)
    → get_elem? p.goroutines g ≡ some (getting x tries k)
    → Whole p
    → Whole (try_get p g x tries k)
unfolding try_get
try_get-Whole p g x tries k stands v =
    let below : x < p.capacity =
      All-get (Placed p.capacity p.events) p.goroutines g _ stands v.placed in
    elim (Bool-cases (k == 0 && not (ltb x p.back_counter))) [
      | inl e ↦
          let (place, hands, gives) = next_round-place p.capacity p.events x tries below in
          subst Whole (sym (if_true _ _ e)) (quietly-Whole p g _ _ stands hands gives place v)
      | inr e ↦ subst Whole (sym (if_false _ _ e)) (elim (Bool-cases (p.free1 x)) [
        | inl b ↦ subst Whole (sym (if_true _ _ b)) (
            moves-Whole p _ g (getting x tries k) (won x) stands refl refl (λ e. refl) (λ n h. h)
              (All-set (Placed p.capacity p.events) p.goroutines g (won x) below v.placed) v)
        | inr b ↦
            let (place, hands, gives) = failed-place p.capacity p.events x tries k below in
            subst Whole (sym (if_false _ _ b)) (quietly-Whole p g _ _ stands hands gives place v)
      ])
    ]

try_back-Whole :
    (p : Pool) (g x e : ℕ)
    → get_elem? p.goroutines g ≡ some (giving x e)
    → Whole p
    → Whole (try_back p g x e)
unfolding try_back
try_back-Whole p g x e stands v =
    let below : x < p.capacity =
      All-get (Placed p.capacity p.events) p.goroutines g _ stands v.placed in
    elim (Bool-cases (p.free2 x)) [
      | inl b ↦ subst Whole (sym (if_true _ _ b)) v
      | inr b ↦ subst Whole (sym (if_false _ _ b)) (
          moves-Whole p _ g (giving x e) (claimed x e) stands refl refl (λ e. refl) (λ n h. h)
            (All-set (Placed p.capacity p.events) p.goroutines g (claimed x e) below v.placed) v)
    ]

hand_out-Whole :
    (p q : Pool) (g : ℕ) (o : Option ℕ)
    → get_elem? p.goroutines g ≡ some (freed o)
    → hand_out p g o ≡ ok q
    → Whole p
    → Whole q
unfolding hand_out
hand_out-Whole p q g none stands h v = cc
hand_out-Whole p q g (some e) stands h v = subst Whole (ok-injective h) (
    moves-Whole p _ g (freed (some e)) idle stands refl refl (λ d. ground arith)
      (λ n h. ap inc h ∙ ap pos (omega arith))
      (All-set (Placed p.capacity p.events) p.goroutines g idle tt v.placed) v)

add_one : (n : ℕ) → n + 1 ≡ suc n
add_one n = omega arith

read-Whole :
    (p : Pool) (g x : ℕ) (o : Option ℕ)
    → get_elem? p.goroutines g ≡ some (read x o)
    → Inv p
    → Whole p
    → Whole
        (record p { events = write p.events x none; goroutines = set p.goroutines g (cleared x o) })
read-Whole p g x o stands i v =
    let (below, same_event) =
      All-get (Placed p.capacity p.events) p.goroutines g (read x o) stands v.placed in
    let a = inside-Alone p g x (read x o) stands (ground arith) i in
    let alone : ops (inside x) p ≡ inside x (read x o) = a.only ∙ ground arith in
    moves-Whole p _ g (read x o) (cleared x o) stands refl refl
      (λ e. ground (arith, in_slots-write p.capacity e p.events x none below, same_event))
      (λ n h. h)
      (All-alone (inside x) (Placed p.capacity p.events) (Placed p.capacity (write p.events x none))
        (write-Placed p.capacity p.events x none) p.goroutines g (read x o) (cleared x o) stands
        alone below v.placed)
      v

claimed-Whole :
    (p : Pool) (g x d : ℕ)
    → get_elem? p.goroutines g ≡ some (claimed x d)
    → Inv p
    → Whole p
    → Whole (record p {
      events = write p.events x (some d);
      goroutines = set p.goroutines g (stored x);
    })
claimed-Whole p g x d stands i v =
    let below : x < p.capacity =
      All-get (Placed p.capacity p.events) p.goroutines g (claimed x d) stands v.placed in
    let a = inside-Alone p g x (claimed x d) stands (ground arith) i in
    let nothing = full_low (p.events x) a.sees in
    let alone : ops (inside x) p ≡ inside x (claimed x d) = a.only ∙ ground arith in
    moves-Whole p _ g (claimed x d) (stored x) stands refl refl
      (λ e. ground (arith, in_slots-write p.capacity e p.events x (some d) below, nothing))
      (λ n h. h)
      (All-alone (inside x) (Placed p.capacity p.events)
        (Placed p.capacity (write p.events x (some d)))
        (write-Placed p.capacity p.events x (some d)) p.goroutines g (claimed x d) (stored x) stands
        alone below v.placed)
      v

wake-Placed :
    (capacity : ℕ) (events : ℕ → Option ℕ) (o : Op)
    → Placed capacity events o
    → Placed capacity events (wake o)
wake-Placed capacity events (asleep x) h = h
wake-Placed capacity events _ h = h

woken-Whole : (p : Pool) → Whole p → Whole (record p { goroutines = map wake p.goroutines })
woken-Whole p v = record {
  positive = v.positive;
  placed =
      All-of-map (Placed p.capacity p.events) wake (wake-Placed p.capacity p.events) p.goroutines
        v.placed;
  owned = λ e. rw (woken (carries e) (λ y. (refl, refl)) p.goroutines) (v.owned e);
  used = rw (woken gives (λ y. (refl, refl)) p.goroutines) v.used;
}

advance-Whole :
    (p q : Pool) (g : ℕ) (o : Op)
    → get_elem? p.goroutines g ≡ some o
    → advance p g o ≡ ok q
    → Inv p
    → Whole p
    → Whole q
unfolding advance
advance-Whole p q g idle stands h i v = subst Whole (ok-injective h) v
advance-Whole p q g (getting x tries k) stands h i v =
    subst Whole (ok-injective h) (try_get-Whole p g x tries k stands v)
advance-Whole p q g (sleepy x) stands h i v =
    let below = All-get (Placed p.capacity p.events) p.goroutines g (sleepy x) stands v.placed in
    subst Whole (ok-injective h) (quietly-Whole p g _ _ stands (λ e. refl) refl below v)
advance-Whole p q g (asleep x) stands h i v = subst Whole (ok-injective h) v
advance-Whole p q g (won x) stands h i v =
    let below = All-get (Placed p.capacity p.events) p.goroutines g (won x) stands v.placed in
    subst Whole (ok-injective h) (quietly-Whole p g _ _ stands (λ e. refl) refl (below, refl) v)
advance-Whole p q g (read x o) stands h i v =
    subst Whole (ok-injective h) (read-Whole p g x o stands i v)
advance-Whole p q g (cleared x o) stands h i v = subst Whole (ok-injective h) (
    moves-Whole p _ g (cleared x o) (freed o) stands refl refl (λ e. refl) (λ n h. h)
      (All-set (Placed p.capacity p.events) p.goroutines g (freed o) tt v.placed) v)
advance-Whole p q g (freed o) stands h i v = hand_out-Whole p q g o stands h v
advance-Whole p q g (giving x e) stands h i v =
    subst Whole (ok-injective h) (try_back-Whole p g x e stands v)
advance-Whole p q g (claimed x e) stands h i v =
    subst Whole (ok-injective h) (claimed-Whole p g x e stands i v)
advance-Whole p q g (stored x) stands h i v = subst Whole (ok-injective h) (
    moves-Whole p _ g (stored x) opened stands refl refl (λ e. refl) (λ n h. h)
      (All-set (Placed p.capacity p.events) p.goroutines g opened tt v.placed) v)
advance-Whole p q g opened stands h i v = subst Whole (ok-injective h) (
    moves-Whole p _ g opened given stands refl refl (λ e. refl)
      (λ n h. ap dec (h ∙ ap pos (add_one (length p.out + n))) ∙ ap pos (omega arith))
      (All-set (Placed p.capacity p.events) p.goroutines g given tt v.placed) v)
advance-Whole p q g given stands h i v =
    subst Whole (ok-injective h)
      (woken-Whole (at p g idle) (quietly-Whole p g given idle stands (λ e. refl) refl tt v))

pick-count :
    (d i : ℕ) (es : List ℕ) (e : ℕ) (rest : List ℕ)
    → pick i es ≡ some (e, rest)
    → (count d es ≡ count d (e ∷ rest)) × (length es ≡ suc (length rest))
unfolding pick
pick-count d i [] e rest h = cc
pick-count d zero (x ∷ es) e rest h = ground arith
pick-count d (suc i) (x ∷ es) e rest h = elim (Option-cases (pick i es)) [
  | inl f ↦ ground arith
  | inr ((c, cs), f) ↦ ground (arith, pick-count d i es c cs f)
]

give_back_result :
    (p q : Pool) (g i e : ℕ) (rest : List ℕ)
    → pick i p.out ≡ some (e, rest)
    → give_back p g (pick i p.out) ≡ ok q
    → back p g e rest ≡ q
unfolding give_back
give_back_result p q g i e rest f h = ok-injective (sym (ap (give_back p g) f) ∙ h)

give_back-Whole :
    (p q : Pool) (g i : ℕ)
    → get_elem? p.goroutines g ≡ some idle
    → give_back p g (pick i p.out) ≡ ok q
    → Whole p
    → Whole q
unfolding give_back back
give_back-Whole p q g i stands h v = elim (Option-cases (pick i p.out)) [
  | inl f ↦ ground arith
  | inr ((e, rest), f) ↦
      let x : ℕ = p.back_counter % p.capacity in
      let below : x < p.capacity = omega (arith, v.positive) in
      let kept = λ (d : ℕ). pick-count d i p.out e rest f in
      subst Whole (give_back_result p q g i e rest f h) (
        moves-Whole p _ g idle (giving x e) stands refl refl (λ d. ground (arith, kept d))
          (λ n k. k ∙ ap pos (omega (arith, kept 0)))
          (All-set (Placed p.capacity p.events) p.goroutines g (giving x e) below v.placed) v)
]

act-Whole :
    (p q : Pool) (g : ℕ) (c : Call) (o : Option Op)
    → get_elem? p.goroutines g ≡ o
    → act p g c o ≡ ok q
    → Inv p
    → Whole p
    → Whole q
unfolding act get
act-Whole p q g c none stands h i v = cc
act-Whole p q g gets (some idle) stands h i v =
    let x : ℕ = p.get_counter % p.capacity in
    let below : x < p.capacity = omega (arith, v.positive) in
    subst Whole (ok-injective h) (
      moves-Whole p _ g idle (getting x 0 0) stands refl refl (λ e. refl) (λ n k. k)
        (All-set (Placed p.capacity p.events) p.goroutines g (getting x 0 0) below v.placed) v)
act-Whole p q g (backs k) (some idle) stands h i v = give_back-Whole p q g k stands h v
act-Whole p q g goes (some o) stands h i v = advance-Whole p q g o stands h i v
act-Whole p q g _ (some o) stands h i v = cc

in_slots-new : (n e : ℕ) → in_slots n e some ≡ bit (ltb e n)
in_slots-new zero e = ground arith
in_slots-new (suc n) e = ground (arith, in_slots-new n e)

Reach-Whole : {capacity n : ℕ} {p : Pool} → 0 < capacity → Reach capacity n p → Whole p
unfolding new_event_pool step
Reach-Whole {capacity = c} {n = n} positive start = record {
  positive = positive;
  placed = All-replicate (Placed c some) n idle tt;
  owned = λ e. omega (arith, in_slots-new c e, sum-replicate (carries e) n idle refl);
  used = ap pos (omega (arith, sum-replicate gives n idle refl));
}
Reach-Whole positive (next {p = p} {q = q} g c r h) =
    act-Whole p q g c (get_elem? p.goroutines g) refl h (Reach-Inv r) (Reach-Whole positive r)

-- Whatever the order of the accesses of the goroutines, each event of a pool that is not empty is in
-- exactly one place: a slot, a call in progress, or outside; and the counter of the events in use is
-- the number of those outside and of those that a call of `back` still has. So no two callers get one
-- event, and none is lost.
pub each_event_once :
    (capacity n : ℕ) (p : Pool)
    → 0 < capacity
    → Reach capacity n p
    → ((e : ℕ) → places e p ≡ bit (ltb e p.capacity)) × (p.in_use_events ≡ pos (in_use p))
each_event_once capacity n p positive r = let v = Reach-Whole positive r in (v.owned, v.used)
