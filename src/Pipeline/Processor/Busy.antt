-- ===== src/Pipeline/Processor/Busy.antt =====
-- The count of the busy actions of pipeline/processor.go.
use file_d.Base.{
  ℕ, zero, suc, ◌≤◌, ◌<◌, ◌≡◌, refl, sym, ◌∙◌, Bool, true, false, some, List, [], ◌∷◌, arith,
  length, length-set, get_elem?, set, if_false, Result, ok,
}
use file_d.Base.Int.{pos, inc, dec}
use file_d.Pipeline.Processor.{over, Processor, Panic, mark, try_mark_busy, reset, try_reset_busy}

abbrev pub busy_count : List Bool → ℕ
busy_count [] = 0
busy_count (true ∷ bs) = suc (busy_count bs)
busy_count (false ∷ bs) = busy_count bs

-- One flag for each action, and the total counts the flags that are set.
abbrev pub IsCounted : Processor → Type 0
IsCounted p =
    (length p.busy_actions ≡ p.actions) × (p.busy_actions_total ≡ pos (busy_count p.busy_actions))

busy_count-le : (bs : List Bool) → busy_count bs ≤ length bs
busy_count-le [] = omega arith
busy_count-le (true ∷ bs) = omega (arith, busy_count-le bs)
busy_count-le (false ∷ bs) = omega (arith, busy_count-le bs)

-- A free action marked, and a busy one reset.
busy_count-marked :
    (bs : List Bool) (i : ℕ)
    → get_elem? bs i ≡ some false
    → (busy_count (set bs i true) ≡ suc (busy_count bs)) × (suc (busy_count bs) ≤ length bs)
busy_count-marked [] i h = ground arith
busy_count-marked (true ∷ bs) zero h = ground arith
busy_count-marked (false ∷ bs) zero h = (refl, omega (arith, busy_count-le bs))
busy_count-marked (true ∷ bs) (suc i) h = ground (arith, busy_count-marked bs i h)
busy_count-marked (false ∷ bs) (suc i) h = ground (arith, busy_count-marked bs i h)

busy_count-reset :
    (bs : List Bool) (i : ℕ)
    → get_elem? bs i ≡ some true
    → suc (busy_count (set bs i false)) ≡ busy_count bs
busy_count-reset [] i h = ground arith
busy_count-reset (true ∷ bs) zero h = refl
busy_count-reset (false ∷ bs) zero h = ground arith
busy_count-reset (true ∷ bs) (suc i) h = ground (arith, busy_count-reset bs i h)
busy_count-reset (false ∷ bs) (suc i) h = ground (arith, busy_count-reset bs i h)

busy_count-pos : (bs : List Bool) (i : ℕ) → get_elem? bs i ≡ some true → 0 < busy_count bs
busy_count-pos [] i h = ground arith
busy_count-pos (true ∷ bs) i h = omega arith
busy_count-pos (false ∷ bs) zero h = ground arith
busy_count-pos (false ∷ bs) (suc i) h = busy_count-pos bs i h

pub get_elem?-inside :
    (bs : List Bool) (i : ℕ) → i < length bs → (b : Bool) × (get_elem? bs i ≡ some b)
get_elem?-inside [] i h = elim h [ ]
get_elem?-inside (b ∷ bs) zero h = (b, refl)
get_elem?-inside (b ∷ bs) (suc i) h = get_elem?-inside bs i (omega arith)

-- A call succeeds and keeps the count and the number of actions.
abbrev pub Keeps : Processor → Result Panic Processor → Type 0
Keeps p r = (q : Processor) × (r ≡ ok q) × IsCounted q × (q.actions ≡ p.actions)

mark-Keeps :
    (index : ℕ) (p : Processor) (b : Bool)
    → IsCounted p
    → get_elem? p.busy_actions index ≡ some b
    → (q : Processor) × (mark index p (some b) ≡ ok q)
      × IsCounted q
      × (q.actions ≡ p.actions)
      × (0 < busy_count q.busy_actions)
unfolding mark
mark-Keeps index p true c e = (p, refl, c, refl, busy_count-pos p.busy_actions index e)
mark-Keeps index p false (len, total) e =
    let (more, room) = busy_count-marked p.busy_actions index e in
    let fits : over (pos (suc (busy_count p.busy_actions))) p.actions ≡ false = ground arith in
    (
      record p {
        busy_actions = set p.busy_actions index true;
        busy_actions_total = inc p.busy_actions_total;
      },
      rw total (if_false _ _ fits),
      (length-set p.busy_actions index true ∙ len, rw (total, more) refl),
      refl,
      rw more (omega arith),
    )

reset-Keeps :
    (index : ℕ) (p : Processor) (b : Bool)
    → IsCounted p
    → get_elem? p.busy_actions index ≡ some b
    → Keeps p (reset index p (some b))
unfolding reset
reset-Keeps index p false c e = (p, refl, c, refl)
reset-Keeps index p true (len, total) e =
    let less = busy_count-reset p.busy_actions index e in
    (
      record p {
        busy_actions = set p.busy_actions index false;
        busy_actions_total = dec p.busy_actions_total;
      },
      rw (total, sym less) refl,
      (length-set p.busy_actions index false ∙ len, rw (total, sym less) refl),
      refl,
    )

pub try_mark_busy-Keeps :
    (index : ℕ) (p : Processor)
    → IsCounted p
    → index < p.actions
    → (q : Processor) × (try_mark_busy index p ≡ ok q)
      × IsCounted q
      × (q.actions ≡ p.actions)
      × (0 < busy_count q.busy_actions)
unfolding try_mark_busy
try_mark_busy-Keeps index p c h =
    let (b, e) = get_elem?-inside p.busy_actions index (omega (arith, c.0)) in
    rw e (mark-Keeps index p b c e)

pub try_reset_busy-Keeps :
    (index : ℕ) (p : Processor) → IsCounted p → index < p.actions → Keeps p (try_reset_busy index p)
unfolding try_reset_busy
try_reset_busy-Keeps index p c h =
    let (b, e) = get_elem?-inside p.busy_actions index (omega (arith, c.0)) in
    rw e (reset-Keeps index p b c e)
