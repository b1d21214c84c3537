-- ===== src/Throttle/Counts.antt =====
-- The limiter answers by how many events an interval had, as if no bucket were ever dropped.
use file_d.Base.{
  length-set, ℕ, ◌+◌, ◌-◌, ◌/◌, ◌≤◌, ◌<◌, ◌≡◌, refl, sym, ◌∙◌, ap, ap₂, Bool, some, arith, length,
  get_elem?, set, leb, ◌==◌, if◌then◌else◌, if_false, Bool-cases, inl, inr, Result, ok,
}
use file_d.Base.Int.{ℤ, pos, negsuc}
use file_d.Throttle.{
  Limiter, Panic, set_min_id, shift_buckets, rebuild_buckets, bucket_for, time_to_bucket_id, weight,
  add_at, count_event, is_allowed, is_negative,
}
use file_d.Throttle.Window.{get_elem?-at, at-set, bucket, IsWindow, later, shift_buckets-Shifts}

-- The specification: the latest interval that was seen, and how much each interval counted.
pub record Totals : Type 0 where
  pub latest : ℕ
  pub totals : ℕ → ℕ

-- An event counts for its own interval if that is one of the last ones, and otherwise for the latest.
abbrev pub count_in : ℕ → ℕ → ℤ → ℕ → (ℕ → ℕ) → ℕ × Totals
count_in bucket_count latest ts_id w totals =
    let id = bucket_for (latest + 1 - bucket_count) latest ts_id in
    (
      totals id + w,
      record { latest = latest; totals = λ i. if i == id then totals id + w else totals i },
    )

abbrev pub count_total : ℕ → ℕ → ℤ → ℕ → Totals → ℕ × Totals
count_total bucket_count current_id ts_id w t =
    count_in bucket_count (later t.latest current_id) ts_id w t.totals

-- The limiter holds the totals of its window, and nothing came in later.
pub record Holds (bucket_count interval : ℕ) (l : Limiter) (t : Totals) : Type 0 where
  pub width : l.bucket_count ≡ bucket_count
  pub scale : l.interval ≡ interval
  pub window : IsWindow l
  pub started : 0 < l.min_id
  pub latest : l.max_id ≡ t.latest
  pub here : (id : ℕ) → l.min_id ≤ id → bucket l id ≡ t.totals id

-- After the shift the limiter holds the same totals, with the latest interval of the specification.
shift-Holds :
    (bucket_count interval current_id : ℕ) (l : Limiter) (t : Totals)
    → Holds bucket_count interval l t
    → Holds bucket_count interval
        (shift_buckets current_id l)
        (record t { latest = later t.latest current_id })
shift-Holds bucket_count interval current_id l t h =
    let s = shift_buckets-Shifts current_id l h.window in
    record {
      width = s.width ∙ h.width;
      scale = s.scale ∙ h.scale;
      window = s.window;
      started = omega (arith, s.first, h.started);
      latest = s.latest ∙ ap (λ m. later m current_id) h.latest;
      here = λ id le. s.kept id le ∙ h.here id (omega (arith, s.first));
    }

bucket_for-in :
    (min_id max_id : ℕ) (id : ℤ)
    → min_id ≤ max_id
    → (min_id ≤ bucket_for min_id max_id id) × (bucket_for min_id max_id id ≤ max_id)
bucket_for-in min_id max_id (pos id) h = ground arith
bucket_for-in min_id max_id (negsuc id) h = ground arith

-- The bucket `id` of the window counts `w` more.
add_at-Holds :
    (bucket_count interval id w limit : ℕ) (l : Limiter) (t : Totals)
    → Holds bucket_count interval l t
    → l.limit_value ≡ pos limit
    → l.min_id ≤ id
    → id ≤ l.max_id
    → (l' : Limiter) × (add_at (id - l.min_id) w l (get_elem? l.buckets (id - l.min_id))
        ≡ ok (l', leb (t.totals id + w) limit))
      × Holds bucket_count interval l'
          (record t { totals = λ i. if i == id then t.totals id + w else t.totals i })
      × (l'.limit_value ≡ l.limit_value)
      × (l'.limit_kind ≡ l.limit_kind)
unfolding add_at
add_at-Holds bucket_count interval id w limit l t h value first last =
    let inside : id - l.min_id < length l.buckets = omega (arith, h.window) in
    let found : get_elem? l.buckets (id - l.min_id) ≡ some (t.totals id) =
      get_elem?-at l.buckets (id - l.min_id) inside ∙ ap some (h.here id first) in
    (
      record l { buckets = set l.buckets (id - l.min_id) (t.totals id + w) },
      rw (found, value) refl,
      record {
        width = h.width;
        scale = h.scale;
        window = (
          h.window.0,
          length-set l.buckets (id - l.min_id) (t.totals id + w) ∙ h.window.1,
          h.window.2,
        );
        started = h.started;
        latest = h.latest;
        here = λ j le.
            at-set l.buckets (id - l.min_id) (t.totals id + w) (j - l.min_id) inside
            ∙ ground (arith, h.here j le);
      },
      refl,
      refl,
    )

set_min_id-kept :
    (current_id : ℕ) (l : Limiter)
    → ((set_min_id current_id l).limit_value ≡ l.limit_value)
      × ((set_min_id current_id l).limit_kind ≡ l.limit_kind)
unfolding set_min_id
set_min_id-kept current_id l = elim (Bool-cases (l.min_id == 0)) [
  | inl e ↦ ground arith
  | inr e ↦ ground arith
]

-- What `isAllowed` comes to, with the clock read with one interval and the event's time with another.
abbrev answer_in : ℕ → ℤ → Limiter → ℕ → Result Panic (Limiter × Bool)
answer_in size ts s interval =
    count_event size s (bucket_for s.min_id s.max_id (time_to_bucket_id interval ts))

abbrev answer_at : ℕ → ℕ → ℤ → Limiter → ℕ → Result Panic (Limiter × Bool)
answer_at now size ts l interval =
    let s = shift_buckets (now / interval) (set_min_id (now / interval) l) in
    answer_in size ts s s.interval

module _ (bucket_count interval limit : ℕ) where
  -- One event in a window that is up to date, whatever its time.
  count_event-Holds :
      (w size : ℕ) (ts_id : ℤ) (s : Limiter) (t : Totals)
      → Holds bucket_count interval s t
      → s.limit_value ≡ pos limit
      → weight s.limit_kind size ≡ ok w
      → let id = bucket_for (t.latest + 1 - bucket_count) t.latest ts_id in
        (l : Limiter) × (count_event size s (bucket_for s.min_id s.max_id ts_id)
          ≡ ok (l, leb (t.totals id + w) limit))
        × Holds bucket_count interval l
            (record t { totals = λ i. if i == id then t.totals id + w else t.totals i })
        × (l.limit_value ≡ s.limit_value)
        × (l.limit_kind ≡ s.limit_kind)
  unfolding count_event
  count_event-Holds w size ts_id s t h value weighs =
      let first : t.latest + 1 - bucket_count ≡ s.min_id = omega arith in
      let same = ap₂ (λ a b. bucket_for a b ts_id) first (sym h.latest) in
      let (low, high) = bucket_for-in s.min_id s.max_id ts_id (omega arith) in
      rw (same, weighs)
        (add_at-Holds bucket_count interval (bucket_for s.min_id s.max_id ts_id) w limit s t h value
          low high)

  -- One event, the shift of the window included.
  pub is_allowed-Holds :
      (now w size : ℕ) (ts : ℤ) (l : Limiter) (t : Totals)
      → Holds bucket_count interval (set_min_id (now / interval) l) t
      → l.interval ≡ interval
      → l.limit_value ≡ pos limit
      → weight l.limit_kind size ≡ ok w
      → let (total, t') =
          count_total bucket_count (now / interval) (time_to_bucket_id interval ts) w t in
        (l' : Limiter) × (is_allowed now ts size l ≡ ok (l', leb total limit))
        × Holds bucket_count interval l' t'
        × (l'.limit_value ≡ l.limit_value)
        × (l'.limit_kind ≡ l.limit_kind)
  unfolding is_allowed rebuild_buckets
  is_allowed-Holds now w size ts l t h scale value weighs =
      let (set_value, set_kind) = set_min_id-kept (now / interval) l in
      let s = shift_buckets-Shifts (now / interval) _ h.window in
      let held = shift-Holds bucket_count interval (now / interval) _ t h in
      let (l', answer, holds, value', kind') =
        count_event-Holds w size (time_to_bucket_id interval ts) _ _ held
          (s.value ∙ set_value ∙ value) (rw (s.kind ∙ set_kind) weighs) in
      (
        l',
        if_false _ _ (ap is_negative value)
            ∙ ap (answer_at now size ts l) scale
            ∙ ap
                (answer_in size ts (shift_buckets (now / interval) (set_min_id (now / interval) l)))
                held.scale
            ∙ answer,
        holds,
        value' ∙ s.value ∙ set_value,
        kind' ∙ s.kind ∙ set_kind,
      )
