-- ===== src/Throttle.antt =====
-- plugin/action/throttle/in_memory_limiter.go: a limiter counts the events of an interval in a bucket
-- and keeps the buckets of the last intervals. The clock and the interval are arguments; bucket
-- numbers and counts stay within an int64.
pub mod Window
pub mod Counts
pub mod Answers
use file_d.Base.{
  ℕ, zero, suc, ◌+◌, ◌-◌, ◌/◌, Bytes, bytes_eq, codes, Bool, true, false, ◌||◌, List, [], ◌∷◌, ◌++◌,
  is_empty, Option, none, some, length, drop, replicate, get_elem?, set, ltb, leb, ◌==◌,
  if◌then◌else◌, Result, ok, err, ◌>>=◌,
}
use file_d.Base.Int.{ℤ, pos, negsuc}

pub record Limiter : Type 0 where
  pub limit_value : ℤ
  pub limit_kind : Bytes
  pub bucket_count : ℕ
  pub buckets : List ℕ
  pub interval : ℕ
  pub min_id : ℕ
  pub max_id : ℕ

pub data Panic : Type 0 where
  unknown_type index_out_of_range : Panic

unfoldable pub new_in_memory_limiter : ℕ → ℕ → ℤ → Bytes → Limiter
new_in_memory_limiter interval bucket_count limit_value limit_kind = record {
  limit_value = limit_value;
  limit_kind = limit_kind;
  bucket_count = bucket_count;
  buckets = replicate bucket_count 0;
  interval = interval;
  min_id = 0;
  max_id = 0;
}

abbrev opposite : ℕ → ℤ
opposite zero = pos zero
opposite (suc n) = negsuc n

-- The time of an event may lie before 1970; the quotient is rounded to zero.
abbrev pub time_to_bucket_id : ℕ → ℤ → ℤ
time_to_bucket_id interval (pos t) = pos (t / interval)
time_to_bucket_id interval (negsuc t) = opposite (suc t / interval)

-- Events from the past or the future go to the latest bucket.
abbrev pub bucket_for : ℕ → ℕ → ℤ → ℕ
bucket_for min_id max_id (pos id) = if ltb id min_id || ltb max_id id then max_id else id
bucket_for min_id max_id (negsuc id) = max_id

-- The first call sets the buckets' numbers by the clock.
unfoldable pub set_min_id : ℕ → Limiter → Limiter
set_min_id current_id l =
    if l.min_id == 0
    then record l { max_id = current_id; min_id = current_id + 1 - l.bucket_count }
    else l

-- The loop that appends `n` buckets, and the slice that removes as many.
unfoldable pub shift_buckets : ℕ → Limiter → Limiter
shift_buckets current_id l =
    let max_id = l.min_id + length l.buckets - 1 in
    let n = current_id - max_id in
    if ltb max_id current_id
    then record l {
      buckets = drop n (l.buckets ++ replicate n 0);
      min_id = l.min_id + n;
      max_id = current_id;
    }
    else l

unfoldable pub rebuild_buckets : ℕ → ℤ → Limiter → Limiter × ℕ
rebuild_buckets now ts l =
    let l' = shift_buckets (now / l.interval) (set_min_id (now / l.interval) l) in
    (l', bucket_for l'.min_id l'.max_id (time_to_bucket_id l'.interval ts))

-- What an event adds to its bucket.
unfoldable pub weight : Bytes → ℕ → Result Panic ℕ
weight kind size =
    if is_empty kind || bytes_eq kind (codes "count")
    then ok 1
    else if bytes_eq kind (codes "size")
    then ok size
    else err unknown_type

abbrev pub is_negative : ℤ → Bool
is_negative (pos n) = false
is_negative (negsuc n) = true

abbrev pub within : ℕ → ℤ → Bool
within n (pos limit) = leb n limit
within n (negsuc limit) = false

unfoldable pub add_at : ℕ → ℕ → Limiter → Option ℕ → Result Panic (Limiter × Bool)
add_at index w l none = err index_out_of_range
add_at index w l (some n) =
    ok (record l { buckets = set l.buckets index (n + w) }, within (n + w) l.limit_value)

unfoldable pub count_event : ℕ → Limiter → ℕ → Result Panic (Limiter × Bool)
count_event size l id = do
  let w = (← weight l.limit_kind size)
  add_at (id - l.min_id) w l (get_elem? l.buckets (id - l.min_id))

unfoldable pub is_allowed : ℕ → ℤ → ℕ → Limiter → Result Panic (Limiter × Bool)
is_allowed now ts size l =
    if is_negative l.limit_value
    then ok (l, true)
    else count_event size (rebuild_buckets now ts l).0 (rebuild_buckets now ts l).1
