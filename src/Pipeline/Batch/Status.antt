-- ===== src/Pipeline/Batch/Status.antt =====
-- When a batch of pipeline/batch.go is sent off.
use file_d.Base.{
  ℕ, ◌+◌, ◌-◌, ◌≤◌, ◌<◌, ◌≡◌, ◌≢◌, ◌⊎◌, List, [], ◌∷◌, ◌++◌, arith, length, length-append, ok,
}
use file_d.Base.Int.{ℤ}
use file_d.Pipeline.Event.{Event}
use file_d.Pipeline.Batch.{
  Batch, not_ready, max_size_exceeded, timeout_exceeded, new_batch, reset, append, update_status,
}

-- The size of the events, as the batch counts it.
abbrev pub total_size : List Event → ℕ
total_size [] = 0
total_size (e ∷ es) = e.size + total_size es

total_size-append : (xs ys : List Event) → total_size (xs ++ ys) ≡ total_size xs + total_size ys
total_size-append [] ys = omega arith
total_size-append (x ∷ xs) ys = omega (arith, total_size-append xs ys)

-- A batch that may still grow is below both of its limits.
pub record IsOpen (b : Batch) : Type 0 where
  pub limited : (b.max_size_count ≢ 0) ⊎ (b.max_size_bytes ≢ 0)
  pub counted : b.events_size ≡ total_size b.events
  pub below_count : b.max_size_count ≢ 0 → length b.events < b.max_size_count
  pub below_bytes : b.max_size_bytes ≢ 0 → b.events_size < b.max_size_bytes

new_batch-limited :
    (count bytes : ℤ) (timeout : ℕ) (b : Batch)
    → new_batch count bytes timeout ≡ ok b
    → (b.max_size_count ≢ 0) ⊎ (b.max_size_bytes ≢ 0)
unfolding new_batch
new_batch-limited count bytes timeout b h = ground arith

pub reset-IsOpen :
    (now : ℕ) (b : Batch) → (b.max_size_count ≢ 0) ⊎ (b.max_size_bytes ≢ 0) → IsOpen (reset now b)
unfolding reset
reset-IsOpen now b h = ground arith

-- An event is added to a batch below its limits, and the status is taken. If it is not ready, the
-- batch is below its limits again, and holds no event that waited longer than the timeout; otherwise
-- it is ready for the reason that the status names. It never holds more events than the limit.
append-update_status :
    (now : ℕ) (b : Batch) (e : Event)
    → IsOpen b
    → let c = update_status now (append b e) in
      (c.events ≡ b.events ++ e ∷ [])
      × (c.events_size ≡ total_size c.events)
      × (b.max_size_count ≢ 0 → length c.events ≤ b.max_size_count)
      × (((c.status ≡ not_ready) × IsOpen c × (now - b.start_time ≤ b.timeout))
          ⊎ ((c.status ≡ max_size_exceeded)
              × (((c.max_size_count ≢ 0) × (length c.events ≡ c.max_size_count))
                  ⊎ ((c.max_size_bytes ≢ 0) × (c.max_size_bytes ≤ c.events_size))))
          ⊎ ((c.status ≡ timeout_exceeded) × (b.timeout < now - b.start_time)))
unfolding append update_status
append-update_status now b e o =
    ground (arith, total_size-append b.events (e ∷ []), length-append b.events (e ∷ []))
