-- ===== src/Examples/Batches.antt =====
-- Runs of pipeline/batch.go.
use file_d.Base.{◌<◌, ◌≡◌, refl, List, [], ◌∷◌, ◌++◌, arith, ok, err, length}
use file_d.Pipeline.Event.{Event}
use file_d.Pipeline.Batch.{Batch, not_ready, max_size_exceeded, reset, append, update_status}
use file_d.Pipeline.Batcher.{
  Batcher, new_batcher, get_batch, try_send_batch, add, take_at, send, work, commit_batch, adds,
  sends, works, commits, step,
}
use file_d.Pipeline.Batcher.Commits.{Reach, start, next, committed_prefix}
use file_d.Pipeline.Batcher.Channels.{flying, due, flying-eq-due, channels_have_room}
use file_d.Pipeline.Batcher.Delivery.{Drains, sealed-Drains}
use file_d.Examples.Streams.{line}

-- Two events make a batch, or 100 bytes do.
abbrev pair : Batch
pair = record {
  events = [];
  events_size = 0;
  seq = 0;
  timeout = 5;
  start_time = 0;
  max_size_count = 2;
  max_size_bytes = 100;
  status = not_ready;
}

abbrev half_full : Batch
half_full = record pair { events = line ∷ []; events_size = 40 }

-- One worker; two events are added, and the batch is sent, received and committed.
sealed : Batcher
unfolding new_batcher get_batch try_send_batch add reset append update_status
sealed = elim (add 0 (new_batcher 1 pair) line) [
  | ok s ↦ elim (add 1 s line) [ ok t ↦ t | err _ ↦ s ]
  | err _ ↦ new_batcher 1 pair
]

sealed-Reach : Reach 1 pair sealed
unfolding step sealed
sealed-Reach = next (adds 1 line) (next (adds 0 line) start (omega arith) refl) (omega arith) refl

committed_prefix_example : (rest : List Event) × (sealed.added ≡ sealed.committed ++ rest)
committed_prefix_example = committed_prefix 1 pair sealed sealed-Reach

flying-eq-due_example : flying 0 sealed ≡ due 0 sealed
flying-eq-due_example = flying-eq-due 1 pair sealed 0 sealed-Reach

channels_have_room_example :
    (0 < length sealed.sending → length sealed.full_batches < 1)
    × (0 < length sealed.working → length sealed.free_batches < 1)
channels_have_room_example = channels_have_room 1 pair sealed sealed-Reach

abbrev due_batch : Batch
due_batch = record pair { events = line ∷ line ∷ []; events_size = 80; status = max_size_exceeded }

sealed-Drains_example : Drains sealed
unfolding sealed
sealed-Drains_example = sealed-Drains 1 pair sealed sealed-Reach (omega arith) refl

-- After the commit both events are out.
commits_both : (t : Batcher) × (t.committed ≡ line ∷ line ∷ []) × Reach 1 pair t
unfolding step sealed send take_at work commit_batch
commits_both = (
  _,
  refl,
  next (commits 0) (next works (next (sends 0) sealed-Reach (omega arith) refl) (omega arith) refl)
      (omega arith) refl,
)
