-- ===== src/Pipeline/Event.antt =====
-- pipeline/event.go: the event and its kinds. `Root` is a document of insane-json, which the
-- repository does not hold: `root` is a handle of it, `none` for nil. `next` is the link of the
-- stream's queue, which is a list here.
use file_d.Base.{ℕ, Bytes, codes, Bool, true, false, Option, none, some, []}

pub data Kind : Type 0 where
  regular timeout unlock : Kind

pub data Stage : Type 0 where
  in_pool in_input in_stream in_processor in_output : Stage

pub record Event : Type 0 where
  pub kind : Kind
  pub root : Option ℕ
  pub buf : Bytes
  pub seq_id : ℕ
  pub offset : ℕ
  pub source_id : ℕ
  pub source_name : Bytes
  pub stream_name : Bytes
  pub size : ℕ
  pub action : ℕ
  pub stream : Option ℕ
  pub stage : Stage

abbrev pub is_unlock : Kind → Bool
is_unlock unlock = true
is_unlock _ = false

abbrev pub is_timeout : Kind → Bool
is_timeout timeout = true
is_timeout _ = false

abbrev pub is_regular : Kind → Bool
is_regular regular = true
is_regular _ = false

-- The zero value of the struct, with the stream's fields: what both special events start from.
abbrev special : ℕ → ℕ → ℕ → Bytes → Bytes → Kind → Event
special stream commit_seq stream_id name source kind = record {
  kind = kind;
  root = none;
  buf = [];
  seq_id = commit_seq;
  offset = 0;
  source_id = stream_id;
  source_name = source;
  stream_name = name;
  size = 0;
  action = 0;
  stream = some stream;
  stage = in_pool;
}

-- Each takes the stream's pointer, its `commitSeq`, its id and its name.
unfoldable pub new_timeout_event : ℕ → ℕ → ℕ → Bytes → Event
new_timeout_event stream commit_seq stream_id name =
    special stream commit_seq stream_id name (codes "timeout") timeout

unfoldable pub unlock_event : ℕ → ℕ → ℕ → Bytes → Event
unlock_event stream commit_seq stream_id name =
    special stream commit_seq stream_id name (codes "unlock") unlock
