-- ===== src/Pipeline/Input.antt =====
-- pipeline/pipeline.go, `In`, `streamEvent` and `finalize`: how the bytes of an input become an event of
-- a stream, and how an event ends. The parts are those of the other modules: the antispam, the decoders
-- and the streamer; the pool is the list of its free events, one call at a time. Of insane-json it
-- takes as parameters the document of a JSON text (none is an error), the document with given fields,
-- and `Dig` of a field with `AsString`; of the input plugin, `PassEvent`.
pub mod Balance
use file_d.Base.{
  ℕ, suc, ◌+◌, ◌-◌, ◌%◌, Bytes, codes, Bool, true, false, not, ◌&&◌, ◌||◌, Option, none, some, List,
  [], ◌∷◌, ◌++◌, is_empty, length, take, ltb, ◌==◌, if◌then◌else◌, Result, ok, err, ◌>>=◌,
}
use file_d.Decoder.Cri.{CriRow, decode_cri, slice_out_of_range}
use file_d.Decoder.Cri
use file_d.Decoder.Postgres.{PostgresRow, decode_postgres}
use file_d.Decoder.Postgres
use file_d.Decoder.Nginx.{NginxRow, decode_nginx_error}
use file_d.Decoder.Nginx
use file_d.Pipeline.Event.{Event, is_timeout, regular, in_input, in_pool}
use file_d.Pipeline.Antispam.{Antispammer, is_spam}
use file_d.Pipeline.Streamer.{Streamer, put_event, commit_to}

pub data DecoderType : Type 0 where
  no auto json raw cri postgres nginx_error : DecoderType

pub record Settings : Type 0 where
  pub max_event_size : ℕ
  pub is_strict : Bool
  pub decoder : DecoderType
  pub suggested_decoder : DecoderType
  pub stream_field : Bytes
  pub use_spread : Bool
  pub proc_count : ℕ
  pub disable_streams : Bool

pub record Pipeline : Type 0 where
  pub antispam : Antispammer
  pub event_pool : List Event
  pub streamer : Streamer

pub data Fault : Type 0 where
  -- the program ends with a Fatal, or panics
  wrong_format unknown_decoder decoder_panics antispam_panics : Fault
  -- no event is free
  waits : Fault

-- The arguments of `In`.
pub record Line : Type 0 where
  pub source_id : ℕ
  pub source_name : Bytes
  pub offset : ℕ
  pub bytes : Bytes
  pub is_new_source : Bool

abbrev pub event_seq_id_error : ℕ
event_seq_id_error = 0

abbrev pub default_stream_name : Bytes
default_stream_name = codes "not_set"

-- Nothing, or a newline alone.
unfoldable pub is_mud : Bytes → Bool
is_mud [] = true
is_mud (c ∷ cs) = c == 10 && is_empty cs

unfoldable pub is_long : Settings → Bytes → Bool
is_long s bytes = not (s.max_event_size == 0) && ltb s.max_event_size (length bytes)

abbrev known : DecoderType → DecoderType
known no = json
known d = d

unfoldable pub choose_decoder : Settings → DecoderType → DecoderType
choose_decoder s auto = known s.suggested_decoder
choose_decoder s d = known d

abbrev pub no_row : CriRow
no_row = record { log = []; time = []; stream = []; is_partial = false }

-- `Pipeline.Error`: it ends the program in strict mode; else the line is dropped, which is `none`.
abbrev pub dropped {ℓ} : {A : Type ℓ} → Settings → Result Fault (Option A)
dropped s = if s.is_strict then err wrong_format else ok none

unfoldable pub row_of : Settings → Result Cri.Failure CriRow → Result Fault (Option CriRow)
row_of s (ok row) = ok (some row)
row_of s (err slice_out_of_range) = err decoder_panics
row_of s (err _) = dropped s

-- The row of a CRI line; the zero row for the other decoders.
unfoldable pub read_row : Settings → DecoderType → Bytes → Result Fault (Option CriRow)
read_row s cri bytes = row_of s (decode_cri bytes)
read_row s _ bytes = ok (some no_row)

-- `eventPool.get` takes an event and resets it.
unfoldable pub reset : Event → Event
reset e = record e { buf = []; stage = in_input; action = 0; stream = none; kind = regular }

unfoldable pub back : Pipeline → Event → Pipeline
back p e = record p { event_pool = p.event_pool ++ record e { stage = in_pool } ∷ [] }

abbrev pub postgres_fields : PostgresRow → List (Bytes × Bytes)
postgres_fields r =
    (codes "time", r.time)
    ∷ (codes "pid", r.pid)
    ∷ (codes "pid_message_number", r.pid_message_number)
    ∷ (codes "client", r.client)
    ∷ (codes "db", r.db)
    ∷ (codes "user", r.user)
    ∷ (codes "log", r.log)
    ∷ []

abbrev pub nginx_fields : NginxRow → List (Bytes × Bytes)
nginx_fields r =
    (codes "time", r.time) ∷ (codes "level", r.level) ∷ (codes "message", r.message) ∷ []

abbrev pub cri_fields : CriRow → List (Bytes × Bytes)
cri_fields r = (codes "log", r.log) ∷ (codes "time", r.time) ∷ (codes "stream", r.stream) ∷ []

-- What the code takes from outside the repository, and the input plugin.
pub record Outside : Type 0 where
  pub lower : Bytes → Bytes
  pub parse_json : Bytes → Option ℕ
  pub build : List (Bytes × Bytes) → ℕ
  pub dig : ℕ → Bytes → Option Bytes
  pub pass_event : Event → Bool

abbrev pub stream_id : Settings → Event → ℕ
stream_id s e = if s.use_spread then e.seq_id % s.proc_count else e.source_id

module _ (outside : Outside) where
  -- Partial lines of the CRI format are not counted.
  unfoldable pub check_spam : Antispammer → Line → CriRow → Result Fault (Antispammer × Bool)
  check_spam a line row =
      if row.is_partial
      then ok (a, false)
      else elim (is_spam outside.lower line.source_id line.source_name line.is_new_source line.bytes
          a) [ ok r ↦ ok r | err e ↦ err antispam_panics ]

  unfoldable pub json_root : Settings → Option ℕ → Result Fault (Option ℕ)
  json_root s none = dropped s
  json_root s (some root) = ok (some root)

  -- A Fatal whatever the settings.
  unfoldable pub postgres_root : Result Postgres.Failure PostgresRow → Result Fault (Option ℕ)
  postgres_root (ok row) = ok (some (outside.build (postgres_fields row)))
  postgres_root (err e) = err wrong_format

  unfoldable pub nginx_root : Settings → Result Nginx.Failure NginxRow → Result Fault (Option ℕ)
  nginx_root s (ok row) = ok (some (outside.build (nginx_fields row)))
  nginx_root s (err e) = dropped s

  -- The document of the event; `none` if the event goes back.
  unfoldable pub decode_root : Settings → DecoderType → CriRow → Bytes → Result Fault (Option ℕ)
  decode_root s json row bytes = json_root s (outside.parse_json bytes)
  decode_root s raw row bytes =
      ok (some (outside.build ((codes "message", take (length bytes - 1) bytes) ∷ [])))
  decode_root s cri row bytes = ok (some (outside.build (cri_fields row)))
  decode_root s postgres row bytes = postgres_root (decode_postgres bytes)
  decode_root s nginx_error row bytes = nginx_root s (decode_nginx_error bytes)
  decode_root s _ row bytes = err unknown_decoder

  unfoldable pub stream_name_of : Bytes → Option Bytes → Bytes
  stream_name_of name none = name
  stream_name_of name (some value) = value

  abbrev pub named : Settings → Event → ℕ → Event
  named s e root = record e {
    stream_name = stream_name_of e.stream_name (outside.dig root s.stream_field);
  }

  unfoldable pub put : Settings → Pipeline → Event → Pipeline × ℕ
  put s p e =
      let (st, seq_id) = put_event p.streamer (stream_id s e) e.stream_name e in
      (record p { streamer = st }, seq_id)

  unfoldable pub stream_event : Settings → Pipeline → Event → ℕ → Pipeline × ℕ
  stream_event s p e root =
      if s.disable_streams
      then put s p e
      else if outside.pass_event (named s e root)
      then put s p (named s e root)
      else (back p (named s e root), event_seq_id_error)

  -- The fields that `In` sets.
  abbrev pub filled : Line → Event → ℕ → Event
  filled line e root = record e {
    root = some root;
    offset = line.offset;
    source_id = line.source_id;
    source_name = line.source_name;
    stream_name = default_stream_name;
    size = length line.bytes;
  }

  unfoldable pub finish : Settings → Pipeline → Line → Event → Option ℕ → Pipeline × ℕ
  finish s p line e none = (back p e, event_seq_id_error)
  finish s p line e (some root) = stream_event s p (filled line e root) root

  unfoldable pub take_event :
      Settings → DecoderType → CriRow → Pipeline → Line → List Event → Result Fault (Pipeline × ℕ)
  take_event s d row p line [] = err waits
  take_event s d row p line (e ∷ free) = decode_root s d row line.bytes >>= λ root.
      ok (finish s (record p { event_pool = free }) line (reset e) root)

  unfoldable pub after_row :
      Settings → DecoderType → Pipeline → Line → Option CriRow → Result Fault (Pipeline × ℕ)
  after_row s d p line none = ok (p, event_seq_id_error)
  after_row s d p line (some row) = check_spam p.antispam line row >>= λ (a, spam).
      if spam
      then ok (record p { antispam = a }, event_seq_id_error)
      else take_event s d row (record p { antispam = a }) line p.event_pool

  -- `In`, with the number that it returns.
  unfoldable pub input : Settings → Pipeline → Line → Result Fault (Pipeline × ℕ)
  input s p line =
      if is_mud line.bytes || is_long s line.bytes
      then ok (p, event_seq_id_error)
      else let d = choose_decoder s s.decoder in
        read_row s d line.bytes >>= λ row. after_row s d p line row

-- `finalize`: `commits` are the events that the input plugin is told to commit.
unfoldable pub finalize : Pipeline → ℕ → Event → Bool → Bool → Pipeline × List Event
finalize p stream e notify_input back_event =
    if is_timeout e.kind
    then (p, [])
    else let t : Pipeline = record p { streamer = commit_to p.streamer stream e } in
      (if back_event then back t e else t, if notify_input then e ∷ [] else [])
