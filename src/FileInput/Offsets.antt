-- ===== src/FileInput/Offsets.antt =====
-- plugin/input/file/offset.go and slicemap.go: the file of the offsets, what `save` writes into it and
-- what `load` reads back. The jobs come in the order in which Go ranges over the map; the maps of
-- `parse` are lists in the order of insertion. An offset is the bit pattern of an int64. Opening,
-- syncing and renaming the file is left out.
pub mod Map
pub mod Numbers
pub mod Lines
pub mod RoundTrip
pub mod Fuel
pub mod Broken
use file_d.Base.{
  ℕ, zero, suc, ◌+◌, ◌-◌, ◌*◌, ◌/◌, ◌%◌, ◌^◌, Bytes, bytes_eq, codes, Bool, true, false, not, ◌&&◌,
  ◌||◌, Option, none, some, List, [], ◌∷◌, ◌++◌, is_empty, length, take, drop, index_byte, ltb, leb,
  ◌==◌, if◌then◌else◌, Result, ok, err, ◌>>=◌,
}

pub record Kv : Type 0 where
  pub stream : Bytes
  pub offset : ℕ

-- `sliceMap`: get and set.
unfoldable pub get : List Kv → Bytes → Option ℕ
get [] name = none
get (kv ∷ so) name =
    let rest = get so name in if bytes_eq kv.stream name then some kv.offset else rest

unfoldable pub set : List Kv → Bytes → ℕ → List Kv
set [] name n = record { stream = name; offset = n } ∷ []
set (kv ∷ so) name n =
    let rest = set so name n in
    if bytes_eq kv.stream name then record kv { offset = n } ∷ so else kv ∷ rest

-- The fields of a job that are saved.
pub record SavedJob : Type 0 where
  pub filename : Bytes
  pub inode : ℕ
  pub source_id : ℕ
  pub offsets : List Kv

pub record InodeOffsets : Type 0 where
  pub filename : Bytes
  pub source_id : ℕ
  pub streams : List Kv

-- `no_nl` to `bad_number` are the errors; `slice_out_of_range` is a panic of Go.
pub data Failure : Type 0 where
  no_nl wrong_format no_whitespaces no_separator empty_stream duplicate bad_number : Failure
  slice_out_of_range : Failure
  out_of_fuel : Failure

abbrev pub newline : ℕ
newline = 10

abbrev pub colon : ℕ
colon = b':'

-- `strconv.AppendUint(…, 10)` on a number of so many digits at most; a uint64 has 20.
unfoldable pub digits : ℕ → ℕ → Bytes
digits zero n = []
digits (suc fuel) n =
    let before = digits fuel (n / 10) in
    if ltb n 10 then (b'0' + n) ∷ [] else before ++ (b'0' + n % 10) ∷ []

-- `strconv.ParseUint(…, 10, 64)` and `strconv.ParseInt(…, 10, 64)`.
unfoldable pub digits_value : ℕ → Bytes → Option ℕ
digits_value acc [] = some acc
digits_value acc (d ∷ ds) =
    let rest = digits_value (acc * 10 + (d - b'0')) ds in
    if leb b'0' d && leb d b'9' then rest else none

unfoldable pub below : ℕ → Option ℕ → Result Failure ℕ
below limit none = err bad_number
below limit (some n) = if ltb n limit then ok n else err bad_number

unfoldable pub parse_uint : Bytes → Result Failure ℕ
parse_uint [] = err bad_number
parse_uint (d ∷ ds) = below (2 ^ 64) (digits_value 0 (d ∷ ds))

-- The least int64 has a magnitude of its own.
unfoldable pub parse_negative : Bytes → Result Failure ℕ
unfolding parse_uint
parse_negative ds = do
  let n = (← parse_uint ds)
  if leb n (2 ^ 63) then ok ((2 ^ 64 - n) % 2 ^ 64) else err bad_number

unfoldable pub parse_positive : Bytes → Result Failure ℕ
parse_positive ds = do let n = (← parse_uint ds); if ltb n (2 ^ 63) then ok n else err bad_number

unfoldable pub parse_int : Bytes → Result Failure ℕ
parse_int [] = err bad_number
parse_int (d ∷ ds) =
    if d == b'-'
    then parse_negative ds
    else if d == b'+'
    then parse_positive ds
    else parse_positive (d ∷ ds)

abbrev pub file_prefix : Bytes
file_prefix = codes "- file: "

abbrev pub inode_prefix : Bytes
inode_prefix = codes "  inode: "

abbrev pub source_prefix : Bytes
source_prefix = codes "  source_id: "

abbrev pub streams_prefix : Bytes
streams_prefix = codes "  streams:"

abbrev pub indent : Bytes
indent = codes "    "

-- The message of the second error slices the line to the length of the prefix.
unfoldable pub cut_line : Bytes → Bytes → Option ℕ → Result Failure (Bytes × Bytes)
cut_line content start none = err no_nl
cut_line content start (some line_pos) =
    if ltb line_pos (length start)
    then err slice_out_of_range
    else if not (bytes_eq (take (length start) (take line_pos content)) start)
    then err wrong_format
    else ok (drop (length start) (take line_pos content), drop (suc line_pos) content)

unfoldable pub parse_line : Bytes → Bytes → Result Failure (Bytes × Bytes)
parse_line content start = cut_line content start (index_byte content newline)

unfoldable pub parse_offset : Bytes → ℕ → Result Failure ℕ
parse_offset line pos =
    if ltb (length line) (pos + 2) then err slice_out_of_range else parse_int (drop (pos + 2) line)

unfoldable pub add_stream : List Kv → Bytes → Option ℕ → Result Failure ℕ → Result Failure (List Kv)
add_stream streams stream (some n) offset = err duplicate
add_stream streams stream none offset = do
  let n = (← offset)
  ok (streams ++ record { stream = stream; offset = n } ∷ [])

-- A line of a stream, from its separator.
unfoldable pub split_stream : Bytes → List Kv → Option ℕ → Result Failure (List Kv)
split_stream line streams none = err no_separator
split_stream line streams (some pos) =
    if is_empty (drop 4 (take pos line))
    then err empty_stream
    else add_stream streams (drop 4 (take pos line)) (get streams (drop 4 (take pos line)))
        (parse_offset line pos)

unfoldable pub parse_stream : Bytes → List Kv → Result Failure (List Kv)
parse_stream line streams =
    if ltb (length line) 5
    then err no_whitespaces
    else if not (bytes_eq (take 4 line) indent)
    then err no_whitespaces
    else split_stream line streams (index_byte line colon)

abbrev pub starts_entry : Bytes → Bool
starts_entry [] = false
starts_entry (c ∷ cs) = c == b'-'

-- One round of the loop of `parseStreams`.
unfoldable pub next_stream : Bytes → List Kv → Option ℕ → Result Failure (Bytes × List Kv)
next_stream content streams none = err no_nl
next_stream content streams (some line_pos) = do
  let ss = (← parse_stream (take line_pos content) streams)
  ok (drop (suc line_pos) content, ss)

-- Each round takes a newline at least.
unfoldable pub parse_streams_loop : ℕ → Bytes → List Kv → Result Failure (Bytes × List Kv)
parse_streams_loop zero content streams = err out_of_fuel
parse_streams_loop (suc fuel) content streams =
    let more = next_stream content streams (index_byte content newline) >>= λ rest.
    parse_streams_loop fuel rest.0 rest.1 in
    if is_empty content || starts_entry content then ok (content, streams) else more

unfoldable pub parse_streams : Bytes → Result Failure (Bytes × List Kv)
parse_streams content = do
  let (_, rest) = (← parse_line content streams_prefix)
  parse_streams_loop (suc (length rest)) rest []

unfoldable pub has : List InodeOffsets → ℕ → Bool
has [] fp = false
has (o ∷ os) fp = let rest = has os fp in if o.source_id == fp then true else rest

unfoldable pub is_new : List InodeOffsets → ℕ → Result Failure ℕ
unfolding has
is_new offsets fp = if has offsets fp then err duplicate else ok fp

unfoldable pub parse_one : Bytes → List InodeOffsets → Result Failure (Bytes × List InodeOffsets)
parse_one content offsets = do
  let (filename, after_file) = (← parse_line content file_prefix)
  let (inode_str, after_inode) = (← parse_line after_file inode_prefix)
  let (source_str, after_source) = (← parse_line after_inode source_prefix)
  let inode = (← parse_uint inode_str)
  let fp = (← is_new offsets (← parse_uint source_str))
  let (after, streams) = (← parse_streams after_source)
  ok (after, offsets ++ record { filename = filename; source_id = fp; streams = streams } ∷ [])

unfoldable pub parse_loop : ℕ → Bytes → List InodeOffsets → Result Failure (List InodeOffsets)
parse_loop zero content offsets = err out_of_fuel
parse_loop (suc fuel) content offsets =
    let more = parse_one content offsets >>= λ rest. parse_loop fuel rest.0 rest.1 in
    if is_empty content then ok offsets else more

unfoldable pub parse : Bytes → Result Failure (List InodeOffsets)
parse content = parse_loop (suc (length content)) content []

-- What `save` appends for the jobs, each part in front of what comes after it.
unfoldable pub save_streams : List Kv → Bytes → Bytes
save_streams [] after = after
save_streams (kv ∷ so) after =
    ((indent ++ kv.stream) ++ colon ∷ b' ' ∷ digits 20 kv.offset) ++ newline ∷ save_streams so after

unfoldable pub save_job : SavedJob → Bytes → Bytes
save_job job after =
    if is_empty job.offsets
    then after
    else (file_prefix ++ job.filename)
      ++ newline
        ∷ ((inode_prefix ++ digits 20 job.inode)
            ++ newline
              ∷ ((source_prefix ++ digits 20 job.source_id)
                  ++ newline ∷ (streams_prefix ++ newline ∷ save_streams job.offsets after)))

unfoldable pub save : List SavedJob → Bytes
save [] = []
save (job ∷ jobs) = save_job job (save jobs)
