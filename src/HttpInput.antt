-- ===== src/HttpInput.antt =====
-- plugin/input/http/http.go: the body of a request is read in chunks and cut into lines, requests that run
-- at the same time have source ids of their own, and a request shows who it is from. What `Read` and
-- `BasicAuth` of the standard library return is an argument. There are never as many requests at once as
-- a source id has values.
pub mod Bulk
pub mod Sources
pub mod Auth
use file_d.Base.{
  ℕ, suc, ◌-◌, Bytes, codes, bytes_eq, Bool, true, false, not, Option, none, some, List, [], ◌∷◌,
  ◌++◌, is_empty, length, take, drop, ◌==◌, if◌then◌else◌, Result, ok, err,
}

-- The arguments of `controller.In`, without the name http.
pub record Call : Type 0 where
  pub source_id : ℕ
  pub offset : ℕ
  pub bytes : Bytes

-- What `Read` returns: bytes, the end, or another error.
pub data Read : Type 0 where
  chunk : Bytes → Read
  ends fails : Read

-- The variables of the loop of processChunk.
pub record Scan : Type 0 where
  pub pos : ℕ
  pub nl_pos : ℕ
  pub event_buff : Bytes
  pub calls : List Call

abbrev pub newline : ℕ
newline = 10

module _ (source_id : ℕ) (read_buff : Bytes) where
  -- `readBuff[nlPos:pos]`.
  abbrev pub piece : Scan → Bytes
  piece s = take (s.pos - s.nl_pos) (drop s.nl_pos read_buff)

  unfoldable pub end_line : Scan → Scan
  end_line s =
      let line = if not (is_empty s.event_buff) then s.event_buff ++ piece s else piece s in
      record {
        pos = suc s.pos;
        nl_pos = suc s.pos;
        event_buff = [];
        calls = s.calls ++ record { source_id = source_id; offset = s.pos; bytes = line } ∷ [];
      }

  -- Over the bytes from `pos` on.
  unfoldable pub chunk_loop : Bytes → Scan → Scan
  chunk_loop [] s = s
  chunk_loop (b ∷ bs) s =
      let next = if b == newline then end_line s else record s { pos = suc s.pos } in
      chunk_loop bs next

  unfoldable pub end_chunk : Bool → Scan → List Call × Bytes
  end_chunk is_last_chunk s =
      let rest = s.event_buff ++ drop s.nl_pos read_buff in
      if is_last_chunk
      then (s.calls ++ record { source_id = source_id; offset = s.pos; bytes = rest } ∷ [], [])
      else (s.calls, rest)

unfoldable pub process_chunk : ℕ → Bytes → Bytes → Bool → List Call × Bytes
process_chunk source_id read_buff event_buff is_last_chunk =
    end_chunk source_id read_buff is_last_chunk (
      chunk_loop source_id read_buff read_buff
        (record { pos = 0; nl_pos = 0; event_buff = event_buff; calls = [] }))

unfoldable pub end_bulk : ℕ → Bytes → List Call × Bool
end_bulk source_id event_buff =
    if is_empty event_buff
    then ([], false)
    else ((process_chunk source_id [] event_buff true).0, false)

-- The calls, and whether there was an error. Behind the last value of the list `Read` gives the end.
unfoldable pub process_bulk : ℕ → Bytes → List Read → List Call × Bool
process_bulk source_id event_buff [] = end_bulk source_id event_buff
process_bulk source_id event_buff (ends ∷ reads) = end_bulk source_id event_buff
process_bulk source_id event_buff (fails ∷ reads) = ([], true)
process_bulk source_id event_buff (chunk read_buff ∷ reads) =
    let (calls, rest) = process_chunk source_id read_buff event_buff false in
    let (more, failed) = process_bulk source_id rest reads in (calls ++ more, failed)

-- The ids that are free, with the last one first, and the next new one.
pub record Ids : Type 0 where
  pub source_ids : List ℕ
  pub source_seq : ℕ

unfoldable pub get_source_id : Ids → Ids × ℕ
get_source_id p = elim p.source_ids [
  | [] ↦ (record p { source_seq = suc p.source_seq }, p.source_seq)
  | x ∷ xs ↦ (record p { source_ids = xs }, x)
]

unfoldable pub put_source_id : Ids → ℕ → Ids
put_source_id p x = record p { source_ids = x ∷ p.source_ids }

pub data AuthStrategy : Type 0 where
  strategy_disabled strategy_basic strategy_bearer : AuthStrategy

-- What a request shows: the login and the password of `BasicAuth`, and the header `Authorization`.
pub record Request : Type 0 where
  pub basic_auth : Option (Bytes × Bytes)
  pub authorization : Bytes

pub data Panic : Type 0 where
  nil_counter : Panic

-- A map of strings, as its pairs.
unfoldable pub value_at : Bytes → List (Bytes × Bytes) → Option Bytes
value_at key [] = none
value_at key ((k, v) ∷ kvs) = if bytes_eq k key then some v else value_at key kvs

abbrev or_empty : Option Bytes → Bytes
or_empty none = []
or_empty (some v) = v

unfoldable pub auth_basic : List (Bytes × Bytes) → Option (Bytes × Bytes) → Bytes × Bool
auth_basic secrets none = ([], false)
auth_basic secrets (some (username, password)) =
    (username, bytes_eq (or_empty (value_at username secrets)) password)

-- `nameByBearerToken`: each pair of the secrets is set, so a later one counts.
unfoldable pub name_by_bearer_token :
    List (Bytes × Bytes) → List (Bytes × Bytes) → List (Bytes × Bytes)
name_by_bearer_token names [] = names
name_by_bearer_token names ((name, token) ∷ secrets) =
    name_by_bearer_token ((token, name) ∷ names) secrets

abbrev pub bearer : Bytes
bearer = codes "Bearer "

abbrev named : Option Bytes → Bytes × Bool
named none = ([], false)
named (some name) = (name, true)

unfoldable pub auth_bearer : List (Bytes × Bytes) → Bytes → Bytes × Bool
auth_bearer secrets header =
    if bytes_eq (take (length bearer) header) bearer
    then named (value_at (drop (length bearer) header) (name_by_bearer_token [] secrets))
    else ([], false)

-- The counter of a secret is there for each name of the secrets.
unfoldable pub counted : List (Bytes × Bytes) → Bytes × Bool → Result Panic Bool
counted secrets (secret_name, false) = ok false
counted secrets (secret_name, true) = elim (value_at secret_name secrets) [
  | none ↦ err nil_counter
  | some secret ↦ ok true
]

unfoldable pub auth : AuthStrategy → List (Bytes × Bytes) → Request → Result Panic Bool
auth strategy_disabled secrets req = ok true
auth strategy_basic secrets req = counted secrets (auth_basic secrets req.basic_auth)
auth strategy_bearer secrets req = counted secrets (auth_bearer secrets req.authorization)
