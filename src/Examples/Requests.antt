-- ===== src/Examples/Requests.antt =====
-- Runs of plugin/input/http/http.go.
use file_d.Base.{
  ◌+◌, ◌≡◌, ◌↔◌, refl, Bytes, codes, true, false, none, some, List, [], ◌∷◌, ◌++◌, map, ltb,
  if◌then◌else◌, count, ok, err,
}
use file_d.HttpInput.{
  chunk, ends, fails, newline, end_line, chunk_loop, end_chunk, process_chunk, end_bulk,
  process_bulk, Ids, get_source_id, put_source_id, strategy_basic, strategy_bearer, Request,
  nil_counter, value_at, auth_basic, name_by_bearer_token, auth_bearer, counted, auth,
}
use file_d.HttpInput.Bulk.{texts, last_line, process_bulk-body}
use file_d.HttpInput.Sources.{Reach, start, begins, Reach.ends, each_source_once}
use file_d.HttpInput.Auth.{auth_basic_iff}

-- The lines `one`, `two` and, without a newline, `thr`.
abbrev chunks : List Bytes
chunks = codes "on" ∷ (codes "e" ++ newline ∷ codes "two") ∷ (newline ∷ codes "thr") ∷ []

process_bulk-body_example :
    ((texts (process_bulk 7 [] (map chunk chunks ++ ends ∷ [])).0
        ≡ (codes "one" ∷ codes "two" ∷ []) ++ last_line (codes "thr"))
      × ((process_bulk 7 [] (map chunk chunks ++ ends ∷ [])).1 ≡ false))
    × ((texts (process_bulk 7 [] (map chunk chunks ++ fails ∷ [])).0
          ≡ codes "one" ∷ codes "two" ∷ [])
        × ((process_bulk 7 [] (map chunk chunks ++ fails ∷ [])).1 ≡ true))
process_bulk-body_example =
    process_bulk-body 7 (codes "one" ∷ codes "two" ∷ []) (codes "thr") chunks (refl, (refl, tt))
      refl refl

calls_of_chunks : process_bulk 7 [] (map chunk chunks ++ ends ∷ []) ≡ (
  record { source_id = 7; offset = 1; bytes = codes "one" }
      ∷ record { source_id = 7; offset = 0; bytes = codes "two" }
      ∷ record { source_id = 7; offset = 0; bytes = codes "thr" }
      ∷ [],
  false,
)
unfolding process_bulk process_chunk chunk_loop end_line end_chunk end_bulk
calls_of_chunks = refl

-- Two requests begin, and the first one ends.
abbrev two_ids : Ids
two_ids = record { source_ids = []; source_seq = 2 }

two_begin : Reach two_ids (1 ∷ 0 ∷ [])
unfolding get_source_id
two_begin = begins _ _ (begins _ _ start)

one_ends : Reach (put_source_id two_ids 0) (1 ∷ [])
one_ends = Reach.ends two_ids (1 ∷ []) 0 [] two_begin

each_source_once_example :
    count 1 (put_source_id two_ids 0).source_ids + count 1 (1 ∷ [])
    ≡ (if ltb 1 (put_source_id two_ids 0).source_seq then 1 else 0)
each_source_once_example = each_source_once (put_source_id two_ids 0) (1 ∷ []) 1 one_ends

abbrev secrets : List (Bytes × Bytes)
secrets = (codes "ann", codes "pass") ∷ (codes "bob", codes "word") ∷ []

abbrev asks : Bytes → Bytes → Request
asks username password = record { basic_auth = some (username, password); authorization = [] }

auth_basic_iff_example :
    ((auth strategy_basic secrets (asks (codes "bob") (codes "word")) ≡ ok true)
      ↔ (value_at (codes "bob") secrets ≡ some (codes "word")))
    × ((auth strategy_basic secrets (asks (codes "bob") (codes "word")) ≡ err nil_counter)
        ↔ ((value_at (codes "bob") secrets ≡ none) × (codes "word" ≡ [])))
auth_basic_iff_example = auth_basic_iff secrets [] (codes "bob") (codes "word")

bearer_is_let_in :
    auth strategy_bearer secrets (record { basic_auth = none; authorization = codes "Bearer word" })
    ≡ ok true
unfolding auth auth_bearer counted value_at name_by_bearer_token
bearer_is_let_in = refl

-- A login that is not known, and no password.
unknown_panics : auth strategy_basic secrets (asks (codes "eve") []) ≡ err nil_counter
unfolding auth auth_basic counted value_at
unknown_panics = refl
