-- ===== src/Decoder/Postgres.antt =====
-- decoder/postgres.go: `DecodePostgres` cuts a line of a postgres log into its fields. The fields are put
-- into a document of insane-json, for which the row stands. The slice `time` grows into the bytes that
-- it is cut from, each time by what stands there already.
use file_d.Base.{
  ℕ, suc, ◌≡◌, refl, sym, ◌∙◌, ap, Bytes, true, false, Option, none, some, ◌∷◌, ◌++◌, arith, length,
  take, drop, index_byte, ltb, if◌then◌else◌, Result, ok, err, ◌>>=◌, index_byte-append, ◌≢◌,
  index_byte-found, take_prefix, drop_past, length-append, append_assoc,
}

pub record PostgresRow : Type 0 where
  pub time : Bytes
  pub pid : Bytes
  pub pid_message_number : Bytes
  pub client : Bytes
  pub db : Bytes
  pub user : Bytes
  pub log : Bytes

pub data Failure : Type 0 where
  timestamp_is_not_found pid_is_not_found number_start_is_not_found number_end_is_not_found :
      Failure
  client_end_is_not_found db_end_is_not_found user_end_is_not_found log_is_not_found : Failure
  slice_out_of_range : Failure

abbrev pub space : ℕ
space = b' '

-- The bytes up to a delimiter, and what is behind it.
unfoldable pub cut_at : Failure → Bytes → Option ℕ → Result Failure (Bytes × Bytes)
cut_at missing data' none = err missing
cut_at missing data' (some p) = ok (take p data', drop (suc p) data')

unfoldable pub until : Failure → ℕ → Bytes → Result Failure (Bytes × Bytes)
until missing delimiter data' = cut_at missing data' (index_byte data' delimiter)

-- `data[low:]` of the bytes before a delimiter.
unfoldable pub slice_from : ℕ → Bytes → Result Failure Bytes
slice_from low data' =
    if ltb (length data') low then err slice_out_of_range else ok (drop low data')

-- One more than a position, where -1 is none.
abbrev pub behind : Option ℕ → ℕ
behind none = 0
behind (some i) = suc i

-- The value of a credential. That its `=` is found is not tested: the test is on an older position.
unfoldable pub credential : Failure → ℕ → Bytes → Result Failure (Bytes × Bytes)
credential missing delimiter data' = do
  let (before, after) = (← until missing delimiter data')
  let value = (← slice_from (behind (index_byte data' b'=')) before)
  ok (value, after)

unfoldable pub decode_time : Bytes → Result Failure (Bytes × Bytes)
decode_time data' = do
  let (date, after_date) = (← until timestamp_is_not_found space data')
  let (clock, after_clock) = (← until timestamp_is_not_found space after_date)
  let (zone, after_zone) = (← until timestamp_is_not_found space after_clock)
  ok (date ++ space ∷ (clock ++ space ∷ zone), after_zone)

unfoldable pub decode_postgres : Bytes → Result Failure PostgresRow
decode_postgres data' = do
  let (time, after_time) = (← decode_time data')
  let (pid, after_pid) = (← until pid_is_not_found b']' after_time)
  let pid_value = (← slice_from 1 pid)
  let (gap, after_gap) = (← until number_start_is_not_found b'[' after_pid)
  let (number, after_number) = (← until number_end_is_not_found b']' after_gap)
  let (client, after_client) = (← credential client_end_is_not_found b',' after_number)
  let (db, after_db) = (← credential db_end_is_not_found b',' after_client)
  let (user, after_user) = (← credential user_end_is_not_found space after_db)
  let (level, after_level) = (← until log_is_not_found space after_user)
  let log = (← slice_from 1 after_level)
  ok (record {
    time = time;
    pid = pid_value;
    pid_message_number = number;
    client = client;
    db = db;
    user = user;
    log = log;
  })

until_ok :
    (missing : Failure) (f rest : Bytes) (delimiter : ℕ)
    → index_byte f delimiter ≡ none
    → until missing delimiter (f ++ delimiter ∷ rest) ≡ ok (f, rest)
unfolding until cut_at
until_ok missing f rest delimiter h =
    rw
      (
        index_byte-found f rest delimiter h,
        take_prefix f (delimiter ∷ rest),
        drop_past f rest delimiter,
      )
      refl

-- A key without an equals sign, and the value behind it.
abbrev pub pair : Bytes → Bytes → Bytes
pair key value = key ++ b'=' ∷ value

abbrev pub IsPair : ℕ → Bytes → Bytes → Type 0
IsPair delimiter key value =
    (index_byte key b'=' ≡ none) × (index_byte (pair key value) delimiter ≡ none)

equals_ok :
    (key value rest : Bytes)
    → index_byte key b'=' ≡ none
    → index_byte (pair key value ++ rest) b'=' ≡ some (length key)
equals_ok key value rest plain =
    ap (λ l. index_byte l b'=') (append_assoc key (b'=' ∷ value) rest)
    ∙ index_byte-found key (value ++ rest) b'=' plain

credential_ok :
    (missing : Failure) (key value rest : Bytes) (delimiter : ℕ)
    → IsPair delimiter key value
    → credential missing delimiter (pair key value ++ delimiter ∷ rest) ≡ ok (value, rest)
unfolding credential slice_from
credential_ok missing key value rest delimiter (plain, whole) =
    let inside : ltb (length (pair key value)) (suc (length key)) ≡ false =
      ground (arith, length-append key (b'=' ∷ value)) in
    rw
      (
        until_ok missing (pair key value) rest delimiter whole,
        equals_ok key value (delimiter ∷ rest) plain,
        inside,
        drop_past key value b'=',
      )
      refl

-- The parts of a line, in their order. A pid and a log have a byte in front of them.
pub record Parts : Type 0 where
  pub date : Bytes
  pub clock : Bytes
  pub zone : Bytes
  pub brace : ℕ
  pub pid : Bytes
  pub gap : Bytes
  pub number : Bytes
  pub client_key : Bytes
  pub client : Bytes
  pub db_key : Bytes
  pub db : Bytes
  pub user_key : Bytes
  pub user : Bytes
  pub level : Bytes
  pub blank : ℕ
  pub log : Bytes

pub record IsParts (p : Parts) : Type 0 where
  pub date : index_byte p.date space ≡ none
  pub clock : index_byte p.clock space ≡ none
  pub zone : index_byte p.zone space ≡ none
  pub pid : index_byte (p.brace ∷ p.pid) b']' ≡ none
  pub gap : index_byte p.gap b'[' ≡ none
  pub number : index_byte p.number b']' ≡ none
  pub client : IsPair b',' p.client_key p.client
  pub db : IsPair b',' p.db_key p.db
  pub user : IsPair space p.user_key p.user
  pub level : index_byte p.level space ≡ none

abbrev after_number : Parts → Bytes
after_number p =
    pair p.client_key p.client
    ++ b','
      ∷ (pair p.db_key p.db
          ++ b',' ∷ (pair p.user_key p.user ++ space ∷ (p.level ++ space ∷ p.blank ∷ p.log)))

abbrev pub postgres_line : Parts → Bytes
postgres_line p =
    p.date
    ++ space
      ∷ (p.clock
          ++ space
            ∷ (p.zone
                ++ space
                  ∷ ((p.brace ∷ p.pid)
                      ++ b']' ∷ (p.gap ++ b'[' ∷ (p.number ++ b']' ∷ after_number p)))))

-- A line of parts none of which holds the delimiter behind it is decoded to them.
pub decode_postgres-postgres_line :
    (p : Parts)
    → IsParts p
    → decode_postgres (postgres_line p)
      ≡ ok (record {
        time = p.date ++ space ∷ (p.clock ++ space ∷ p.zone);
        pid = p.pid;
        pid_message_number = p.number;
        client = p.client;
        db = p.db;
        user = p.user;
        log = p.log;
      })
unfolding decode_postgres decode_time slice_from
decode_postgres-postgres_line p h =
    rw
      (
        until_ok timestamp_is_not_found p.date _ space h.date,
        until_ok timestamp_is_not_found p.clock _ space h.clock,
        until_ok timestamp_is_not_found p.zone _ space h.zone,
        until_ok pid_is_not_found (p.brace ∷ p.pid) _ b']' h.pid,
        until_ok number_start_is_not_found p.gap _ b'[' h.gap,
        until_ok number_end_is_not_found p.number _ b']' h.number,
        credential_ok client_end_is_not_found p.client_key p.client _ b',' h.client,
        credential_ok db_end_is_not_found p.db_key p.db _ b',' h.db,
        credential_ok user_end_is_not_found p.user_key p.user _ space h.user,
        until_ok log_is_not_found p.level _ space h.level,
      )
      (ground arith)

equals_later :
    (f g rest : Bytes) (delimiter : ℕ)
    → index_byte f b'=' ≡ none
    → index_byte g b'=' ≡ none
    → delimiter ≢ b'='
    → index_byte (f ++ delimiter ∷ (g ++ b'=' ∷ rest)) b'=' ≡ some (length (f ++ delimiter ∷ g))
equals_later f g rest delimiter f_plain g_plain differs =
    sym (ap (λ l. index_byte l b'=') (append_assoc f (delimiter ∷ g) (b'=' ∷ rest)))
    ∙ index_byte-found (f ++ delimiter ∷ g) rest b'='
        (index_byte-append f (delimiter ∷ g) b'=' f_plain (ground arith))

-- Where the first equals sign of a credential stands behind its delimiter, the decoder panics instead of
-- giving an error.
pub late_equals :
    (missing : Failure) (f g rest : Bytes) (delimiter : ℕ)
    → index_byte f delimiter ≡ none
    → index_byte f b'=' ≡ none
    → index_byte g b'=' ≡ none
    → delimiter ≢ b'='
    → credential missing delimiter (f ++ delimiter ∷ (g ++ b'=' ∷ rest)) ≡ err slice_out_of_range
unfolding credential slice_from
late_equals missing f g rest delimiter first f_plain g_plain differs =
    let outside : ltb (length f) (suc (length (f ++ delimiter ∷ g))) ≡ true =
      ground (arith, length-append f (delimiter ∷ g)) in
    rw
      (
        until_ok missing f (g ++ b'=' ∷ rest) delimiter first,
        equals_later f g rest delimiter f_plain g_plain differs,
        outside,
      )
      refl
