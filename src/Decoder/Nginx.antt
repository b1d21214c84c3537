-- ===== src/Decoder/Nginx.antt =====
-- decoder/nginx.go: lines of the error log of nginx.
use file_d.Base.{
  ℕ, zero, suc, ◌+◌, ◌-◌, ◌<◌, ◌≡◌, refl, sym, ap, ap₂, ◌∙◌, Bytes, index_byte, none, List, [], ◌∷◌,
  ◌++◌, length, take, drop, take_prefix, drop_prefix, drop_past, length-append, append_assoc, ltb,
  ◌==◌, if◌then◌else◌, false, arith, Result, ok, err,
}

pub record NginxRow : Type 0 where
  pub time : Bytes
  pub level : Bytes
  pub message : Bytes

pub data Failure : Type 0 where
  missing_required_fields level_too_short : Failure

abbrev pub space : ℕ
space = b' '

-- `spaceSplit` from the index `i`: the places of the first spaces, `limit` at most.
unfoldable pub space_split : ℕ → Bytes → ℕ → List ℕ
space_split i [] limit = []
space_split i (c ∷ cs) zero = []
space_split i (c ∷ cs) (suc limit) =
    let found = space_split (suc i) cs limit in
    let on = space_split (suc i) cs (suc limit) in if c == space then i ∷ found else on

-- On the places of three spaces, the second at `b` and the third at `c`.
unfoldable pub row_at : Bytes → ℕ → ℕ → Result Failure NginxRow
row_at data' b c =
    if ltb (c - b) 4
    then err level_too_short
    else ok (record {
      time = take b data';
      level = drop (b + 2) (take (c - 1) data');
      message = drop (c + 1) data';
    })

unfoldable pub row_of : Bytes → List ℕ → Result Failure NginxRow
row_of data' (a ∷ b ∷ c ∷ []) = row_at data' b c
row_of data' _ = err missing_required_fields

unfoldable pub decode_nginx_error : Bytes → Result Failure NginxRow
decode_nginx_error data' = row_of data' (space_split 0 data' 3)

space_split_past :
    (i : ℕ) (f rest : Bytes) (limit : ℕ)
    → index_byte f space ≡ none
    → space_split i (f ++ space ∷ rest) (suc limit)
      ≡ ◌∷◌ (i + length f) (space_split (suc (i + length f)) rest limit)
unfolding space_split
space_split_past i [] rest limit h = ground arith
space_split_past i (c ∷ f) rest limit h = ground (arith, space_split_past (suc i) f rest limit)

space_split_end : (i : ℕ) (f : Bytes) → space_split i f 0 ≡ []
unfolding space_split
space_split_end i [] = refl
space_split_end i (c ∷ f) = refl

-- A level between two bytes.
abbrev pub level_field : ℕ → Bytes → ℕ → Bytes
level_field open_byte level close_byte = open_byte ∷ level ++ close_byte ∷ []

-- The parts of a line: a date, a time, a level between two bytes, and a message.
abbrev pub nginx_line : Bytes → Bytes → ℕ → Bytes → ℕ → Bytes → Bytes
nginx_line date clock open_byte level close_byte message =
    date ++ space ∷ (clock ++ space ∷ (level_field open_byte level close_byte ++ space ∷ message))

row_ok :
    (head level message : Bytes) (o e : ℕ)
    → 0 < length level
    → row_at
        (head ++ space ∷ o ∷ (level ++ e ∷ space ∷ message))
        (length head)
        (length head + (3 + length level))
      ≡ ok (record { time = head; level = level; message = message })
unfolding row_at
row_ok head level message o e some_level =
    let data' : Bytes = head ++ space ∷ o ∷ (level ++ e ∷ space ∷ message) in
    let enough : ltb (length head + (3 + length level) - length head) 4 ≡ false = ground arith in
    let before : (head ++ space ∷ o ∷ level) ++ e ∷ space ∷ message ≡ data' =
      append_assoc head (space ∷ o ∷ level) (e ∷ space ∷ message) in
    let opened : (head ++ space ∷ o ∷ []) ++ level ≡ head ++ space ∷ o ∷ level =
      append_assoc head (space ∷ o ∷ []) level in
    let ended : ((head ++ space ∷ o ∷ level) ++ e ∷ []) ++ space ∷ message ≡ data' =
      append_assoc (head ++ space ∷ o ∷ level) (e ∷ []) (space ∷ message) ∙ before in
    let at_level : length head + (3 + length level) - 1 ≡ length (head ++ space ∷ o ∷ level) =
      ground (arith, length-append head (space ∷ o ∷ level)) in
    let at_open : length head + 2 ≡ length (head ++ space ∷ o ∷ []) =
      ground (arith, length-append head (space ∷ o ∷ [])) in
    let at_end : length head + (3 + length level) + 1
        ≡ suc (length ((head ++ space ∷ o ∷ level) ++ e ∷ [])) =
      ground (
        arith,
        length-append head (space ∷ o ∷ level),
        length-append (head ++ space ∷ o ∷ level) (e ∷ []),
      ) in
    let time_ok : take (length head) data' ≡ head =
      take_prefix head (space ∷ o ∷ (level ++ e ∷ space ∷ message)) in
    let level_ok : drop (length head + 2) (take (length head + (3 + length level) - 1) data')
        ≡ level =
      ap₂ (λ n m. drop n (take m data')) at_open at_level
      ∙ ap
          (λ l.
            drop (length (head ++ space ∷ o ∷ [])) (take (length (head ++ space ∷ o ∷ level)) l))
          (sym before)
      ∙ ap (drop (length (head ++ space ∷ o ∷ [])))
          (take_prefix (head ++ space ∷ o ∷ level) (e ∷ space ∷ message) ∙ sym opened)
      ∙ drop_prefix (head ++ space ∷ o ∷ []) level in
    let message_ok : drop (length head + (3 + length level) + 1) data' ≡ message =
      ap₂ drop at_end (sym ended)
      ∙ drop_past ((head ++ space ∷ o ∷ level) ++ e ∷ []) message space in
    rw (enough, time_ok, level_ok, message_ok) refl

-- A line of a date and a time without spaces, a level that is not empty and holds no space, between
-- two bytes that are none either, and any message is decoded to these parts.
pub decode_nginx_error-nginx_line :
    (date clock level message : Bytes) (o e : ℕ)
    → index_byte date space ≡ none
    → index_byte clock space ≡ none
    → index_byte (level_field o level e) space ≡ none
    → 0 < length level
    → decode_nginx_error (nginx_line date clock o level e message)
      ≡ ok (record { time = date ++ space ∷ clock; level = level; message = message })
unfolding decode_nginx_error row_of
decode_nginx_error-nginx_line date clock level message o e of_date of_clock of_level some_level =
    let last = level_field o level e ++ space ∷ message in
    let head : Bytes = date ++ space ∷ clock in
    let a : ℕ = 0 + length date in
    let b : ℕ = suc a + length clock in
    let c : ℕ = suc b + length (level_field o level e) in
    let splits : space_split 0 (nginx_line date clock o level e message) 3 ≡ a ∷ b ∷ c ∷ [] =
      space_split_past 0 date (clock ++ space ∷ last) 2 of_date
      ∙ ap (◌∷◌ a) (
          space_split_past (suc a) clock last 1 of_clock
          ∙ ap (◌∷◌ b) (
              space_split_past (suc b) (level_field o level e) message 0 of_level
              ∙ ap (◌∷◌ c) (space_split_end (suc c) message))) in
    let line : nginx_line date clock o level e message
        ≡ head ++ space ∷ o ∷ (level ++ e ∷ space ∷ message) =
      sym (append_assoc date (space ∷ clock) (space ∷ last))
      ∙ ap (λ l. head ++ space ∷ o ∷ l) (append_assoc level (e ∷ []) (space ∷ message)) in
    let at_b : b ≡ length head = ground (arith, length-append date (space ∷ clock)) in
    let at_c : c ≡ length head + (3 + length level) =
      ground (arith, length-append date (space ∷ clock), length-append level (e ∷ [])) in
    ap (row_of (nginx_line date clock o level e message)) splits
    ∙ ap (λ l. row_at l b c) line
    ∙ ap₂ (row_at (head ++ space ∷ o ∷ (level ++ e ∷ space ∷ message))) at_b at_c
    ∙ row_ok head level message o e some_level
