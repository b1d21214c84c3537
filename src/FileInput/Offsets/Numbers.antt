-- ===== src/FileInput/Offsets/Numbers.antt =====
-- Decimal numbers of plugin/input/file/offset.go: what is written is read back.
use file_d.Base.{
  index_byte-append, ℕ, zero, suc, ◌+◌, ◌-◌, ◌*◌, ◌/◌, ◌%◌, ◌^◌, ◌<◌, ◌≡◌, refl, Bytes, true, false,
  none, some, [], ◌∷◌, ◌++◌, arith, index_byte, ltb, if_true, if_false, ap, ◌∙◌, ◌⊎◌, ◌≢◌, ok,
  Bool-cases, List-cases, inl, inr,
}
use file_d.FileInput.Offsets.{digits, digits_value, below, parse_uint, parse_positive, parse_int}

-- The last digit counts ones.
digits_value-snoc :
    (acc n k : ℕ) (ds : Bytes)
    → k < 10
    → digits_value acc ds ≡ some n
    → digits_value acc (ds ++ (b'0' + k) ∷ []) ≡ some (n * 10 + k)
unfolding digits_value
digits_value-snoc acc n k [] lt h = ground arith
digits_value-snoc acc n k (d ∷ ds) lt h =
    ground (arith, digits_value-snoc (acc * 10 + (d - b'0')) n k ds)

digits_more :
    (fuel n : ℕ)
    → ltb n 10 ≡ false
    → digits (suc fuel) n ≡ digits fuel (n / 10) ++ (b'0' + n % 10) ∷ []
unfolding digits
digits_more fuel n h = if_false _ _ h

digits_one : (fuel n : ℕ) → ltb n 10 ≡ true → digits (suc fuel) n ≡ (b'0' + n) ∷ []
unfolding digits
digits_one fuel n h = if_true _ _ h

digits_value_one : (k : ℕ) → k < 10 → digits_value 0 ((b'0' + k) ∷ []) ≡ some k
unfolding digits_value
digits_value_one k lt = ground arith

digits_value-digits :
    (fuel n : ℕ) → n < 10 ^ suc fuel → digits_value 0 (digits (suc fuel) n) ≡ some n
digits_value-digits zero n h =
    rw (digits_one zero n (ground arith)) (digits_value_one n (omega arith))
digits_value-digits (suc fuel) n h = elim (Bool-cases (ltb n 10)) [
  | inl e ↦ rw (digits_one (suc fuel) n e) (digits_value_one n (ground arith))
  | inr e ↦ rw (digits_more (suc fuel) n e) (
      digits_value-snoc 0 (n / 10) (n % 10) (digits (suc fuel) (n / 10)) (omega arith)
        (digits_value-digits fuel (n / 10) (omega arith))
      ∙ ap some (omega arith))
]

-- Digits hold no byte that is not a digit.
pub digits-index_byte :
    (fuel n c : ℕ) → (c < b'0') ⊎ (b'9' < c) → index_byte (digits fuel n) c ≡ none
unfolding digits
digits-index_byte zero n c h = refl
digits-index_byte (suc fuel) n c h = elim (Bool-cases (ltb n 10)) [
  | inl e ↦ ground arith
  | inr e ↦ rw (if_false _ _ e) (
      index_byte-append (digits fuel (n / 10)) ((b'0' + n % 10) ∷ []) c
        (digits-index_byte fuel (n / 10) c h) (ground arith))
]

parse_uint-some :
    (ds : Bytes) (n : ℕ) → ds ≢ [] → digits_value 0 ds ≡ some n → n < 2 ^ 64 → parse_uint ds ≡ ok n
unfolding parse_uint below
parse_uint-some [] n h e lt = absurd (h refl)
parse_uint-some (d ∷ ds) n h e lt = ground arith

digits_ne : (fuel n : ℕ) → digits (suc fuel) n ≢ []
digits_ne fuel n h = elim (Bool-cases (ltb n 10)) [
  | inl e ↦ ground (arith, digits_one fuel n e)
  | inr e ↦ elim (List-cases (digits fuel (n / 10))) [
    | inl f ↦ ground (arith, digits_more fuel n e)
    | inr (x, xs, f) ↦ ground (arith, digits_more fuel n e)
  ]
]

-- The twenty digits of a uint64.
pub parse_uint-digits : (n : ℕ) → n < 2 ^ 64 → parse_uint (digits 20 n) ≡ ok n
parse_uint-digits n h =
    parse_uint-some (digits 20 n) n (digits_ne 19 n) (digits_value-digits 19 n (omega arith)) h

head_ne : (d : ℕ) (ds : Bytes) (c : ℕ) → index_byte (d ∷ ds) c ≡ none → d ≢ c
head_ne d ds c h = ground arith

parse_int-unsigned :
    (d n : ℕ) (ds : Bytes)
    → d ≢ b'-'
    → d ≢ b'+'
    → parse_uint (d ∷ ds) ≡ ok n
    → n < 2 ^ 63
    → parse_int (d ∷ ds) ≡ ok n
unfolding parse_int parse_positive
parse_int-unsigned d n ds minus plus h lt = ground arith

-- No sign is written, and none is read.
pub parse_int-digits : (n : ℕ) → n < 2 ^ 63 → parse_int (digits 20 n) ≡ ok n
parse_int-digits n h = elim (List-cases (digits 20 n)) [
  | inl e ↦ absurd (digits_ne 19 n e)
  | inr (d, ds, e) ↦
      let no : (c : ℕ) → c < b'0' → d ≢ c =
        λ c lt. head_ne d ds c (rw e at (digits-index_byte 20 n c (inl lt))) in
      rw e (
        parse_int-unsigned d n ds (no b'-' (omega arith)) (no b'+' (omega arith))
          (rw e at (parse_uint-digits n (omega arith))) h)
]
