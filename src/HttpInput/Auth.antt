-- ===== src/HttpInput/Auth.antt =====
-- Who is let in by plugin/input/http/http.go.
use file_d.Base.{
  ◌≡◌, ◌↔◌, Bytes, bytes_eq, bytes_eq_iff, true, none, some, List, [], arith, Option-cases,
  Bool-cases, inl, inr, ok, err,
}
use file_d.HttpInput.{strategy_basic, nil_counter, value_at, auth_basic, counted, auth}

-- With logins, a request is let in if its login is one of the secrets, with this password; and it makes
-- the plugin panic if its login is not among them and the password is empty.
pub auth_basic_iff :
    (secrets : List (Bytes × Bytes)) (header username password : Bytes)
    → let answer =
        auth strategy_basic secrets
          (record { basic_auth = some (username, password); authorization = header }) in
      ((answer ≡ ok true) ↔ (value_at username secrets ≡ some password))
      × ((answer ≡ err nil_counter) ↔ ((value_at username secrets ≡ none) × (password ≡ [])))
unfolding auth auth_basic counted
auth_basic_iff secrets header username password = elim (Option-cases (value_at username secrets)) [
  | inl e ↦ elim (Bool-cases (bytes_eq [] password)) [
    | inl b ↦ ground (arith, bytes_eq_iff [] password)
    | inr b ↦ ground (arith, bytes_eq_iff [] password)
  ]
  | inr (v, e) ↦ elim (Bool-cases (bytes_eq v password)) [
    | inl b ↦ ground (arith, bytes_eq_iff v password)
    | inr b ↦ ground (arith, bytes_eq_iff v password)
  ]
]
