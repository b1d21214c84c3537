-- ===== src/FileInput/Offsets/Map.antt =====
-- The map of plugin/input/file/slicemap.go.
use file_d.Base.{
  ℕ, ◌≡◌, ◌≢◌, refl, sym, ◌∙◌, Bytes, bytes_eq, bytes_eq_iff, some, List, [], ◌∷◌, arith, if_true,
  if_false, Bool-cases, inl, inr,
}
use file_d.FileInput.Offsets.{Kv, get, set}

get_here :
    (kv : Kv) (so : List Kv) (name : Bytes) → kv.stream ≡ name → get (kv ∷ so) name ≡ some kv.offset
unfolding get
get_here kv so name h = if_true _ _ ((bytes_eq_iff kv.stream name).1 h)

get_there :
    (kv : Kv) (so : List Kv) (name : Bytes) → kv.stream ≢ name → get (kv ∷ so) name ≡ get so name
unfolding get
get_there kv so name h = elim (Bool-cases (bytes_eq kv.stream name)) [
  | inl e ↦ absurd (h ((bytes_eq_iff kv.stream name).0 e))
  | inr e ↦ if_false _ _ e
]

-- A head that stays does not come between.
get_behind :
    (kv : Kv) (so ss : List Kv) (name : Bytes)
    → get so name ≡ get ss name
    → get (kv ∷ so) name ≡ get (kv ∷ ss) name
unfolding get
get_behind kv so ss name h = rw h refl

-- After `set`, the stream that was set has the new offset and every other stream what it had.
pub get-set :
    (so : List Kv) (name : Bytes) (n : ℕ)
    → (get (set so name n) name ≡ some n)
      × ((other : Bytes) → name ≢ other → get (set so name n) other ≡ get so other)
unfolding set
get-set [] name n = (
  get_here _ [] name refl,
  λ other ne. get_there (record { stream = name; offset = n }) [] other ne,
)
get-set (kv ∷ so) name n = elim (Bool-cases (bytes_eq kv.stream name)) [
  | inl e ↦
      let same = (bytes_eq_iff kv.stream name).0 e in
      rw (if_true _ _ e) (
        get_here (record kv { offset = n }) so name same,
        λ other ne.
            let differs : kv.stream ≢ other = λ h. ne (sym same ∙ h) in
            get_there (record kv { offset = n }) so other differs
            ∙ sym (get_there kv so other differs),
      )
  | inr e ↦
      let differs : kv.stream ≢ name = λ h. ground (arith, (bytes_eq_iff kv.stream name).1 h) in
      let (here, there) = get-set so name n in
      rw (if_false _ _ e) (
        get_there kv (set so name n) name differs ∙ here,
        λ other ne. get_behind kv (set so name n) so other (there other ne),
      )
]
