-- ===== src/Pipeline/Streamer/Blocked.antt =====
-- The block list of pipeline/streamer.go: every stream in it knows its place, so that a stream leaves
-- it in one step.
use file_d.Base.{
  ℕ, zero, suc, ◌+◌, ◌≡◌, some, List, [], ◌∷◌, ◌++◌, arith, ok, length, get_elem?, set,
  get_elem?-snoc, get_elem?-set, ◌≢◌, inl, inr, count, get_elem?-lt, get_elem?-append_last,
  get_elem?-append_left, pop_last-Pops, count-append,
}
use file_d.Base.Int.{pos, negsuc}
use file_d.Pipeline.Stream.{Stream}
use file_d.Pipeline.Streamer.{
  Streamer, make_blocked, swap_remove, swapped, reset_index, reset_blocked,
}

-- Whatever stands at place `i` has the index `i`.
abbrev pub IsIndexed : (ℕ → Stream) → List ℕ → Type 0
IsIndexed cell l = (i p : ℕ) → get_elem? l i ≡ some p → (cell p).block_index ≡ pos i

pub make_blocked-IsIndexed :
    (st : Streamer) (p : ℕ)
    → IsIndexed st.cell st.blocked
    → ((i : ℕ) → get_elem? st.blocked i ≢ some p)
    → IsIndexed (make_blocked st p).cell (make_blocked st p).blocked
unfolding make_blocked
make_blocked-IsIndexed st p v new i q h = elim (get_elem?-snoc st.blocked p i q h) [
  | inl e ↦ ground (arith, v i q e, new i)
  | inr (e, f) ↦ ground arith
]

module _ (st : Streamer) (p index : ℕ) (rest : List ℕ) (last : ℕ) (v : IsIndexed st.cell st.blocked)
    (split : st.blocked ≡ rest ++ last ∷ []) (at_index : get_elem? st.blocked index ≡ some p) where
  index_at : (st.cell p).block_index ≡ pos index
  index_at = v index p at_index

  last_at : (st.cell last).block_index ≡ pos (length rest)
  last_at = v (length rest) last (rw split (get_elem?-append_last rest last))

  rest_at : (i q : ℕ) → get_elem? rest i ≡ some q → (st.cell q).block_index ≡ pos i
  rest_at i q h = v i q (rw split (get_elem?-append_left rest (last ∷ []) i q h))

  swapped-IsIndexed :
      IsIndexed (swapped st p index rest last).cell (swapped st p index rest last).blocked
  unfolding swapped
  swapped-IsIndexed i q h = elim (get_elem?-set rest index last i q h) [
    | inl (e, f, l) ↦ ground (arith, index_at, last_at)
    | inr (e, f) ↦ ground (arith, index_at, last_at, rest_at i q f, get_elem?-lt rest i q f)
  ]

count-set :
    (q p i last : ℕ) (rest : List ℕ)
    → get_elem? (rest ++ last ∷ []) i ≡ some p
    → count q (set rest i last) + count q (p ∷ []) ≡ count q (rest ++ last ∷ [])
count-set q p zero last [] h = ground arith
count-set q p (suc i) last [] h = cc
count-set q p zero last (x ∷ xs) h = ground (arith, count-append q xs (last ∷ []))
count-set q p (suc i) last (x ∷ xs) h = ground (arith, count-set q p i last xs h)

-- On a list whose entries know their places, `resetBlocked` takes out the stream that it is called
-- for, and the others still know theirs.
pub reset_blocked-IsIndexed :
    (st : Streamer) (p index : ℕ)
    → IsIndexed st.cell st.blocked
    → get_elem? st.blocked index ≡ some p
    → (st' : Streamer) × (reset_blocked st p ≡ ok st')
      × IsIndexed st'.cell st'.blocked
      × ((st'.cell p).block_index ≡ negsuc 0)
      × ((q : ℕ) → count q st'.blocked + count q (p ∷ []) ≡ count q st.blocked)
unfolding reset_blocked reset_index swap_remove swapped
reset_blocked-IsIndexed st p index v at_index = elim (pop_last-Pops st.blocked) [
  | inl (e, _) ↦ absurd (let h = rw e at at_index in cc)
  | inr (rest, last, split, popped) ↦ (
    swapped st p index rest last,
    ground (
      arith,
      index_at st p index rest last v split at_index,
      get_elem?-lt st.blocked index p at_index,
    ),
    swapped-IsIndexed st p index rest last v split at_index,
    ground arith,
    λ q. rw split (count-set q p index last rest (rw split at at_index)),
  )
]
