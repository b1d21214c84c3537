-- ===== src/HttpInput/Bulk.antt =====
-- That plugin/input/http/http.go hands over the lines of a body, however it comes in chunks.
use file_d.Base.{
  ℕ, suc, ◌+◌, ◌-◌, ◌≡◌, refl, sym, subst, ap, ap₂, ◌∙◌, Bytes, index_byte, true, false, none, List,
  [], ◌∷◌, ◌++◌, not, append_assoc, append-nil, map, is_empty, length, take, drop, length-append,
  take_prefix, drop_prefix, All, ◌==◌, if◌then◌else◌, arith, Bool-cases, inl, inr, if_true,
  if_false,
}
use file_d.HttpInput.{
  Call, chunk, ends, fails, Scan, newline, piece, end_line, chunk_loop, end_chunk, process_chunk,
  end_bulk, process_bulk,
}

-- The lines of a body: each with its newline, and a last one without.
abbrev pub body : List Bytes → Bytes → Bytes
body [] last = last
body (l ∷ ls) last = l ++ newline ∷ body ls last

abbrev pub joined : List Bytes → Bytes
joined [] = []
joined (c ∷ cs) = c ++ joined cs

abbrev pub last_line : Bytes → List Bytes
last_line last = if is_empty last then [] else last ∷ []

abbrev pub texts : List Call → List Bytes
texts = map (λ (c : Call). c.bytes)

-- The bytes one by one: the lines that end, and what is left.
abbrev ended : Bytes → Bytes → List Bytes
ended buf [] = []
ended buf (b ∷ bs) =
    let more = buf ∷ ended [] bs in
    let longer = ended (buf ++ b ∷ []) bs in if b == newline then more else longer

abbrev left : Bytes → Bytes → Bytes
left buf [] = buf
left buf (b ∷ bs) = left (if b == newline then [] else buf ++ b ∷ []) bs

ended-append : (buf xs ys : Bytes) → ended buf (xs ++ ys) ≡ ended buf xs ++ ended (left buf xs) ys
ended-append buf [] ys = refl
ended-append buf (b ∷ bs) ys = elim (Bool-cases (b == newline)) [
  | inl e ↦ rw (e) (ap (◌∷◌ buf) (ended-append [] bs ys))
  | inr e ↦ rw (e) (ended-append (buf ++ b ∷ []) bs ys)
]

left-append : (buf xs ys : Bytes) → left buf (xs ++ ys) ≡ left (left buf xs) ys
left-append buf [] ys = refl
left-append buf (b ∷ bs) ys = left-append (if b == newline then [] else buf ++ b ∷ []) bs ys

-- A text with no newline.
plain_text :
    (buf l : Bytes) → index_byte l newline ≡ none → (ended buf l ≡ []) × (left buf l ≡ buf ++ l)
plain_text buf [] h = (refl, sym (append-nil buf))
plain_text buf (b ∷ bs) h =
    ground (arith, plain_text (buf ++ b ∷ []) bs, append_assoc buf (b ∷ []) bs)

lines_of_body :
    (ls : List Bytes) (last : Bytes)
    → All (λ l. index_byte l newline ≡ none) ls
    → index_byte last newline ≡ none
    → (ended [] (body ls last) ≡ ls) × (left [] (body ls last) ≡ last)
lines_of_body [] last of_ls of_last = plain_text [] last of_last
lines_of_body (l ∷ ls) last (of_l, of_ls) of_last =
    let (e, f) = lines_of_body ls last of_ls of_last in
    let (g, h) = plain_text [] l of_l in
    (
      ended-append [] l (newline ∷ body ls last) ∙ rw (g, h, e) refl,
      left-append [] l (newline ∷ body ls last) ∙ f,
    )

texts-append : (xs ys : List Call) → texts (xs ++ ys) ≡ texts xs ++ texts ys
texts-append [] ys = refl
texts-append (x ∷ xs) ys = ap (◌∷◌ x.bytes) (texts-append xs ys)

piece_lem :
    (source_id : ℕ) (before p rest : Bytes) (s : Scan)
    → s.nl_pos ≡ length before
    → s.pos ≡ length before + length p
    → piece source_id (before ++ (p ++ rest)) s ≡ p
piece_lem source_id before p rest s e f =
    let size : s.pos - s.nl_pos ≡ length p = omega arith in
    ap₂ take size (ap (λ n. drop n (before ++ (p ++ rest))) e ∙ drop_prefix before (p ++ rest))
    ∙ take_prefix p rest

line_of : (buff p : Bytes) → (if not (is_empty buff) then buff ++ p else p) ≡ buff ++ p
line_of [] p = refl
line_of (b ∷ bs) p = refl

end_line_bytes :
    (source_id : ℕ) (read_buff : Bytes) (s : Scan)
    → texts (end_line source_id read_buff s).calls
      ≡ texts s.calls ++ (s.event_buff ++ piece source_id read_buff s) ∷ []
unfolding end_line
end_line_bytes source_id read_buff s =
    texts-append s.calls _
    ∙ ap (λ l. texts s.calls ++ l ∷ []) (line_of s.event_buff (piece source_id read_buff s))

loop_newline :
    (source_id : ℕ) (read_buff : Bytes) (b : ℕ) (bs : Bytes) (s : Scan)
    → (b == newline) ≡ true
    → chunk_loop source_id read_buff (b ∷ bs) s
      ≡ chunk_loop source_id read_buff bs (end_line source_id read_buff s)
unfolding chunk_loop
loop_newline source_id read_buff b bs s h = ap (chunk_loop source_id read_buff bs) (if_true _ _ h)

loop_other :
    (source_id : ℕ) (read_buff : Bytes) (b : ℕ) (bs : Bytes) (s : Scan)
    → (b == newline) ≡ false
    → chunk_loop source_id read_buff (b ∷ bs) s
      ≡ chunk_loop source_id read_buff bs (record s { pos = suc s.pos })
unfolding chunk_loop
loop_other source_id read_buff b bs s h = ap (chunk_loop source_id read_buff bs) (if_false _ _ h)

-- What a scan has given and what it has left of its chunk.
abbrev Gives : Bytes → Scan → List Bytes → Bytes → Type 0
Gives read_buff t given rest =
    (texts t.calls ≡ given) × (t.event_buff ++ drop t.nl_pos read_buff ≡ rest)

-- The loop, with the lines that ended before, a piece of a line, and what is to come.
scan_lem :
    (source_id : ℕ) (read_buff before p rest : Bytes) (s : Scan)
    → read_buff ≡ before ++ (p ++ rest)
    → s.nl_pos ≡ length before
    → s.pos ≡ length before + length p
    → Gives read_buff
        (chunk_loop source_id read_buff rest s)
        (texts s.calls ++ ended (s.event_buff ++ p) rest)
        (left (s.event_buff ++ p) rest)
unfolding chunk_loop end_line
scan_lem source_id read_buff before p [] s r e f = (
  sym (append-nil (texts s.calls)),
  ap (λ t. s.event_buff ++ t) (ap₂ drop e r ∙ drop_prefix before (p ++ []) ∙ append-nil p),
)
scan_lem source_id read_buff before p (b ∷ bs) s r e f = elim (Bool-cases (b == newline)) [
  | inl is_end ↦
      let closed : Scan = end_line source_id read_buff s in
      let before' : Bytes = before ++ (p ++ b ∷ []) in
      let text : before ++ (p ++ b ∷ bs) ≡ before' ++ bs =
        ap (λ t. before ++ t) (sym (append_assoc p (b ∷ []) bs))
        ∙ sym (append_assoc before (p ++ b ∷ []) bs) in
      let size : suc s.pos ≡ length before' =
        omega (arith, f, length-append before (p ++ b ∷ []), length-append p (b ∷ [])) in
      let (g, h) =
        scan_lem source_id read_buff before' [] bs closed (r ∙ text) size (omega (arith, size)) in
      let line : texts closed.calls ≡ texts s.calls ++ (s.event_buff ++ p) ∷ [] =
        end_line_bytes source_id read_buff s
        ∙ ap (λ l. texts s.calls ++ (s.event_buff ++ l) ∷ [])
            (ap (λ t. piece source_id t s) r ∙ piece_lem source_id before p (b ∷ bs) s e f) in
      rw (loop_newline source_id read_buff b bs s is_end, is_end)
        (
          g
              ∙ ap (λ t. t ++ ended [] bs) line
              ∙ append_assoc (texts s.calls) ((s.event_buff ++ p) ∷ []) (ended [] bs),
          h,
        )
  | inr is_not ↦
      let moved : Scan = record s { pos = suc s.pos } in
      let text : before ++ (p ++ b ∷ bs) ≡ before ++ ((p ++ b ∷ []) ++ bs) =
        ap (λ t. before ++ t) (sym (append_assoc p (b ∷ []) bs)) in
      let (g, h) =
        scan_lem source_id read_buff before (p ++ b ∷ []) bs moved (r ∙ text) e
          (omega (arith, f, length-append p (b ∷ []))) in
      let longer : s.event_buff ++ (p ++ b ∷ []) ≡ (s.event_buff ++ p) ++ b ∷ [] =
        sym (append_assoc s.event_buff p (b ∷ [])) in
      rw (loop_other source_id read_buff b bs s is_not, is_not, sym longer) (g, h)
]

-- A chunk that is not the last.
chunk_lem :
    (source_id : ℕ) (read_buff event_buff : Bytes)
    → let r = process_chunk source_id read_buff event_buff false in
      (texts r.0 ≡ ended event_buff read_buff) × (r.1 ≡ left event_buff read_buff)
unfolding process_chunk end_chunk
chunk_lem source_id read_buff event_buff =
    let s : Scan = record { pos = 0; nl_pos = 0; event_buff = event_buff; calls = [] } in
    subst
      (λ buff.
        let t = chunk_loop source_id read_buff read_buff s in
        (texts t.calls ≡ ended buff read_buff)
        × (t.event_buff ++ drop t.nl_pos read_buff ≡ left buff read_buff))
      (append-nil event_buff) (scan_lem source_id read_buff [] [] read_buff s refl refl refl)

end_bulk_lem :
    (source_id : ℕ) (event_buff : Bytes)
    → (texts (end_bulk source_id event_buff).0 ≡ last_line event_buff)
      × ((end_bulk source_id event_buff).1 ≡ false)
unfolding end_bulk process_chunk chunk_loop end_chunk
end_bulk_lem source_id [] = (refl, refl)
end_bulk_lem source_id (b ∷ bs) = (ap (λ t. t ∷ []) (append-nil (b ∷ bs)), refl)

bulk_ends :
    (source_id : ℕ) (event_buff : Bytes) (chunks : List Bytes)
    → let r = process_bulk source_id event_buff (map chunk chunks ++ ends ∷ []) in
      (texts r.0 ≡ ended event_buff (joined chunks) ++ last_line (left event_buff (joined chunks)))
      × (r.1 ≡ false)
unfolding process_bulk
bulk_ends source_id event_buff [] = end_bulk_lem source_id event_buff
bulk_ends source_id event_buff (c ∷ cs) =
    let (g, h) = chunk_lem source_id c event_buff in
    let (e, f) = bulk_ends source_id (process_chunk source_id c event_buff false).1 cs in
    (
      texts-append (process_chunk source_id c event_buff false).0 _
          ∙ ap₂ ◌++◌ g (e ∙ ap (λ t. ended t (joined cs) ++ last_line (left t (joined cs))) h)
          ∙ sym (append_assoc (ended event_buff c) (ended (left event_buff c) (joined cs)) _)
          ∙ ap₂ (λ t u. t ++ last_line u) (sym (ended-append event_buff c (joined cs)))
              (sym (left-append event_buff c (joined cs))),
      f,
    )

bulk_fails :
    (source_id : ℕ) (event_buff : Bytes) (chunks : List Bytes)
    → let r = process_bulk source_id event_buff (map chunk chunks ++ fails ∷ []) in
      (texts r.0 ≡ ended event_buff (joined chunks)) × (r.1 ≡ true)
unfolding process_bulk
bulk_fails source_id event_buff [] = (refl, refl)
bulk_fails source_id event_buff (c ∷ cs) =
    let (g, h) = chunk_lem source_id c event_buff in
    let (e, f) = bulk_fails source_id (process_chunk source_id c event_buff false).1 cs in
    (
      texts-append (process_chunk source_id c event_buff false).0 _
          ∙ ap₂ ◌++◌ g (e ∙ ap (λ t. ended t (joined cs)) h)
          ∙ sym (ended-append event_buff c (joined cs)),
      f,
    )

-- Lines without newlines in them are sent, each with a newline behind it, and then a last line without
-- one, in chunks of any sizes. If the end follows, the pipeline gets the lines in their order, and the
-- last one if it has a byte at least, and the request succeeds. If an error follows, it gets the lines
-- that had their newline, and the request fails.
pub process_bulk-body :
    (source_id : ℕ) (ls : List Bytes) (last : Bytes) (chunks : List Bytes)
    → All (λ l. index_byte l newline ≡ none) ls
    → index_byte last newline ≡ none
    → joined chunks ≡ body ls last
    → let whole = process_bulk source_id [] (map chunk chunks ++ ends ∷ []) in
      let broken = process_bulk source_id [] (map chunk chunks ++ fails ∷ []) in
      ((texts whole.0 ≡ ls ++ last_line last) × (whole.1 ≡ false))
      × ((texts broken.0 ≡ ls) × (broken.1 ≡ true))
process_bulk-body source_id ls last chunks of_ls of_last sent =
    let (some_lines, rest) = lines_of_body ls last of_ls of_last in
    let all_lines : ended [] (joined chunks) ≡ ls = ap (ended []) sent ∙ some_lines in
    let all_rest : left [] (joined chunks) ≡ last = ap (left []) sent ∙ rest in
    let (e, f) = bulk_ends source_id [] chunks in
    let (g, h) = bulk_fails source_id [] chunks in
    ((e ∙ ap₂ (λ t u. t ++ last_line u) all_lines all_rest, f), (g ∙ all_lines, h))
