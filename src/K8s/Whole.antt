-- ===== src/K8s/Whole.antt =====
-- That the multiline action of plugin/input/k8s gives a log as a whole or not at all.
use file_d.Base.{
  ℕ, ◌+◌, ◌-◌, ◌≤◌, ◌≡◌, ◌≢◌, ◌⊎◌, inl, inr, refl, sym, subst, ap, ap₂, ◌∙◌, Bytes, true, false,
  ◌||◌, Option, none, some, List, [], ◌∷◌, ◌++◌, map, append_assoc, length, take, drop,
  length-append, take_prefix, All, replicate, ltb, ◌==◌, arith, Bool-cases, if_true, if_false, ok,
}
use file_d.K8s.{
  Config, MultilineAction, Verdict, passes, collapses, discards, quote, fresh, is_end, inner,
  collapse, flush, end_skipped, join_part, do_regular, run, prediction_lookahead,
}

-- A part of a log as the document has it, with the size of its event.
pub record Part : Type 0 where
  pub text : Bytes
  pub size : ℕ

abbrev pub quoted : Bytes → Bytes
quoted text = quote ∷ text ++ quote ∷ []

abbrev pub event_of : Part → Bytes × ℕ
event_of part = (quoted part.text, part.size)

abbrev pub joined : List Part → Bytes
joined [] = []
joined (p ∷ ps) = p.text ++ joined ps

abbrev pub total_size : List Part → ℕ
total_size [] = 0
total_size (p ∷ ps) = p.size + total_size ps

inner-quoted : (text : Bytes) → inner (quoted text) ≡ text
inner-quoted text =
    let long : length (quoted text) - 1 ≡ length (quote ∷ text) =
      ground (arith, length-append text (quote ∷ [])) in
    ap (λ n. drop 1 (take n (quoted text))) long
    ∙ ap (drop 1) (take_prefix (quote ∷ text) (quote ∷ []))

-- The log that a part passes with.
abbrev pub log_of : Part → Option Bytes → Bytes
log_of part none = quoted part.text
log_of part (some log) = log

collapse-size :
    (config : Config) (p : MultilineAction) (f : Bytes)
    → (collapse config p f).event_size ≡ p.event_size
unfolding collapse
collapse-size config p f =
    elim (Bool-cases
      (config.max_event_size == 0 || ltb (length p.event_buf + length f) config.max_event_size)) [
        | inl e ↦ ap (λ (q : MultilineAction). q.event_size) (if_true _ _ e)
        | inr e ↦ ap (λ (q : MultilineAction). q.event_size) (if_false _ _ e)
      ]

module _ (config : Config) where
  -- What an action holds of the parts so far: their text, or nothing if they are skipped.
  abbrev Holding : MultilineAction → Bytes → Type 0
  Holding p text =
      (buf : Bytes) × (p.event_buf ≡ quote ∷ buf)
      × (((p.skip_next_event ≡ true) × (config.max_event_size ≢ 0))
          ⊎ ((p.skip_next_event ≡ false) × (buf ≡ text)))

  collapse-Holding :
      (p : MultilineAction) (text before : Bytes)
      → Holding p before
      → Holding (collapse config p (quoted text)) (before ++ text)
  unfolding collapse
  collapse-Holding p text before (buf, e, held) =
      let test =
        config.max_event_size == 0
        || ltb (length p.event_buf + length (quoted text)) config.max_event_size in
      elim (Bool-cases test) [
        | inl fits ↦
            subst (λ q. Holding q (before ++ text)) (sym (if_true _ _ fits))
              (
                buf ++ text,
                ap₂ ◌++◌ e (inner-quoted text),
                elim held [
                  | inl skips ↦ inl skips
                  | inr (takes, same) ↦ inr (takes, ap (λ b. b ++ text) same)
                ],
              )
        | inr over ↦
            let limited : config.max_event_size ≢ 0 = ground arith in
            subst (λ q. Holding q (before ++ text)) (sym (if_false _ _ over))
              (buf, e, inl (refl, limited))
      ]

  -- A part in the middle of a log that is not too long.
  middle_collapses :
      (p : MultilineAction) (part : Part) (before : Bytes)
      → config.only_node ≡ false
      → is_end (quoted part.text) ≡ ok false
      → p.event_size + part.size + prediction_lookahead ≤ config.split_event_size
      → Holding p before
      → (q : MultilineAction) × (do_regular config p (quoted part.text) part.size
          ≡ ok (q, collapses))
        × (q.event_size ≡ p.event_size + part.size)
        × Holding q (before ++ part.text)
  unfolding do_regular join_part
  middle_collapses p part before whole middle short held =
      let seen : MultilineAction = record p { event_size = p.event_size + part.size } in
      let fits : ltb config.split_event_size (p.event_size + part.size + prediction_lookahead)
          ≡ false =
        ground arith in
      (
        collapse config seen (quoted part.text),
        if_false _ _ whole ∙ rw (middle, fits) refl,
        collapse-size config seen (quoted part.text),
        collapse-Holding seen part.text before held,
      )

  -- How the last part ends a log: it is whole, or, if there is a limit, it is dropped.
  abbrev pub Answers : Part → Bytes → Verdict → Type 0
  Answers part text v =
      ((o : Option Bytes) × (v ≡ passes o) × (log_of part o ≡ quoted text))
      ⊎ ((v ≡ discards) × (config.max_event_size ≢ 0))

  answer_of_last :
      (p : MultilineAction) (part : Part) (before : Bytes)
      → config.only_node ≡ false
      → is_end (quoted part.text) ≡ ok true
      → Holding p before
      → (v : Verdict) × (do_regular config p (quoted part.text) part.size ≡ ok (fresh, v))
        × Answers part (before ++ part.text) v
  unfolding do_regular join_part flush end_skipped
  answer_of_last p part before whole ends (buf, e, inl (skips, limited)) =
      (discards, if_false _ _ whole ∙ rw (ends, skips, e) refl, inr (refl, limited))
  answer_of_last p part before whole ends ([], e, inr (takes, same)) = (
    passes none,
    if_false _ _ whole ∙ rw (ends, takes, e) refl,
    inl (none, refl, ap (λ b. quoted (b ++ part.text)) same),
  )
  answer_of_last p part before whole ends (b ∷ bs, e, inr (takes, same)) =
      let buf : Bytes = quote ∷ b ∷ bs in
      let long : ltb 1 (length buf) ≡ true = ground arith in
      let log : Bytes = buf ++ (inner (quoted part.text) ++ quote ∷ []) in
      let whole_log : log ≡ quoted (before ++ part.text) =
        ap (λ t. buf ++ (t ++ quote ∷ [])) (inner-quoted part.text)
        ∙ ap (◌∷◌ quote) (sym (append_assoc (b ∷ bs) part.text (quote ∷ [])))
        ∙ ap (λ t. quoted (t ++ part.text)) same in
      (
        passes (some log),
        if_false _ _ whole ∙ rw (ends, takes, e, long) refl,
        inl (some log, refl, whole_log),
      )

  abbrev pub IsMiddle : Part → Type 0
  IsMiddle part = is_end (quoted part.text) ≡ ok false

  run_from :
      (p : MultilineAction) (parts : List Part) (last : Part) (before : Bytes)
      → config.only_node ≡ false
      → All IsMiddle parts
      → is_end (quoted last.text) ≡ ok true
      → p.event_size + total_size parts + prediction_lookahead ≤ config.split_event_size
      → Holding p before
      → (v : Verdict) × (run config p (map event_of parts ++ event_of last ∷ [])
          ≡ ok (fresh, replicate (length parts) collapses ++ v ∷ []))
        × Answers last (before ++ (joined parts ++ last.text)) v
  unfolding run
  run_from p [] last before whole middles ends short held =
      let (v, e, a) = answer_of_last p last before whole ends held in (v, rw e refl, a)
  run_from p (part ∷ parts) last before whole (middle, middles) ends short held =
      let (q, e, size, held') = middle_collapses p part before whole middle (omega arith) held in
      let (v, e', a) =
        run_from q parts last (before ++ part.text) whole middles ends (omega arith) held' in
      (
        v,
        rw (e, e') refl,
        subst (λ t. Answers last t v)
            (append_assoc before part.text (joined parts ++ last.text)
              ∙ ap (λ t. before ++ t) (sym (append_assoc part.text (joined parts) last.text)))
            a,
      )

  -- A log that comes in parts, the last of which alone ends a line, and that is short enough not to be
  -- split, comes out as a whole: every part but the last collapses, and the last one passes with the
  -- texts of all parts, in their order and in one pair of quotes; or the log is dropped as a whole, which
  -- happens only if there is a limit on the size of events. After it the action is as it was at its start.
  pub run_joins :
      (parts : List Part) (last : Part)
      → config.only_node ≡ false
      → All IsMiddle parts
      → is_end (quoted last.text) ≡ ok true
      → total_size parts + prediction_lookahead ≤ config.split_event_size
      → (v : Verdict) × (run config fresh (map event_of parts ++ event_of last ∷ [])
          ≡ ok (fresh, replicate (length parts) collapses ++ v ∷ []))
        × Answers last (joined parts ++ last.text) v
  run_joins parts last whole middles ends short =
      run_from fresh parts last [] whole middles ends (omega arith) ([], refl, inr (refl, refl))
