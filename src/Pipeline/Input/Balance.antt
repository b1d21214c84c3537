-- ===== src/Pipeline/Input/Balance.antt =====
-- What `In` of pipeline/pipeline.go leaves behind: no event is lost on any of its ways out.
use file_d.Base.{
  ℕ, suc, ◌≡◌, refl, sym, subst, ap, ap₂, ◌%◌, ◌∙◌, ◌⊎◌, inl, inr, true, false, ◌||◌, Option, none,
  some, List, [], ◌∷◌, length, length-append, if◌then◌else◌, arith, Bool-cases, List-cases, if_true,
  if_false, ok, ◌>>=◌, >>=-eq-ok, map-eq-ok, ok-injective,
}
use file_d.Decoder.Cri.{CriRow, decode_cri}
use file_d.Pipeline.Antispam.{Antispammer}
use file_d.Pipeline.Event.{Event, in_pool}
use file_d.Pipeline.Streamer.{put_event}
use file_d.Pipeline.Input.{
  DecoderType, cri, Settings, Pipeline, Line, Outside, event_seq_id_error, is_mud, is_long,
  choose_decoder, row_of, read_row, reset, back, cri_fields, check_spam, decode_root, stream_id,
  named, put, stream_event, filled, finish, take_event, after_row, input,
}

module _ (outside : Outside) (s : Settings) where
  abbrev pub decoder_of : DecoderType
  decoder_of = choose_decoder s s.decoder

  -- The line is neither empty nor too long, its row is read, and the antispam, which is then `a`, lets
  -- it through.
  abbrev pub IsAccepted : Pipeline → Line → CriRow → Antispammer → Type 0
  IsAccepted p line row a =
      ((is_mud line.bytes || is_long s line.bytes) ≡ false)
      × (read_row s decoder_of line.bytes ≡ ok (some row))
      × (check_spam outside p.antispam line row ≡ ok (a, false))

  -- The event with the line's data, and the stream name that its document gives if streams are used.
  abbrev pub event_of : Line → Event → ℕ → Event
  event_of line e root =
      let ready = filled outside line (reset e) root in
      if s.disable_streams then ready else named outside s ready root

  -- The source, or the processor that the number of the event falls to.
  abbrev pub stream_of : Line → Event → ℕ
  stream_of line e = if s.use_spread then e.seq_id % s.proc_count else line.source_id

  -- Why a line is refused.
  abbrev pub IsRefusable : Pipeline → Line → Type 0
  IsRefusable p line =
      ((is_mud line.bytes || is_long s line.bytes) ≡ true)
      ⊎ (read_row s decoder_of line.bytes ≡ ok none)
      ⊎ ((row : CriRow) × (a : Antispammer) × (read_row s decoder_of line.bytes ≡ ok (some row))
          × (check_spam outside p.antispam line row ≡ ok (a, true)))
      ⊎ ((row : CriRow) × (a : Antispammer) × IsAccepted p line row a
          × (decode_root outside s decoder_of row line.bytes ≡ ok none))
      ⊎ ((row : CriRow) × (a : Antispammer) × (e : Event) × (root : ℕ) × IsAccepted p line row a
          × (decode_root outside s decoder_of row line.bytes ≡ ok (some root))
          × (s.disable_streams ≡ false)
          × (outside.pass_event (event_of line e root) ≡ false))

  -- The streams are as before, and as many events are free.
  abbrev pub Refused : Pipeline → Line → Pipeline → ℕ → Type 0
  Refused p line q seq =
      IsRefusable p line
      × (q.streamer ≡ p.streamer)
      × (length q.event_pool ≡ length p.event_pool)
      × (seq ≡ event_seq_id_error)

  -- The first free event has got the line's data and stands in a stream.
  abbrev pub Streamed : Pipeline → Line → Pipeline → ℕ → Type 0
  Streamed p line q seq =
      (row : CriRow) × (a : Antispammer) × (e : Event) × (root : ℕ) × IsAccepted p line row a
      × (decode_root outside s decoder_of row line.bytes ≡ ok (some root))
      × (p.event_pool ≡ e ∷ q.event_pool)
      × ((s.disable_streams ≡ true) ⊎ (outside.pass_event (event_of line e root) ≡ true))
      × (put_event p.streamer (stream_of line e) (event_of line e root).stream_name
            (event_of line e root)
          ≡ (q.streamer, seq))

  abbrev Ends : Pipeline → Line → Pipeline × ℕ → Type 0
  Ends p line r = Refused p line r.0 r.1 ⊎ Streamed p line r.0 r.1

  -- The event goes back behind the free ones.
  back-Ends :
      (p : Pipeline) (line : Line) (a : Antispammer) (e x : Event) (free : List Event)
      → IsRefusable p line
      → p.event_pool ≡ e ∷ free
      → Ends p line (back (record p { antispam = a; event_pool = free }) x, event_seq_id_error)
  unfolding back
  back-Ends p line a e x free why pool =
      let size : length p.event_pool ≡ suc (length free) = ap length pool in
      inl (why, refl, ground (arith, length-append free (record x { stage = in_pool } ∷ [])), refl)

  put-Ends :
      (p : Pipeline) (line : Line) (row : CriRow) (a : Antispammer) (e ev : Event)
      (free : List Event) (root : ℕ)
      → IsAccepted p line row a
      → decode_root outside s decoder_of row line.bytes ≡ ok (some root)
      → p.event_pool ≡ e ∷ free
      → event_of line e root ≡ ev
      → stream_id s ev ≡ stream_of line e
      → (s.disable_streams ≡ true) ⊎ (outside.pass_event ev ≡ true)
      → Ends p line (put outside s (record p { antispam = a; event_pool = free }) ev)
  unfolding put
  put-Ends p line row a e ev free root accepted decoded pool same stream passed =
      let sent : put_event p.streamer (stream_of line e) (event_of line e root).stream_name
            (event_of line e root)
          ≡ put_event p.streamer (stream_id s ev) ev.stream_name ev =
        ap₂ (λ (k : ℕ) (x : Event). put_event p.streamer k x.stream_name x) (sym stream) same in
      let by_input : (s.disable_streams ≡ true)
          ⊎ (outside.pass_event (event_of line e root) ≡ true) =
        subst (λ x. (s.disable_streams ≡ true) ⊎ (outside.pass_event x ≡ true)) (sym same) passed in
      inr (row, a, e, root, accepted, decoded, pool, by_input, sent)

  stream_event-Ends :
      (p : Pipeline) (line : Line) (row : CriRow) (a : Antispammer) (e : Event) (free : List Event)
      (root : ℕ)
      → IsAccepted p line row a
      → decode_root outside s decoder_of row line.bytes ≡ ok (some root)
      → p.event_pool ≡ e ∷ free
      → Ends p line (
          stream_event outside s
            (record p { antispam = a; event_pool = free })
            (filled outside line (reset e) root)
            root)
  unfolding stream_event reset
  stream_event-Ends p line row a e free root accepted decoded pool =
      let ready : Event = filled outside line (reset e) root in
      let renamed : Event = named outside s ready root in
      elim (Bool-cases s.disable_streams) [
        | inl b ↦ subst (Ends p line) (sym (if_true _ _ b)) (
            put-Ends p line row a e ready free root accepted decoded pool (if_true _ _ b) refl
              (inl b))
        | inr b ↦
            let same : event_of line e root ≡ renamed = if_false _ _ b in
            subst (Ends p line) (sym (if_false _ _ b))
              (elim (Bool-cases (outside.pass_event renamed)) [
                | inl c ↦ subst (Ends p line) (sym (if_true _ _ c)) (
                    put-Ends p line row a e renamed free root accepted decoded pool same refl
                      (inr c))
                | inr c ↦
                    let refused : outside.pass_event (event_of line e root) ≡ false =
                      subst (λ x. outside.pass_event x ≡ false) (sym same) c in
                    subst (Ends p line) (sym (if_false _ _ c)) (
                      back-Ends p line a e renamed free
                        (inr (inr (inr (inr (row, a, e, root, accepted, decoded, b, refused)))))
                        pool)
              ])
      ]

  finish-Ends :
      (p : Pipeline) (line : Line) (row : CriRow) (a : Antispammer) (e : Event) (free : List Event)
      (root : Option ℕ)
      → IsAccepted p line row a
      → decode_root outside s decoder_of row line.bytes ≡ ok root
      → p.event_pool ≡ e ∷ free
      → Ends p line
          (finish outside s (record p { antispam = a; event_pool = free }) line (reset e) root)
  unfolding finish
  finish-Ends p line row a e free none accepted decoded pool =
      back-Ends p line a e (reset e) free (inr (inr (inr (inl (row, a, accepted, decoded))))) pool
  finish-Ends p line row a e free (some root) accepted decoded pool =
      stream_event-Ends p line row a e free root accepted decoded pool

  take_event-Ends :
      (p q : Pipeline) (line : Line) (row : CriRow) (a : Antispammer) (seq : ℕ)
      → IsAccepted p line row a
      → take_event outside s decoder_of row (record p { antispam = a }) line p.event_pool
        ≡ ok (q, seq)
      → Ends p line (q, seq)
  unfolding take_event
  take_event-Ends p q line row a seq accepted h = elim (List-cases p.event_pool) [
    | inl none_free ↦ ground arith
    | inr (e, free, some_free) ↦
        let (root, decoded, result) =
          map-eq-ok (decode_root outside s decoder_of row line.bytes) _ (
            sym
              (ap (take_event outside s decoder_of row (record p { antispam = a }) line) some_free)
            ∙ h) in
        subst (Ends p line) result (finish-Ends p line row a e free root accepted decoded some_free)
  ]

  after_row-Ends :
      (p q : Pipeline) (line : Line) (row : Option CriRow) (seq : ℕ)
      → (is_mud line.bytes || is_long s line.bytes) ≡ false
      → read_row s decoder_of line.bytes ≡ ok row
      → after_row outside s decoder_of p line row ≡ ok (q, seq)
      → Ends p line (q, seq)
  unfolding after_row
  after_row-Ends p q line none seq sized read h =
      subst (Ends p line) (ok-injective h) (inl (inr (inl read), refl, refl, refl))
  after_row-Ends p q line (some row) seq sized read h =
      let ((a, spam), checked, rest) = >>=-eq-ok (check_spam outside p.antispam line row) _ h in
      elim (Bool-cases spam) [
        | inl e ↦
            let banned : check_spam outside p.antispam line row ≡ ok (a, true) =
              checked ∙ ap (λ b. ok (a, b)) e in
            subst (Ends p line) (ok-injective (sym (if_true _ _ e) ∙ rest))
              (inl (inr (inr (inl (row, a, read, banned))), refl, refl, refl))
        | inr e ↦
            let passed : check_spam outside p.antispam line row ≡ ok (a, false) =
              checked ∙ ap (λ b. ok (a, b)) e in
            take_event-Ends p q line row a seq (sized, read, passed) (sym (if_false _ _ e) ∙ rest)
      ]

  -- A line that `In` takes without a panic or a Fatal is refused or streamed. It is refused for one of
  -- five reasons: it is empty, a newline alone or over the limit; its CRI row is broken; the antispam
  -- says that it is spam; the decoder finds no document in it; or, where streams are used, `PassEvent`
  -- refuses its event. Then the streams are as they were, the pool has as many free events, and the
  -- number returned is that of an error. Else it is streamed: the first free event leaves the pool, and,
  -- with the line's document, source, offset and size, and with the stream name that the document gives
  -- where streams are used, it is put into the stream of this name under the line's source, or, with
  -- `use_spread`, under the event's number modulo the processors; the number returned is the one it gets
  -- there. Without streams `PassEvent` is not asked.
  pub input-ends :
      (p q : Pipeline) (line : Line) (seq : ℕ)
      → input outside s p line ≡ ok (q, seq)
      → Refused p line q seq ⊎ Streamed p line q seq
  unfolding input
  input-ends p q line seq h = elim (Bool-cases (is_mud line.bytes || is_long s line.bytes)) [
    | inl e ↦
        subst (Ends p line) (ok-injective (sym (if_true _ _ e) ∙ h)) (inl (inl e, refl, refl, refl))
    | inr e ↦
        let (row, read, rest) =
          >>=-eq-ok (read_row s decoder_of line.bytes) _ (sym (if_false _ _ e) ∙ h) in
        after_row-Ends p q line row seq e read rest
  ]

  -- A part of a long line in the CRI format is not put to the antispam, whatever is banned: it gets the
  -- next free event, with the log, the time and the stream of the line, and only `PassEvent` can
  -- refuse it.
  pub input-partial :
      (p : Pipeline) (line : Line) (row : CriRow) (e : Event) (free : List Event)
      → choose_decoder s s.decoder ≡ cri
      → (is_mud line.bytes || is_long s line.bytes) ≡ false
      → decode_cri line.bytes ≡ ok row
      → row.is_partial ≡ true
      → p.event_pool ≡ e ∷ free
      → input outside s p line
        ≡ ok (
            finish outside s
              (record p { event_pool = free })
              line
              (reset e)
              (some (outside.build (cri_fields row))))
  unfolding input read_row row_of after_row check_spam take_event decode_root
  input-partial p line row e free is_cri accepted decoded partial some_free =
      if_false _ _ accepted
      ∙ ap (λ d. read_row s d line.bytes >>= λ r. after_row outside s d p line r) is_cri
      ∙ ap (λ r. row_of s r >>= λ r. after_row outside s cri p line r) decoded
      ∙ ap
          (λ c. c >>= λ (a, spam).
            if spam
            then ok (record p { antispam = a }, event_seq_id_error)
            else take_event outside s cri row (record p { antispam = a }) line p.event_pool)
          (if_true _ _ partial)
      ∙ ap (take_event outside s cri row p line) some_free
