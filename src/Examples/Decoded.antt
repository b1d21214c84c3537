-- ===== src/Examples/Decoded.antt =====
-- Runs of decoder/cri.go.
use file_d.Base.{ℕ, ◌≡◌, ◌≢◌, refl, Bytes, false, true, [], ◌∷◌, ◌++◌, codes, ok}
use file_d.Decoder.Cri.{
  CriRow, cri_line, decode_cri, field, cut_at, is_partial_tag, cut_log, decode_cri-cri_line,
}

abbrev time : Bytes
time = codes "2016-10-06T00:17:09.669794202Z"

abbrev row : CriRow
row = record { log = codes "log content"; time = time; stream = codes "stdout"; is_partial = true }

decoded : decode_cri (cri_line time (codes "stdout") (codes "P") (codes "log content\n")) ≡ ok row
unfolding decode_cri field cut_at is_partial_tag cut_log
decoded = refl

-- The tag of a whole log, `F`.
abbrev full_tag : ℕ
full_tag = b'F'

decode_cri-cri_line_example :
    (full_tag ≢ b'P'
      → decode_cri (cri_line time (codes "stderr") (full_tag ∷ []) (codes "log"))
        ≡ ok (record {
          log = codes "log";
          time = time;
          stream = codes "stderr";
          is_partial = false;
        }))
    × (full_tag ≡ b'P'
        → decode_cri (cri_line time (codes "stderr") (full_tag ∷ []) (codes "log" ++ 10 ∷ []))
          ≡ ok (record {
            log = codes "log";
            time = time;
            stream = codes "stderr";
            is_partial = true;
          }))
decode_cri-cri_line_example =
    decode_cri-cri_line time (codes "stderr") [] (codes "log") full_tag 10 refl refl refl
