-- ===== src/Examples/Lines.antt =====
-- Runs of `In` of pipeline/pipeline.go and of decoder/nginx.go.
use file_d.Base.{
  ℕ, ◌≡◌, ◌⊎◌, refl, Bytes, codes, true, false, Option, none, some, [], ◌∷◌, length, arith, ok,
}
use file_d.Decoder.Cri.{CriRow, decode_cri, field, cut_at, is_partial_tag, cut_log}
use file_d.Decoder.Nginx.{
  decode_nginx_error, space_split, row_of, row_at, nginx_line, decode_nginx_error-nginx_line,
}
use file_d.Pipeline.Antispam.{new_antispammer}
use file_d.Pipeline.Streamer.{new_streamer}
use file_d.Pipeline.Input.{
  Settings, Pipeline, Line, Outside, auto, cri, input, finish, reset, cri_fields, is_mud, is_long,
  choose_decoder,
}
use file_d.Pipeline.Input.Balance.{Refused, Streamed, input-ends, input-partial}
use file_d.Examples.Streams.{line}

nginx_row :
    decode_nginx_error (codes "2022/08/17 10:49:27 [error] 2725122#2725122: *7 timed out")
    ≡ ok (record {
      time = codes "2022/08/17 10:49:27";
      level = codes "error";
      message = codes "2725122#2725122: *7 timed out";
    })
unfolding decode_nginx_error space_split row_of row_at
nginx_row = refl

decode_nginx_error-nginx_line_example :
    decode_nginx_error
      (nginx_line (codes "2022/08/17") (codes "10:49:27") b'[' (codes "error") b']' (codes "a b"))
    ≡ ok (record {
      time = codes "2022/08/17 10:49:27";
      level = codes "error";
      message = codes "a b";
    })
decode_nginx_error-nginx_line_example =
    decode_nginx_error-nginx_line (codes "2022/08/17") (codes "10:49:27") (codes "error")
      (codes "a b") b'[' b']' refl refl refl (omega arith)

-- Texts that start with a brace are documents, and every event passes.
abbrev starts : Bytes → Option ℕ
starts [] = none
starts (c ∷ cs) = some c

abbrev outside : Outside
outside = record {
  lower = λ b. b;
  parse_json = starts;
  build = λ fs. length fs;
  dig = λ root name. some (codes "stdout");
  pass_event = λ e. true;
}

abbrev settings : Settings
settings = record {
  max_event_size = 100;
  is_strict = false;
  decoder = auto;
  suggested_decoder = cri;
  stream_field = codes "stream";
  use_spread = false;
  proc_count = 1;
  disable_streams = false;
}

abbrev pipe : Pipeline
pipe = record {
  antispam = new_antispammer 0 1 [];
  event_pool = line ∷ [];
  streamer = new_streamer 10;
}

abbrev part : Line
part = record {
  source_id = 7;
  source_name = codes "a.log";
  offset = 12;
  bytes = codes "t stdout P log\n";
  is_new_source = false;
}

abbrev part_row : CriRow
part_row = record {
  log = codes "log";
  time = codes "t";
  stream = codes "stdout";
  is_partial = true;
}

part_is_held :
    input outside settings pipe part
    ≡ ok (
        finish outside settings
          (record pipe { event_pool = [] })
          part
          (reset line)
          (some (outside.build (cri_fields part_row))))
unfolding is_mud is_long choose_decoder decode_cri field cut_at is_partial_tag cut_log
part_is_held = input-partial outside settings pipe part part_row line [] refl refl refl refl refl

-- What the pipeline is after it.
after_part : Pipeline × ℕ
after_part = finish outside settings (record pipe { event_pool = [] }) part (reset line) (some 3)

input-ends_example :
    Refused outside settings pipe part after_part.0 after_part.1
    ⊎ Streamed outside settings pipe part after_part.0 after_part.1
unfolding after_part
input-ends_example = input-ends outside settings pipe after_part.0 part after_part.1 part_is_held
