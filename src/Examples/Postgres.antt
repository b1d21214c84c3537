-- ===== src/Examples/Postgres.antt =====
-- Runs of decoder/postgres.go.
use file_d.Base.{◌≡◌, refl, codes, ok}
use file_d.Decoder.Postgres.{
  Parts, IsParts, postgres_line, decode_postgres, decode_postgres-postgres_line,
}

abbrev parts : Parts
parts = record {
  date = codes "2021-06-22";
  clock = codes "16:24:27";
  zone = codes "GMT";
  brace = b'[';
  pid = codes "7291";
  gap = codes " => ";
  number = codes "2-1";
  client_key = codes " client";
  client = codes "test_client";
  db_key = codes "db";
  db = codes "test_db";
  user_key = codes "user";
  user = codes "test_user";
  level = codes "LOG:";
  blank = b' ';
  log = codes "listening on IPv4 address \"0.0.0.0\", port 5432";
}

written :
    postgres_line parts
    ≡ codes
        "2021-06-22 16:24:27 GMT [7291] => [2-1] client=test_client,db=test_db,user=test_user LOG:  listening on IPv4 address \"0.0.0.0\", port 5432"
written = refl

parts-IsParts : IsParts parts
parts-IsParts = record {
  date = refl;
  clock = refl;
  zone = refl;
  pid = refl;
  gap = refl;
  number = refl;
  client = (refl, refl);
  db = (refl, refl);
  user = (refl, refl);
  level = refl;
}

decode_postgres-postgres_line_example :
    decode_postgres (postgres_line parts)
    ≡ ok (record {
      time = codes "2021-06-22 16:24:27 GMT";
      pid = codes "7291";
      pid_message_number = codes "2-1";
      client = codes "test_client";
      db = codes "test_db";
      user = codes "test_user";
      log = codes "listening on IPv4 address \"0.0.0.0\", port 5432";
    })
decode_postgres-postgres_line_example = decode_postgres-postgres_line parts parts-IsParts
