-- ===== src/Examples/Offsets.antt =====
-- Runs of plugin/input/file/offset.go and slicemap.go.
use file_d.Base.{◌≡◌, ◌≢◌, refl, [], ◌∷◌, codes, arith, ok, err, List}
use file_d.FileInput.Offsets.{
  Kv, SavedJob, Failure, get, out_of_fuel, parse, save, save_job, save_streams, has, digits,
}
use file_d.FileInput.Offsets.RoundTrip.{IsPlain, entries, parse-save}
use file_d.FileInput.Offsets.Fuel.{parse-ends}
use file_d.FileInput.Offsets.Broken.{parse-save-colon}

abbrev stdout : Kv
stdout = record { stream = codes "stdout"; offset = 1503 }

abbrev stderr : Kv
stderr = record { stream = codes "stderr"; offset = 0 }

stdout-IsPlain : IsPlain stdout
stdout-IsPlain = (ground arith, refl, refl, omega arith)

stderr-IsPlain : IsPlain stderr
stderr-IsPlain = (ground arith, refl, refl, omega arith)

abbrev saved_jobs : List SavedJob
saved_jobs =
    record {
      filename = codes "/var/log/a.log";
      inode = 12;
      source_id = 18446744073709551615;
      offsets = stdout ∷ stderr ∷ [];
    }
    ∷ record { filename = codes "b"; inode = 13; source_id = 5; offsets = [] }
    ∷ record { filename = codes "c"; inode = 14; source_id = 6; offsets = stderr ∷ [] }
    ∷ []

saved_text :
    save saved_jobs
    ≡ codes
        "- file: /var/log/a.log\n  inode: 12\n  source_id: 18446744073709551615\n  streams:\n    stdout: 1503\n    stderr: 0\n- file: c\n  inode: 14\n  source_id: 6\n  streams:\n    stderr: 0\n"
unfolding save digits save_job save_streams
saved_text = refl

parse-save_example : parse (save saved_jobs) ≡ ok (entries saved_jobs)
unfolding get has
parse-save_example =
    parse-save saved_jobs
      (
        (
          refl,
          omega arith,
          omega arith,
          (stdout-IsPlain, (stderr-IsPlain, tt)),
          (refl, (refl, tt)),
        ),
        (
          (refl, omega arith, omega arith, tt, tt),
          ((refl, omega arith, omega arith, (stderr-IsPlain, tt), (refl, tt)), tt),
        ),
      )
      (refl, (refl, tt))

parse-ends_example : parse (codes "- file: x") ≢ err out_of_fuel
parse-ends_example = parse-ends (codes "- file: x")

abbrev with_colon : Kv
with_colon = record { stream = codes "a:1"; offset = 7 }

abbrev colon_job : SavedJob
colon_job = record { filename = codes "f"; inode = 1; source_id = 2; offsets = with_colon ∷ [] }

colon_is_refused : (e : Failure) × (parse (save (colon_job ∷ saved_jobs)) ≡ err e)
colon_is_refused =
    parse-save-colon colon_job with_colon [] saved_jobs 1 refl refl refl refl (omega arith)
      (omega arith)
