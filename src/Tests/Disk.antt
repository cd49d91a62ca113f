-- ===== src/Tests/Disk.antt =====
-- The secrets file on a disk of two files.
use vejas.Base.{String, ◌≡◌, refl, some, if◌then◌else◌, str_eq}
use vejas.Exec.{ok, err}
use vejas.Vjs.Value.{Map, string, object, no_entries, entry}
use vejas.Vjs.Text.{trim, trim_start, trim_end, is_whitespace}
use vejas.SecretFile.{
  Disk, ReadFile, contents, not_found, moved, not_set, load, get_secret, set_secret,
}
use vejas.SecretFile.SetGet.{DiskLaws, Renders, set_secret-get_secret}
use vejas.Tests.Toy.{toy, insert_entry}

record Files : Type 0 where
  path : ReadFile
  tmp : String

abbrev secrets : Map toy
secrets = entry "a/b" (string "v1") no_entries

abbrev disk : Disk toy Files
disk = record {
  read_to_string = λ f. f.path;
  write_tmp = λ text f. (ok tt, record f { tmp = text });
  rename = λ f. (moved, record f { path = contents (f.tmp) });
  remove_tmp = λ f. record f { tmp = "" };
  write_path = λ text f. (ok tt, record f { path = contents text });
  from_str = λ s. some (object secrets);
  to_string_pretty = λ v. ok "secrets";
}

disk-DiskLaws : DiskLaws disk
disk-DiskLaws = record { read-rename = λ text f w mv. refl; read-write_path = λ text f w. refl }

secrets-Renders : Renders disk (toy.insert "a/b" (string "v1") no_entries) "secrets"
unfolding insert_entry trim trim_start trim_end is_whitespace
secrets-Renders = record { pretty = refl; again = refl; not_blank = refl }

abbrev fresh : Files
fresh = record { path = not_found; tmp = "" }

set_secret-get_secret_example :
    (get_secret disk "a/b" ((set_secret disk "a/b" "v1" fresh).1)
      ≡ (if str_eq "v1" "" then err (not_set "a/b") else ok "v1"))
    × (get_secret disk "c/d" ((set_secret disk "a/b" "v1" fresh).1) ≡ get_secret disk "c/d" fresh)
unfolding load set_secret
set_secret-get_secret_example =
    set_secret-get_secret disk "a/b" "v1" "c/d" fresh no_entries "secrets" disk-DiskLaws refl refl
      secrets-Renders refl
