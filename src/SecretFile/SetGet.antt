-- ===== src/SecretFile/SetGet.antt =====
-- What a secret that is set reads as (core/src/secrets.rs, `FileStore::set`, `FileStore::get`).
use vejas.Base.{
  String, ◌≡◌, refl, sym, ap, ◌∙◌, true, false, some, str_eq, eq_iff, arith, if◌then◌else◌,
}
use vejas.Exec.{Result, ok, err}
use vejas.Vjs.Value.{Platform, Map, string, object, no_entries, get}
use vejas.Vjs.Text.{trim}
use vejas.SecretFile.{
  Disk, as_io, object_of, contents, Renamed, moved, busy, refused, FileError, io_error, not_set,
  loaded, load, value_of, found, get_secret, replaced, renamed, rendered, stored, set_secret,
}

-- What the file system and serde_json are documented to do: a file reads as what was last written
-- or moved to it, and an object that was rendered is read again, from a text that is not blank.
pub record DiskLaws {P : Platform} {F : Type 0} (disk : Disk P F) : Type 0 where
  pub read-rename :
      (text : String) (f : F)
      → (disk.write_tmp text f).0 ≡ ok tt
      → (disk.rename ((disk.write_tmp text f).1)).0 ≡ moved
      → disk.read_to_string ((disk.rename ((disk.write_tmp text f).1)).1) ≡ contents text
  pub read-write_path :
      (text : String) (f : F)
      → (disk.write_path text f).0 ≡ ok tt
      → disk.read_to_string ((disk.write_path text f).1) ≡ contents text

-- serde_json renders the object, and reads it again from a text that is not blank.
pub record Renders {P : Platform} {F : Type 0} (disk : Disk P F) (m : Map P) (text : String)
    : Type 0 where
  pub pretty : disk.to_string_pretty (object m) ≡ ok text
  pub again : disk.from_str text ≡ some (object m)
  pub not_blank : str_eq (trim text) "" ≡ false

str_eq-same : (s : String) → str_eq s s ≡ true
str_eq-same s = ground (arith, eq_iff s s)

not_ok : (x : FileError) → ◌≡◌ {A = Result FileError (Unit {0})} (err x) (ok tt) → ⊥
not_ok x e = ground (arith, e)

module _ {P : Platform} {F : Type 0} (disk : Disk P F) where
  as_io-ok : (r : Result String (Unit {0})) → as_io disk r ≡ ok tt → r ≡ ok tt
  as_io-ok (ok u) e = refl
  as_io-ok (err x) e = elim (not_ok (io_error x) e) [ ]

  load-contents :
      (f : F) (m : Map P) (text : String)
      → Renders disk m text
      → disk.read_to_string f ≡ contents text
      → load disk f ≡ ok m
  unfolding load
  load-contents f m text renders e =
      ap (λ r. loaded disk r) e
      ∙ ap (λ b. if b then ok no_entries else object_of disk (disk.from_str text))
          (renders.not_blank)
      ∙ ap (λ o. object_of disk o) (renders.again)

  replaced-read :
      (text : String) (r : Renamed) (f : F)
      → DiskLaws disk
      → (r ≡ moved → disk.read_to_string f ≡ contents text)
      → (replaced disk text r f).0 ≡ ok tt
      → disk.read_to_string ((replaced disk text r f).1) ≡ contents text
  replaced-read text moved f laws h e = h refl
  replaced-read text busy f laws h e = laws.read-write_path text (disk.remove_tmp f) (as_io-ok _ e)
  replaced-read text (refused x) f laws h e = elim (not_ok (io_error x) e) [ ]

  renamed-read :
      (text : String) (r : Result String (Unit {0})) (f : F)
      → DiskLaws disk
      → (r ≡ ok tt
          → (disk.rename f).0 ≡ moved
          → disk.read_to_string ((disk.rename f).1) ≡ contents text)
      → (renamed disk text r f).0 ≡ ok tt
      → disk.read_to_string ((renamed disk text r f).1) ≡ contents text
  renamed-read text (ok u) f laws h e =
      replaced-read text ((disk.rename f).0) ((disk.rename f).1) laws (λ mv. h refl mv) e
  renamed-read text (err x) f laws h e = elim (not_ok (io_error x) e) [ ]

  set_secret-rendered :
      (reference value : String) (f : F) (m : Map P) (text : String)
      → load disk f ≡ ok m
      → Renders disk (P.insert reference (string value) m) text
      → set_secret disk reference value f ≡ rendered disk (ok text) f
  unfolding set_secret
  set_secret-rendered reference value f m text e renders =
      ap (λ r. stored disk reference value r f) e ∙ ap (λ r. rendered disk r f) (renders.pretty)

  load-set_secret :
      (reference value : String) (f : F) (m : Map P) (text : String)
      → DiskLaws disk
      → load disk f ≡ ok m
      → Renders disk (P.insert reference (string value) m) text
      → (set_secret disk reference value f).0 ≡ ok tt
      → load disk ((set_secret disk reference value f).1) ≡ ok (P.insert reference (string value) m)
  load-set_secret reference value f m text laws e renders done =
      let q = set_secret-rendered reference value f m text e renders in
      let f1 = (disk.write_tmp text f).1 in
      let r1 = (disk.write_tmp text f).0 in
      let done' = sym (ap (λ r. r.0) q) ∙ done in
      let read = renamed-read text r1 f1 laws (λ w mv. laws.read-rename text f w mv) done' in
      ap (λ r. load disk (r.1)) q ∙ load-contents _ _ text renders read

  -- On a file that loads, and an object that serde_json renders and reads again: when `set` of a
  -- secret succeeds, by renaming or in place, `get` answers with the value, or as for a secret that
  -- is not set if the value is empty, and another secret is as it was.
  pub set_secret-get_secret :
      (reference value other : String) (f : F) (m : Map P) (text : String)
      → DiskLaws disk
      → str_eq reference other ≡ false
      → load disk f ≡ ok m
      → Renders disk (P.insert reference (string value) m) text
      → (set_secret disk reference value f).0 ≡ ok tt
      → (get_secret disk reference ((set_secret disk reference value f).1)
          ≡ (if str_eq value "" then err (not_set reference) else ok value))
        × (get_secret disk other ((set_secret disk reference value f).1) ≡ get_secret disk other f)
  unfolding get_secret
  set_secret-get_secret reference value other f m text laws apart e renders done =
      let l = load-set_secret reference value f m text laws e renders done in
      let v = string value in
      (
        ap (λ r. found disk reference r) l
            ∙ ap (λ o. value_of disk reference o)
                (P.get-insert reference reference v m
                  ∙ ap (λ b. if b then some v else get reference m) (str_eq-same reference)),
        ap (λ r. found disk other r) l
            ∙ ap (λ o. value_of disk other o)
                (P.get-insert reference other v m
                  ∙ ap (λ b. if b then some v else get other m) apart)
            ∙ sym (ap (λ r. found disk other r) e),
      )
