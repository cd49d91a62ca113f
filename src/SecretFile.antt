-- ===== src/SecretFile.antt =====
-- The writable secrets file (core/src/secrets.rs, `FileStore`): a JSON object from references to
-- values, replaced as a whole.
pub mod SetGet
use vejas.Base.{String, ◌≡◌, Bool, Option, none, some, str_eq, if◌then◌else◌}
use vejas.Exec.{Result, ok, err}
use vejas.Vjs.Value.{Value, Platform, Json, Map, string, object, no_entries, get, as_str}
use vejas.Vjs.Text.{trim}

pub data ReadFile : Type 0 where
  contents : String → ReadFile
  not_found : ReadFile
  unreadable : String → ReadFile

-- `std::fs::rename`; `busy` is EBUSY.
pub data Renamed : Type 0 where
  moved : Renamed
  busy : Renamed
  refused : String → Renamed

-- The two files in the file system's state, and serde_json's reader and writer. To write is to
-- open, truncated and private, and to write all.
pub record Disk (P : Platform) (F : Type 0) : Type 0 where
  pub read_to_string : F → ReadFile
  pub write_tmp : String → F → Result String (Unit {0}) × F
  pub rename : F → Renamed × F
  pub remove_tmp : F → F
  pub write_path : String → F → Result String (Unit {0}) × F
  pub from_str : String → Option (Json P)
  pub to_string_pretty : Json P → Result String String

pub data FileError : Type 0 where
  not_an_object : FileError
  io_error : String → FileError
  not_set : String → FileError

module _ {P : Platform} {F : Type 0} (disk : Disk P F) where
  -- `.and_then(|v| v.as_object().cloned())`
  abbrev pub object_of : Option (Json P) → Result FileError (Map P)
  object_of (some (object m)) = ok m
  object_of _ = err not_an_object

  abbrev pub loaded : ReadFile → Result FileError (Map P)
  loaded (contents s) = if str_eq (trim s) "" then ok no_entries else object_of (disk.from_str s)
  loaded not_found = ok no_entries
  loaded (unreadable e) = err (io_error e)

  unfoldable pub load : F → Result FileError (Map P)
  load f = loaded (disk.read_to_string f)

  -- `.and_then(as_str).filter(not empty).ok_or(…)`
  abbrev pub value_of : String → Option (Json P) → Result FileError String
  value_of reference (some (string s)) = if str_eq s "" then err (not_set reference) else ok s
  value_of reference _ = err (not_set reference)

  abbrev pub found : String → Result FileError (Map P) → Result FileError String
  found reference (ok m) = value_of reference (get reference m)
  found reference (err e) = err e

  unfoldable pub get_secret : String → F → Result FileError String
  unfolding load
  get_secret reference f = found reference (load f)

  abbrev pub as_io : Result String (Unit {0}) → Result FileError (Unit {0})
  as_io (ok u) = ok tt
  as_io (err e) = err (io_error e)

  -- A file that cannot be renamed over is written in place.
  abbrev pub replaced : String → Renamed → F → Result FileError (Unit {0}) × F
  replaced text moved f = (ok tt, f)
  replaced text busy f = let (r, f') = disk.write_path text (disk.remove_tmp f) in (as_io r, f')
  replaced text (refused e) f = (err (io_error e), disk.remove_tmp f)

  abbrev pub renamed : String → Result String (Unit {0}) → F → Result FileError (Unit {0}) × F
  renamed text (ok u) f = let (r, f') = disk.rename f in replaced text r f'
  renamed text (err e) f = (err (io_error e), f)

  abbrev pub rendered : Result String String → F → Result FileError (Unit {0}) × F
  rendered (ok text) f = let (r, f') = disk.write_tmp text f in renamed text r f'
  rendered (err e) f = (err (io_error e), f)

  abbrev pub stored :
      String → String → Result FileError (Map P) → F → Result FileError (Unit {0}) × F
  stored reference value (ok m) f =
      rendered (disk.to_string_pretty (object (P.insert reference (string value) m))) f
  stored reference value (err e) f = (err e, f)

  unfoldable pub set_secret : String → String → F → Result FileError (Unit {0}) × F
  unfolding load
  set_secret reference value f = stored reference value (load f) f
