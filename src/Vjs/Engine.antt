-- ===== src/Vjs/Engine.antt =====
-- The engine (core/src/vjs.rs, `Engine`): the cache of parsed services, the packages' EXPORTS, the
-- secrets and the invoke depth, and the resolution of a service's name.
pub mod Same
pub mod Exports
use Prim.Native.Char.{Char, code}
use Prim.Native.String.{◌++◌ as ◌++ₛ◌}
use vejas.Base.{
  ℕ, String, Bool, not, ◌&&◌, ◌||◌, Option, none, some, List, [], ◌∷◌, ◌++◌, leb, str_eq, contains,
  lookup, if◌then◌else◌, ◌==◌,
}
use vejas.Vjs.Text.{any_char}
use vejas.Exec.{Result, map_err, Exec, pure, raise, lift, gets, modify, ◌>>=◌, ◌>>◌}
use vejas.Secrets.{SecretStore, redacted}
use vejas.Vjs.Value.{Value, Items, array, no_items, item, as_str}
use vejas.Vjs.Ast.{Block, SurfaceEntry, Program}
use vejas.Vjs.Failure.{
  Failure, invalid_reference, no_manifest, bad_manifest, not_exported, unknown_service, bad_service,
}

-- A path is its components below the file system's root.
abbrev pub FilePath : Type 0
FilePath = List String

-- What an engine reads: the files, which do not change while a flow runs, and the parser.
pub record Sources (N : Type 0) : Type 0 where
  pub read_to_string : FilePath → Option String
  pub parse : String → Result String (Program N)

pub record Engine (N : Type 0) : Type 0 where
  pub project_root : FilePath
  pub caller_pkg : String
  pub cache : List (String × Program N)
  pub exports : List (String × List String)
  pub secrets : SecretStore
  pub depth : ℕ

-- `Engine::invalidate`
unfoldable pub invalidate : {N : Type 0} → Engine N → Engine N
invalidate g = record g { cache = []; exports = [] }

-- `Engine::with_secrets`
unfoldable pub with_secrets : {N : Type 0} → FilePath → String → SecretStore → Engine N
with_secrets project_root caller_pkg secrets = record {
  project_root = project_root;
  caller_pkg = caller_pkg;
  cache = [];
  exports = [];
  secrets = secrets;
  depth = 0;
}

-- `Engine::live` and `Engine::shadow`, over the default store.
unfoldable pub live : {N : Type 0} → FilePath → String → SecretStore → Engine N
unfolding with_secrets
live project_root caller_pkg store = with_secrets project_root caller_pkg store

unfoldable pub shadow : {N : Type 0} → FilePath → String → SecretStore → Engine N
unfolding with_secrets
shadow project_root caller_pkg store = with_secrets project_root caller_pkg (redacted store)

-- `name.split_once(':')`
prepend : Char → Option (String × String) → Option (String × String)
prepend c none = none
prepend c (some (a, b)) = some (String.◌∷◌ c a, b)

unfoldable pub split_once : String → Option (String × String)
unfolding prepend
split_once String.[] = none
split_once (String.◌∷◌ c s) =
    let rest = prepend c (split_once s) in if code c == b':' then some ("", s) else rest

-- The package and the service that a reference names.
unfoldable pub target : String → String → Option (String × String) → String × String
target caller name (some (pkg, svc)) = (pkg, svc)
target caller name none = (caller, name)

unfoldable pub is_word_char : ℕ → Bool
is_word_char c =
    (leb b'a' c && leb c b'z')
    || (leb b'A' c && leb c b'Z')
    || (leb b'0' c && leb c b'9')
    || (c == b'_')

-- The closure `valid` of `Engine::resolve`.
unfoldable pub is_valid_name : String → Bool
unfolding is_word_char
is_valid_name s = not (str_eq s "") && not (any_char (λ c. not (is_word_char c)) s)

unfoldable pub cache_key : String → String → String
cache_key pkg svc = pkg ++ₛ (":" ++ₛ svc)

abbrev pub EngineRun : Type 0 → Type 0 → Type 0
EngineRun N A = Exec (Failure N) (Engine N) A

push_str : Option String → List String → List String
push_str none rest = rest
push_str (some s) rest = s ∷ rest

module _ {N : Type 0} where
  unfoldable pub pkg_dir : Engine N → String → FilePath
  pkg_dir g pkg =
      if str_eq pkg "default" then g.project_root else g.project_root ++ ("packages" ∷ pkg ∷ [])

  unfoldable pub find_entry : String → List (SurfaceEntry N) → Option (SurfaceEntry N)
  find_entry name [] = none
  find_entry name (e ∷ es) = if str_eq e.name name then some e else find_entry name es

  strings_of : Items N → List String
  strings_of no_items = []
  strings_of (item v vs) = push_str (as_str v) (strings_of vs)

  as_strings : Value N → List String
  as_strings (array a) = strings_of a
  as_strings _ = []

  entry_strings : Option (SurfaceEntry N) → List String
  entry_strings none = []
  entry_strings (some e) = as_strings e.value

  -- What a manifest exports.
  unfoldable pub exported : Program N → List String
  unfolding push_str strings_of as_strings entry_strings find_entry
  exported prog = entry_strings (find_entry "EXPORTS" prog.surface)

read_at : {N : Type 0} → Option String → Failure N → EngineRun N String
read_at none e = raise e
read_at (some src) e = pure src

module _ {N : Type 0} (sources : Sources N) where
  -- A file's program, or the error where it cannot be read or parsed.
  load : FilePath → Failure N → (String → Failure N) → EngineRun N (Program N)
  unfolding read_at
  load path missing bad = do
    src ← read_at (sources.read_to_string path) missing
    lift (map_err bad (sources.parse src))

  load_exports : String → Option (List String) → EngineRun N (List String)
  unfolding load pkg_dir
  load_exports pkg (some list) = pure list
  load_exports pkg none = do
    root ← gets (λ g. pkg_dir g pkg)
    prog ← load (root ++ ("package.vjs" ∷ [])) (no_manifest pkg) (bad_manifest pkg)
    modify (λ g. record g { exports = (pkg, exported prog) ∷ g.exports })
    pure (exported prog)

  unfoldable pub exports_of : String → EngineRun N (List String)
  unfolding load_exports
  exports_of pkg = do known ← gets (λ g. lookup pkg g.exports); load_exports pkg known

  -- A reference to another package's service goes on only if the package exports it.
  check_export : String → String × String → EngineRun N (String × String)
  check_export caller (pkg, svc) = if str_eq pkg caller then pure (pkg, svc) else do
    list ← exports_of pkg
    if contains list svc then pure (pkg, svc) else raise (not_exported pkg svc)

  check_reference : String → String → String × String → EngineRun N (String × String)
  unfolding check_export
  check_reference caller name (pkg, svc) =
      if is_valid_name pkg && is_valid_name svc
      then check_export caller (pkg, svc)
      else raise (invalid_reference name)

  unfoldable pub resolve : String → EngineRun N (String × String)
  unfolding check_reference
  resolve name = do
    caller ← gets (λ g. g.caller_pkg)
    check_reference caller name (target caller name (split_once name))

  load_service : String → String → Option (Program N) → EngineRun N (Block N)
  unfolding load pkg_dir
  load_service pkg svc (some prog) = pure prog.stmts
  load_service pkg svc none = do
    root ← gets (λ g. pkg_dir g pkg)
    prog ←
        load (root ++ ("services" ∷ (svc ++ₛ ".vjs") ∷ [])) (unknown_service (cache_key pkg svc))
          (bad_service (cache_key pkg svc))
    modify (λ g. record g { cache = (cache_key pkg svc, prog) ∷ g.cache })
    pure prog.stmts

  unfoldable pub service_stmts : String → String → EngineRun N (Block N)
  unfolding load_service
  service_stmts pkg svc = do
    known ← gets (λ g. lookup (cache_key pkg svc) g.cache)
    load_service pkg svc known
