-- ===== src/Governance/State.antt =====
-- The state that governed change works on (core/src/main.rs): paths, files, the stores and what is
-- recorded.
use Prim.Native.Char.{code}
use Prim.Native.String.{◌++◌}
use text.Mathlib.Text.{starts_with}
use vejas.Base.{
  ℕ, String, Bool, true, false, ◌&&◌, ◌||◌, Option, none, some, List, [], ◌∷◌, get_elem?, any,
  str_eq, unwrap_or, if◌then◌else◌, ◌==◌,
}
use vejas.Exec.{Result, ok, err, Exec, pure, raise, gets, ◌>>=◌}
use vejas.Vjs.Value.{Platform, Json, Value}
use vejas.Vjs.Text.{contains_text, split}
use vejas.Vjs.Token.{SyntaxError}
use vejas.Vjs.Surface.{EditError}
use vejas.Versions.{Bucket, Db, resolve_source}

-- `std::path` on the root: a path without the root, a path in it, whether its real place is in the
-- root's, and the stem of its file.
pub record Paths : Type 0 where
  pub strip_prefix : String → Option String
  pub join : String → String
  pub resolves_within : String → Bool
  pub file_stem : String → String

-- `s.trim_start_matches("./")`
unfoldable pub trim_here : String → String
trim_here (String.◌∷◌ c (String.◌∷◌ d s)) =
    let rest = trim_here s in
    if (code c == 46) && (code d == 47) then rest else String.◌∷◌ c (String.◌∷◌ d s)
trim_here s = s

-- `s.ends_with(suffix)`
unfoldable pub ends_with : String → String → Bool
ends_with String.[] suffix = str_eq "" suffix
ends_with (String.◌∷◌ c s) suffix = str_eq (String.◌∷◌ c s) suffix || ends_with s suffix

unfoldable pub guard_path : Paths → String → Option String
unfolding contains_text trim_here ends_with
guard_path paths rel =
    let here = trim_here rel in
    let inside = unwrap_or (paths.strip_prefix here) here in
    let ok_dir = any (starts_with inside) ("flows" ∷ "services" ∷ "connectors" ∷ "packages" ∷ []) in
    let ok_ext = ends_with inside ".vjs" || ends_with inside ".json" in
    if contains_text rel ".."
    then none
    else if ok_dir && ok_ext && paths.resolves_within (paths.join inside)
    then some (paths.join inside)
    else none

abbrev pub pkg_in : Option String → String
pkg_in none = "default"
pkg_in (some rest) = unwrap_or (get_elem? (split rest "/") 0) "default"

unfoldable pub pkg_of_path : String → String
unfolding split
pkg_of_path path = pkg_in (get_elem? (split path "packages/") 1)

unfoldable pub flow_proc_name : Paths → String → String
unfolding pkg_of_path
flow_proc_name paths path =
    let pkg = pkg_of_path path in
    if str_eq pkg "default"
    then "flow:" ++ paths.file_stem path
    else "flow:" ++ (pkg ++ (":" ++ paths.file_stem path))

-- What a call returns as its error.
pub data Refused (F : Type 0) : Type 0 where
  message : String → Refused F
  bad_edit : EditError F → Refused F
  bad_candidate : SyntaxError F → Refused F

-- What was applied: an edit of a constant in a file, a version of a flow, or a file as a whole.
pub data Applied (N : Type 0) : Type 0 where
  edited : String → String → String → Applied N
  versioned : String → Applied N
  written : String → Applied N

-- The records of the audit trail; an actor or an error is left to the text that is stored.
pub data Audit (N : Type 0) : Type 0 where
  promoted : String → String → String → Value N → Value N → String → Audit N
  rejected : String → String → Audit N
  expired : String → Audit N
  approved : String → String → Applied N → Audit N

-- The file system, whose state is `D`.
pub record Files (D : Type 0) : Type 0 where
  pub read_to_string : String → D → Result String String
  pub write : String → String → D → Result String (Unit {0}) × D

-- What the runtime is in when it is called: whether NATS answers and the stores open, the mode of a
-- cluster, and the clock where an overlay is read, a version stored and a status set.
pub record Around : Type 0 where
  pub connect : Result String (Unit {0})
  pub queue_opens : Bool
  pub versions_open : Bool
  pub clustered : Bool
  pub read_at : ℕ
  pub put_at : ℕ
  pub decided_at : ℕ

-- Events and audits, the latest first; they are published as far as they can be.
pub record Site (P : Platform) (S D : Type 0) : Type 0 where
  pub disk : D
  pub queue : S
  pub overlays : Db P S
  pub audits : List (Audit P.Number)
  pub events : List (String × Json P)
  pub reloads : ℕ

-- A call of the runtime, which may return an error.
abbrev pub Act : Platform → Type 0 → Type 0 → Type 0 → Type 0
Act P S D A = Exec (Refused P.Float) (Site P S D) A

module _ {F X : Type 0} where
  abbrev pub need : {A : Type 0} → Option A → String → Exec (Refused F) X A
  need none text = raise (message text)
  need (some a) text = pure a

  abbrev pub told : {A : Type 0} → Result String A → Exec (Refused F) X A
  told (ok a) = pure a
  told (err text) = raise (message text)

  -- Guards of the code.
  abbrev pub opened : Bool → String → Exec (Refused F) X (Unit {0})
  opened true text = pure tt
  opened false text = raise (message text)

module _ {P : Platform} {S D : Type 0} (files : Files D) where
  unfoldable pub read_file : String → Act P S D String
  unfolding ◌>>=◌ gets pure raise
  read_file path = gets (λ w. files.read_to_string path w.disk) >>= λ r. told r

  abbrev pub wrote :
      Site P S D → Result String (Unit {0}) × D → Result (Refused P.Float) (Unit {0}) × Site P S D
  wrote w (ok u, d) = (ok tt, record w { disk = d })
  wrote w (err text, d) = (err (message text), record w { disk = d })

  unfoldable pub write_file : String → String → Act P S D (Unit {0})
  write_file path text w = wrote w (files.write path text w.disk)

module _ {P : Platform} {S D : Type 0} (bucket : Bucket P S) (around : Around) where
  -- The source that runs: the overlay of the flow, or the file.
  unfoldable pub effective : String → String → Act P S D String
  unfolding resolve_source
  effective unit baseline w =
      let store = if around.versions_open then some bucket else none in
      let ((source, outcome), db) = resolve_source store unit baseline around.read_at w.overlays in
      (ok source, record w { overlays = db })
