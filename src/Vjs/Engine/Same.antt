-- ===== src/Vjs/Engine/Same.antt =====
-- Resolving a reference and loading a service leave the engine as it was but for its caches
-- (core/src/vjs.rs, `Engine::resolve`, `Engine::service_stmts`).
use vejas.Base.{String, ◌≡◌, refl, ◌∙◌, Option, none, some, List, ◌&&◌, str_eq, contains}
use vejas.Exec.{Result, ok, err, map_err, Outcome, returned, failed, OnErr, pure, modify, ◌>>◌}
use vejas.Exec.Keeps.{
  Composes, Keeps, Keeps-if, Keeps-bind, Keeps-raise, Keeps-pure, Keeps-gets, Keeps-lift,
  Keeps-modify,
}
use vejas.Vjs.Failure.{Failure, Raised}
use vejas.Vjs.Ast.{Program}
use vejas.Vjs.Engine.{
  Sources, Engine, FilePath, read_at, load, load_exports, exports_of, check_export, check_reference,
  resolve, load_service, service_stmts, is_valid_name,
}

pub record SameEngine {N : Type 0} (g h : Engine N) : Type 0 where
  pub root : h.project_root ≡ g.project_root
  pub caller : h.caller_pkg ≡ g.caller_pkg
  pub secrets : h.secrets ≡ g.secrets
  pub depth : h.depth ≡ g.depth

-- The code's own outcome: the model's fuel did not run out.
abbrev pub IsFinal : {N : Type 0} → Outcome (Failure N) → Type 0
IsFinal returned = Unit
IsFinal (failed e) = Raised e

pub record Settles {N : Type 0} (g : Engine N) (o : Outcome (Failure N)) (h : Engine N)
    : Type 0 where
  pub kept : SameEngine g h
  pub final : IsFinal o

module _ {N : Type 0} where
  pub SameEngine-refl : (g : Engine N) → SameEngine g g
  SameEngine-refl g = record { root = refl; caller = refl; secrets = refl; depth = refl }

  pub SameEngine-trans : (g h k : Engine N) → SameEngine g h → SameEngine h k → SameEngine g k
  SameEngine-trans g h k p q = record {
    root = q.root ∙ p.root;
    caller = q.caller ∙ p.caller;
    secrets = q.secrets ∙ p.secrets;
    depth = q.depth ∙ p.depth;
  }

  settles : Composes Raised (Settles {N = N})
  settles = record {
    same = λ g. record { kept = SameEngine-refl g; final = tt };
    fails = λ g e h. record { kept = SameEngine-refl g; final = h };
    chain = λ g h k o p q. record { kept = SameEngine-trans g h k p.kept q.kept; final = q.final };
  }

map_parse-Raised :
    (N : Type 0) {A : Type 0} (f : String → Failure N) (r : Result String A)
    → ((s : String) → Raised (f s))
    → OnErr Raised (map_err f r)
map_parse-Raised N f (ok a) h = tt
map_parse-Raised N f (err e) h = h e

-- Resolving and loading keep a relation that the two writes of the caches keep.
module _ {N : Type 0} (sources : Sources N) {R : Engine N → Outcome (Failure N) → Engine N → Type 0}
    (c : Composes Raised R) where
  read_at-Keeps : (found : Option String) (e : Failure N) → Raised e → Keeps R (read_at found e)
  unfolding read_at
  read_at-Keeps none e h = Keeps-raise c e h
  read_at-Keeps (some src) e h = Keeps-pure c src

  load-Keeps :
      (path : FilePath) (missing : Failure N) (bad : String → Failure N)
      → Raised missing
      → ((s : String) → Raised (bad s))
      → Keeps R (load sources path missing bad)
  unfolding load
  load-Keeps path missing bad h k =
      Keeps-bind c _ _ (read_at-Keeps (sources.read_to_string path) missing h)
        λ src. Keeps-lift c _ (map_parse-Raised N bad (sources.parse src) k)

  -- A cache's new entry is no part of what stays the same.
  cached-Keeps :
      {A : Type 0} (f : Engine N → Engine N) (a : A)
      → ((g : Engine N) → R g returned (f g))
      → Keeps R (modify f >> pure a)
  cached-Keeps f a h = Keeps-bind c _ _ (Keeps-modify f h) λ u. Keeps-pure c a

  load_exports-Keeps :
      ((g : Engine N) (es : List (String × List String)) → R g returned (record g { exports = es }))
      → (pkg : String) (known : Option (List String)) → Keeps R (load_exports sources pkg known)
  unfolding load_exports
  load_exports-Keeps h pkg (some list) = Keeps-pure c list
  load_exports-Keeps h pkg none = Keeps-bind c _ _ (Keeps-gets c _) λ root.
      Keeps-bind c _ _ (load-Keeps _ _ _ refl (λ s. refl)) λ prog. cached-Keeps _ _ (λ g. h g _)

  module _ (exports : (pkg : String) → Keeps R (exports_of sources pkg)) where
    check_export-Keeps :
        (caller : String) (t : String × String) → Keeps R (check_export sources caller t)
    unfolding check_export
    check_export-Keeps caller (pkg, svc) = Keeps-if (str_eq pkg caller) _ _ (Keeps-pure c _) (
        Keeps-bind c _ _ (exports pkg)
          (λ list. Keeps-if (contains list svc) _ _ (Keeps-pure c _) (Keeps-raise c _ refl)))

    check_reference-Keeps :
        (caller name : String) (t : String × String)
        → Keeps R (check_reference sources caller name t)
    unfolding check_reference
    check_reference-Keeps caller name (pkg, svc) =
        Keeps-if (is_valid_name pkg && is_valid_name svc) _ _ (check_export-Keeps caller (pkg, svc))
          (Keeps-raise c _ refl)

    pub resolve-Keeps : (name : String) → Keeps R (resolve sources name)
    unfolding resolve
    resolve-Keeps name =
        Keeps-bind c _ _ (Keeps-gets c _) (λ caller. check_reference-Keeps caller name _)

  module _
      (parsed : (g : Engine N) (ps : List (String × Program N))
        → R g returned (record g { cache = ps })) where
    load_service-Keeps :
        (pkg svc : String) (known : Option (Program N))
        → Keeps R (load_service sources pkg svc known)
    unfolding load_service
    load_service-Keeps pkg svc (some prog) = Keeps-pure c _
    load_service-Keeps pkg svc none = Keeps-bind c _ _ (Keeps-gets c _) λ root.
        Keeps-bind c _ _ (load-Keeps _ _ _ refl (λ s. refl))
          λ prog. cached-Keeps _ _ (λ g. parsed g _)

    pub service_stmts-Keeps : (pkg svc : String) → Keeps R (service_stmts sources pkg svc)
    unfolding service_stmts
    service_stmts-Keeps pkg svc =
        Keeps-bind c _ _ (Keeps-gets c _) (λ known. load_service-Keeps pkg svc known)

module _ {N : Type 0} (sources : Sources N) where
  exports_of-Settles : (pkg : String) → Keeps Settles (exports_of sources pkg)
  unfolding exports_of
  exports_of-Settles pkg = Keeps-bind settles _ _ (Keeps-gets settles _) (
      load_exports-Keeps sources settles
        (λ g es. record {
          kept = record { root = refl; caller = refl; secrets = refl; depth = refl };
          final = tt;
        })
        pkg)

  pub resolve-Settles : (name : String) → Keeps Settles (resolve sources name)
  resolve-Settles = resolve-Keeps sources settles exports_of-Settles

  pub service_stmts-Settles : (pkg svc : String) → Keeps Settles (service_stmts sources pkg svc)
  service_stmts-Settles = service_stmts-Keeps sources settles λ g ps. record {
    kept = record { root = refl; caller = refl; secrets = refl; depth = refl };
    final = tt;
  }
