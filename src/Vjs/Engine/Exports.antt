-- ===== src/Vjs/Engine/Exports.antt =====
-- The coupling rule between packages (core/src/vjs.rs, `Engine::resolve`): a service of another
-- package is invoked only if that package's manifest exports it, and no reference leaves the
-- directories of packages and services.
use vejas.Base.{
  Bool, Option, sym, ap, ◌∙◌, subst, false, String, ◌≡◌, refl, true, ◌&&◌, none, some, List, [],
  ◌∷◌, ◌++◌, arith, str_eq, eq_iff, contains, lookup, if◌then◌else◌, Bool-cases, Option-cases, ◌⊎◌,
  inl, inr,
}
use vejas.Exec.Keeps.{Composes, Keeps, Keeps-bind, Keeps-gets, Keeps-pure}
use vejas.Vjs.Engine.Same.{resolve-Keeps}
use vejas.Exec.{Outcome, Result, ok, err, OnOk, Result-cases, pure, raise, continue, ◌>>=◌}
use vejas.Vjs.Failure.{Failure, Raised, not_exported}
use vejas.Vjs.Ast.{Program}
use vejas.Vjs.Engine.{
  FilePath, Sources, Engine, EngineRun, pkg_dir, read_at, load, load_exports, exports_of, exported,
  check_export, check_reference, resolve, split_once, target, is_valid_name,
}

module _ {N : Type 0} (sources : Sources N) where
  -- The package's manifest can be read and parsed, and its EXPORTS are `list`.
  pub record Exports (g : Engine N) (pkg : String) (list : List String) : Type 0 where
    pub src : String
    pub prog : Program N
    pub readable : sources.read_to_string (pkg_dir g pkg ++ ("package.vjs" ∷ [])) ≡ some src
    pub parses : sources.parse src ≡ ok prog
    pub lists : list ≡ exported prog

  -- Every cached list is what the manifest on file says.
  abbrev pub IsFaithful : Engine N → Type 0
  IsFaithful g =
      (pkg : String) (list : List String) → lookup pkg g.exports ≡ some list → Exports g pkg list

  load_exports-Exports :
      (pkg : String) (g : Engine N)
      → OnOk (λ list. Exports g pkg list) (load_exports sources pkg none g).0
  unfolding load_exports load read_at ◌>>=◌
  load_exports-Exports pkg g =
      elim (Option-cases (sources.read_to_string (pkg_dir g pkg ++ ("package.vjs" ∷ [])))) [
        | inl missing ↦ rw (missing, read_at) tt
        | inr (src, found) ↦ elim (Result-cases (sources.parse src)) [
          | inl (prog, parsed) ↦
              rw (found, read_at, parsed)
                (record { src = src; prog = prog; readable = found; parses = parsed; lists = refl })
          | inr (e, bad) ↦ rw (found, read_at, bad) tt
        ]
      ]

  exports_of-Exports :
      (pkg : String) (g : Engine N)
      → IsFaithful g
      → OnOk (λ list. Exports g pkg list) (exports_of sources pkg g).0
  unfolding exports_of ◌>>=◌
  exports_of-Exports pkg g h = elim (Option-cases (lookup pkg g.exports)) [
    | inl unknown ↦ rw (unknown, load_exports) (load_exports-Exports pkg g)
    | inr (list, known) ↦ rw (known, load_exports) (h pkg list known)
  ]

  -- What a resolved reference may name, seen from the package `caller`.
  pub record MayInvoke (g : Engine N) (pkg svc : String) : Type 0 where
    pub valid_pkg : is_valid_name pkg ≡ true
    pub valid_svc : is_valid_name svc ≡ true
    pub allowed :
        (pkg ≡ g.caller_pkg)
        ⊎ ((list : List String) × Exports g pkg list × (contains list svc ≡ true))

  listed-MayInvoke :
      (g k : Engine N) (pkg svc : String) (r : Result (Failure N) (List String))
      → is_valid_name pkg ≡ true
      → is_valid_name svc ≡ true
      → OnOk (λ list. Exports g pkg list) r
      → let f : List String → EngineRun N (String × String) =
          λ list. if contains list svc then pure (pkg, svc) else raise (not_exported pkg svc) in
        OnOk (λ t. MayInvoke g t.0 t.1) (continue r f k).0
  unfolding pure raise
  listed-MayInvoke g k pkg svc (ok list) vp vs h = elim (Bool-cases (contains list svc)) [
    | inl listed ↦
        rw listed (record { valid_pkg = vp; valid_svc = vs; allowed = inr (list, h, listed) })
    | inr absent ↦ rw absent tt
  ]
  listed-MayInvoke g k pkg svc (err e) vp vs h = tt

  check_export-MayInvoke :
      (g : Engine N) (pkg svc : String)
      → IsFaithful g
      → is_valid_name pkg ≡ true
      → is_valid_name svc ≡ true
      → OnOk (λ t. MayInvoke g t.0 t.1) (check_export sources g.caller_pkg (pkg, svc) g).0
  unfolding check_export ◌>>=◌
  check_export-MayInvoke g pkg svc h vp vs = elim (Bool-cases (str_eq pkg g.caller_pkg)) [
    | inl same ↦ rw same (record {
      valid_pkg = vp;
      valid_svc = vs;
      allowed = inl ((eq_iff pkg g.caller_pkg).0 same);
    })
    | inr other ↦ rw other (
        listed-MayInvoke g (exports_of sources pkg g).1 pkg svc (exports_of sources pkg g).0 vp vs
          (exports_of-Exports pkg g h))
  ]

  check_reference-MayInvoke :
      (g : Engine N) (name : String) (t : String × String)
      → IsFaithful g
      → OnOk (λ t. MayInvoke g t.0 t.1) (check_reference sources g.caller_pkg name t g).0
  unfolding check_reference raise
  check_reference-MayInvoke g name (pkg, svc) h =
      elim (Bool-cases (is_valid_name pkg && is_valid_name svc)) [
        | inl valid ↦ rw valid (check_export-MayInvoke g pkg svc h (ground arith) (ground arith))
        | inr bad ↦ rw bad tt
      ]

  resolve_allows :
      (name : String) (g : Engine N)
      → IsFaithful g
      → OnOk (λ t. MayInvoke g t.0 t.1) (resolve sources name g).0
  unfolding resolve ◌>>=◌
  resolve_allows name g h =
      check_reference-MayInvoke g name (target g.caller_pkg name (split_once name)) h

  -- What the cache says stays true in an engine with the same root.
  Exports-root :
      (g h : Engine N) (pkg : String) (list : List String)
      → g.project_root ≡ h.project_root
      → Exports g pkg list
      → Exports h pkg list
  unfolding pkg_dir
  Exports-root g h pkg list same e = record {
    src = e.src;
    prog = e.prog;
    readable =
        subst
          (λ (root : FilePath).
            sources.read_to_string (
              (if str_eq pkg "default" then root else root ++ ("packages" ∷ pkg ∷ []))
              ++ ("package.vjs" ∷ []))
            ≡ some e.src)
          same e.readable;
    parses = e.parses;
    lists = e.lists;
  }

  entry_cases :
      (b : Bool) (list list' : List String) (o : Option (List String))
      → (if b then some list else o) ≡ some list'
      → ((b ≡ true) × (list ≡ list')) ⊎ (o ≡ some list')
  entry_cases true list list' o h = inl (refl, ground (arith, h))
  entry_cases false list list' o h = inr h

  -- A list that is right is cached.
  cached-IsFaithful :
      (g : Engine N) (pkg : String) (list : List String)
      → Exports g pkg list
      → IsFaithful g
      → IsFaithful (record g { exports = (pkg, list) ∷ g.exports })
  cached-IsFaithful g pkg list e f pkg' list' h =
      let k : Engine N = record g { exports = (pkg, list) ∷ g.exports } in
      elim (entry_cases (str_eq pkg pkg') list list' (lookup pkg' g.exports) h) [
        | inl (same, equal) ↦ Exports-root g k pkg' list' refl (
            subst (λ p. Exports g p list') ((eq_iff pkg pkg').0 same)
              (subst (Exports g pkg) equal e))
        | inr old ↦ Exports-root g k pkg' list' refl (f pkg' list' old)
      ]

  -- The root stays, and the cache stays right.
  pub record KeepsFaith (g : Engine N) (o : Outcome (Failure N)) (h : Engine N) : Type 0 where
    pub root : g.project_root ≡ h.project_root
    pub faith : IsFaithful g → IsFaithful h

  -- A step that leaves the root and the cached lists keeps them right.
  pub same_exports :
      (g : Engine N) (o : Outcome (Failure N)) (h : Engine N)
      → g.project_root ≡ h.project_root
      → h.exports ≡ g.exports
      → KeepsFaith g o h
  same_exports g o h root same = record {
    root = root;
    faith = λ f pkg list e.
        Exports-root g h pkg list root (f pkg list (sym (ap (lookup pkg) same) ∙ e));
  }

  pub keeps_faith : Composes Raised KeepsFaith
  keeps_faith = record {
    same = λ g. record { root = refl; faith = λ f. f };
    fails = λ g e h. record { root = refl; faith = λ f. f };
    chain = λ g h k o p q. record { root = p.root ∙ q.root; faith = λ f. q.faith (p.faith f) };
  }

  load_exports-KeepsFaith :
      (pkg : String) (known : Option (List String))
      → Keeps KeepsFaith (load_exports sources pkg known)
  unfolding load_exports load read_at ◌>>=◌
  load_exports-KeepsFaith pkg (some list) = Keeps-pure keeps_faith list
  load_exports-KeepsFaith pkg none = record {
    at = λ g. elim (Option-cases (sources.read_to_string (pkg_dir g pkg ++ ("package.vjs" ∷ [])))) [
      | inl missing ↦ rw (missing, read_at) (record { root = refl; faith = λ f. f })
      | inr (src, found) ↦ elim (Result-cases (sources.parse src)) [
        | inl (prog, parsed) ↦
            rw (found, read_at, parsed)
              (record {
                root = refl;
                faith = cached-IsFaithful g pkg (exported prog) (record {
                  src = src;
                  prog = prog;
                  readable = found;
                  parses = parsed;
                  lists = refl;
                });
              })
        | inr (e, bad) ↦ rw (found, read_at, bad) (record { root = refl; faith = λ f. f })
      ]
    ];
  }

  exports_of-KeepsFaith : (pkg : String) → Keeps KeepsFaith (exports_of sources pkg)
  unfolding exports_of
  exports_of-KeepsFaith pkg =
      Keeps-bind keeps_faith _ _ (Keeps-gets keeps_faith _)
        (λ known. load_exports-KeepsFaith pkg known)

  pub resolve-KeepsFaith : (name : String) → Keeps KeepsFaith (resolve sources name)
  resolve-KeepsFaith = resolve-Keeps sources keeps_faith exports_of-KeepsFaith

  -- In an engine whose cached EXPORTS are what the manifests on file say, a reference that resolves
  -- names a package and a service whose names are words; and the package is the caller's, or its
  -- manifest on file lists the service in EXPORTS. Whatever the resolution gives, what is cached
  -- after it is again what the manifests say.
  pub resolve-MayInvoke :
      (name : String) (g : Engine N)
      → IsFaithful g
      → OnOk (λ t. MayInvoke g t.0 t.1) (resolve sources name g).0
        × IsFaithful (resolve sources name g).1
  resolve-MayInvoke name g h = (resolve_allows name g h, ((resolve-KeepsFaith name).at g).faith h)
