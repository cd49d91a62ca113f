-- ===== src/Vjs/Run/Cached.antt =====
-- The EXPORTS that an engine has cached are what the manifests on file say, after any runs
-- (core/src/vjs.rs, `Engine`, `run`): only `load_exports` writes them.
use vejas.Base.{
  zero, suc, ℕ, String, ◌≡◌, refl, sym, ◌∙◌, ap, List, [], ◌∷◌, leb, lookup, Bool-cases, inl, inr,
  arith,
}
use vejas.Exec.{Result, ok, err, Outcome, returned, outcome, OnOk}
use vejas.Exec.Keeps.{Composes, Keeps}
use vejas.Vjs.Failure.{Failure, Raised}
use vejas.Vjs.Value.{Entries, Platform, Json, Map}
use vejas.Vjs.Ast.{Block, Program}
use vejas.Vjs.Engine.{Sources, Engine, resolve, service_stmts}
use vejas.Vjs.Engine.Same.{service_stmts-Keeps}
use vejas.Vjs.Engine.Exports.{
  IsFaithful, MayInvoke, resolve-MayInvoke, KeepsFaith, keeps_faith, same_exports,
  resolve-KeepsFaith,
}
use vejas.Vjs.Eval.{State, Service, on_engine, set_vars, append_emits}
use vejas.Vjs.Eval.Keeps.{InvokesKeep, scoped-Keeps, invoke_service-Keeps}
use vejas.Vjs.Run.{
  exec_block, run_service, run_loaded, run_stmts, enter_service, enter, run, service_ctx, run_ctx,
  set_response,
}
use vejas.Vjs.Run.Keeps.{BusLaws, ExecLaws, exec_block-Keeps}

module _ (P : Platform) (sources : Sources P.Number) where
  abbrev Faith : Engine P.Number → Outcome (Failure P.Number) → Engine P.Number → Type 0
  Faith = KeepsFaith sources

  abbrev FaithState : State P.Number → Outcome (Failure P.Number) → State P.Number → Type 0
  FaithState s o t = Faith s.engine o t.engine

  -- The outcome does not matter.
  outcome_of :
      (g h : Engine P.Number) (o p : Outcome (Failure P.Number)) → Faith g o h → Faith g p h
  outcome_of g h o p f = record { root = f.root; faith = f.faith }

  idle : (g : Engine P.Number) (o : Outcome (Failure P.Number)) → Faith g o g
  idle g o = same_exports sources g o g refl refl

  keeps_state : Composes Raised FaithState
  keeps_state = record {
    same = λ s. idle s.engine returned;
    fails = λ s e h. (keeps_faith sources).fails s.engine e h;
    chain = λ s t u o p q. (keeps_faith sources).chain s.engine t.engine u.engine o p q;
  }

  abbrev ServiceKeeps : Service P.Number → Type 0
  ServiceKeeps service =
      (name : String) (m : Entries P.Number) (g : Engine P.Number)
      → Faith g (outcome (service name m g).0) (service name m g).1

  module _ (service : Service P.Number) (h : ServiceKeeps service) where
    on_engine-Faith : (name : String) (m : Map P) → Keeps FaithState (on_engine (service name m))
    unfolding on_engine
    on_engine-Faith name m = record { at = λ s. h name m s.engine }

    appends-Faith :
        (t : State P.Number) (r : Result (Failure P.Number) (Json P × List (String × Json P)))
        → OnOk (λ out. FaithState t returned (append_emits out.1 t)) r
    unfolding append_emits
    appends-Faith t (ok out) = idle t.engine returned
    appends-Faith t (err e) = tt

    invokes-Faith : InvokesKeep P service FaithState
    unfolding append_emits
    invokes-Faith name m =
        invoke_service-Keeps P.Number keeps_state service name m (on_engine-Faith name m)
          λ s. appends-Faith (on_engine (service name m) s).1 (service name m s.engine).0

    assigns-Faith : (t : State P.Number) (f : Map P → Map P) → FaithState t returned (set_vars f t)
    unfolding set_vars
    assigns-Faith t f = idle t.engine returned

    exec_laws : ExecLaws P service FaithState
    unfolding set_response
    exec_laws = record {
      evaluation = record {
        composes = keeps_state;
        scoped_keeps = scoped-Keeps P keeps_state assigns-Faith;
      };
      assigns = assigns-Faith;
      responds = λ t st b. idle t.engine returned;
    }

    bus_laws : BusLaws P service FaithState
    unfolding append_emits
    bus_laws = record { invokes = invokes-Faith; emits = λ t s p v. idle t.engine returned }

    exec_block-Faith : (b : Block P.Number) → Keeps FaithState (exec_block P service b)
    exec_block-Faith b = exec_block-Keeps P service FaithState exec_laws b (λ w. bus_laws)

    run_stmts-Faith :
        (pkg : String) (args : Map P) (stmts : Block P.Number) (g : Engine P.Number)
        (o : Outcome (Failure P.Number))
        → Faith g o (run_stmts P service pkg args stmts g).1
    unfolding run_stmts
    run_stmts-Faith pkg args stmts g o =
        let inside : Engine P.Number = record g { caller_pkg = pkg } in
        let start : State P.Number = record { ctx = service_ctx P args; engine = inside } in
        let after = (exec_block P service stmts start).1.engine in
        let left = (run_stmts P service pkg args stmts g).1 in
        (keeps_faith sources).chain g inside left o
          (same_exports sources g returned inside refl refl)
          ((keeps_faith sources).chain inside after left o
            (outcome_of inside after _ returned ((exec_block-Faith stmts).at start))
            (same_exports sources after o left refl refl))

    run_loaded-Faith :
        (pkg : String) (args : Map P) (g : Engine P.Number) (o : Outcome (Failure P.Number))
        (r : Result (Failure P.Number) (Block P.Number))
        → Faith g o (run_loaded P service pkg args (r, g)).1
    unfolding run_loaded
    run_loaded-Faith pkg args g o (ok stmts) = run_stmts-Faith pkg args stmts g o
    run_loaded-Faith pkg args g o (err e) = same_exports sources g o _ refl refl

    enter_service-Faith :
        (args : Map P) (g : Engine P.Number) (o : Outcome (Failure P.Number))
        (r : Result (Failure P.Number) (String × String))
        → Faith g o (enter_service P sources service args (r, g)).1
    unfolding enter_service enter
    enter_service-Faith args g o (ok (pkg, svc)) =
        let inside = enter g in
        let loaded = service_stmts sources pkg svc inside in
        let left = (run_loaded P service pkg args loaded).1 in
        (keeps_faith sources).chain g inside left o
          (same_exports sources g returned inside refl refl)
          ((keeps_faith sources).chain inside loaded.1 left o
            (outcome_of inside loaded.1 _ returned (
              (service_stmts-Keeps sources (keeps_faith sources)
                  (λ k ps. same_exports sources k returned _ refl refl) pkg svc).at
                inside))
            (run_loaded-Faith pkg args loaded.1 o loaded.0))
    enter_service-Faith args g o (err e) = idle g o

  run_service-Faith : (fuel : ℕ) → ServiceKeeps (run_service P sources fuel)
  unfolding run_service
  run_service-Faith zero name m g = idle g _
  run_service-Faith (suc fuel) name m g = elim (Bool-cases (leb 32 g.depth)) [
    | inl deep ↦ rw deep (idle g _)
    | inr room ↦
        let (r, k) = resolve sources name g in
        rw room (
          (keeps_faith sources).chain g k _ _
            (outcome_of g k _ returned ((resolve-KeepsFaith sources name).at g))
            (enter_service-Faith (run_service P sources fuel) (run_service-Faith fuel) m k _ r))
  ]

  run-Faith :
      (prog : Program P.Number) (event : Json P) (g : Engine P.Number)
      → Faith g returned (run P sources prog event g).1
  unfolding run
  run-Faith prog event g =
      let start : State P.Number = record { ctx = run_ctx P event; engine = g } in
      let service = run_service P sources 33 in
      outcome_of g _ _ returned
        ((exec_block-Faith service (run_service-Faith 33) prog.stmts).at start)

  -- The engine after runs of flows on events, one after the other.
  abbrev pub after_runs : List (Program P.Number × Json P) → Engine P.Number → Engine P.Number
  after_runs [] g = g
  after_runs ((prog, event) ∷ rs) g = after_runs rs (run P sources prog event g).1

  runs_keep :
      (rs : List (Program P.Number × Json P)) (g : Engine P.Number)
      → IsFaithful sources g
      → IsFaithful sources (after_runs rs g)
  runs_keep [] g f = f
  runs_keep ((prog, event) ∷ rs) g f =
      runs_keep rs (run P sources prog event g).1 ((run-Faith prog event g).faith f)

  empty-IsFaithful : (g : Engine P.Number) → g.exports ≡ [] → IsFaithful sources g
  empty-IsFaithful g fresh pkg list e = ground (arith, sym (ap (lookup pkg) fresh) ∙ e)

  -- From an engine that has cached no EXPORTS yet, as a new one or one that was invalidated, after
  -- any runs of flows, with their nested services and their failures: a reference that resolves
  -- names a package and a service whose names are words, and the package is the caller's or its
  -- manifest on file lists the service in EXPORTS; and every list of EXPORTS that is cached, before
  -- and after the resolution, is what that package's manifest on file says.
  pub after_runs-MayInvoke :
      (rs : List (Program P.Number × Json P)) (g : Engine P.Number) (name : String)
      → g.exports ≡ []
      → IsFaithful sources (after_runs rs g)
        × OnOk
            (λ t. MayInvoke sources (after_runs rs g) t.0 t.1)
            (resolve sources name (after_runs rs g)).0
        × IsFaithful sources (resolve sources name (after_runs rs g)).1
  after_runs-MayInvoke rs g name fresh =
      let f = runs_keep rs g (empty-IsFaithful g fresh) in
      let out = resolve-MayInvoke sources name (after_runs rs g) f in (f, out.0, out.1)
