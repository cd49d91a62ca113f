-- ===== src/Vjs/Run/Nesting.antt =====
-- A run gives the engine back as it took it, and services nest 32 deep at most (core/src/vjs.rs,
-- `run_service`): `depth` and `caller_pkg` are restored on every way out, and the model's fuel is
-- enough.
use vejas.Base.{
  ℕ, zero, suc, ◌+◌, ◌-◌, ◌≤◌, ◌<◌, String, ◌≡◌, refl, sym, ◌∙◌, ap, subst, arith, leb, Bool-cases,
  inl, inr, List,
}
use vejas.Exec.{Result, ok, err, Outcome, returned, outcome, OnOk}
use mathlib.Core.Logic.{◌≢◌}
use vejas.Exec.Keeps.{Composes, Keeps}
use vejas.Vjs.Failure.{Failure, Raised, exhausted}
use vejas.Vjs.Value.{Entries, Platform, Json, Map}
use vejas.Vjs.Ast.{Block, Program}
use vejas.Vjs.Engine.{Sources, Engine, resolve, service_stmts}
use vejas.Vjs.Engine.Same.{
  SameEngine, SameEngine-refl, SameEngine-trans, IsFinal, Settles, resolve-Settles,
  service_stmts-Settles,
}
use vejas.Vjs.Eval.{State, Ctx, Service, on_engine, set_vars, append_emits}
use vejas.Vjs.Eval.Keeps.{InvokesKeep, scoped-Keeps, invoke_service-Keeps}
use vejas.Vjs.Run.{
  exec_block, run_service, run_loaded, run_stmts, enter_service, enter, run, service_result,
  finished, service_ctx, run_ctx, set_response,
}
use vejas.Vjs.Run.Keeps.{BusLaws, ExecLaws, exec_block-Keeps}

-- An engine below the depth bound, with fuel for the depth that is left, comes to its own end.
pub record Ends {N : Type 0} (fuel : ℕ) (g : Engine N) (o : Outcome (Failure N)) (h : Engine N)
    : Type 0 where
  pub kept : SameEngine g h
  pub final : g.depth ≤ 32 → 33 ≤ g.depth + fuel → IsFinal o

abbrev pub EndsState : {N : Type 0} → ℕ → State N → Outcome (Failure N) → State N → Type 0
EndsState fuel s o t = Ends fuel s.engine o t.engine

-- A service, in every engine.
abbrev EndsService : {N : Type 0} → ℕ → Service N → Type 0
EndsService {N} fuel service =
    (name : String) (m : Entries N) (g : Engine N)
    → Ends fuel g (outcome (service name m g).0) (service name m g).1

ends : {N : Type 0} (fuel : ℕ) → Composes Raised (EndsState {N = N} fuel)
ends fuel = record {
  same = λ s. record { kept = SameEngine-refl s.engine; final = λ a b. tt };
  fails = λ s e h. record { kept = SameEngine-refl s.engine; final = λ a b. h };
  chain = λ s t u o p q. record {
    kept = SameEngine-trans s.engine t.engine u.engine p.kept q.kept;
    final = λ a b. q.final (omega arith) (omega arith);
  };
}

module _ (P : Platform) (fuel : ℕ) (service : Service P.Number) (h : EndsService fuel service) where
  on_engine-Ends : (name : String) (m : Map P) → Keeps (EndsState fuel) (on_engine (service name m))
  unfolding on_engine
  on_engine-Ends name m = record { at = λ s. h name m s.engine }

  appends-End :
      (t : State P.Number) (r : Result (Failure P.Number) (Json P × List (String × Json P)))
      → OnOk (λ out. EndsState fuel t returned (append_emits out.1 t)) r
  unfolding append_emits
  appends-End t (ok out) = record { kept = SameEngine-refl t.engine; final = λ a b. tt }
  appends-End t (err e) = tt

  invokes-End : InvokesKeep P service (EndsState fuel)
  unfolding append_emits
  invokes-End name m =
      invoke_service-Keeps P.Number (ends fuel) service name m (on_engine-Ends name m)
        λ s. appends-End (on_engine (service name m) s).1 (service name m s.engine).0

  assigns-End : (t : State P.Number) (f : Map P → Map P) → EndsState fuel t returned (set_vars f t)
  unfolding set_vars
  assigns-End t f = record { kept = SameEngine-refl t.engine; final = λ a b. tt }

  ends_laws : ExecLaws P service (EndsState fuel)
  unfolding set_response
  ends_laws = record {
    evaluation = record {
      composes = ends fuel;
      scoped_keeps = scoped-Keeps P (ends fuel) assigns-End;
    };
    assigns = assigns-End;
    responds = λ t st b. record { kept = SameEngine-refl t.engine; final = λ a b. tt };
  }

  bus_laws : BusLaws P service (EndsState fuel)
  unfolding append_emits
  bus_laws = record {
    invokes = invokes-End;
    emits = λ t s p v. record { kept = SameEngine-refl t.engine; final = λ a b. tt };
  }

  exec_block-Ends : (b : Block P.Number) → Keeps (EndsState fuel) (exec_block P service b)
  exec_block-Ends b = exec_block-Keeps P service (EndsState fuel) ends_laws b (λ w. bus_laws)

  service_result-outcome :
      (r : Result (Failure P.Number) (Unit {0})) (c : Ctx P.Number)
      → outcome (service_result P r c) ≡ outcome r
  unfolding service_result
  service_result-outcome (ok u) c = refl
  service_result-outcome (err e) c = refl

  -- From an engine that was entered, and comes back with the depth down again.
  record Leaves (g : Engine P.Number) (o : Outcome (Failure P.Number)) (k : Engine P.Number)
      : Type 0 where
    root : k.project_root ≡ g.project_root
    caller : k.caller_pkg ≡ g.caller_pkg
    secrets : k.secrets ≡ g.secrets
    depth : k.depth ≡ g.depth - 1
    final : g.depth ≤ 32 → 33 ≤ g.depth + fuel → IsFinal o

  run_stmts-Leaves :
      (pkg : String) (args : Map P) (stmts : Block P.Number) (g : Engine P.Number)
      → Leaves g
          (outcome (run_stmts P service pkg args stmts g).0)
          (run_stmts P service pkg args stmts g).1
  unfolding run_stmts
  run_stmts-Leaves pkg args stmts g =
      let start : State P.Number = record {
        ctx = service_ctx P args;
        engine = record g { caller_pkg = pkg };
      } in
      let done = (exec_block-Ends stmts).at start in
      let (r, s) = exec_block P service stmts start in
      record {
        root = done.kept.root;
        caller = refl;
        secrets = done.kept.secrets;
        depth = ap (λ (n : ℕ). n - 1) done.kept.depth;
        final = λ a b. subst IsFinal (sym (service_result-outcome r s.ctx)) (done.final a b);
      }

  -- What loading gave is run, or the failure to load takes the depth down.
  run_loaded-Leaves :
      (pkg : String) (args : Map P) (g k : Engine P.Number)
      (r : Result (Failure P.Number) (Block P.Number))
      → Settles g (outcome r) k
      → Leaves g
          (outcome (run_loaded P service pkg args (r, k)).0)
          (run_loaded P service pkg args (r, k)).1
  unfolding run_loaded
  run_loaded-Leaves pkg args g k (ok stmts) q =
      let out = run_stmts-Leaves pkg args stmts k in
      record {
        root = out.root ∙ q.kept.root;
        caller = out.caller ∙ q.kept.caller;
        secrets = out.secrets ∙ q.kept.secrets;
        depth = out.depth ∙ ap (λ (n : ℕ). n - 1) q.kept.depth;
        final = λ a b. out.final (omega (arith, q.kept.depth)) (omega (arith, q.kept.depth));
      }
  run_loaded-Leaves pkg args g k (err e) q = record {
    root = q.kept.root;
    caller = q.kept.caller;
    secrets = q.kept.secrets;
    depth = ap (λ (n : ℕ). n - 1) q.kept.depth;
    final = λ a b. q.final;
  }

  module _ (sources : Sources P.Number) where
    enter_service-Ends :
        (args : Map P) (g k : Engine P.Number) (r : Result (Failure P.Number) (String × String))
        → g.depth < 32
        → Settles g (outcome r) k
        → Ends
            (suc fuel)
            g
            (outcome (enter_service P sources service args (r, k)).0)
            (enter_service P sources service args (r, k)).1
    unfolding enter_service
    enter_service-Ends args g k (ok (pkg, svc)) lt q =
        let loaded = service_stmts sources pkg svc (enter k) in
        let out =
          run_loaded-Leaves pkg args (enter k) loaded.1 loaded.0
            ((service_stmts-Settles sources pkg svc).at (enter k)) in
        record {
          kept = record {
            root = out.root ∙ q.kept.root;
            caller = out.caller ∙ q.kept.caller;
            secrets = out.secrets ∙ q.kept.secrets;
            depth = omega (arith, out.depth, q.kept.depth);
          };
          final = λ a b. out.final (omega (arith, q.kept.depth)) (omega (arith, q.kept.depth));
        }
    enter_service-Ends args g k (err e) lt q = record { kept = q.kept; final = λ a b. q.final }

-- A service gives the engine back as it took it, errors included, and with fuel for the depth that
-- is left it never runs out.
pub run_service-Ends :
    (P : Platform) (sources : Sources P.Number) (fuel : ℕ)
    → EndsService fuel (run_service P sources fuel)
unfolding run_service
run_service-Ends P sources zero name m g = record {
  kept = SameEngine-refl g;
  final = λ a b. absurd (omega arith);
}
run_service-Ends P sources (suc fuel) name m g = elim (Bool-cases (leb 32 g.depth)) [
  | inl deep ↦ rw deep (record { kept = SameEngine-refl g; final = λ a b. refl })
  | inr room ↦ rw room (
      enter_service-Ends P fuel (run_service P sources fuel) (run_service-Ends P sources fuel)
        sources m g (resolve sources name g).1 (resolve sources name g).0 (ground arith)
        ((resolve-Settles sources name).at g))
]

finished-outcome :
    (P : Platform) (r : Result (Failure P.Number) (Unit {0})) (c : Ctx P.Number)
    → outcome (finished P r c) ≡ outcome r
unfolding finished
finished-outcome P (ok u) c = refl
finished-outcome P (err e) c = refl

final-ne-exhausted :
    {N A : Type 0} (r : Result (Failure N) A) → IsFinal (outcome r) → r ≢ err exhausted
final-ne-exhausted (ok a) h e = cc
final-ne-exhausted (err e) h p = ground arith

module _ (P : Platform) (sources : Sources P.Number) (prog : Program P.Number) (event : Json P)
    (g : Engine P.Number) where
  run-Ends : Ends 33 g (outcome (run P sources prog event g).0) (run P sources prog event g).1
  unfolding run
  run-Ends =
      let start : State P.Number = record { ctx = run_ctx P event; engine = g } in
      let service = run_service P sources 33 in
      let done =
        (exec_block-Ends P 33 service (run_service-Ends P sources 33) prog.stmts).at start in
      let (r, s) = exec_block P service prog.stmts start in
      record {
        kept = done.kept;
        final = λ a b. subst IsFinal (sym (finished-outcome P r s.ctx)) (done.final a b);
      }

  -- A run leaves the engine's root, package, secrets and depth as they were, whether it succeeds or
  -- fails.
  pub run-SameEngine : SameEngine g (run P sources prog event g).1
  run-SameEngine = run-Ends.kept

  -- From an engine whose depth is at most 32, the fuel that `run` gives to nested services is
  -- enough: a run never ends for want of it.
  pub run-ne-exhausted : g.depth ≤ 32 → (run P sources prog event g).0 ≢ err exhausted
  run-ne-exhausted h = final-ne-exhausted _ (run-Ends.final h (omega arith))
