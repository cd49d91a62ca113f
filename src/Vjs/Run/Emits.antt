-- ===== src/Vjs/Run/Emits.antt =====
-- What a run emits (core/src/vjs.rs, `Stmt::Emit`, `run_service`): emits are only ever added, and
-- each has a subject that can go on the wire.
use vejas.Base.{
  ℕ, zero, suc, String, ◌≡◌, refl, sym, ◌∙◌, ap, subst, true, List, [], ◌∷◌, ◌++◌, All, All-append,
  append_assoc, append-nil, leb, Bool-cases, inl, inr,
}
use vejas.Exec.{Result, ok, err, Outcome, returned, OnOk}
use vejas.Exec.Keeps.{Composes, Keeps}
use vejas.Vjs.Failure.{Failure, Raised}
use vejas.Vjs.Text.{valid_subject}
use vejas.Vjs.Value.{Value, Entries, Platform, Json, Map}
use vejas.Vjs.Ast.{Block, Program}
use vejas.Vjs.Engine.{Sources, Engine}
use vejas.Vjs.Eval.{State, Ctx, Service, on_engine, set_vars, append_emits}
use vejas.Vjs.Eval.Keeps.{InvokesKeep, scoped-Keeps, invoke_service-Keeps}
use vejas.Vjs.Run.{
  exec_block, run_service, run_loaded, run_stmts, enter_service, run, service_result, finished,
  service_ctx, run_ctx, set_response,
}
use vejas.Vjs.Run.Keeps.{exec_block-Keeps}

abbrev pub AllValid : {N : Type 0} → List (String × Value N) → Type 0
AllValid = All (λ e. valid_subject e.0 ≡ true)

-- The emits so far are kept, and what follows them is valid.
pub record Grows {N : Type 0} (s : State N) (o : Outcome (Failure N)) (t : State N) : Type 0 where
  pub added : List (String × Value N)
  pub emits : t.ctx.emits ≡ s.ctx.emits ++ added
  pub valid : AllValid added

module _ {N : Type 0} where
  Grows-same : (s t : State N) (o : Outcome (Failure N)) → t.ctx.emits ≡ s.ctx.emits → Grows s o t
  Grows-same s t o e = record { added = []; emits = e ∙ sym (append-nil s.ctx.emits); valid = tt }

  Grows-trans :
      (s t u : State N) (o p : Outcome (Failure N)) → Grows s o t → Grows t p u → Grows s p u
  Grows-trans s t u o p h k = record {
    added = h.added ++ k.added;
    emits = k.emits ∙ ap (λ es. es ++ k.added) h.emits ∙ append_assoc s.ctx.emits h.added k.added;
    valid = All-append (λ e. valid_subject e.0 ≡ true) h.added k.added h.valid k.valid;
  }

  grows : Composes Raised (Grows {N = N})
  grows = record {
    same = λ s. Grows-same s s returned refl;
    fails = λ s e h. Grows-same s s (Outcome.failed e) refl;
    chain = λ s t u o h k. Grows-trans s t u returned o h k;
  }

  Grows-append :
      (s : State N) (es : List (String × Value N))
      → AllValid es
      → Grows s returned (append_emits es s)
  unfolding append_emits
  Grows-append s es h = record { added = es; emits = refl; valid = h }

-- What a service emits is valid.
abbrev EmitsValid : {N A : Type 0} → Result (Failure N) (A × List (String × Value N)) → Type 0
EmitsValid = OnOk (λ out. AllValid out.1)

abbrev ServiceValid : {N : Type 0} → Service N → Type 0
ServiceValid {N} service =
    (name : String) (m : Entries N) (g : Engine N) → EmitsValid (service name m g).0

result-EmitsValid :
    (P : Platform) (r : Result (Failure P.Number) (Unit {0})) (c : Ctx P.Number)
    → AllValid c.emits
    → EmitsValid (service_result P r c)
unfolding service_result
result-EmitsValid P (ok u) c h = h
result-EmitsValid P (err e) c h = tt

module _ (P : Platform) (service : Service P.Number) (h : ServiceValid service) where
  appends-Grow :
      (s : State P.Number) (r : Result (Failure P.Number) (Json P × List (String × Json P)))
      → EmitsValid r
      → OnOk (λ out. Grows s returned (append_emits out.1 s)) r
  appends-Grow s (ok out) v = Grows-append s out.1 v
  appends-Grow s (err e) v = tt

  invokes-Grow : InvokesKeep P service Grows
  unfolding on_engine
  invokes-Grow name m =
      invoke_service-Keeps P.Number grows service name m
        (record { at = λ s. Grows-same s _ _ refl }) λ s. appends-Grow _ _ (h name m s.engine)

  assigns-Grow : (t : State P.Number) (f : Map P → Map P) → Grows t returned (set_vars f t)
  unfolding set_vars
  assigns-Grow t f = Grows-same t (set_vars f t) returned refl

  exec_block-Grows : (b : Block P.Number) → Keeps Grows (exec_block P service b)
  unfolding set_response
  exec_block-Grows b =
      exec_block-Keeps P service Grows
        (record {
          evaluation = record {
            composes = grows;
            scoped_keeps = scoped-Keeps P grows assigns-Grow;
          };
          assigns = assigns-Grow;
          responds = λ t st v. Grows-same t (set_response st v t) returned refl;
        })
        b
        λ w. record {
          invokes = invokes-Grow;
          emits = λ t s p v. Grows-append t ((s, p) ∷ []) (v, tt);
        }

  -- From a context with no emits, all emits are the added ones.
  exec_block-AllValid :
      (b : Block P.Number) (s : State P.Number)
      → s.ctx.emits ≡ []
      → AllValid (exec_block P service b s).1.ctx.emits
  exec_block-AllValid b s e =
      let g = (exec_block-Grows b).at s in
      subst AllValid (sym (g.emits ∙ ap (λ es. es ++ g.added) e)) g.valid

  run_stmts-EmitsValid :
      (pkg : String) (args : Map P) (stmts : Block P.Number) (g : Engine P.Number)
      → EmitsValid (run_stmts P service pkg args stmts g).0
  unfolding run_stmts
  run_stmts-EmitsValid pkg args stmts g =
      let start : State P.Number = record {
        ctx = service_ctx P args;
        engine = record g { caller_pkg = pkg };
      } in
      let (r, s) = exec_block P service stmts start in
      result-EmitsValid P r s.ctx (exec_block-AllValid stmts start refl)

  run_loaded-EmitsValid :
      (pkg : String) (args : Map P) (r : Result (Failure P.Number) (Block P.Number))
      (k : Engine P.Number)
      → EmitsValid (run_loaded P service pkg args (r, k)).0
  unfolding run_loaded
  run_loaded-EmitsValid pkg args (ok stmts) k = run_stmts-EmitsValid pkg args stmts k
  run_loaded-EmitsValid pkg args (err e) k = tt

  enter_service-EmitsValid :
      (sources : Sources P.Number) (args : Map P) (r : Result (Failure P.Number) (String × String))
      (k : Engine P.Number)
      → EmitsValid (enter_service P sources service args (r, k)).0
  unfolding enter_service
  enter_service-EmitsValid sources args (ok (pkg, svc)) k = run_loaded-EmitsValid pkg args _ _
  enter_service-EmitsValid sources args (err e) k = tt

run_service-ServiceValid :
    (P : Platform) (sources : Sources P.Number) (fuel : ℕ)
    → ServiceValid (run_service P sources fuel)
unfolding run_service
run_service-ServiceValid P sources zero name m g = tt
run_service-ServiceValid P sources (suc fuel) name m g = elim (Bool-cases (leb 32 g.depth)) [
  | inl deep ↦ rw deep tt
  | inr room ↦ rw room (
      enter_service-EmitsValid P (run_service P sources fuel)
        (run_service-ServiceValid P sources fuel) sources m _ _)
]

finished-AllValid :
    (P : Platform) (r : Result (Failure P.Number) (Unit {0})) (c : Ctx P.Number)
    → AllValid c.emits
    → OnOk (λ (d : Ctx P.Number). AllValid d.emits) (finished P r c)
unfolding finished
finished-AllValid P (ok u) c h = h
finished-AllValid P (err e) c h = tt

-- Every emit of a run that succeeds, those of the services that it invokes included, has a subject
-- that can go on the wire.
pub run-AllValid :
    (P : Platform) (sources : Sources P.Number) (prog : Program P.Number) (event : Json P)
    (g : Engine P.Number)
    → OnOk (λ (c : Ctx P.Number). AllValid c.emits) (run P sources prog event g).0
unfolding run
run-AllValid P sources prog event g =
    let start : State P.Number = record { ctx = run_ctx P event; engine = g } in
    let service = run_service P sources 33 in
    let (r, s) = exec_block P service prog.stmts start in
    finished-AllValid P r s.ctx
      (exec_block-AllValid P service (run_service-ServiceValid P sources 33) prog.stmts start refl)
