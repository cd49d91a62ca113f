-- ===== src/Vjs/Run/Silent.antt =====
-- The write gate (core/src/vjs.rs, `Program::writes_bus`): a program that it lets pass as a pure
-- read emits nothing and invokes nothing, whatever the event.
use vejas.Base.{◌≡◌, refl, ◌∙◌, false, []}
use vejas.Exec.{Result, ok, err, Outcome, returned, OnOk}
use vejas.Exec.Keeps.{Composes, Keeps}
use vejas.Vjs.Failure.{Failure, Raised}
use vejas.Vjs.Value.{Platform, Json, Map}
use vejas.Vjs.Ast.{Block, Program}
use vejas.Vjs.Static.{writes_bus, stmts_write_bus}
use vejas.Vjs.Engine.{Sources, Engine}
use vejas.Vjs.Eval.{State, Ctx, Service, set_vars}
use vejas.Vjs.Eval.Keeps.{scoped-Keeps}
use vejas.Vjs.Run.{exec_block, run_service, run, finished, run_ctx, set_response}
use vejas.Vjs.Run.Keeps.{exec_block-Keeps}

-- Neither the emits nor the engine changed.
pub record Silent {N : Type 0} (s : State N) (o : Outcome (Failure N)) (t : State N) : Type 0 where
  pub emits : t.ctx.emits ≡ s.ctx.emits
  pub engine : t.engine ≡ s.engine

silent : {N : Type 0} → Composes Raised (Silent {N = N})
silent = record {
  same = λ s. record { emits = refl; engine = refl };
  fails = λ s e h. record { emits = refl; engine = refl };
  chain = λ s t u o h k. record { emits = k.emits ∙ h.emits; engine = k.engine ∙ h.engine };
}

module _ (P : Platform) (service : Service P.Number) where
  assigns-Silent : (t : State P.Number) (f : Map P → Map P) → Silent t returned (set_vars f t)
  unfolding set_vars
  assigns-Silent t f = record { emits = refl; engine = refl }

  -- Whatever the services would do.
  exec_block-Silent :
      (b : Block P.Number) → stmts_write_bus b ≡ false → Keeps Silent (exec_block P service b)
  unfolding set_response
  exec_block-Silent b h =
      exec_block-Keeps P service Silent
        (record {
          evaluation = record {
            composes = silent;
            scoped_keeps = scoped-Keeps P silent assigns-Silent;
          };
          assigns = assigns-Silent;
          responds = λ t st v. record { emits = refl; engine = refl };
        })
        b λ w. absurd (cc (h, w))

finished-emits :
    (P : Platform) (r : Result (Failure P.Number) (Unit {0})) (c : Ctx P.Number)
    → c.emits ≡ []
    → OnOk (λ (d : Ctx P.Number). d.emits ≡ []) (finished P r c)
unfolding finished
finished-emits P (ok u) c h = h
finished-emits P (err e) c h = tt

-- If `writes_bus` is false of a program, then every run of it leaves the engine as it was, also a
-- run that fails, and a run that succeeds has emitted nothing.
pub run-silent :
    (P : Platform) (sources : Sources P.Number) (prog : Program P.Number) (event : Json P)
    (g : Engine P.Number)
    → writes_bus prog ≡ false
    → ((run P sources prog event g).1 ≡ g)
      × OnOk (λ (c : Ctx P.Number). c.emits ≡ []) (run P sources prog event g).0
unfolding run writes_bus
run-silent P sources prog event g h =
    let start : State P.Number = record { ctx = run_ctx P event; engine = g } in
    let service = run_service P sources 33 in
    let quiet = (exec_block-Silent P service prog.stmts h).at start in
    let (r, s) = exec_block P service prog.stmts start in
    (quiet.engine, finished-emits P r s.ctx quiet.emits)
