-- ===== src/Vjs/Run.antt =====
-- Statements, services and whole runs (core/src/vjs.rs, `exec_block`, `set_path`, `run_service`,
-- `run`).
pub mod Keeps
pub mod Cached
pub mod Nesting
pub mod Emits
pub mod Silent
pub mod Assign
pub mod Shadow
use vejas.Base.{
  ℕ, zero, suc, ◌+◌, ◌-◌, String, none, some, List, [], ◌∷◌, leb, unwrap_or, if◌then◌else◌,
}
use vejas.Exec.{Result, ok, err, pure, lift, modify, ◌>>=◌, ◌>>◌}
use vejas.Vjs.Value.{
  Value, Items, Entries, Platform, Json, Map, string, array, object, no_items, item, no_entries,
  get, truthy,
}
use vejas.Vjs.Text.{valid_subject}
use vejas.Vjs.Ast.{
  Stmt, Block, Arms, Otherwise, Program, assign, if_stmt, for_stmt, emit, respond, invoke_merge,
  end_block, stmt, no_arms, arm, absent, otherwise,
}
use vejas.Vjs.Failure.{Failure, subject_not_string, invalid_subject, invoke_depth, exhausted}
use vejas.Vjs.Engine.{Sources, Engine, EngineRun, resolve, service_stmts}
use vejas.Vjs.Eval.{
  Ctx, State, Run, Service, set_vars, append_emits, invoke_service, insert_all, eval, eval_fields,
}

-- The subject of an `emit`: a text that can go on the wire, or the run fails.
unfoldable pub emit_subject : {N : Type 0} → Value N → Result (Failure N) String
emit_subject (string s) = if valid_subject s then ok s else err (invalid_subject s)
emit_subject other = err (subject_not_string other)

module _ {N : Type 0} where
  unfoldable pub set_response : Value N → Value N → State N → State N
  set_response st b s = record s { ctx = record (s.ctx) { response = some (st, b) } }

  -- What an entry's value is written into: an object, and any other value is replaced by one.
  unfoldable pub as_map : Value N → Entries N
  as_map (object m) = m
  as_map _ = no_entries

  -- `depth` is up while a service runs, and the package is the service's own.
  unfoldable pub enter : Engine N → Engine N
  enter g = record g { depth = g.depth + 1 }

  unfoldable pub leave : String → Engine N → Engine N
  leave caller g = record g { caller_pkg = caller; depth = g.depth - 1 }

module _ (P : Platform) where
  unfoldable pub set_path : List String → Json P → Json P → Json P
  unfolding as_map
  set_path [] v root = root
  set_path (k ∷ []) v root = object (P.insert k v (as_map root))
  set_path (k ∷ (j ∷ rest)) v root = object (
      P.insert k (set_path (j ∷ rest) v (unwrap_or (get k (as_map root)) (object no_entries)))
        (as_map root))

  -- `x = v` and `a.b.c = v`. The parser gives an assignment a path that is not empty.
  unfoldable pub assign_path : List String → Json P → Map P → Map P
  assign_path [] v vars = vars
  assign_path (k ∷ []) v vars = P.insert k v vars
  assign_path (k ∷ (j ∷ rest)) v vars =
      P.insert k (set_path (j ∷ rest) v (unwrap_or (get k vars) (object no_entries))) vars

  -- A merged service's document becomes variables.
  unfoldable pub merge_vars : Json P → Map P → Map P
  merge_vars (object o) vars = insert_all P o vars
  merge_vars _ vars = vars

  unfoldable pub for_items :
      String → Run P.Number (Unit {0}) → Items P.Number → Run P.Number (Unit {0})
  for_items var body no_items = pure tt
  for_items var body (item v vs) = do
    modify (set_vars (P.insert var v))
    body
    for_items var body vs

  -- A loop over anything but an array does nothing.
  unfoldable pub for_each : String → Run P.Number (Unit {0}) → Json P → Run P.Number (Unit {0})
  for_each var body (array items) = for_items var body items
  for_each var body _ = pure tt

  module _ (service : Service P.Number) where
    unfoldable mutual
      pub exec_block : Block P.Number → Run P.Number (Unit {0})
      exec_block end_block = pure tt
      exec_block (stmt s b) = do exec_stmt s; exec_block b

      pub exec_stmt : Stmt P.Number → Run P.Number (Unit {0})
      exec_stmt (assign path e) = do v ← eval P service e; modify (set_vars (assign_path path v))
      exec_stmt (invoke_merge name args) = do
        m ← eval_fields P service args no_entries
        out ← invoke_service service name m
        modify (set_vars (merge_vars out))
      exec_stmt (if_stmt arms other) = exec_arms arms (exec_otherwise other)
      exec_stmt (for_stmt var iter body) = do
        items ← eval P service iter
        for_each var (exec_block body) items
      exec_stmt (emit subj payload) = do
        v ← eval P service subj
        s ← lift (emit_subject v)
        p ← eval P service payload
        modify (append_emits ((s, p) ∷ []))
      exec_stmt (respond status body) = do
        st ← eval P service status
        b ← eval P service body
        modify (set_response st b)

      -- The first arm whose condition holds, or `other`.
      pub exec_arms : Arms P.Number → Run P.Number (Unit {0}) → Run P.Number (Unit {0})
      exec_arms no_arms other = other
      exec_arms (arm cond span body rest) other = do
        v ← eval P service cond
        if truthy P v then exec_block body else exec_arms rest other

      pub exec_otherwise : Otherwise P.Number → Run P.Number (Unit {0})
      exec_otherwise absent = pure tt
      exec_otherwise (otherwise body) = exec_block body

  -- What a service hands back: its variables without `event`, and its emits.
  unfoldable pub service_result :
      Result (Failure P.Number) (Unit {0})
      → Ctx P.Number
      → Result (Failure P.Number) (Json P × List (String × Json P))
  service_result (ok u) c = ok (object (P.remove "event" c.vars), c.emits)
  service_result (err e) c = err e

  unfoldable pub service_ctx : Map P → Ctx P.Number
  service_ctx args = record {
    vars = P.insert "event" (object args) args;
    emits = [];
    response = none;
  }

  -- A service's statements, in its own package; the caller's is put back, errors included.
  unfoldable pub run_stmts :
      Service P.Number
      → String
      → Map P
      → Block P.Number
      → EngineRun P.Number (Json P × List (String × Json P))
  unfolding service_ctx service_result leave
  run_stmts service pkg args stmts g =
      let start : State P.Number = record {
        ctx = service_ctx args;
        engine = record g { caller_pkg = pkg };
      } in
      let (r, s) = exec_block service stmts start in
      (service_result r s.ctx, leave g.caller_pkg s.engine)

  -- The service's statements are loaded with the depth up, and a failure takes it down again.
  unfoldable pub run_loaded :
      Service P.Number
      → String
      → Map P
      → Result (Failure P.Number) (Block P.Number) × Engine P.Number
      → Result (Failure P.Number) (Json P × List (String × Json P)) × Engine P.Number
  unfolding run_stmts leave
  run_loaded service pkg args (ok stmts, g) = run_stmts service pkg args stmts g
  run_loaded service pkg args (err e, g) = (err e, leave g.caller_pkg g)

  -- A document's fields are variables, and `event` is all of it.
  event_vars : Json P → Map P
  event_vars (object m) = insert_all P m no_entries
  event_vars _ = no_entries

  unfoldable pub run_ctx : Json P → Ctx P.Number
  unfolding event_vars
  run_ctx event = record {
    vars = P.insert "event" event (event_vars event);
    emits = [];
    response = none;
  }

  unfoldable pub finished :
      Result (Failure P.Number) (Unit {0}) → Ctx P.Number → Result (Failure P.Number) (Ctx P.Number)
  finished (ok u) c = ok c
  finished (err e) c = err e

  -- A resolved reference is entered, and its statements are loaded and run.
  module _ (sources : Sources P.Number) where
    unfoldable pub enter_service :
        Service P.Number
        → Map P
        → Result (Failure P.Number) (String × String) × Engine P.Number
        → Result (Failure P.Number) (Json P × List (String × Json P)) × Engine P.Number
    unfolding run_loaded enter
    enter_service service args (ok (pkg, svc), g) =
        run_loaded service pkg args (service_stmts sources pkg svc (enter g))
    enter_service service args (err e, g) = (err e, g)

    -- `fuel` bounds the nesting of services.
    unfoldable pub run_service : ℕ → Service P.Number
    unfolding enter_service
    run_service zero name args g = (err exhausted, g)
    run_service (suc fuel) name args g =
        let rest = run_service fuel in
        if leb 32 g.depth
        then (err (invoke_depth name), g)
        else enter_service rest args (resolve sources name g)

    -- `run(prog, event, engine)`: services nest 32 deep at most, so 33 units of fuel are enough.
    unfoldable pub run : Program P.Number → Json P → EngineRun P.Number (Ctx P.Number)
    unfolding finished run_ctx
    run prog event g =
        let (r, s) =
          exec_block (run_service 33) prog.stmts (record { ctx = run_ctx event; engine = g }) in
        (finished r s.ctx, s.engine)
