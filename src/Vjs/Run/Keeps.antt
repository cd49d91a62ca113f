-- ===== src/Vjs/Run/Keeps.antt =====
-- What holds of every run of statements, by induction on the syntax: beside the laws of evaluation,
-- a relation that assignments and responses keep, and that invokes and emits keep if the block has
-- any.
use vejas.Base.{String, ◌≡◌, refl, true, ◌||◌, [], ◌∷◌, arith}
use vejas.Exec.{ok, Outcome, returned, OnErr, modify}
use vejas.Exec.Keeps.{Keeps, Keeps-bind, Keeps-bind-lift, Keeps-modify, keeps_rules}
use vejas.Vjs.Value.{Value, Platform, Json, Map, Items, array, no_items, item}
use vejas.Vjs.Text.{valid_subject}
use vejas.Vjs.Ast.{
  Stmt, Block, Arms, Otherwise, assign, if_stmt, for_stmt, emit, respond, invoke_merge, end_block,
  stmt, no_arms, arm, absent, otherwise,
}
use vejas.Vjs.Failure.{Failure, Raised}
use vejas.Vjs.Static.{
  expr_writes_bus, stmts_write_bus, stmt_writes_bus, arms_write_bus, otherwise_writes_bus,
}
use vejas.Vjs.Eval.{State, Run, Service, set_vars, append_emits}
use vejas.Vjs.Eval.Keeps.{InvokesKeep, EvalLaws, eval-Keeps, eval_fields-Keeps, or_left, or_right}
use vejas.Vjs.Run.{
  set_response, emit_subject, for_items, for_each, exec_block, exec_stmt, exec_arms, exec_otherwise,
}

pub emit_subject-valid :
    {N : Type 0} (v : Value N) (s : String) → emit_subject v ≡ ok s → valid_subject s ≡ true
unfolding emit_subject
emit_subject-valid (Value.string t) s h = ground arith
emit_subject-valid _ s h = ground arith

emit_subject-Raised : {N : Type 0} (v : Value N) → OnErr Raised (emit_subject v)
unfolding emit_subject
emit_subject-Raised (Value.string t) = ground arith
emit_subject-Raised _ = refl

module _ (P : Platform) (service : Service P.Number)
    (R : State P.Number → Outcome (Failure P.Number) → State P.Number → Type 0) where
  -- A valid subject's emit keeps the relation.
  abbrev pub EmitsKeep : Type 0
  EmitsKeep =
      (t : State P.Number) (s : String) (p : Json P)
      → valid_subject s ≡ true
      → R t returned (append_emits ((s, p) ∷ []) t)

  pub record BusLaws : Type 0 where
    pub invokes : InvokesKeep P service R
    pub emits : EmitsKeep

  pub record ExecLaws : Type 0 where
    pub evaluation : EvalLaws P service R
    pub assigns : (t : State P.Number) (f : Map P → Map P) → R t returned (set_vars f t)
    pub responds : (t : State P.Number) (st b : Json P) → R t returned (set_response st b t)

  module _ (laws : ExecLaws) where
    assigns-Keeps : (f : Map P → Map P) → Keeps R (modify {E = Failure P.Number} (set_vars f))
    assigns-Keeps f = Keeps-modify (set_vars f) (λ t. laws.assigns t f)

    responds-Keeps : (st b : Json P) → Keeps R (modify {E = Failure P.Number} (set_response st b))
    responds-Keeps st b = Keeps-modify (set_response st b) (λ t. laws.responds t st b)

    for_items-Keeps :
        (x : String) (body : Run P.Number (Unit {0})) (vs : Items P.Number)
        → Keeps R body
        → Keeps R (for_items P x body vs)
    unfolding for_items
    for_items-Keeps x body no_items h = search (keeps_rules, laws.evaluation.composes)
    for_items-Keeps x body (item v vs) h =
        Keeps-bind laws.evaluation.composes _ _ (assigns-Keeps _)
          (λ u. Keeps-bind laws.evaluation.composes _ _ h (λ w. for_items-Keeps x body vs h))

    for_each-Keeps :
        (x : String) (body : Run P.Number (Unit {0})) (v : Json P)
        → Keeps R body
        → Keeps R (for_each P x body v)
    unfolding for_each
    for_each-Keeps x body (array vs) h = for_items-Keeps x body vs h
    for_each-Keeps x body _ h = search (keeps_rules, laws.evaluation.composes)

    mutual
      unfolding exec_block stmts_write_bus

      pub exec_block-Keeps :
          (b : Block P.Number)
          → (stmts_write_bus b ≡ true → BusLaws)
          → Keeps R (exec_block P service b)
      exec_block-Keeps end_block h = search (keeps_rules, laws.evaluation.composes)
      exec_block-Keeps (stmt s b) h =
          Keeps-bind laws.evaluation.composes _ _
            (exec_stmt-Keeps s (or_left (stmt_writes_bus s) (stmts_write_bus b) h))
            (λ u. exec_block-Keeps b (or_right (stmt_writes_bus s) (stmts_write_bus b) h))

      exec_stmt-Keeps :
          (s : Stmt P.Number)
          → (stmt_writes_bus s ≡ true → BusLaws)
          → Keeps R (exec_stmt P service s)
      exec_stmt-Keeps (assign path e) h = search (
        keeps_rules,
        laws.evaluation.composes,
        assigns-Keeps,
        eval-Keeps P service R laws.evaluation e (λ w. (h w).invokes),
      )
      exec_stmt-Keeps (invoke_merge name args) h = search (
        keeps_rules,
        laws.evaluation.composes,
        assigns-Keeps,
        (h refl).invokes,
        eval_fields-Keeps P service R laws.evaluation args (λ w. (h refl).invokes),
      )
      exec_stmt-Keeps (if_stmt arms other) h =
          exec_arms-Keeps arms _ (or_left (arms_write_bus arms) (otherwise_writes_bus other) h) (
            exec_otherwise-Keeps other
              (or_right (arms_write_bus arms) (otherwise_writes_bus other) h))
      exec_stmt-Keeps (for_stmt x iter body) h =
          Keeps-bind laws.evaluation.composes _ _
            (eval-Keeps P service R laws.evaluation iter
              (λ w. (or_left (expr_writes_bus iter) (stmts_write_bus body) h w).invokes))
            (λ v.
              for_each-Keeps x _ v
                (exec_block-Keeps body (or_right (expr_writes_bus iter) (stmts_write_bus body) h)))
      exec_stmt-Keeps (emit subj payload) h =
          Keeps-bind laws.evaluation.composes _ _
            (eval-Keeps P service R laws.evaluation subj (λ w. (h refl).invokes))
            (λ v.
              Keeps-bind-lift laws.evaluation.composes (emit_subject v) _ (emit_subject-Raised v)
                (λ s good.
                  Keeps-bind laws.evaluation.composes _ _
                    (eval-Keeps P service R laws.evaluation payload (λ w. (h refl).invokes))
                    (λ p.
                      Keeps-modify _ (λ t. (h refl).emits t s p (emit_subject-valid v s good)))))
      exec_stmt-Keeps (respond status body) h = search (
        keeps_rules,
        laws.evaluation.composes,
        responds-Keeps,
        eval-Keeps P service R laws.evaluation status
            (λ w. (or_left (expr_writes_bus status) (expr_writes_bus body) h w).invokes),
        eval-Keeps P service R laws.evaluation body
            (λ w. (or_right (expr_writes_bus status) (expr_writes_bus body) h w).invokes),
      )

      exec_arms-Keeps :
          (arms : Arms P.Number) (other : Run P.Number (Unit {0}))
          → (arms_write_bus arms ≡ true → BusLaws)
          → Keeps R other
          → Keeps R (exec_arms P service arms other)
      exec_arms-Keeps no_arms other h k = k
      exec_arms-Keeps (arm cond span body rest) other h k =
          let here =
            or_left (expr_writes_bus cond || stmts_write_bus body) (arms_write_bus rest) h in
          search (
            keeps_rules,
            laws.evaluation.composes,
            eval-Keeps P service R laws.evaluation cond
                (λ w. (or_left (expr_writes_bus cond) (stmts_write_bus body) here w).invokes),
            exec_block-Keeps body (or_right (expr_writes_bus cond) (stmts_write_bus body) here),
            exec_arms-Keeps rest other
                (or_right (expr_writes_bus cond || stmts_write_bus body) (arms_write_bus rest) h) k,
          )

      exec_otherwise-Keeps :
          (other : Otherwise P.Number)
          → (otherwise_writes_bus other ≡ true → BusLaws)
          → Keeps R (exec_otherwise P service other)
      exec_otherwise-Keeps absent h = search (keeps_rules, laws.evaluation.composes)
      exec_otherwise-Keeps (otherwise body) h = exec_block-Keeps body h
