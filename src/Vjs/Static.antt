-- ===== src/Vjs/Static.antt =====
-- What is read off a program without running it (core/src/vjs.rs): whether it can write to the bus,
-- the subjects and services that the panel draws, and the secrets that it names.
pub mod Secret
pub mod Graph
use vejas.Base.{Bool, true, false, ◌||◌}
use vejas.Vjs.Ast.{
  Expr, Exprs, Fields, Parts, Stmt, Block, Arms, Otherwise, Program, lit, f_string, var, doc, array,
  field, index, projection, filter, call, invoke, unary, bin, no_exprs, expr, no_fields, named,
  no_parts, text, hole, assign, if_stmt, for_stmt, emit, respond, invoke_merge, end_block, stmt,
  no_arms, arm, absent, otherwise,
}

module _ {N : Type 0} where
  unfoldable mutual
    pub expr_writes_bus : Expr N → Bool
    expr_writes_bus (invoke name args) = true
    expr_writes_bus (lit v) = false
    expr_writes_bus (var name) = false
    expr_writes_bus (f_string parts) = parts_write_bus parts
    expr_writes_bus (doc fields) = fields_write_bus fields
    expr_writes_bus (array es) = exprs_write_bus es
    expr_writes_bus (field b f safe) = expr_writes_bus b
    expr_writes_bus (index a b) = expr_writes_bus a || expr_writes_bus b
    expr_writes_bus (projection b) = expr_writes_bus b
    expr_writes_bus (filter a b) = expr_writes_bus a || expr_writes_bus b
    expr_writes_bus (call name args) = exprs_write_bus args
    expr_writes_bus (unary op b) = expr_writes_bus b
    expr_writes_bus (bin op a b) = expr_writes_bus a || expr_writes_bus b

    pub exprs_write_bus : Exprs N → Bool
    exprs_write_bus no_exprs = false
    exprs_write_bus (expr e es) = expr_writes_bus e || exprs_write_bus es

    pub fields_write_bus : Fields N → Bool
    fields_write_bus no_fields = false
    fields_write_bus (named k e fs) = expr_writes_bus e || fields_write_bus fs

    pub parts_write_bus : Parts N → Bool
    parts_write_bus no_parts = false
    parts_write_bus (text l ps) = parts_write_bus ps
    parts_write_bus (hole e ps) = expr_writes_bus e || parts_write_bus ps

  unfoldable mutual
    pub stmts_write_bus : Block N → Bool
    stmts_write_bus end_block = false
    stmts_write_bus (stmt s b) = stmt_writes_bus s || stmts_write_bus b

    pub stmt_writes_bus : Stmt N → Bool
    stmt_writes_bus (emit subj payload) = true
    stmt_writes_bus (invoke_merge name args) = true
    stmt_writes_bus (assign path e) = expr_writes_bus e
    stmt_writes_bus (respond status body) = expr_writes_bus status || expr_writes_bus body
    stmt_writes_bus (if_stmt arms other) = arms_write_bus arms || otherwise_writes_bus other
    stmt_writes_bus (for_stmt x iter body) = expr_writes_bus iter || stmts_write_bus body

    pub arms_write_bus : Arms N → Bool
    arms_write_bus no_arms = false
    arms_write_bus (arm cond span body rest) =
        (expr_writes_bus cond || stmts_write_bus body) || arms_write_bus rest

    pub otherwise_writes_bus : Otherwise N → Bool
    otherwise_writes_bus absent = false
    otherwise_writes_bus (otherwise body) = stmts_write_bus body

  unfoldable pub writes_bus : Program N → Bool
  unfolding stmts_write_bus
  writes_bus prog = stmts_write_bus prog.stmts
