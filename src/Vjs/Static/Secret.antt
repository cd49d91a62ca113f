-- ===== src/Vjs/Static/Secret.antt =====
-- Static secret references (core/src/vjs.rs, `walk_expr` and `walk_stmts` of `Parser::program`).
pub mod Exhaustive
use vejas.Base.{
  String, Bool, ◌&&◌, Option, none, some, List, [], ◌∷◌, ◌++◌, any, str_eq, if◌then◌else◌,
}
use vejas.Vjs.Text.{join}
use vejas.Vjs.Value.{string}
use vejas.Vjs.Ast.{
  Expr, Exprs, Fields, Parts, Stmt, Block, Arms, Otherwise, lit, f_string, var, doc, array, field,
  index, projection, filter, call, invoke, unary, bin, no_exprs, expr, no_fields, named, no_parts,
  text, hole, assign, if_stmt, for_stmt, emit, respond, invoke_merge, end_block, stmt, no_arms, arm,
  absent, otherwise,
}

abbrev pub Refs : Type 0
Refs = List (String × String)

-- `out.contains(&entry)`
abbrev pub has_ref : String → String → Refs → Bool
has_ref ctx r out = any (λ p. str_eq p.0 ctx && str_eq p.1 r) out

unfoldable pub push_ref : String → String → Refs → Refs
push_ref ctx r out = if has_ref ctx r out then out else out ++ ((ctx, r) ∷ [])

push_first : String → Option String → Refs → Refs
push_first ctx none out = out
push_first ctx (some r) out = push_ref ctx r out

module _ {N : Type 0} where
  -- The first argument, where it is a text literal.
  unfoldable pub first_literal : Exprs N → Option String
  first_literal (expr (lit (string r)) es) = some r
  first_literal _ = none

  unfoldable pub note_call : String → String → Exprs N → Refs → Refs
  unfolding push_first
  note_call name ctx args out =
      if str_eq name "secret" then push_first ctx (first_literal args) out else out

  unfoldable mutual
    pub walk_expr : Expr N → String → Refs → Refs
    walk_expr (call name args) ctx out = walk_exprs args ctx (note_call name ctx args out)
    walk_expr (f_string parts) ctx out = walk_parts parts ctx out
    walk_expr (doc fields) ctx out = walk_fields fields ctx out
    walk_expr (array items) ctx out = walk_exprs items ctx out
    walk_expr (field b f safe) ctx out = walk_expr b ctx out
    walk_expr (projection b) ctx out = walk_expr b ctx out
    walk_expr (unary op b) ctx out = walk_expr b ctx out
    walk_expr (index a b) ctx out = walk_expr b ctx (walk_expr a ctx out)
    walk_expr (filter a b) ctx out = walk_expr b ctx (walk_expr a ctx out)
    walk_expr (bin op a b) ctx out = walk_expr b ctx (walk_expr a ctx out)
    walk_expr (invoke name args) ctx out = walk_fields args ctx out
    walk_expr (lit v) ctx out = out
    walk_expr (var name) ctx out = out

    pub walk_exprs : Exprs N → String → Refs → Refs
    walk_exprs no_exprs ctx out = out
    walk_exprs (expr e es) ctx out = walk_exprs es ctx (walk_expr e ctx out)

    pub walk_fields : Fields N → String → Refs → Refs
    walk_fields no_fields ctx out = out
    walk_fields (named k e fs) ctx out = walk_fields fs ctx (walk_expr e ctx out)

    pub walk_parts : Parts N → String → Refs → Refs
    walk_parts no_parts ctx out = out
    walk_parts (text l ps) ctx out = walk_parts ps ctx out
    walk_parts (hole e ps) ctx out = walk_parts ps ctx (walk_expr e ctx out)

  unfoldable mutual
    pub walk_stmts : Block N → Refs → Refs
    walk_stmts end_block out = out
    walk_stmts (stmt s b) out = walk_stmts b (walk_stmt s out)

    pub walk_stmt : Stmt N → Refs → Refs
    walk_stmt (assign path e) out = walk_expr e (join path ".") out
    walk_stmt (emit a b) out = walk_expr b "emit" (walk_expr a "emit" out)
    walk_stmt (respond a b) out = walk_expr b "respond" (walk_expr a "respond" out)
    walk_stmt (invoke_merge name args) out = walk_fields args "invoke" out
    walk_stmt (if_stmt arms els) out = walk_otherwise els (walk_arms arms out)
    walk_stmt (for_stmt x it b) out = walk_stmts b (walk_expr it "for" out)

    pub walk_arms : Arms N → Refs → Refs
    walk_arms no_arms out = out
    walk_arms (arm c span b rest) out = walk_arms rest (walk_stmts b (walk_expr c "if" out))

    pub walk_otherwise : Otherwise N → Refs → Refs
    walk_otherwise absent out = out
    walk_otherwise (otherwise b) out = walk_stmts b out
