-- ===== src/Vjs/Static/Secret/Exhaustive.antt =====
-- The secret inventory is exact (core/src/vjs.rs, `walk_expr`, `walk_stmts`): what it lists are the
-- references of the program's `secret("…")` calls, wherever they stand.
use vejas.Base.{
  String, ◌≡◌, refl, Bool, true, false, ◌||◌, Option, none, some, [], ◌∷◌, ◌++◌, any, str_eq,
  eq_iff, arith, if◌then◌else◌, Bool-cases, inl, inr,
}
use vejas.Vjs.Value.{Value}
use vejas.Vjs.Ast.{
  Expr, Exprs, Fields, Parts, Stmt, Block, Arms, Otherwise, lit, f_string, var, doc, array, field,
  index, projection, filter, call, invoke, unary, bin, no_exprs, expr, no_fields, named, no_parts,
  text, hole, assign, if_stmt, for_stmt, emit, respond, invoke_merge, end_block, stmt, no_arms, arm,
  absent, otherwise,
}
use vejas.Vjs.Static.Secret.{
  Refs, has_ref, push_ref, first_literal, note_call, walk_expr, walk_exprs, walk_fields, walk_parts,
  walk_stmts, walk_stmt, walk_arms, walk_otherwise,
}

-- The inventory lists the reference, under some context.
abbrev pub listed : String → Refs → Bool
listed r out = any (λ p. str_eq p.1 r) out

-- The specification: whether a secret's reference is the first argument of a `secret` call.
abbrev is_reference : String → Option String → Bool
is_reference r none = false
is_reference r (some s) = str_eq s r

module _ {N : Type 0} (r : String) where
  abbrev is_call : String → Exprs N → Bool
  is_call name args = if str_eq name "secret" then is_reference r (first_literal args) else false

  unfoldable mutual
    pub expr_names : Expr N → Bool
    expr_names (call name args) = is_call name args || exprs_name args
    expr_names (f_string ps) = parts_name ps
    expr_names (doc fs) = fields_name fs
    expr_names (array es) = exprs_name es
    expr_names (field b f safe) = expr_names b
    expr_names (projection b) = expr_names b
    expr_names (unary op b) = expr_names b
    expr_names (index a b) = expr_names a || expr_names b
    expr_names (filter a b) = expr_names a || expr_names b
    expr_names (bin op a b) = expr_names a || expr_names b
    expr_names (invoke name args) = fields_name args
    expr_names (lit v) = false
    expr_names (var name) = false

    pub exprs_name : Exprs N → Bool
    exprs_name no_exprs = false
    exprs_name (expr e es) = expr_names e || exprs_name es

    pub fields_name : Fields N → Bool
    fields_name no_fields = false
    fields_name (named k e fs) = expr_names e || fields_name fs

    pub parts_name : Parts N → Bool
    parts_name no_parts = false
    parts_name (text l ps) = parts_name ps
    parts_name (hole e ps) = expr_names e || parts_name ps

  unfoldable mutual
    pub block_names : Block N → Bool
    block_names end_block = false
    block_names (stmt s b) = stmt_names s || block_names b

    pub stmt_names : Stmt N → Bool
    stmt_names (assign path e) = expr_names e
    stmt_names (emit a b) = expr_names a || expr_names b
    stmt_names (respond a b) = expr_names a || expr_names b
    stmt_names (invoke_merge name args) = fields_name args
    stmt_names (if_stmt arms els) = arms_name arms || otherwise_names els
    stmt_names (for_stmt x it b) = expr_names it || block_names b

    pub arms_name : Arms N → Bool
    arms_name no_arms = false
    arms_name (arm c span b rest) = (expr_names c || block_names b) || arms_name rest

    pub otherwise_names : Otherwise N → Bool
    otherwise_names absent = false
    otherwise_names (otherwise b) = block_names b

listed-append : (r : String) (xs ys : Refs) → listed r (xs ++ ys) ≡ (listed r xs || listed r ys)
listed-append r [] ys = refl
listed-append r (x ∷ xs) ys = ground (arith, listed-append r xs ys)

has_ref-listed :
    (ctx s r : String) (out : Refs)
    → has_ref ctx s out ≡ true
    → str_eq s r ≡ true
    → listed r out ≡ true
has_ref-listed ctx s r [] h e = cc
has_ref-listed ctx s r (p ∷ out) h e =
    ground (arith, eq_iff s r, eq_iff p.1 s, eq_iff p.1 r, has_ref-listed ctx s r out)

listed-push_ref :
    (ctx s r : String) (out : Refs) → listed r (push_ref ctx s out) ≡ (listed r out || str_eq s r)
unfolding push_ref
listed-push_ref ctx s r out = elim (Bool-cases (has_ref ctx s out)) [
  | inl old ↦ rw old (ground (arith, has_ref-listed ctx s r out old))
  | inr new ↦ rw new (ground (arith, listed-append r out ((ctx, s) ∷ [])))
]

module _ {N : Type 0} (r : String) where
  listed-note_call :
      (name ctx : String) (args : Exprs N) (out : Refs)
      → listed r (note_call name ctx args out) ≡ (listed r out || is_call r name args)
  unfolding note_call first_literal
  listed-note_call name ctx no_exprs out = ground arith
  listed-note_call name ctx (expr (lit (Value.string s)) es) out =
      ground (arith, listed-push_ref ctx s r out)
  listed-note_call name ctx (expr (lit _) es) out = ground arith
  listed-note_call name ctx (expr _ es) out = ground arith

  mutual
    unfolding walk_expr expr_names

    listed-walk_expr :
        (e : Expr N) (ctx : String) (out : Refs)
        → listed r (walk_expr e ctx out) ≡ (listed r out || expr_names r e)
    listed-walk_expr (call name args) ctx out = ground (
      arith,
      listed-walk_exprs args ctx (note_call name ctx args out),
      listed-note_call name ctx args out,
    )
    listed-walk_expr (f_string ps) ctx out = listed-walk_parts ps ctx out
    listed-walk_expr (doc fs) ctx out = listed-walk_fields fs ctx out
    listed-walk_expr (array es) ctx out = listed-walk_exprs es ctx out
    listed-walk_expr (field b f safe) ctx out = listed-walk_expr b ctx out
    listed-walk_expr (projection b) ctx out = listed-walk_expr b ctx out
    listed-walk_expr (unary op b) ctx out = listed-walk_expr b ctx out
    listed-walk_expr (index a b) ctx out =
        ground (arith, listed-walk_expr b ctx (walk_expr a ctx out), listed-walk_expr a ctx out)
    listed-walk_expr (filter a b) ctx out =
        ground (arith, listed-walk_expr b ctx (walk_expr a ctx out), listed-walk_expr a ctx out)
    listed-walk_expr (bin op a b) ctx out =
        ground (arith, listed-walk_expr b ctx (walk_expr a ctx out), listed-walk_expr a ctx out)
    listed-walk_expr (invoke name args) ctx out = listed-walk_fields args ctx out
    listed-walk_expr (lit v) ctx out = ground arith
    listed-walk_expr (var name) ctx out = ground arith

    listed-walk_exprs :
        (es : Exprs N) (ctx : String) (out : Refs)
        → listed r (walk_exprs es ctx out) ≡ (listed r out || exprs_name r es)
    listed-walk_exprs no_exprs ctx out = ground arith
    listed-walk_exprs (expr e es) ctx out =
        ground (arith, listed-walk_exprs es ctx (walk_expr e ctx out), listed-walk_expr e ctx out)

    listed-walk_fields :
        (fs : Fields N) (ctx : String) (out : Refs)
        → listed r (walk_fields fs ctx out) ≡ (listed r out || fields_name r fs)
    listed-walk_fields no_fields ctx out = ground arith
    listed-walk_fields (named k e fs) ctx out =
        ground (arith, listed-walk_fields fs ctx (walk_expr e ctx out), listed-walk_expr e ctx out)

    listed-walk_parts :
        (ps : Parts N) (ctx : String) (out : Refs)
        → listed r (walk_parts ps ctx out) ≡ (listed r out || parts_name r ps)
    listed-walk_parts no_parts ctx out = ground arith
    listed-walk_parts (text l ps) ctx out = listed-walk_parts ps ctx out
    listed-walk_parts (hole e ps) ctx out =
        ground (arith, listed-walk_parts ps ctx (walk_expr e ctx out), listed-walk_expr e ctx out)

  mutual
    unfolding walk_stmts block_names

    walk-block :
        (b : Block N) (out : Refs) → listed r (walk_stmts b out) ≡ (listed r out || block_names r b)
    walk-block end_block out = ground arith
    walk-block (stmt s b) out = ground (arith, walk-block b (walk_stmt s out), walk-stmt s out)

    walk-stmt :
        (s : Stmt N) (out : Refs) → listed r (walk_stmt s out) ≡ (listed r out || stmt_names r s)
    walk-stmt (assign path e) out = listed-walk_expr e _ out
    walk-stmt (emit a b) out =
        ground
          (arith, listed-walk_expr b "emit" (walk_expr a "emit" out), listed-walk_expr a "emit" out)
    walk-stmt (respond a b) out = ground (
      arith,
      listed-walk_expr b "respond" (walk_expr a "respond" out),
      listed-walk_expr a "respond" out,
    )
    walk-stmt (invoke_merge name args) out = listed-walk_fields args "invoke" out
    walk-stmt (if_stmt arms els) out =
        ground (arith, walk-otherwise els (walk_arms arms out), walk-arms arms out)
    walk-stmt (for_stmt x it b) out =
        ground (arith, walk-block b (walk_expr it "for" out), listed-walk_expr it "for" out)

    walk-arms :
        (arms : Arms N) (out : Refs)
        → listed r (walk_arms arms out) ≡ (listed r out || arms_name r arms)
    walk-arms no_arms out = ground arith
    walk-arms (arm c span b rest) out = ground (
      arith,
      walk-arms rest (walk_stmts b (walk_expr c "if" out)),
      walk-block b (walk_expr c "if" out),
      listed-walk_expr c "if" out,
    )

    walk-otherwise :
        (els : Otherwise N) (out : Refs)
        → listed r (walk_otherwise els out) ≡ (listed r out || otherwise_names r els)
    walk-otherwise absent out = ground arith
    walk-otherwise (otherwise b) out = walk-block b out

  -- The inventory of a program's statements lists a reference exactly if some `secret` call in them,
  -- at any depth, has that reference as a literal first argument.
  pub listed-walk_stmts : (b : Block N) → listed r (walk_stmts b []) ≡ block_names r b
  listed-walk_stmts b = walk-block b []
