-- ===== src/Vjs/Parser/Stmts.antt =====
-- Statements (core/src/vjs.rs, `Parser::stmt`, `Parser::block`). `ex` parses an expression, and
-- `bl` the block of a statement that has one.
use vejas.Base.{ℕ, zero, suc, String, Bool, true, false, Option, none, some, List, [], ◌∷◌}
use vejas.Exec.{pure, raise, gets, ◌>>=◌, ◌>>◌}
use vejas.Vjs.Value.{Platform}
use vejas.Vjs.Ast.{
  Expr, Stmt, Block, Arms, Otherwise, invoke, assign, if_stmt, for_stmt, emit, respond,
  invoke_merge, end_block, stmt, no_arms, arm, absent, otherwise,
}
use vejas.Vjs.Token.{
  Bytes, Tok, ident, if_tok, elif_tok, else_tok, end_tok, for_tok, in_tok, emit_tok, invoke_tok,
  respond_tok, colon, comma, dot, eq_tok, complaint, exhausted,
}
use vejas.Vjs.Parser.{peek, pos, next, skip_newlines, take_if, only, fail, eat, word, at_end}
use vejas.Vjs.Parser.Exprs.{Parse, Ex, invoke_args}
use vejas.Vjs.Parser.Operators.{ident_of}

pub data StmtHead : Type 0 where
  emit_head respond_head invoke_head if_head for_head : StmtHead
  assign_head : String → StmtHead

pub data ArmHead : Type 0 where
  elif_head else_head end_head : ArmHead

module _ {F : Type 0} where
  unfoldable pub stmt_head : Tok F → Option StmtHead
  stmt_head emit_tok = some emit_head
  stmt_head respond_tok = some respond_head
  stmt_head invoke_tok = some invoke_head
  stmt_head if_tok = some if_head
  stmt_head for_tok = some for_head
  stmt_head (ident s) = some (assign_head s)
  stmt_head _ = none

  unfoldable pub arm_head : Tok F → Option ArmHead
  arm_head elif_tok = some elif_head
  arm_head else_tok = some else_head
  arm_head end_tok = some end_head
  arm_head _ = none

  unfoldable pub ends_block : Tok F → Bool
  ends_block end_tok = true
  ends_block elif_tok = true
  ends_block else_tok = true
  ends_block _ = false

-- A later `else` replaces an earlier one.
abbrev pub or_else : {N : Type 0} → Block N → Otherwise N → Otherwise N
or_else b absent = otherwise b
or_else b (otherwise c) = otherwise c

module _ (P : Platform) (src : Bytes) (ex : Ex P src) where
  -- `first.a.b = …`
  unfoldable pub path_rest : ℕ → Parse P src (List String)
  path_rest zero = raise exhausted
  path_rest (suc g) = do
    o ← take_if (only dot)
    elim o [
      | none ↦ pure []
      | some u ↦ do w ← word src "field name"; ws ← path_rest g; pure (w ∷ ws)
    ]

  unfoldable pub assigned : ℕ → List String → Parse P src (Stmt P.Number)
  assigned g path = do
    o ← take_if (only invoke_tok)
    elim o [
      | none ↦ do e ← ex 0; pure (assign path e)
      | some u ↦ do r ← invoke_args P src ex g; pure (assign path (invoke r.0 r.1))
    ]

  -- Two expressions with a comma between them.
  unfoldable pub pair_of_exprs : Parse P src (Expr P.Number × Expr P.Number)
  pair_of_exprs = do a ← ex 0; eat src comma ","; b ← ex 0; pure (a, b)

  -- A condition with its span, which ends where the colon stands.
  unfoldable pub condition : Parse P src (Expr P.Number × (ℕ × ℕ))
  condition = do start ← pos; c ← ex 0; end ← pos; eat src colon ":"; pure (c, (start, end))

  abbrev pub variable_or : Option String → Parse P src String
  variable_or none = fail src (complaint "expected loop variable")
  variable_or (some v) = pure v

  module _ (bl : Parse P src (Block P.Number)) where
    abbrev pub Tails : Type 0
    Tails = Arms P.Number × Otherwise P.Number

    abbrev pub arm_from : ArmHead → Parse P src Tails → Parse P src Tails
    arm_from end_head more = pure (no_arms, absent)
    arm_from else_head more = do eat src colon ":"; b ← bl; r ← more; pure (r.0, or_else b r.1)
    arm_from elif_head more = do c ← condition; b ← bl; r ← more; pure (arm c.0 c.1 b r.0, r.1)

    -- The loop behind the first arm.
    unfoldable pub more_arms : ℕ → Parse P src Tails
    more_arms zero = raise exhausted
    more_arms (suc g) = do
      o ← take_if arm_head
      elim o [
        | none ↦ fail src (complaint "expected elif/else/end")
        | some h ↦ arm_from h (more_arms g)
      ]

    unfoldable pub stmt_from : ℕ → StmtHead → Parse P src (Stmt P.Number)
    stmt_from g emit_head = do r ← pair_of_exprs; pure (emit r.0 r.1)
    stmt_from g respond_head = do r ← pair_of_exprs; pure (respond r.0 r.1)
    stmt_from g invoke_head = do r ← invoke_args P src ex g; pure (invoke_merge r.0 r.1)
    stmt_from g if_head = do
      c ← condition
      b ← bl
      r ← more_arms g
      pure (if_stmt (arm c.0 c.1 b r.0) r.1)
    stmt_from g for_head = do
      t ← next
      v ← variable_or (ident_of t)
      eat src in_tok "in"
      e ← ex 0
      eat src colon ":"
      b ← bl
      eat src end_tok "end"
      pure (for_stmt v e b)
    stmt_from g (assign_head name) = do ws ← path_rest g; eat src eq_tok "="; assigned g (name ∷ ws)

    unfoldable pub stmt_with : ℕ → Parse P src (Stmt P.Number)
    stmt_with g = do
      o ← take_if stmt_head
      elim o [ none ↦ fail src (complaint "expected a statement") | some h ↦ stmt_from g h ]

  abbrev pub block_round : Bool → Bool → Parse P src (Block P.Number) → Parse P src (Block P.Number)
  block_round true final more = pure end_block
  block_round false true more = fail src (complaint "missing `end`")
  block_round false false more = more

  -- A block ends before `end`, `elif` or `else`.
  unfoldable pub block : ℕ → Parse P src (Block P.Number)
  block zero = raise exhausted
  block (suc g) = do
    skip_newlines
    t ← peek
    final ← gets (λ c. at_end (c.rest))
    block_round (ends_block t) final (do s ← stmt_with (block g) g; b ← block g; pure (stmt s b))

  unfoldable pub stmt_at : ℕ → Parse P src (Stmt P.Number)
  stmt_at g = stmt_with (block g) g
