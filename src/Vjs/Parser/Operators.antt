-- ===== src/Vjs/Parser/Operators.antt =====
-- The operators of expressions, and what stands behind one (core/src/vjs.rs, `Parser::expr`).
use vejas.Base.{ℕ, String, Bool, true, false, Option, none, some, ltb, if◌then◌else◌}
use vejas.Vjs.Ast.{
  Expr, BinOp, unary, bin, not, or, and, coalesce, eq, ne, lt, le, gt, ge, in_op, add, sub, mul,
  div,
}
use vejas.Vjs.Token.{
  Tok, ident, in_tok, and_tok, or_tok, dot, q_dot, q_q, l_brack, eq_eq, ne_tok, lt_tok, le_tok,
  gt_tok, ge_tok, plus, minus, star, slash,
}

pub data PostfixOp : Type 0 where
  field_op : Bool → PostfixOp
  bracket_op : PostfixOp

abbrev pub above : ℕ → Option (BinOp × ℕ) → Option (BinOp × ℕ)
above min_bp none = none
above min_bp (some (op, bp)) = if ltb min_bp bp then some (op, bp) else none

module _ {F : Type 0} where
  unfoldable pub postfix_of : Tok F → Option PostfixOp
  postfix_of dot = some (field_op false)
  postfix_of q_dot = some (field_op true)
  postfix_of l_brack = some bracket_op
  postfix_of _ = none

  unfoldable pub operator : Tok F → Option (BinOp × ℕ)
  operator or_tok = some (or, 1)
  operator and_tok = some (and, 2)
  operator q_q = some (coalesce, 3)
  operator eq_eq = some (eq, 4)
  operator ne_tok = some (ne, 4)
  operator lt_tok = some (lt, 4)
  operator le_tok = some (le, 4)
  operator gt_tok = some (gt, 4)
  operator ge_tok = some (ge, 4)
  operator in_tok = some (in_op, 4)
  operator plus = some (add, 5)
  operator minus = some (sub, 5)
  operator star = some (mul, 6)
  operator slash = some (div, 6)
  operator _ = none

  -- An operator that binds tighter than `min_bp`.
  unfoldable pub tighter : ℕ → Tok F → Option (BinOp × ℕ)
  tighter min_bp t = above min_bp (operator t)

  unfoldable pub ident_of : Tok F → Option String
  ident_of (ident s) = some s
  ident_of _ = none

-- What stands in brackets behind an expression filters it if it is a test.
unfoldable pub is_test_op : BinOp → Bool
is_test_op coalesce = false
is_test_op add = false
is_test_op sub = false
is_test_op mul = false
is_test_op div = false
is_test_op _ = true

unfoldable pub is_filter : {N : Type 0} → Expr N → Bool
is_filter (bin op a b) = is_test_op op
is_filter (unary not a) = true
is_filter _ = false
