-- ===== src/Vjs/Parser/Within/Expressions.antt =====
-- The parser of expressions ends (core/src/vjs.rs, `Parser::expr`).
use vejas.Base.{ℕ, zero, suc, ◌-◌, ◌≤◌, ◌<◌, refl, arith}
use vejas.Vjs.Value.{Platform}
use vejas.Vjs.Ast.{Expr}
use vejas.Vjs.Token.{
  Bytes, Tok, ident, str, f_str, num_tok, true_tok, false_tok, null_tok, not_tok, invoke_tok,
  source_tok, tool_tok, driver_tok, api_tok, l_brace, l_brack, l_paren, r_brack, r_paren, minus,
  tag, tok_size,
}
use vejas.Vjs.Parser.{Parser, only, same}
use vejas.Vjs.Parser.Exprs.{Ex, head, bracketed, after_op, postfix, binary, expr_at}
use vejas.Vjs.Parser.Operators.{PostfixOp, field_op, bracket_op, postfix_of, tighter, operator}
use vejas.Vjs.Parser.Within.{
  Within, Within-weaken, Within-pure, Within-fail, Within-fail-bind, Within-bind, Within-take_if,
  Within-next, Within-skip_newlines, Within-eat, Within-word,
}
use vejas.Vjs.Parser.Within.Loops.{
  not_below, Good, Good-le, items-Within, call_args-Within, doc_fields-Within, invoke_args-Within,
  parts_of-Within,
}

module _ (P : Platform) (src : Bytes) where
  module _ (ex : Ex P src) where
    head-Within :
        (g n : ℕ) (t : Tok P.Float)
        → n < g
        → tok_size t ≤ n
        → Good P src n ex
        → Within n 0 (head P src ex g t)
    unfolding head tok_size only same tag
    head-Within g n (num_tok x) lt le good = Within-pure n _
    head-Within g n (str s) lt le good = Within-pure n _
    head-Within g n true_tok lt le good = Within-pure n _
    head-Within g n false_tok lt le good = Within-pure n _
    head-Within g n null_tok lt le good = Within-pure n _
    head-Within g n source_tok lt le good = Within-pure n _
    head-Within g n tool_tok lt le good = Within-pure n _
    head-Within g n driver_tok lt le good = Within-pure n _
    head-Within g n api_tok lt le good = Within-pure n _
    head-Within g n (f_str parts) lt le good =
        Within-bind n 0 _ _ (parts_of-Within P src ex n parts le good) λ ps. Within-pure n _
    head-Within g n not_tok lt le good =
        Within-bind n 0 _ _ (Within-weaken n _ (good 9)) λ e. Within-pure n _
    head-Within g n minus lt le good =
        Within-bind n 0 _ _ (Within-weaken n _ (good 9)) λ e. Within-pure n _
    head-Within g n invoke_tok lt le good =
        Within-bind n 0 _ _ (invoke_args-Within P src ex g n lt good) λ r. Within-pure n _
    head-Within g n l_paren lt le good = Within-bind n 0 _ _ (Within-weaken n _ (good 0)) λ e.
        Within-bind n 0 _ _ (Within-weaken n _ (Within-eat n src r_paren ")" refl))
          λ u. Within-pure n _
    head-Within g n l_brack lt le good =
        Within-bind n 0 _ _ (Within-skip_newlines n)
          λ u. Within-bind n 0 _ _ (items-Within P src ex g n lt good) λ es. Within-pure n _
    head-Within g n l_brace lt le good =
        Within-bind n 0 _ _ (Within-skip_newlines n)
          λ u. Within-bind n 0 _ _ (doc_fields-Within P src ex g n lt good) λ fs. Within-pure n _
    head-Within g n (ident name) lt le good =
        Within-take_if n 0 _ _ refl (omega arith)
          (λ u one.
            Within-bind (n - 1) 0 _ _
              (call_args-Within P src ex g (n - 1) (omega arith)
                (Good-le P src n (n - 1) ex (omega arith) good))
              λ es. Within-pure (n - 1) _)
          (Within-pure n _)
    head-Within g n t lt le good = Within-fail n 0 src _

    bracketed-Within :
        (n : ℕ) (lhs : Expr P.Number) → Good P src n ex → Within n 0 (bracketed P src ex lhs)
    unfolding bracketed only same tag
    bracketed-Within n lhs good =
        Within-take_if n 0 _ _ refl (omega arith) (λ u one. Within-pure (n - 1) _)
          (Within-bind n 0 _ _ (Within-weaken n _ (good 0)) λ inner.
            Within-bind n 0 _ _ (Within-weaken n _ (Within-eat n src r_brack "]" refl))
              λ u. Within-pure n _)

    after_op-Within :
        (n : ℕ) (op : PostfixOp) (lhs : Expr P.Number)
        (more : Expr P.Number → Parser P.Float (Expr P.Number))
        → Good P src n ex
        → ((e : Expr P.Number) → Within n 0 (more e))
        → Within n 0 (after_op P src ex op lhs more)
    after_op-Within n (field_op safe) lhs more good h =
        Within-bind n 0 _ _ (Within-weaken n _ (Within-word n src "field name")) λ f. h _
    after_op-Within n bracket_op lhs more good h =
        Within-bind n 0 _ _ (bracketed-Within n lhs good) λ e. h e

    postfix-Within :
        (g n : ℕ) (lhs : Expr P.Number)
        → n < g
        → Good P src n ex
        → Within n 0 (postfix P src ex g lhs)
    unfolding postfix postfix_of
    postfix-Within zero n lhs lt good = elim (not_below n lt) [ ]
    postfix-Within (suc g) n lhs lt good =
        let less = Good-le P src n (n - 1) ex (omega arith) good in
        Within-take_if n 0 _ _ refl (omega arith)
          (λ op one.
            after_op-Within (n - 1) op lhs (postfix P src ex g) less
              λ e. postfix-Within g (n - 1) e (omega arith) less)
          (Within-pure n _)

    binary-Within :
        (g n min_bp : ℕ) (lhs : Expr P.Number)
        → n < g
        → Good P src n ex
        → Within n 0 (binary P src ex g min_bp lhs)
    unfolding binary tighter operator
    binary-Within zero n min_bp lhs lt good = elim (not_below n lt) [ ]
    binary-Within (suc g) n min_bp lhs lt good =
        Within-take_if n 0 _ _ refl (omega arith)
          (λ (op, bp) one.
            Within-bind (n - 1) 0 _ _
              (Within-weaken (n - 1) _ (Good-le P src n (n - 1) ex (omega arith) good bp))
              λ rhs.
                binary-Within g (n - 1) min_bp _ (omega arith)
                  (Good-le P src n (n - 1) ex (omega arith) good))
          (Within-pure n _)

  -- An expression's parser takes a token or more, and ends with fuel for one token more than there
  -- are.
  pub expr_at-Good : (f n : ℕ) → n < f → Good P src n (expr_at P src f)
  unfolding expr_at head
  expr_at-Good zero n lt min_bp = elim (not_below n lt) [ ]
  expr_at-Good (suc f) n lt min_bp =
      Within-next n _
        (λ t one small.
          let good = expr_at-Good f (n - 1) (omega arith) in
          let ex = expr_at P src f in
          Within-bind (n - 1) 0 _ _ (head-Within ex f (n - 1) t (omega arith) small good) λ lhs.
            Within-bind (n - 1) 0 _ _ (postfix-Within ex f (n - 1) lhs (omega arith) good)
              λ e. binary-Within ex f (n - 1) min_bp e (omega arith) good)
        (Within-fail-bind n 1 src _ _)
