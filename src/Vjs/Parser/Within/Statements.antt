-- ===== src/Vjs/Parser/Within/Statements.antt =====
-- The parsers of statements and blocks end (core/src/vjs.rs, `Parser::stmt`, `Parser::block`).
use vejas.Base.{
  ℕ, zero, suc, ◌-◌, ◌≤◌, ◌<◌, refl, Bool, true, false, Option, none, some, List, ◌∷◌, String,
  arith,
}
use vejas.Vjs.Value.{Platform}
use vejas.Vjs.Ast.{Block}
use vejas.Vjs.Token.{Bytes, comma, colon, eq_tok, in_tok, end_tok, tag}
use vejas.Vjs.Parser.{only, same}
use vejas.Vjs.Parser.Exprs.{Parse, Ex}
use vejas.Vjs.Parser.Operators.{ident_of}
use vejas.Vjs.Parser.Stmts.{
  StmtHead, emit_head, respond_head, invoke_head, if_head, for_head, assign_head, ArmHead,
  elif_head, else_head, end_head, stmt_head, arm_head, path_rest, assigned, pair_of_exprs,
  condition, variable_or, arm_from, more_arms, stmt_from, stmt_with, block_round, block, stmt_at,
}
use vejas.Vjs.Parser.Within.{
  Within, Within-weaken, Within-le, Within-pure, Within-fail, Within-fail-bind, Within-bind,
  Within-bind-taking, Within-take_if, Within-next, Within-skip_newlines, Within-eat, Within-word,
  Within-pos, Within-peek, Within-gets,
}
use vejas.Vjs.Parser.Within.Loops.{not_below, Good, Good-le, invoke_args-Within}

module _ (P : Platform) (src : Bytes) where
  module _ (ex : Ex P src) where
    path_rest-Within : (g n : ℕ) → n < g → Within n 0 (path_rest P src ex g)
    unfolding path_rest only same tag
    path_rest-Within zero n lt = elim (not_below n lt) [ ]
    path_rest-Within (suc g) n lt =
        Within-take_if n 0 _ _ refl (omega arith)
          (λ u one.
            Within-bind (n - 1) 0 _ _
              (Within-weaken (n - 1) _ (Within-word (n - 1) src "field name"))
              λ w.
                Within-bind (n - 1) 0 _ _ (path_rest-Within g (n - 1) (omega arith))
                  λ ws. Within-pure (n - 1) _)
          (Within-pure n _)

    assigned-Within :
        (g n : ℕ) (path : List String)
        → n < g
        → Good P src n ex
        → Within n 0 (assigned P src ex g path)
    unfolding assigned only same tag
    assigned-Within g n path lt good =
        Within-take_if n 0 _ _ refl (omega arith)
          (λ u one.
            Within-bind (n - 1) 0 _ _
              (invoke_args-Within P src ex g (n - 1) (omega arith)
                (Good-le P src n (n - 1) ex (omega arith) good))
              λ r. Within-pure (n - 1) _)
          (Within-bind n 0 _ _ (Within-weaken n _ (good 0)) λ e. Within-pure n _)

    pair_of_exprs-Within : (n : ℕ) → Good P src n ex → Within n 0 (pair_of_exprs P src ex)
    unfolding pair_of_exprs same tag
    pair_of_exprs-Within n good = Within-bind n 0 _ _ (Within-weaken n _ (good 0)) λ a.
        Within-bind n 0 _ _ (Within-weaken n _ (Within-eat n src comma "," refl))
          λ u. Within-bind n 0 _ _ (Within-weaken n _ (good 0)) λ b. Within-pure n _

    condition-Within : (n : ℕ) → Good P src n ex → Within n 0 (condition P src ex)
    unfolding condition same tag
    condition-Within n good = Within-bind n 0 _ _ (Within-pos n) λ start.
        Within-bind n 0 _ _ (Within-weaken n _ (good 0)) λ c.
          Within-bind n 0 _ _ (Within-pos n) λ end.
            Within-bind n 0 _ _ (Within-weaken n _ (Within-eat n src colon ":" refl))
              λ u. Within-pure n _

    variable_or-Within : (n : ℕ) (o : Option String) → Within n 0 (variable_or P src ex o)
    variable_or-Within n none = Within-fail n 0 src _
    variable_or-Within n (some v) = Within-pure n v

    module _ (bl : Parse P src (Block P.Number)) where
      arm_from-Within :
          (n : ℕ) (h : ArmHead) (more : Parse P src _)
          → Good P src n ex
          → Within n 0 bl
          → Within n 0 more
          → Within n 0 (arm_from P src ex bl h more)
      unfolding same tag
      arm_from-Within n end_head more good hb hm = Within-pure n _
      arm_from-Within n else_head more good hb hm =
          Within-bind n 0 _ _ (Within-weaken n _ (Within-eat n src colon ":" refl))
            λ u. Within-bind n 0 _ _ hb λ b. Within-bind n 0 _ _ hm λ r. Within-pure n _
      arm_from-Within n elif_head more good hb hm =
          Within-bind n 0 _ _ (condition-Within n good)
            λ c. Within-bind n 0 _ _ hb λ b. Within-bind n 0 _ _ hm λ r. Within-pure n _

      more_arms-Within :
          (g n : ℕ) → n < g → Good P src n ex → Within n 0 bl → Within n 0 (more_arms P src ex bl g)
      unfolding more_arms arm_head
      more_arms-Within zero n lt good hb = elim (not_below n lt) [ ]
      more_arms-Within (suc g) n lt good hb =
          Within-take_if n 0 _ _ refl (omega arith)
            (λ h one.
              let less = Good-le P src n (n - 1) ex (omega arith) good in
              let hb' = Within-le n (n - 1) 0 bl (omega arith) hb in
              arm_from-Within (n - 1) h _ less hb'
                (more_arms-Within g (n - 1) (omega arith) less hb'))
            (Within-fail n 0 src _)

      stmt_from-Within :
          (g n : ℕ) (h : StmtHead)
          → n < g
          → Good P src n ex
          → Within n 0 bl
          → Within n 0 (stmt_from P src ex bl g h)
      unfolding stmt_from same tag ident_of
      stmt_from-Within g n emit_head lt good hb =
          Within-bind n 0 _ _ (pair_of_exprs-Within n good) λ r. Within-pure n _
      stmt_from-Within g n respond_head lt good hb =
          Within-bind n 0 _ _ (pair_of_exprs-Within n good) λ r. Within-pure n _
      stmt_from-Within g n invoke_head lt good hb =
          Within-bind n 0 _ _ (invoke_args-Within P src ex g n lt good) λ r. Within-pure n _
      stmt_from-Within g n if_head lt good hb = Within-bind n 0 _ _ (condition-Within n good) λ c.
          Within-bind n 0 _ _ hb
            λ b. Within-bind n 0 _ _ (more_arms-Within g n lt good hb) λ r. Within-pure n _
      stmt_from-Within g n for_head lt good hb = Within-weaken n _ (
          Within-next n _
            (λ t one small.
              let le : n - 1 ≤ n = omega arith in
              let hb' = Within-le n (n - 1) 0 bl le hb in
              Within-bind (n - 1) 0 _ _ (variable_or-Within (n - 1) (ident_of t)) λ v.
                Within-bind (n - 1) 0 _ _
                  (Within-weaken (n - 1) _ (Within-eat (n - 1) src in_tok "in" refl))
                  λ u.
                    Within-bind (n - 1) 0 _ _
                      (Within-weaken (n - 1) _ (Good-le P src n (n - 1) ex le good 0))
                      λ e.
                        Within-bind (n - 1) 0 _ _
                          (Within-weaken (n - 1) _ (Within-eat (n - 1) src colon ":" refl))
                          λ w. Within-bind (n - 1) 0 _ _ hb' λ b.
                            Within-bind (n - 1) 0 _ _
                              (Within-weaken (n - 1) _ (Within-eat (n - 1) src end_tok "end" refl))
                              λ x. Within-pure (n - 1) _)
            (Within-fail-bind n 1 src _ _))
      stmt_from-Within g n (assign_head name) lt good hb =
          Within-bind n 0 _ _ (path_rest-Within g n lt) λ ws.
            Within-bind n 0 _ _ (Within-weaken n _ (Within-eat n src eq_tok "=" refl))
              λ u. assigned-Within g n (name ∷ ws) lt good

      stmt_with-Within :
          (g n : ℕ)
          → n ≤ g
          → Good P src n ex
          → (1 ≤ n → Within (n - 1) 0 bl)
          → Within n 1 (stmt_with P src ex bl g)
      unfolding stmt_with stmt_head
      stmt_with-Within g n le good hb =
          Within-take_if n 1 _ _ refl (omega arith)
            (λ h one.
              stmt_from-Within g (n - 1) h (omega arith)
                (Good-le P src n (n - 1) ex (omega arith) good) (hb one))
            (Within-fail n 1 src _)

    block_round-Within :
        (n : ℕ) (ends final : Bool) (more : Parse P src (Block P.Number))
        → Within n 0 more
        → Within n 0 (block_round P src ex ends final more)
    block_round-Within n true final more h = Within-pure n _
    block_round-Within n false true more h = Within-fail n 0 src _
    block_round-Within n false false more h = h

    block-Within : (g n : ℕ) → n < g → Good P src n ex → Within n 0 (block P src ex g)
    unfolding block
    block-Within zero n lt good = elim (not_below n lt) [ ]
    block-Within (suc g) n lt good =
        let less : Good P src (n - 1) ex = Good-le P src n (n - 1) ex (omega arith) good in
        let nested : 1 ≤ n → Within (n - 1) 0 (block P src ex g) =
          λ one. block-Within g (n - 1) (omega arith) less in
        Within-bind n 0 _ _ (Within-skip_newlines n) λ u. Within-bind n 0 _ _ (Within-peek n) λ t.
          Within-bind n 0 _ _ (Within-gets n _) λ final. block_round-Within n _ final _ (
            Within-weaken n _ (
              Within-bind-taking n _ _
                (stmt_with-Within (block P src ex g) g n (omega arith) good nested)
                λ s one. Within-bind (n - 1) 0 _ _ (nested one) λ b. Within-pure (n - 1) _))

    pub stmt_at-Within : (g n : ℕ) → n ≤ g → Good P src n ex → Within n 1 (stmt_at P src ex g)
    unfolding stmt_at
    stmt_at-Within g n le good =
        stmt_with-Within (block P src ex g) g n le good λ one.
          block-Within g (n - 1) (omega arith) (Good-le P src n (n - 1) ex (omega arith) good)
