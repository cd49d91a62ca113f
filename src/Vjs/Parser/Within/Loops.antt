-- ===== src/Vjs/Parser/Within/Loops.antt =====
-- The loops of an expression's parser end (core/src/vjs.rs, `Parser::expr`, `invoke_args`).
use vejas.Base.{ℕ, zero, suc, ◌-◌, ◌≤◌, ◌<◌, ◌≢◌, refl, Option, none, some, String, arith}
use vejas.Exec.{OnErr}
use vejas.Vjs.Value.{Platform}
use vejas.Vjs.Token.{
  Bytes, Toks, FParts, colon, comma, l_paren, no_fparts, lit_part, expr_part, exhausted, toks_size,
  parts_size, tag,
}
use vejas.Vjs.Parser.{Cursor, only, same, tail, last_pos}
use vejas.Vjs.Parser.Exprs.{
  Ex, comma_newlines, separator, optional_comma, items, call_args, doc_fields, named_args,
  with_service, service_ahead, qualified, name_or, invoke_args, hole_expr, parts_of,
}
use vejas.Vjs.Parser.Operators.{ident_of}
use vejas.Vjs.Parser.Within.{
  Done, Within, Within-weaken, Within-le, Within-pure, Within-fail, Within-fail-bind, Done-OnErr,
  toks_size-tail, Within-lift, Within-bind, Within-bind-taking, Within-take_if, Within-next,
  Within-skip_newlines, Within-eat, Within-word,
}

pub not_below : (n : ℕ) → n < 0 → ⊥
not_below n lt = omega arith

module _ (P : Platform) (src : Bytes) where
  -- A parser of expressions that ends on so many tokens, and takes one or more.
  abbrev pub Good : ℕ → Ex P src → Type 0
  Good n ex = (bp : ℕ) → Within n 1 (ex bp)

  pub Good-le : (n n' : ℕ) (ex : Ex P src) → n' ≤ n → Good n ex → Good n' ex
  Good-le n n' ex le good bp = Within-le n n' 1 (ex bp) le (good bp)

  comma_newlines-Within : (n : ℕ) (o : Option (Unit {0})) → Within n 0 (comma_newlines P src o)
  comma_newlines-Within n none = Within-pure n tt
  comma_newlines-Within n (some u) = Within-skip_newlines n

  pub separator-Within : (n : ℕ) → Within n 0 (separator P src)
  unfolding separator only same tag
  separator-Within n = Within-bind n 0 _ _ (Within-skip_newlines n) λ u.
      Within-take_if n 0 (only comma) _ refl (omega arith)
        (λ b one. comma_newlines-Within (n - 1) (some b)) (comma_newlines-Within n none)

  pub optional_comma-Within : (n : ℕ) → Within n 0 (optional_comma P src)
  unfolding optional_comma only same tag
  optional_comma-Within n =
      Within-take_if n 0 (only comma) _ refl (omega arith) (λ b one. Within-pure (n - 1) tt)
        (Within-pure n tt)

  module _ (ex : Ex P src) where
    pub items-Within : (g n : ℕ) → n < g → Good n ex → Within n 0 (items P src ex g)
    unfolding items only same tag
    items-Within zero n lt good = elim (not_below n lt) [ ]
    items-Within (suc g) n lt good =
        Within-take_if n 0 _ _ refl (omega arith) (λ b one. Within-pure (n - 1) _)
          (Within-weaken n _ (
            Within-bind-taking n _ _ (good 0) λ e one.
              Within-bind (n - 1) 0 _ _ (separator-Within (n - 1)) λ u.
                Within-bind (n - 1) 0 _ _
                  (items-Within g (n - 1) (omega arith) (Good-le n (n - 1) ex (omega arith) good))
                  λ es. Within-pure (n - 1) _))

    pub call_args-Within : (g n : ℕ) → n < g → Good n ex → Within n 0 (call_args P src ex g)
    unfolding call_args only same tag
    call_args-Within zero n lt good = elim (not_below n lt) [ ]
    call_args-Within (suc g) n lt good =
        Within-take_if n 0 _ _ refl (omega arith) (λ b one. Within-pure (n - 1) _)
          (Within-weaken n _ (
            Within-bind-taking n _ _ (good 0) λ e one.
              Within-bind (n - 1) 0 _ _ (optional_comma-Within (n - 1)) λ u.
                Within-bind (n - 1) 0 _ _
                  (call_args-Within g (n - 1) (omega arith)
                    (Good-le n (n - 1) ex (omega arith) good))
                  λ es. Within-pure (n - 1) _))

    pub doc_fields-Within : (g n : ℕ) → n < g → Good n ex → Within n 0 (doc_fields P src ex g)
    unfolding doc_fields only same tag
    doc_fields-Within zero n lt good = elim (not_below n lt) [ ]
    doc_fields-Within (suc g) n lt good =
        Within-take_if n 0 _ _ refl (omega arith) (λ b one. Within-pure (n - 1) _)
          (Within-weaken n _ (
            Within-bind-taking n _ _ (Within-word n src "key") λ k one.
              Within-bind (n - 1) 0 _ _
                (Within-weaken (n - 1) _ (Within-eat (n - 1) src colon ":" refl))
                λ u.
                  Within-bind (n - 1) 0 _ _
                    (Within-weaken (n - 1) _ (Good-le n (n - 1) ex (omega arith) good 0))
                    λ e. Within-bind (n - 1) 0 _ _ (separator-Within (n - 1)) λ v.
                      Within-bind (n - 1) 0 _ _
                        (doc_fields-Within g (n - 1) (omega arith)
                          (Good-le n (n - 1) ex (omega arith) good))
                        λ fs. Within-pure (n - 1) _))

    pub named_args-Within : (g n : ℕ) → n < g → Good n ex → Within n 0 (named_args P src ex g)
    unfolding named_args only same tag
    named_args-Within zero n lt good = elim (not_below n lt) [ ]
    named_args-Within (suc g) n lt good =
        Within-take_if n 0 _ _ refl (omega arith) (λ b one. Within-pure (n - 1) _)
          (Within-weaken n _ (
            Within-bind-taking n _ _ (Within-word n src "argument name") λ k one.
              Within-bind (n - 1) 0 _ _
                (Within-weaken (n - 1) _ (Within-eat (n - 1) src colon ":" refl))
                λ u.
                  Within-bind (n - 1) 0 _ _
                    (Within-weaken (n - 1) _ (Good-le n (n - 1) ex (omega arith) good 0))
                    λ e. Within-bind (n - 1) 0 _ _ (optional_comma-Within (n - 1)) λ v.
                      Within-bind (n - 1) 0 _ _
                        (named_args-Within g (n - 1) (omega arith)
                          (Good-le n (n - 1) ex (omega arith) good))
                        λ fs. Within-pure (n - 1) _))

    with_service-Within :
        (name : String) (o : Option String) (c : Cursor P.Float)
        → Done 0 c (with_service P src name o c)
    with_service-Within name none c = omega arith
    with_service-Within name (some svc) c =
        omega (arith, toks_size-tail (c.rest), toks_size-tail (tail (c.rest)))

    qualified-Within : (n : ℕ) (name : String) → Within n 0 (qualified P src ex name)
    unfolding qualified
    qualified-Within n name = record {
      at = λ c le. with_service-Within name (service_ahead P src (c.rest)) c;
    }

    name_or-Within : (n : ℕ) (o : Option String) → Within n 0 (name_or P src ex o)
    name_or-Within n none = Within-fail n 0 src _
    name_or-Within n (some s) = Within-pure n s

    pub invoke_args-Within : (g n : ℕ) → n < g → Good n ex → Within n 0 (invoke_args P src ex g)
    unfolding invoke_args ident_of same tag
    invoke_args-Within g n lt good = Within-weaken n _ (
        Within-next n _
          (λ t one small. Within-bind (n - 1) 0 _ _ (name_or-Within (n - 1) (ident_of t)) λ w.
            Within-bind (n - 1) 0 _ _ (qualified-Within (n - 1) w) λ name.
              Within-bind (n - 1) 0 _ _
                (Within-weaken (n - 1) _ (Within-eat (n - 1) src l_paren "(" refl))
                λ u.
                  Within-bind (n - 1) 0 _ _
                    (named_args-Within g (n - 1) (omega arith)
                      (Good-le n (n - 1) ex (omega arith) good))
                    λ args. Within-pure (n - 1) _)
          (Within-fail-bind n 1 src _ _))

    hole_expr-OnErr :
        (n : ℕ) (ts : Toks P.Float)
        → toks_size ts ≤ n
        → Good n ex
        → OnErr (λ e. e ≢ exhausted) (hole_expr P src ex ts)
    unfolding hole_expr
    hole_expr-OnErr n ts le good =
        let c : Cursor P.Float = record { rest = ts; last = last_pos 0 ts } in
        Done-OnErr 1 c (ex 0 c) ((good 0).at c le)

    pub parts_of-Within :
        (n : ℕ) (ps : FParts P.Float)
        → parts_size ps ≤ n
        → Good n ex
        → Within n 0 (parts_of P src ex ps)
    unfolding parts_of parts_size
    parts_of-Within n no_fparts le good = Within-pure n _
    parts_of-Within n (lit_part s ps) le good =
        Within-bind n 0 _ _ (parts_of-Within n ps le good) λ qs. Within-pure n _
    parts_of-Within n (expr_part ts ps) le good =
        Within-bind n 0 _ _
          (Within-lift n (hole_expr P src ex ts) (hole_expr-OnErr n ts (omega arith) good))
          λ e. Within-bind n 0 _ _ (parts_of-Within n ps (omega arith) good) λ qs. Within-pure n _
