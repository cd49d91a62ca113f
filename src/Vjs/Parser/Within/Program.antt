-- ===== src/Vjs/Parser/Within/Program.antt =====
-- The parser of a program ends (core/src/vjs.rs, `Parser::program`, `parse`).
use vejas.Base.{
  ℕ, zero, suc, ◌-◌, ◌≤◌, ◌<◌, ◌≢◌, refl, ap, Bool, true, false, Option, none, some, String, arith,
}
use vejas.Exec.{Result, ok, err, OnErr, continue, ◌>>=◌}
use vejas.Vjs.Value.{Platform}
use vejas.Vjs.Ast.{Stmt}
use vejas.Vjs.Token.{Bytes, Toks, SyntaxError, exhausted, toks_size}
use vejas.Vjs.Lexer.{and_then, lex}
use vejas.Vjs.Lexer.Total.{OnErr-ne, lex-ne-exhausted}
use vejas.Vjs.Parser.{Cursor, last_pos}
use vejas.Vjs.Parser.Exprs.{Parse, expr_at}
use vejas.Vjs.Parser.Programs.{
  Entry, Directive, Directives, directive_of, string_of, text_or, Draft, constant, unless_final,
  after_constant, program_from, program, parse,
}
use vejas.Vjs.Parser.Within.{
  size, Done, Done-le, Done-OnErr, Within, Within-weaken, Within-pure, Within-fail,
  Within-fail-bind, Within-bind, Within-bind-taking, Within-take_if, Within-next,
  Within-skip_newlines, Within-gets,
}
use vejas.Vjs.Parser.Within.Loops.{not_below}
use vejas.Vjs.Parser.Within.Expressions.{expr_at-Good}
use vejas.Vjs.Parser.Within.Statements.{stmt_at-Within}
use vejas.Vjs.Parser.Within.Literals.{Found, constant-Found}

module _ (P : Platform) (src : Bytes) where
  text_or-Within : (n : ℕ) (k : Directive) (o : Option String) → Within n 0 (text_or P src k o)
  text_or-Within n k none = Within-fail n 0 src _
  text_or-Within n k (some s) = Within-pure n s

  unless_final-Within :
      {A : Type 0} (n : ℕ) (final : Bool) (a : A) (more : Parse P src A)
      → Within n 0 more
      → Within n 0 (unless_final P src final a more)
  unless_final-Within n true a more h = Within-pure n a
  unless_final-Within n false a more h = h

  module _ (n : ℕ) (statement : Parse P src (Stmt P.Number)) (more : Parse P src (Draft P src))
      (one_stmt : Within n 1 statement) (rest : 1 ≤ n → Within (n - 1) 0 more) where
    after_constant_done :
        (c : Cursor P.Float)
        (r : Result (SyntaxError P.Float) (Option (Entry P src)) × Cursor P.Float)
        → size c ≤ n
        → Found c r
        → Done 0 c (continue r.0 (λ e. after_constant P src e statement more) r.1)
    after_constant_done c (ok (some e), after) le h =
        let one : 1 ≤ n = omega arith in
        Done-le 0 0 c after _ (omega arith)
          ((Within-bind (n - 1) 0 _ _ (rest one) λ r. Within-pure (n - 1) _).at after (omega arith))
    after_constant_done c (ok none, after) le h = Done-le 0 0 c after _ (omega arith) (
        (Within-weaken n _ (
            Within-bind-taking n _ _ one_stmt
              λ s one. Within-bind (n - 1) 0 _ _ (rest one) λ r. Within-pure (n - 1) _)).at
          after (omega arith))
    after_constant_done c (err e, after) le h = h

    after_constant-Within :
        (f : ℕ)
        → n < f
        → Within n 0 (constant P src f >>= λ e. after_constant P src e statement more)
    unfolding ◌>>=◌
    after_constant-Within f lt = record {
      at = λ c le.
          after_constant_done c (constant P src f c) le (constant-Found P src f c (omega arith));
    }

  program_from-Within :
      (f g n : ℕ) (d : Directives) → n < f → n < g → Within n 0 (program_from P src f g d)
  unfolding program_from directive_of
  program_from-Within f zero n d lt lt' = elim (not_below n lt') [ ]
  program_from-Within f (suc g) n d lt lt' = Within-bind n 0 _ _ (Within-skip_newlines n) λ u.
      Within-bind n 0 _ _ (Within-gets n _) λ final. unless_final-Within n final _ _ (
        Within-take_if n 0 _ _ refl (omega arith)
          (λ k one. Within-weaken (n - 1) _ (
            Within-next (n - 1) _
              (λ t one' small.
                Within-bind (n - 1 - 1) 0 _ _ (text_or-Within (n - 1 - 1) k (string_of t))
                  λ s. program_from-Within f g (n - 1 - 1) _ (omega arith) (omega arith))
              (Within-fail-bind (n - 1) 1 src _ _)))
          (after_constant-Within n _ _
            (stmt_at-Within P src (expr_at P src f) f n (omega arith) (expr_at-Good P src f n lt))
            (λ one. program_from-Within f g (n - 1) d (omega arith) (omega arith)) f lt))

  program-Within : (f n : ℕ) → n < f → Within n 0 (program P src f)
  unfolding program
  program-Within f n lt =
      Within-bind n 0 _ _ (program_from-Within f f n _ lt lt) λ r. Within-pure n _

ne-OnErr : {F A : Type 0} (x : F) (r : Result F A) → r ≢ err x → OnErr (λ e. e ≢ x) r
ne-OnErr x (ok a) h = tt
ne-OnErr x (err e) h = λ same. h (ap err same)

and_then-OnErr :
    {F A B : Type 0} (Q : F → Type 0) (r : Result F A) (f : A → Result F B)
    → OnErr Q r
    → ((a : A) → OnErr Q (f a))
    → OnErr Q (and_then r f)
and_then-OnErr Q (ok a) f h k = k a
and_then-OnErr Q (err e) f h k = h

-- The parser ends: the fuel that `parse` gives to the tokens of a source is enough.
pub parse-ne-exhausted : (P : Platform) (src : Bytes) → parse P src ≢ err exhausted
unfolding parse
parse-ne-exhausted P src =
    let parsed : (toks : Toks P.Float) → OnErr (λ e. e ≢ exhausted) _ = λ toks.
      let c : Cursor P.Float = record { rest = toks; last = last_pos 0 toks } in
      Done-OnErr 0 c (program P src (suc (toks_size toks)) c) (
        (program-Within P src (suc (toks_size toks)) (toks_size toks) (omega arith)).at c
          (omega arith)) in
    OnErr-ne exhausted _ (
      and_then-OnErr (λ e. e ≢ exhausted) (lex P src) _
        (ne-OnErr exhausted (lex P src) (lex-ne-exhausted P src)) parsed)
