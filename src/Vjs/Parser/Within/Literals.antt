-- ===== src/Vjs/Parser/Within/Literals.antt =====
-- The parsers of literals and of surface constants end (core/src/vjs.rs, `literal_value`,
-- `try_literal` and the constants of `program`).
use vejas.Base.{
  ℕ, zero, suc, ◌+◌, ◌-◌, ◌≤◌, ◌<◌, ◌≢◌, refl, Bool, true, false, Option, none, some, List, String,
  arith,
}
use vejas.Exec.{Result, ok, err}
use vejas.Vjs.Value.{Platform, Map, no_entries}
use vejas.Vjs.Ast.{Span}
use vejas.Vjs.Token.{
  Bytes, Tok, SyntaxError, str, num_tok, true_tok, false_tok, null_tok, minus, l_brack, l_brace,
  colon, at_line, panicked, exhausted, tag,
}
use vejas.Vjs.Parser.{Cursor, only, same, tail}
use vejas.Vjs.Parser.Exprs.{Parse}
use vejas.Vjs.Parser.Programs.{settled, constant_from, constant, constant_name}
use vejas.Vjs.Parser.Literals.{
  Literal, ending, negative, literal_items, literal_entries, literal_from, literal_value,
  found_literal, tried, try_literal,
}
use vejas.Vjs.Parser.Within.{
  size, Done, toks_size-tail, Within, Within-weaken, Within-le, Within-pure, Within-fail,
  Within-bind, Within-bind-taking, Within-take_if, Within-next, Within-skip_newlines, Within-eat,
  Within-word, Within-pos,
}
use vejas.Vjs.Parser.Within.Loops.{not_below, separator-Within}

module _ (P : Platform) (src : Bytes) where
  ending-Within : (n : ℕ) (v : _) (spans : List (String × Span)) → Within n 0 (ending P src v spans)
  ending-Within n v spans = Within-bind n 0 _ _ (Within-pos n) λ end. Within-pure n _

  negative-Within : (n : ℕ) (t : Tok P.Float) → Within n 0 (negative P src t)
  negative-Within n (num_tok x) = ending-Within n _ _
  negative-Within n t = Within-fail n 0 src _

  module _ (literal : Parse P src (Literal P src)) where
    literal_items-Within :
        (g n : ℕ) → n < g → Within n 1 literal → Within n 0 (literal_items P src literal g)
    unfolding literal_items only same tag
    literal_items-Within zero n lt good = elim (not_below n lt) [ ]
    literal_items-Within (suc g) n lt good =
        Within-take_if n 0 _ _ refl (omega arith) (λ u one. Within-pure (n - 1) _)
          (Within-weaken n _ (
            Within-bind-taking n _ _ good λ l one.
              Within-bind (n - 1) 0 _ _ (separator-Within P src (n - 1)) λ u.
                Within-bind (n - 1) 0 _ _
                  (literal_items-Within g (n - 1) (omega arith)
                    (Within-le n (n - 1) 1 _ (omega arith) good))
                  λ vs. Within-pure (n - 1) _))

    literal_entries-Within :
        (g n : ℕ) (m : Map P)
        → n < g
        → Within n 1 literal
        → Within n 0 (literal_entries P src literal g m)
    unfolding literal_entries only same tag
    literal_entries-Within zero n m lt good = elim (not_below n lt) [ ]
    literal_entries-Within (suc g) n m lt good =
        Within-take_if n 0 _ _ refl (omega arith) (λ u one. Within-pure (n - 1) _)
          (Within-weaken n _ (
            Within-bind-taking n _ _ (Within-word n src "key") λ key one.
              let less : Within (n - 1) 1 literal = Within-le n (n - 1) 1 _ (omega arith) good in
              Within-bind (n - 1) 0 _ _
                (Within-weaken (n - 1) _ (Within-eat (n - 1) src colon ":" refl))
                λ u. Within-bind (n - 1) 0 _ _ (Within-pos (n - 1)) λ start.
                  Within-bind (n - 1) 0 _ _ (Within-weaken (n - 1) _ less) λ l.
                    Within-bind (n - 1) 0 _ _ (Within-pos (n - 1)) λ end.
                      Within-bind (n - 1) 0 _ _ (separator-Within P src (n - 1)) λ v.
                        Within-bind (n - 1) 0 _ _
                          (literal_entries-Within g (n - 1) _ (omega arith) less)
                          λ r. Within-pure (n - 1) _))

    literal_from-Within :
        (g n : ℕ) (t : Tok P.Float)
        → n < g
        → Within n 1 literal
        → Within n 0 (literal_from P src literal g t)
    unfolding literal_from
    literal_from-Within g n (str s) lt good = ending-Within n _ _
    literal_from-Within g n (num_tok x) lt good = ending-Within n _ _
    literal_from-Within g n true_tok lt good = ending-Within n _ _
    literal_from-Within g n false_tok lt good = ending-Within n _ _
    literal_from-Within g n null_tok lt good = ending-Within n _ _
    literal_from-Within g n minus lt good =
        Within-weaken n _
          (Within-next n _ (λ t one small. negative-Within (n - 1) t) (Within-fail n 1 src _))
    literal_from-Within g n l_brack lt good =
        Within-bind n 0 _ _ (Within-skip_newlines n)
          λ u. Within-bind n 0 _ _ (literal_items-Within g n lt good) λ vs. ending-Within n _ _
    literal_from-Within g n l_brace lt good = Within-bind n 0 _ _ (Within-skip_newlines n) λ u.
        Within-bind n 0 _ _ (literal_entries-Within g n no_entries lt good) λ r. ending-Within n _ _
    literal_from-Within g n t lt good = Within-fail n 0 src _

  literal_value-Within : (f n : ℕ) → n < f → Within n 1 (literal_value P src f)
  unfolding literal_value literal_from
  literal_value-Within zero n lt = elim (not_below n lt) [ ]
  literal_value-Within (suc f) n lt =
      Within-next n _
        (λ t one small.
          literal_from-Within (literal_value P src f) f (n - 1) t (omega arith)
            (literal_value-Within f (n - 1) (omega arith)))
        (Within-fail n 1 src _)

-- A result that leaves a token fewer where there is one, and no more where there is none.
abbrev pub Found : {F B : Type 0} → Cursor F → Result (SyntaxError F) (Option B) × Cursor F → Type 0
Found c (ok (some b), after) = size after + 1 ≤ size c
Found c (ok none, after) = size after ≤ size c
Found c (err e, after) = e ≢ exhausted

module _ (P : Platform) (src : Bytes) where
  found_literal-Found :
      (l : Literal P src) (b : Bool) (c after : Cursor P.Float)
      → size after + 1 ≤ size c
      → Found c (found_literal P src l b c after)
  found_literal-Found l true c after le = le
  found_literal-Found l false c after le = omega arith

  tried-Found :
      (c : Cursor P.Float) (r : Result (SyntaxError P.Float) (Literal P src) × Cursor P.Float)
      → Done 1 c r
      → Found c (tried P src r.0 c r.1)
  tried-Found c (ok l, after) h = found_literal-Found l _ c after h
  tried-Found c (err (at_line n msg), after) h = omega arith
  tried-Found c (err panicked, after) h = h
  tried-Found c (err exhausted, after) h = h

  try_literal-Found : (f : ℕ) (c : Cursor P.Float) → size c < f → Found c (try_literal P src f c)
  unfolding try_literal
  try_literal-Found f c lt =
      tried-Found c (literal_value P src f c)
        ((literal_value-Within P src f (size c) lt).at c (omega arith))

  settled-Found :
      (name : String) (start : ℕ) (c d : Cursor P.Float)
      (r : Result (SyntaxError P.Float) (Option (Literal P src)) × Cursor P.Float)
      → size d ≤ size c
      → Found d r
      → Found c (settled P src name start c r)
  settled-Found name start c d (ok (some l), after) le h = omega arith
  settled-Found name start c d (ok none, after) le h = omega arith
  settled-Found name start c d (err e, after) le h = h

  constant_from-Found :
      (f : ℕ) (o : Option String) (c : Cursor P.Float)
      → size c < f
      → Found c (constant_from P src f o c)
  constant_from-Found f none c lt = omega arith
  constant_from-Found f (some name) c lt =
      let d : Cursor P.Float = record c { rest = tail (tail (c.rest)) } in
      let less : size d ≤ size c =
        omega (arith, toks_size-tail (c.rest), toks_size-tail (tail (c.rest))) in
      settled-Found name _ c d (try_literal P src f d) less (try_literal-Found f d (omega arith))

  -- A constant is a token or more, and where there is none the cursor stays.
  pub constant-Found : (f : ℕ) (c : Cursor P.Float) → size c < f → Found c (constant P src f c)
  unfolding constant
  constant-Found f c lt = constant_from-Found f (constant_name (c.rest)) c lt
