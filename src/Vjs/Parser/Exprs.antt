-- ===== src/Vjs/Parser/Exprs.antt =====
-- Expressions (core/src/vjs.rs, `Parser::expr`, `Parser::invoke_args`). A loop is a definition of
-- its own, on fuel for its rounds, with the parser `ex` of what is nested as an argument: `expr`
-- itself, on less fuel.
use vejas.Base.{ℕ, zero, suc, String, Bool, true, false, Option, none, some, if◌then◌else◌}
use Prim.Native.String.{◌++◌}
use vejas.Exec.{Result, ok, pure, raise, lift, ◌>>=◌, ◌>>◌}
use vejas.Vjs.Value.{Platform, string, null, bool, num}
use vejas.Vjs.Ast.{
  Expr, Exprs, Fields, Parts, lit, f_string, var, doc, array, field, index, projection, filter,
  call, invoke, unary, bin, no_exprs, expr, no_fields, named, no_parts, text, hole, not, neg,
}
use vejas.Vjs.Token.{
  Bytes, Tok, Toks, FParts, SyntaxError, ident, str, f_str, num_tok, true_tok, false_tok, null_tok,
  not_tok, invoke_tok, source_tok, tool_tok, driver_tok, api_tok, colon, comma, l_brace, r_brace,
  l_brack, r_brack, l_paren, r_paren, minus, no_fparts, lit_part, expr_part, spanned, unexpected,
  complaint, exhausted,
}
use vejas.Vjs.Parser.{
  Parser, tail, last_pos, same, next, skip_newlines, take_if, only, fail, eat, word,
}
use vejas.Vjs.Parser.Operators.{
  PostfixOp, field_op, bracket_op, postfix_of, tighter, ident_of, is_filter,
}

module _ (P : Platform) (src : Bytes) where
  abbrev pub Parse : Type 0 → Type 0
  Parse A = Parser P.Float A

  abbrev pub Ex : Type 0
  Ex = ℕ → Parse (Expr P.Number)

  abbrev pub comma_newlines : Option (Unit {0}) → Parse (Unit {0})
  comma_newlines none = pure tt
  comma_newlines (some u) = skip_newlines

  -- A comma, if there is one, with the newlines around it.
  unfoldable pub separator : Parse (Unit {0})
  separator = do skip_newlines; o ← take_if (only comma); comma_newlines o

  unfoldable pub optional_comma : Parse (Unit {0})
  optional_comma = do o ← take_if (only comma); pure tt

  abbrev service_in : Bool → Option String → Option String
  service_in true o = o
  service_in false o = none

  unfoldable pub service_ahead : Toks P.Float → Option String
  service_ahead (spanned t i (spanned u j ts)) = service_in (same t colon) (ident_of u)
  service_ahead ts = none

  abbrev pub with_service : String → Option String → Parse String
  with_service name none c = (ok name, c)
  with_service name (some svc) c =
      (ok (name ++ (":" ++ svc)), record c { rest = tail (tail (c.rest)) })

  module _ (ex : Ex) where
    -- The loops `while *self.peek() != …` of an array, a call, a document and an invoke.
    unfoldable pub items : ℕ → Parse (Exprs P.Number)
    items zero = raise exhausted
    items (suc g) = do
      o ← take_if (only r_brack)
      elim o [
        | some u ↦ pure no_exprs
        | none ↦ do e ← ex 0; separator; es ← items g; pure (expr e es)
      ]

    unfoldable pub call_args : ℕ → Parse (Exprs P.Number)
    call_args zero = raise exhausted
    call_args (suc g) = do
      o ← take_if (only r_paren)
      elim o [
        | some u ↦ pure no_exprs
        | none ↦ do e ← ex 0; optional_comma; es ← call_args g; pure (expr e es)
      ]

    unfoldable pub doc_fields : ℕ → Parse (Fields P.Number)
    doc_fields zero = raise exhausted
    doc_fields (suc g) = do
      o ← take_if (only r_brace)
      elim o [
        | some u ↦ pure no_fields
        | none ↦ do
          key ← word src "key"
          eat src colon ":"
          e ← ex 0
          separator
          fs ← doc_fields g
          pure (named key e fs)
      ]

    unfoldable pub named_args : ℕ → Parse (Fields P.Number)
    named_args zero = raise exhausted
    named_args (suc g) = do
      o ← take_if (only r_paren)
      elim o [
        | some u ↦ pure no_fields
        | none ↦ do
          key ← word src "argument name"
          eat src colon ":"
          e ← ex 0
          optional_comma
          fs ← named_args g
          pure (named key e fs)
      ]

    -- `pkg:service`, where a name follows a colon.
    unfoldable pub qualified : String → Parse String
    qualified name c = with_service name (service_ahead (c.rest)) c

    abbrev pub name_or : Option String → Parse String
    name_or none = fail src (complaint "expected service name after invoke")
    name_or (some n) = pure n

    unfoldable pub invoke_args : ℕ → Parse (String × Fields P.Number)
    invoke_args g = do
      t ← next
      n ← name_or (ident_of t)
      name ← qualified n
      eat src l_paren "("
      args ← named_args g
      pure (name, args)

    -- A hole is parsed by a parser of its own on the hole's tokens; what it leaves is dropped.
    unfoldable pub hole_expr : Toks P.Float → Result (SyntaxError P.Float) (Expr P.Number)
    hole_expr ts = (ex 0 (record { rest = ts; last = last_pos 0 ts })).0

    unfoldable pub parts_of : FParts P.Float → Parse (Parts P.Number)
    parts_of no_fparts = pure no_parts
    parts_of (lit_part s ps) = do qs ← parts_of ps; pure (text s qs)
    parts_of (expr_part ts ps) = do e ← lift (hole_expr ts); qs ← parts_of ps; pure (hole e qs)

    -- What an expression begins with, behind its first token.
    unfoldable pub head : ℕ → Tok P.Float → Parse (Expr P.Number)
    head g (num_tok n) = pure (lit (num P n))
    head g (str s) = pure (lit (string s))
    head g true_tok = pure (lit (bool true))
    head g false_tok = pure (lit (bool false))
    head g null_tok = pure (lit null)
    head g (f_str parts) = do ps ← parts_of parts; pure (f_string ps)
    head g not_tok = do e ← ex 9; pure (unary not e)
    head g minus = do e ← ex 9; pure (unary neg e)
    head g source_tok = pure (var "source")
    head g tool_tok = pure (var "tool")
    head g driver_tok = pure (var "driver")
    head g api_tok = pure (var "api")
    head g invoke_tok = do r ← invoke_args g; pure (invoke r.0 r.1)
    head g l_paren = do e ← ex 0; eat src r_paren ")"; pure e
    head g l_brack = do skip_newlines; es ← items g; pure (array es)
    head g l_brace = do skip_newlines; fs ← doc_fields g; pure (doc fs)
    head g (ident name) = do
      o ← take_if (only l_paren)
      elim o [ some u ↦ do es ← call_args g; pure (call name es) | none ↦ pure (var name) ]
    head g t = fail src (unexpected t)

    abbrev pub indexed : Expr P.Number → Expr P.Number → Expr P.Number
    indexed lhs inner = if is_filter inner then filter lhs inner else index lhs inner

    unfoldable pub bracketed : Expr P.Number → Parse (Expr P.Number)
    bracketed lhs = do
      o ← take_if (only r_brack)
      elim o [
        | some u ↦ pure (projection lhs)
        | none ↦ do inner ← ex 0; eat src r_brack "]"; pure (indexed lhs inner)
      ]

    abbrev pub after_op :
        PostfixOp → Expr P.Number → (Expr P.Number → Parse (Expr P.Number)) → Parse (Expr P.Number)
    after_op (field_op safe) lhs more = do f ← word src "field name"; more (field lhs f safe)
    after_op bracket_op lhs more = do e ← bracketed lhs; more e

    -- The first loop behind the head, and the second.
    unfoldable pub postfix : ℕ → Expr P.Number → Parse (Expr P.Number)
    postfix zero lhs = raise exhausted
    postfix (suc g) lhs = do
      o ← take_if postfix_of
      elim o [ none ↦ pure lhs | some op ↦ after_op op lhs (postfix g) ]

    unfoldable pub binary : ℕ → ℕ → Expr P.Number → Parse (Expr P.Number)
    binary zero min_bp lhs = raise exhausted
    binary (suc g) min_bp lhs = do
      o ← take_if (tighter min_bp)
      elim o [ none ↦ pure lhs | some (op, bp) ↦ do rhs ← ex bp; binary g min_bp (bin op lhs rhs) ]

  unfoldable pub expr_at : ℕ → Ex
  expr_at zero min_bp = raise exhausted
  expr_at (suc f) min_bp = do
    t ← next
    lhs ← head (expr_at f) f t
    e ← postfix (expr_at f) f lhs
    binary (expr_at f) f min_bp e
