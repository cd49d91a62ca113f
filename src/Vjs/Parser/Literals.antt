-- ===== src/Vjs/Parser/Literals.antt =====
-- Literals (core/src/vjs.rs, `literal_value`, `try_literal`).
use vejas.Base.{ℕ, zero, suc, String, Bool, true, false, Option, none, some, List, [], ◌∷◌}
use vejas.Exec.{Result, ok, err, pure, raise, ◌>>=◌, ◌>>◌}
use vejas.Vjs.Value.{
  Items, Platform, Json, Map, null, bool, string, array, object, no_items, item, no_entries, num,
}
use vejas.Vjs.Ast.{Span}
use vejas.Vjs.Token.{
  Bytes, Tok, SyntaxError, str, num_tok, true_tok, false_tok, null_tok, newline, colon, l_brace,
  r_brace, l_brack, r_brack, minus, complaint, at_line, panicked, exhausted,
}
use vejas.Vjs.Parser.{Cursor, first, same, pos, next, skip_newlines, take_if, only, fail, eat, word}
use vejas.Vjs.Parser.Exprs.{Parse, separator}

module _ (P : Platform) (src : Bytes) where
  -- A literal, the spans of a document's entries, and where the literal ends.
  abbrev pub Literal : Type 0
  Literal = Json P × (List (String × Span) × ℕ)

  abbrev pub ending : Json P → List (String × Span) → Parse P src Literal
  ending v spans = do end ← pos; pure (v, (spans, end))

  abbrev pub negative : Tok P.Float → Parse P src Literal
  negative (num_tok n) = ending (num P (P.neg n)) []
  negative t = fail src (complaint "expected number")

  module _ (literal : Parse P src Literal) where
    unfoldable pub literal_items : ℕ → Parse P src (Items P.Number)
    literal_items zero = raise exhausted
    literal_items (suc g) = do
      o ← take_if (only r_brack)
      elim o [
        | some u ↦ pure no_items
        | none ↦ do l ← literal; separator P src; vs ← literal_items g; pure (item l.0 vs)
      ]

    -- The entries are inserted into the map in their order.
    unfoldable pub literal_entries : ℕ → Map P → Parse P src (Map P × List (String × Span))
    literal_entries zero m = raise exhausted
    literal_entries (suc g) m = do
      o ← take_if (only r_brace)
      elim o [
        | some u ↦ pure (m, [])
        | none ↦ do
          key ← word src "key"
          eat src colon ":"
          start ← pos
          l ← literal
          end ← pos
          separator P src
          r ← literal_entries g (P.insert key l.0 m)
          pure (r.0, (key, (start, end)) ∷ r.1)
      ]

    unfoldable pub literal_from : ℕ → Tok P.Float → Parse P src Literal
    literal_from g (str s) = ending (string s) []
    literal_from g (num_tok n) = ending (num P n) []
    literal_from g true_tok = ending (bool true) []
    literal_from g false_tok = ending (bool false) []
    literal_from g null_tok = ending null []
    literal_from g minus = do t ← next; negative t
    literal_from g l_brack = do skip_newlines; vs ← literal_items g; ending (array vs) []
    literal_from g l_brace = do
      skip_newlines
      r ← literal_entries g no_entries
      ending (object r.0) (r.1)
    literal_from g t = fail src (complaint "not a literal")

  unfoldable pub literal_value : ℕ → Parse P src Literal
  literal_value zero = raise exhausted
  literal_value (suc f) = do t ← next; literal_from (literal_value f) f t

  abbrev pub found_literal :
      Literal
      → Bool
      → Cursor P.Float
      → Cursor P.Float
      → Result (SyntaxError P.Float) (Option Literal) × Cursor P.Float
  found_literal l true c after = (ok (some l), after)
  found_literal l false c after = (ok none, c)

  -- A literal that a newline follows; the cursor goes back where there is none. Only a message is
  -- caught.
  abbrev pub tried :
      Result (SyntaxError P.Float) Literal
      → Cursor P.Float
      → Cursor P.Float
      → Result (SyntaxError P.Float) (Option Literal) × Cursor P.Float
  tried (ok l) c after = found_literal l (same (first (after.rest)) newline) c after
  tried (err (at_line n msg)) c after = (ok none, c)
  tried (err panicked) c after = (err panicked, after)
  tried (err exhausted) c after = (err exhausted, after)

  unfoldable pub try_literal : ℕ → Parse P src (Option Literal)
  try_literal f c = let (r, after) = literal_value f c in tried r c after
