-- ===== src/Vjs/Parser.antt =====
-- The parser's cursor (core/src/vjs.rs, `Parser`): the tokens that are left stand for `toks` and
-- `i`. Where the code matches on the token ahead and then steps over it, the match is a function
-- into Option, and `take_if` does both.
pub mod Within
pub mod Operators
pub mod Exprs
pub mod Stmts
pub mod Literals
pub mod Programs
use vejas.Base.{ℕ, suc, String, Bool, true, false, Option, none, some, if◌then◌else◌, ◌==◌}
use vejas.Exec.{Result, ok, err, Exec, pure, raise, gets, ◌>>=◌}
use vejas.Vjs.Token.{
  Bytes, Tok, Toks, Complaint, SyntaxError, ident, str, true_tok, false_tok, null_tok, if_tok,
  elif_tok, else_tok, end_tok, for_tok, in_tok, and_tok, or_tok, not_tok, emit_tok, invoke_tok,
  source_tok, tool_tok, driver_tok, api_tok, respond_tok, newline, no_toks, spanned, expected, tag,
  err_at,
}

-- `last` is the position of the last token of all, which counts once none is left.
pub record Cursor (F : Type 0) : Type 0 where
  pub rest : Toks F
  pub last : ℕ

module _ {F : Type 0} where
  unfoldable pub first : Toks F → Tok F
  first no_toks = newline
  first (spanned t i ts) = t

  unfoldable pub second : Toks F → Option (Tok F)
  second (spanned t i (spanned u j ts)) = some u
  second _ = none

  unfoldable pub tail : Toks F → Toks F
  tail no_toks = no_toks
  tail (spanned t i ts) = ts

  unfoldable pub pos_or : ℕ → Toks F → ℕ
  pos_or last no_toks = last
  pos_or last (spanned t i ts) = i

  unfoldable pub last_pos : ℕ → Toks F → ℕ
  last_pos p no_toks = p
  last_pos p (spanned t i ts) = last_pos i ts

  unfoldable pub same : Tok F → Tok F → Bool
  same t u = tag t == tag u

  unfoldable pub skip : Toks F → Toks F
  skip no_toks = no_toks
  skip (spanned t i ts) = let more = skip ts in if same t newline then more else spanned t i ts

  -- Keywords are allowed where a key or a field's name stands.
  unfoldable pub word_of : Tok F → Option String
  word_of (ident s) = some s
  word_of (str s) = some s
  word_of if_tok = some "if"
  word_of elif_tok = some "elif"
  word_of else_tok = some "else"
  word_of end_tok = some "end"
  word_of for_tok = some "for"
  word_of in_tok = some "in"
  word_of and_tok = some "and"
  word_of or_tok = some "or"
  word_of not_tok = some "not"
  word_of emit_tok = some "emit"
  word_of invoke_tok = some "invoke"
  word_of source_tok = some "source"
  word_of tool_tok = some "tool"
  word_of driver_tok = some "driver"
  word_of api_tok = some "api"
  word_of respond_tok = some "respond"
  word_of true_tok = some "true"
  word_of false_tok = some "false"
  word_of null_tok = some "null"
  word_of _ = none

  -- `self.toks.len() - 1` is not negative: the lexer ends every source by a newline.
  unfoldable pub at_end : Toks F → Bool
  at_end (spanned t i (spanned u j ts)) = false
  at_end _ = true

abbrev pub Parser : Type 0 → Type 0 → Type 0
Parser F A = Exec (SyntaxError F) (Cursor F) A

module _ {F : Type 0} where
  unfoldable pub peek : Parser F (Tok F)
  peek = gets (λ c. first (c.rest))

  unfoldable pub pos : Parser F ℕ
  pos = gets (λ c. pos_or (c.last) (c.rest))

  unfoldable pub next : Parser F (Tok F)
  next c = (ok (first (c.rest)), record c { rest = tail (c.rest) })

  unfoldable pub skip_newlines : Parser F (Unit {0})
  skip_newlines c = (ok tt, record c { rest = skip (c.rest) })

  -- The token ahead is stepped over if it is one of those that the match looks for.
  abbrev pub taken :
      {B : Type 0} → Option B → Cursor F → Result (SyntaxError F) (Option B) × Cursor F
  taken none c = (ok none, c)
  taken (some b) c = (ok (some b), record c { rest = tail (c.rest) })

  unfoldable pub take_if : {B : Type 0} → (Tok F → Option B) → Parser F (Option B)
  take_if classify c = taken (classify (first (c.rest))) c

  unfoldable pub only : Tok F → Tok F → Option (Unit {0})
  only t u = if same u t then some tt else none

module _ {F : Type 0} (src : Bytes) where
  unfoldable pub fail : {A : Type 0} → Complaint F → Parser F A
  fail msg c = (err (err_at (pos_or (c.last) (c.rest)) src msg), c)

  abbrev pub or_expected : {B : Type 0} → String → Tok F → Option B → Parser F B
  or_expected what t none = fail (expected what t)
  or_expected what t (some b) = pure b

  -- What a match on the token ahead gives, or the error that names what is expected.
  unfoldable pub expect : {B : Type 0} → (Tok F → Option B) → String → Parser F B
  expect classify what = do t ← peek; o ← take_if classify; or_expected what t o

  unfoldable pub eat : Tok F → String → Parser F (Unit {0})
  eat t what = expect (only t) what

  unfoldable pub word : String → Parser F String
  word what = expect word_of what
