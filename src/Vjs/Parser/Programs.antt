-- ===== src/Vjs/Parser/Programs.antt =====
-- Programs (core/src/vjs.rs, `Parser::program`, `literal_value`, `try_literal`, `parse`).
use Prim.Native.Char.{code}
use vejas.Base.{
  ℕ, zero, suc, String, Bool, true, false, ◌&&◌, ◌||◌, Option, none, some, List, [], ◌∷◌, leb,
  if◌then◌else◌, ◌==◌,
}
use vejas.Exec.{Result, ok, err, pure, raise, gets, ◌>>=◌, ◌>>◌}
use vejas.Vjs.Value.{Platform, as_str}
use vejas.Vjs.Ast.{Stmt, Block, Program, SurfaceEntry, assign, lit, end_block, stmt}
use vejas.Vjs.Token.{
  Bytes, Tok, Toks, SyntaxError, ident, str, source_tok, tool_tok, driver_tok, api_tok, eq_tok,
  spanned, complaint, exhausted, toks_size,
}
use vejas.Vjs.Lexer.{and_then, lex}
use vejas.Vjs.Parser.{Cursor, tail, last_pos, pos_or, next, skip_newlines, take_if, fail, at_end}
use vejas.Vjs.Parser.Exprs.{Parse, expr_at}
use vejas.Vjs.Parser.Stmts.{stmt_at}
use vejas.Vjs.Static.Graph.{collect_block}
use vejas.Vjs.Static.Secret.{walk_stmts}
use vejas.Vjs.Parser.Literals.{Literal, try_literal}

unfoldable pub is_upper : ℕ → Bool
is_upper c = leb b'A' c && leb c b'Z'

unfoldable pub all_constant : String → Bool
all_constant String.[] = true
all_constant (String.◌∷◌ c s) =
    (is_upper (code c) || (code c == b'_') || (leb b'0' (code c) && leb (code c) b'9'))
    && all_constant s

unfoldable pub any_upper : String → Bool
any_upper String.[] = false
any_upper (String.◌∷◌ c s) = is_upper (code c) || any_upper s

-- The name of a constant, where `NAME =` stands ahead.
abbrev upper_name : {F : Type 0} → String → Tok F → Option String
upper_name name eq_tok = if all_constant name && any_upper name then some name else none
upper_name name t = none

unfoldable pub constant_name : {F : Type 0} → Toks F → Option String
constant_name (spanned (ident name) i (spanned t j ts)) = upper_name name t
constant_name ts = none

pub data Directive : Type 0 where
  source_name tool_name driver_name api_name : Directive

unfoldable pub directive_of : {F : Type 0} → Tok F → Option Directive
directive_of source_tok = some source_name
directive_of tool_tok = some tool_name
directive_of driver_tok = some driver_name
directive_of api_tok = some api_name
directive_of t = none

abbrev pub string_of : {F : Type 0} → Tok F → Option String
string_of (str s) = some s
string_of t = none

pub record Directives : Type 0 where
  pub source : Option String
  pub tool : Option String
  pub driver : Option String
  pub api : Option String

abbrev pub set_directive : Directive → String → Directives → Directives
set_directive source_name s d = record d { source = some s }
set_directive tool_name s d = record d { tool = some s }
set_directive driver_name s d = record d { driver = some s }
set_directive api_name s d = record d { api = some s }

abbrev pub directive_message : Directive → String
directive_message source_name = "source expects a string subject"
directive_message tool_name = "tool expects a string description"
directive_message driver_name = "driver expects a string driver name"
directive_message api_name = "api expects a string like \"POST /orders\""

-- The constants that are texts.
abbrev pub text_constant : String → Option String → List (String × String) → List (String × String)
text_constant name none rest = rest
text_constant name (some s) rest = (name, s) ∷ rest

unfoldable pub consts_of : {N : Type 0} → List (SurfaceEntry N) → List (String × String)
consts_of [] = []
consts_of (e ∷ es) = text_constant (e.name) (as_str (e.value)) (consts_of es)

module _ (P : Platform) (src : Bytes) where
  abbrev pub Entry : Type 0
  Entry = SurfaceEntry P.Number

  abbrev entry_of : String → ℕ → Literal P src → Entry
  entry_of name start (v, (spans, end)) = record {
    name = name;
    value = v;
    value_span = (start, end);
    entry_spans = spans;
  }

  abbrev pub settled :
      String
      → ℕ
      → Cursor P.Float
      → Result (SyntaxError P.Float) (Option (Literal P src)) × Cursor P.Float
      → Result (SyntaxError P.Float) (Option Entry) × Cursor P.Float
  settled name start c (ok (some l), after) = (ok (some (entry_of name start l)), after)
  settled name start c (ok none, after) = (ok none, c)
  settled name start c (err e, after) = (err e, after)

  abbrev pub behind : Cursor P.Float → Cursor P.Float
  behind c = record c { rest = tail (tail (c.rest)) }

  abbrev pub constant_from : ℕ → Option String → Parse P src (Option Entry)
  constant_from f none c = (ok none, c)
  constant_from f (some name) c =
      settled name (pos_or ((behind c).last) ((behind c).rest)) c (try_literal P src f (behind c))

  -- `NAME = literal`, or nothing, with the cursor where it was.
  unfoldable pub constant : ℕ → Parse P src (Option Entry)
  constant f c = constant_from f (constant_name (c.rest)) c

  abbrev pub text_or : Directive → Option String → Parse P src String
  text_or k none = fail src (complaint (directive_message k))
  text_or k (some s) = pure s

  abbrev pub Draft : Type 0
  Draft = Directives × (Block P.Number × List Entry)

  abbrev pub with_stmt : Stmt P.Number → Draft → Draft
  with_stmt s (d, (b, es)) = (d, (stmt s b, es))

  abbrev pub with_entry : Entry → Draft → Draft
  with_entry e (d, (b, es)) = (d, (stmt (assign (e.name ∷ []) (lit e.value)) b, e ∷ es))

  abbrev pub unless_final : {A : Type 0} → Bool → A → Parse P src A → Parse P src A
  unless_final true a more = pure a
  unless_final false a more = more

  abbrev pub after_constant :
      Option Entry → Parse P src (Stmt P.Number) → Parse P src Draft → Parse P src Draft
  after_constant (some entry) statement more = do r ← more; pure (with_entry entry r)
  after_constant none statement more = do s ← statement; r ← more; pure (with_stmt s r)

  -- The loop of `program`, with the fuel for what is nested as `f`.
  unfoldable pub program_from : ℕ → ℕ → Directives → Parse P src Draft
  program_from f zero d = raise exhausted
  program_from f (suc g) d = do
    skip_newlines
    final ← gets (λ c. at_end (c.rest))
    unless_final final (d, (end_block, []))
        (do
          o ← take_if directive_of
          elim o [
            | some k ↦ do
              t ← next
              s ← text_or k (string_of t)
              program_from f g (set_directive k s d)
            | none ↦ do
              e ← constant f
              after_constant e (stmt_at P src (expr_at P src f) f) (program_from f g d)
          ])

  unfoldable pub finished : Draft → Program P.Number
  finished (d, (b, es)) =
      let c = collect_block (consts_of es) b (record { emits = []; invokes = [] }) in
      record {
        source = d.source;
        tool = d.tool;
        api = d.api;
        driver = d.driver;
        stmts = b;
        surface = es;
        emit_subjects = c.emits;
        invokes = c.invokes;
        secret_refs = walk_stmts b [];
      }

  unfoldable pub program : ℕ → Parse P src (Program P.Number)
  program f = do
    r ← program_from f f (record { source = none; tool = none; driver = none; api = none })
    pure (finished r)

-- `parse`, with the fuel that the tokens need.
unfoldable pub parse : (P : Platform) → Bytes → Result (SyntaxError P.Float) (Program P.Number)
parse P src = and_then (lex P src) λ toks.
    (program P src (suc (toks_size toks)) (record { rest = toks; last = last_pos 0 toks })).0
