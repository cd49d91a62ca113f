-- ===== src/Vjs/Symbols.antt =====
-- The words and the symbols of the language (core/src/vjs.rs, `lex`).
use vejas.Base.{
  ℕ, suc, String, Bool, ◌&&◌, ◌||◌, Option, none, some, [], ◌∷◌, leb, if◌then◌else◌, ◌==◌, str_eq,
}
use vejas.Vjs.Token.{
  Bytes, Tok, ident, true_tok, false_tok, null_tok, if_tok, elif_tok, else_tok, end_tok, for_tok,
  in_tok, and_tok, or_tok, not_tok, emit_tok, invoke_tok, source_tok, tool_tok, driver_tok, api_tok,
  respond_tok, colon, comma, dot, q_dot, q_q, l_brace, r_brace, l_brack, r_brack, l_paren, r_paren,
  eq_tok, eq_eq, ne_tok, lt_tok, le_tok, gt_tok, ge_tok, plus, minus, star, slash,
}

-- How many bytes from here satisfy the test.
unfoldable pub run_length : (ℕ → Bool) → Bytes → ℕ
run_length p [] = 0
run_length p (b ∷ bs) = let n = run_length p bs in if p b then suc n else 0

unfoldable pub is_digit : ℕ → Bool
is_digit b = leb b'0' b && leb b b'9'

unfoldable pub is_letter : ℕ → Bool
is_letter b = (leb b'a' b && leb b b'z') || (leb b'A' b && leb b b'Z') || (b == b'_')

unfoldable pub keyword : {F : Type 0} → String → Tok F
keyword w =
    if str_eq w "if"
    then if_tok
    else if str_eq w "elif"
    then elif_tok
    else if str_eq w "else"
    then else_tok
    else if str_eq w "end"
    then end_tok
    else if str_eq w "for"
    then for_tok
    else if str_eq w "in"
    then in_tok
    else if str_eq w "and"
    then and_tok
    else if str_eq w "or"
    then or_tok
    else if str_eq w "not"
    then not_tok
    else if str_eq w "emit"
    then emit_tok
    else if str_eq w "invoke"
    then invoke_tok
    else if str_eq w "source"
    then source_tok
    else if str_eq w "tool"
    then tool_tok
    else if str_eq w "driver"
    then driver_tok
    else if str_eq w "api"
    then api_tok
    else if str_eq w "respond"
    then respond_tok
    else if str_eq w "true"
    then true_tok
    else if str_eq w "false"
    then false_tok
    else if str_eq w "null"
    then null_tok
    else ident w

-- The symbols of two bytes and of one.
unfoldable pub two_symbol : {F : Type 0} → ℕ → ℕ → Option (Tok F)
two_symbol c d =
    if (c == b'?') && (d == b'.')
    then some q_dot
    else if (c == b'?') && (d == b'?')
    then some q_q
    else if d == b'='
    then (if c == b'='
        then some eq_eq
        else if c == b'!'
        then some ne_tok
        else if c == b'<'
        then some le_tok
        else if c == b'>'
        then some ge_tok
        else none)
    else none

unfoldable pub one_symbol : {F : Type 0} → ℕ → Option (Tok F)
one_symbol c =
    if c == b':'
    then some colon
    else if c == b','
    then some comma
    else if c == b'.'
    then some dot
    else if c == b'{'
    then some l_brace
    else if c == b'}'
    then some r_brace
    else if c == b'['
    then some l_brack
    else if c == b']'
    then some r_brack
    else if c == b'('
    then some l_paren
    else if c == b')'
    then some r_paren
    else if c == b'='
    then some eq_tok
    else if c == b'<'
    then some lt_tok
    else if c == b'>'
    then some gt_tok
    else if c == b'+'
    then some plus
    else if c == b'-'
    then some minus
    else if c == b'*'
    then some star
    else if c == b'/'
    then some slash
    else none
