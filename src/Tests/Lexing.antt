-- ===== src/Tests/Lexing.antt =====
-- The lexer on concrete sources.
use vejas.Base.{ℕ, suc, length, arith, ◌≡◌, ◌≢◌, refl, [], ◌∷◌, String}
use Prim.Native.Char.{code}
use vejas.Exec.{Result, ok, err}
use vejas.Vjs.Token.{
  Bytes, Toks, ident, str, f_str, num_tok, newline, eq_tok, plus, no_toks, spanned, lit_part,
  expr_part, no_fparts, panicked, err_at, is_char_boundary, slices, is_continuation, min,
  SyntaxError, exhausted,
}
use vejas.Vjs.Lexer
use vejas.Vjs.Symbols
use vejas.Vjs.Lexer.{lexeme, scan, lex}
use vejas.Vjs.Lexer.Total.{Ascii, lex-ne-exhausted, lex-ne-panicked}
use vejas.Vjs.Lexer.Quoted.{escaped, quoted, scan-quoted}
use vejas.Tests.Toy.{toy, ascii_text, decimal}

abbrev pub bytes : String → Bytes
bytes String.[] = []
bytes (String.◌∷◌ c s) = code c ∷ bytes s

unfoldable pub lexing : String → Result (SyntaxError ℕ) (Toks ℕ)
unfolding Lexer.lex Lexer.scan Symbols.run_length Symbols.is_digit Symbols.is_letter Symbols.keyword
    Lexer.piece Lexer.hole_end Lexer.fstring_at Lexer.string_body Lexer.lex_at ascii_text decimal
    Lexer.unescape Symbols.two_symbol Symbols.one_symbol err_at is_char_boundary slices
    is_continuation min
lexing s = Lexer.lex toy (bytes s)

-- x = f"a{b}" + 12
assignment :
    lexing "x = f\"a{b}\" + 12"
    ≡ ok (
        spanned (ident "x") 0 (
          spanned eq_tok 2 (
            spanned
              (f_str (
                lit_part "a"
                  (expr_part (spanned (ident "b") 0 (spanned newline 1 no_toks)) no_fparts)))
              4
              (spanned plus 12 (spanned (num_tok 12) 14 (spanned newline 16 no_toks))))))
unfolding lexing
assignment = refl

-- A character of three bytes, or of two after a symbol, makes the lexer cut it.
euro : Lexer.lex toy (0xe2 ∷ 0x82 ∷ 0xac ∷ []) ≡ err panicked
unfolding lexing
euro = refl

-- f"{f"{x}"}": a hole in a hole's f-string
abbrev nested : Bytes
nested = bytes "f\"{f\"{x}\"}\""

lex-ne-exhausted_example : lex toy nested ≢ err exhausted
lex-ne-exhausted_example = lex-ne-exhausted toy nested

-- x=1
abbrev short : Bytes
short = 120 ∷ 61 ∷ 49 ∷ []

short-Ascii : Ascii short
short-Ascii = (omega arith, (omega arith, (omega arith, tt)))

lex-ne-panicked_example : lex toy short ≢ err panicked
lex-ne-panicked_example = lex-ne-panicked toy short short-Ascii

-- a"b, before a newline
abbrev with_quote : Bytes
with_quote = 97 ∷ b'"' ∷ 98 ∷ []

scan-quoted_example :
    scan toy (lex toy) 9 [] 0 b'"' (quoted with_quote (10 ∷ []))
    ≡ ok (lexeme (str (ascii_text with_quote)) (suc (suc (length (escaped with_quote)))))
scan-quoted_example = scan-quoted toy (lex toy) 9 0 [] with_quote (10 ∷ [])
