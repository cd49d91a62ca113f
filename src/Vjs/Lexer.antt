-- ===== src/Vjs/Lexer.antt =====
-- The lexer (core/src/vjs.rs, `lex`, `lex_string`, `lex_fstring`), on the bytes of a source. What
-- is left of the source stands beside the position; `fuel` bounds the tokens and the holes that
-- are nested in each other.
pub mod Ends
pub mod Total
pub mod Quoted
use vejas.Base.{
  ℕ, zero, suc, ◌+◌, ◌-◌, String, Bool, true, false, not, ◌&&◌, ◌||◌, Option, none, some, List, [],
  ◌∷◌, ◌++◌, length, ltb, leb, get_elem?, take, drop, if◌then◌else◌, ◌==◌, str_eq,
}
use vejas.Exec.{Result, ok, err}
use vejas.Vjs.Value.{Platform}
use vejas.Vjs.Token.{
  Bytes, Tok, FParts, Toks, Complaint, SyntaxError, ident, str, f_str, num_tok, true_tok, false_tok,
  null_tok, if_tok, elif_tok, else_tok, end_tok, for_tok, in_tok, and_tok, or_tok, not_tok,
  emit_tok, invoke_tok, source_tok, tool_tok, driver_tok, api_tok, respond_tok, newline, colon,
  comma, dot, q_dot, q_q, l_brace, r_brace, l_brack, r_brack, l_paren, r_paren, eq_tok, eq_eq,
  ne_tok, lt_tok, le_tok, gt_tok, ge_tok, plus, minus, star, slash, no_fparts, lit_part, expr_part,
  no_toks, spanned, bad_number, unterminated_string, unterminated_fstring, unterminated_hole,
  unexpected_character, panicked, exhausted, err_at, slices,
}
use vejas.Vjs.Symbols.{run_length, is_digit, is_letter, keyword, two_symbol, one_symbol}

-- `r?` where the state is passed by hand.
abbrev pub and_then {ℓ} : {E A B : Type ℓ} → Result E A → (A → Result E B) → Result E B
and_then (ok a) f = f a
and_then (err e) f = err e

unfoldable pub unescape : ℕ → ℕ
unescape c = if c == b'n' then b'\n' else if c == b't' then b'\t' else c

abbrev pub prepend : ℕ → ℕ → Option (Bytes × ℕ) → Option (Bytes × ℕ)
prepend b n none = none
prepend b n (some (bs, m)) = some (b ∷ bs, n + m)

-- The content of a string behind its opening quote, and how many bytes it and the closing quote
-- take; none where the source ends first.
unfoldable pub string_body : Bytes → Option (Bytes × ℕ)
unfolding unescape
string_body [] = none
string_body (c ∷ []) = if c == b'"' then some ([], 1) else none
string_body (c ∷ d ∷ bs) =
    let escaped = prepend (unescape d) 2 (string_body bs) in
    let plain = prepend c 1 (string_body (d ∷ bs)) in
    if c == b'"' then some ([], 1) else if c == b'\\' then escaped else plain

-- Where the brace that closes a hole stands: the bytes up to and with it, from inside `depth`
-- braces.
abbrev pub one_more : Option ℕ → Option ℕ
one_more none = none
one_more (some n) = some (suc n)

abbrev pub deeper : ℕ → ℕ → ℕ
deeper c depth = if c == b'{' then suc (suc depth) else if c == b'}' then depth else suc depth

unfoldable pub hole_end : ℕ → Bytes → Option ℕ
hole_end zero bs = some 0
hole_end (suc depth) [] = none
hole_end (suc depth) (c ∷ bs) = one_more (hole_end (deeper c depth) bs)

-- What stands next in an f-string: its end, a byte of a literal and the bytes that it takes, or a
-- hole, the bytes between its braces and the bytes that it takes.
pub data Piece : Type 0 where
  cut_off : Piece
  closing : Piece
  literal : ℕ → ℕ → Piece
  hole : Bytes → ℕ → Piece
  unclosed : Piece

abbrev pub hole_piece : Bytes → Option ℕ → Piece
hole_piece bs none = unclosed
hole_piece bs (some n) = hole (take (n - 1) bs) (1 + n)

unfoldable pub piece : Bytes → Piece
unfolding unescape hole_end
piece [] = cut_off
piece (c ∷ []) = if c == b'"' then closing else if c == b'{' then unclosed else literal c 1
piece (c ∷ d ∷ bs) =
    if c == b'"'
    then closing
    else if (c == b'{') && (d == b'{')
    then literal b'{' 2
    else if (c == b'}') && (d == b'}')
    then literal b'}' 2
    else if c == b'{'
    then hole_piece (d ∷ bs) (hole_end 1 (d ∷ bs))
    else if c == b'\\'
    then literal (unescape d) 2
    else literal c 1

unfoldable pub starts_with_quote : Bytes → Bool
starts_with_quote [] = false
starts_with_quote (b ∷ bs) = b == b'"'

-- A lexeme: bytes that give no token, or a token, with the bytes that it takes.
pub data Lexeme (F : Type 0) : Type 0 where
  skipped : ℕ → Lexeme F
  lexeme : Tok F → ℕ → Lexeme F

abbrev pub width : {F : Type 0} → Lexeme F → ℕ
width (skipped n) = n
width (lexeme t n) = n

abbrev pub lexed : {F : Type 0} → Lexeme F → ℕ → Toks F → Toks F
lexed (skipped n) i rest = rest
lexed (lexeme t n) i rest = spanned t i rest

module _ (P : Platform) where
  abbrev pub LexResult : Type 0 → Type 0
  LexResult A = Result (SyntaxError P.Float) A

  -- What is made of `&src[a..b]`.
  abbrev pub sliced : {A : Type 0} → Bytes → ℕ → ℕ → LexResult A → LexResult A
  sliced src a b r = if slices src a b then r else err panicked

  abbrev flush : Bytes → FParts P.Float → FParts P.Float
  flush [] parts = parts
  flush (b ∷ bs) parts = lit_part (P.from_utf8_lossy (b ∷ bs)) parts

  module _ (inner : Bytes → LexResult (Toks P.Float)) (src : Bytes) (quote : ℕ) where
    -- What a piece adds to the literal so far, `lit`, or to the parts, before `more` of them.
    unfoldable pub fstring_piece :
        (ℕ → Bytes → LexResult (FParts P.Float × ℕ))
        → ℕ
        → Bytes
        → Piece
        → LexResult (FParts P.Float × ℕ)
    unfolding err_at slices
    fstring_piece more i lit cut_off = err (err_at quote src unterminated_fstring)
    fstring_piece more i lit closing = ok (flush lit no_fparts, 1)
    fstring_piece more i lit unclosed = err (err_at i src unterminated_hole)
    fstring_piece more i lit (literal b n) =
        and_then (more n (lit ++ (b ∷ []))) λ r. ok (r.0, n + r.1)
    fstring_piece more i lit (hole body n) =
        and_then (sliced src (i + 1) (i + n - 1) (inner body))
          λ toks. and_then (more n []) λ r. ok (flush lit (expr_part toks r.0), n + r.1)

    unfoldable pub fstring_at : ℕ → ℕ → Bytes → Bytes → LexResult (FParts P.Float × ℕ)
    unfolding fstring_piece piece
    fstring_at zero i bs lit = err exhausted
    fstring_at (suc fuel) i bs lit =
        fstring_piece (λ n lit'. fstring_at fuel (i + n) (drop n bs) lit') i lit (piece bs)

  unfoldable pub string_lexeme : Bytes → ℕ → Option (Bytes × ℕ) → LexResult (Lexeme P.Float)
  string_lexeme src i none = err (err_at i src unterminated_string)
  string_lexeme src i (some (s, n)) = ok (lexeme (str (P.from_utf8_lossy s)) (1 + n))

  unfoldable pub number_lexeme : Bytes → ℕ → ℕ → Option P.Float → LexResult (Lexeme P.Float)
  number_lexeme src i n none = err (err_at i src bad_number)
  number_lexeme src i n (some x) = ok (lexeme (num_tok x) n)

  unfoldable pub single_lexeme : Bytes → ℕ → ℕ → Option (Tok P.Float) → LexResult (Lexeme P.Float)
  single_lexeme src i c none = err (err_at i src (unexpected_character c))
  single_lexeme src i c (some t) = ok (lexeme t 1)

  unfoldable pub double_lexeme : Bytes → ℕ → ℕ → Option (Tok P.Float) → LexResult (Lexeme P.Float)
  unfolding single_lexeme one_symbol
  double_lexeme src i c none = single_lexeme src i c (one_symbol c)
  double_lexeme src i c (some t) = ok (lexeme t 2)

  -- `&src[i..i + 2]`, where `i + 1 < b.len()`
  unfoldable pub symbol_lexeme : Bytes → ℕ → ℕ → Bytes → LexResult (Lexeme P.Float)
  unfolding single_lexeme double_lexeme one_symbol two_symbol slices
  symbol_lexeme src i c [] = single_lexeme src i c (one_symbol c)
  symbol_lexeme src i c (d ∷ bs) = sliced src i (i + 2) (double_lexeme src i c (two_symbol c d))

  -- A number and a word, from their first byte on.
  unfoldable pub number_from : Bytes → ℕ → Bytes → LexResult (Lexeme P.Float)
  unfolding number_lexeme run_length is_digit slices
  number_from src i bs =
      let n = run_length (λ b. is_digit b || (b == b'.')) bs in
      sliced src i (i + n) (number_lexeme src i n (P.parse_f64 (P.from_utf8_lossy (take n bs))))

  unfoldable pub word_from : Bytes → ℕ → Bytes → LexResult (Lexeme P.Float)
  unfolding run_length keyword is_letter is_digit slices
  word_from src i bs =
      let n = run_length (λ b. is_letter b || is_digit b) bs in
      sliced src i (i + n) (ok (lexeme (keyword (P.from_utf8_lossy (take n bs))) n))

  unfoldable pub fstring_from :
      (Bytes → LexResult (Toks P.Float)) → ℕ → Bytes → ℕ → Bytes → LexResult (Lexeme P.Float)
  unfolding fstring_at
  fstring_from inner fuel src i bs =
      and_then (fstring_at inner src (i + 1) fuel (i + 2) (drop 1 bs) [])
        λ r. ok (lexeme (f_str r.0) (2 + r.1))

  -- The round of `lex` at a byte, with what follows it.
  unfoldable pub scan :
      (Bytes → LexResult (Toks P.Float)) → ℕ → Bytes → ℕ → ℕ → Bytes → LexResult (Lexeme P.Float)
  unfolding symbol_lexeme string_lexeme number_from word_from fstring_from starts_with_quote
      string_body run_length is_digit is_letter
  scan inner fuel src i c bs =
      if (c == b' ') || (c == b'\t') || (c == b'\r')
      then ok (skipped 1)
      else if c == b'\n'
      then ok (lexeme newline 1)
      else if c == b'#'
      then ok (skipped (suc (run_length (λ b. not (b == b'\n')) bs)))
      else if c == b'"'
      then string_lexeme src i (string_body bs)
      else if (c == b'f') && starts_with_quote bs
      then fstring_from inner fuel src i bs
      else if is_digit c
      then number_from src i (c ∷ bs)
      else if is_letter c
      then word_from src i (c ∷ bs)
      else symbol_lexeme src i c bs

  -- The loop of `lex`, from position `i` of the source on.
  unfoldable pub lex_at : ℕ → Bytes → ℕ → Bytes → LexResult (Toks P.Float)
  unfolding scan
  lex_at zero src i bs = err exhausted
  lex_at (suc fuel) src i [] = ok (spanned newline i no_toks)
  lex_at (suc fuel) src i (c ∷ bs) =
      and_then (scan (λ body. lex_at fuel body 0 body) fuel src i c bs) λ l.
        and_then (lex_at fuel src (i + width l) (drop (width l) (c ∷ bs)))
          λ rest. ok (lexed l i rest)

  unfoldable pub lex : Bytes → LexResult (Toks P.Float)
  unfolding lex_at
  lex src = lex_at (suc (length src)) src 0 src
