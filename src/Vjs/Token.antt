-- ===== src/Vjs/Token.antt =====
-- The tokens of VejasScript and the errors of its lexer and parser (core/src/vjs.rs, `Tok`,
-- `FPart`, `Spanned`, `err_at`). A source is its bytes.
use vejas.Base.{
  ℕ, suc, ◌+◌, String, Bool, not, ◌&&◌, Option, none, some, List, [], ◌∷◌, length, ltb, leb,
  get_elem?, take, if◌then◌else◌, ◌==◌,
}

abbrev pub Bytes : Type 0
Bytes = List ℕ

-- `F` is f64. A list of `Spanned`, and the parts of an f-string, are types of their own.
mutual
  pub data Tok (F : Type 0) : Type 0 where
    ident : String → Tok F
    str : String → Tok F
    f_str : FParts F → Tok F
    num_tok : F → Tok F
    true_tok false_tok null_tok : Tok F
    if_tok elif_tok else_tok end_tok for_tok in_tok and_tok or_tok not_tok : Tok F
    emit_tok invoke_tok source_tok tool_tok driver_tok api_tok respond_tok : Tok F
    newline colon comma dot q_dot q_q : Tok F
    l_brace r_brace l_brack r_brack l_paren r_paren : Tok F
    eq_tok eq_eq ne_tok lt_tok le_tok gt_tok ge_tok plus minus star slash : Tok F

  pub data FParts (F : Type 0) : Type 0 where
    no_fparts : FParts F
    lit_part : String → FParts F → FParts F
    expr_part : Toks F → FParts F → FParts F

  pub data Toks (F : Type 0) : Type 0 where
    no_toks : Toks F
    spanned : Tok F → ℕ → Toks F → Toks F

-- The messages, without their line.
pub data Complaint (F : Type 0) : Type 0 where
  bad_number unterminated_string unterminated_fstring unterminated_hole : Complaint F
  unexpected_character : ℕ → Complaint F
  expected : String → Tok F → Complaint F
  unexpected : Tok F → Complaint F
  complaint : String → Complaint F

-- An error is a message with its line. `panicked` is a slice of a text that is out of range or cuts
-- a character, on which the program panics; `exhausted` is want of fuel.
pub data SyntaxError (F : Type 0) : Type 0 where
  at_line : ℕ → Complaint F → SyntaxError F
  panicked : SyntaxError F
  exhausted : SyntaxError F

unfoldable pub is_continuation : Option ℕ → Bool
is_continuation none = Bool.false
is_continuation (some b) = leb 128 b && ltb b 192

-- `src.is_char_boundary(i)`
unfoldable pub is_char_boundary : Bytes → ℕ → Bool
unfolding is_continuation
is_char_boundary src i = leb i (length src) && not (is_continuation (get_elem? src i))

-- `&src[a..b]` panics unless this holds.
unfoldable pub slices : Bytes → ℕ → ℕ → Bool
unfolding is_char_boundary
slices src a b = leb a b && is_char_boundary src a && is_char_boundary src b

abbrev newlines : Bytes → ℕ
newlines [] = 0
newlines (b ∷ bs) = if b == b'\n' then suc (newlines bs) else newlines bs

unfoldable pub min : ℕ → ℕ → ℕ
min a b = if leb a b then a else b

-- `src[..pos.min(src.len())]` panics where the index cuts a character.
unfoldable pub err_at : {F : Type 0} → ℕ → Bytes → Complaint F → SyntaxError F
unfolding is_char_boundary min
err_at pos src msg =
    if is_char_boundary src (min pos (length src))
    then at_line (newlines (take (min pos (length src)) src) + 1) msg
    else panicked

-- The number of a token's constructor: two tokens without content are equal if it is the same.
unfoldable pub tag : {F : Type 0} → Tok F → ℕ
tag newline = 0
tag (ident s) = 1
tag (str s) = 2
tag (f_str ps) = 3
tag (num_tok n) = 4
tag true_tok = 5
tag false_tok = 6
tag null_tok = 7
tag if_tok = 8
tag elif_tok = 9
tag else_tok = 10
tag end_tok = 11
tag for_tok = 12
tag in_tok = 13
tag and_tok = 14
tag or_tok = 15
tag not_tok = 16
tag emit_tok = 17
tag invoke_tok = 18
tag source_tok = 19
tag tool_tok = 20
tag driver_tok = 21
tag api_tok = 22
tag respond_tok = 23
tag colon = 24
tag comma = 25
tag dot = 26
tag q_dot = 27
tag q_q = 28
tag l_brace = 29
tag r_brace = 30
tag l_brack = 31
tag r_brack = 32
tag l_paren = 33
tag r_paren = 34
tag eq_tok = 35
tag eq_eq = 36
tag ne_tok = 37
tag lt_tok = 38
tag le_tok = 39
tag gt_tok = 40
tag ge_tok = 41
tag plus = 42
tag minus = 43
tag star = 44
tag slash = 45

-- How many tokens there are, those of the holes included: the fuel that parsing needs is one more.
unfoldable mutual
  pub toks_size : {F : Type 0} → Toks F → ℕ
  toks_size no_toks = 0
  toks_size (spanned t i ts) = 1 + (tok_size t + toks_size ts)

  pub tok_size : {F : Type 0} → Tok F → ℕ
  tok_size (f_str ps) = parts_size ps
  tok_size _ = 0

  pub parts_size : {F : Type 0} → FParts F → ℕ
  parts_size no_fparts = 0
  parts_size (lit_part s ps) = parts_size ps
  parts_size (expr_part ts ps) = toks_size ts + parts_size ps
