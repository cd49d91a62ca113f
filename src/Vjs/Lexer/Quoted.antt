-- ===== src/Vjs/Lexer/Quoted.antt =====
-- A quoted text is lexed as that text (core/src/vjs.rs, `lex_string`).
use vejas.Base.{
  ℕ, suc, ◌+◌, ◌≡◌, refl, ap, ◌∙◌, Bool, true, false, Option, some, [], ◌∷◌, ◌++◌, length,
  if◌then◌else◌, if_cases, ◌==◌, arith,
}
use vejas.Exec.{ok}
use vejas.Vjs.Value.{Platform}
use vejas.Vjs.Token.{Bytes, Toks, str}
use vejas.Vjs.Lexer.{LexResult, prepend, string_body, unescape, lexeme, string_lexeme, scan}

-- The specification: a quote and a backslash stand behind a backslash.
abbrev pub needs_escape : ℕ → Bool
needs_escape c = if c == b'"' then true else c == b'\\'

pub escaped : Bytes → Bytes
escaped [] = []
escaped (c ∷ s) = let rest = escaped s in if needs_escape c then b'\\' ∷ c ∷ rest else c ∷ rest

-- A text in quotes, without the opening one.
abbrev pub quoted : Bytes → Bytes → Bytes
quoted s rest = escaped s ++ (b'"' ∷ rest)

string_body-plain :
    (c : ℕ) (bs : Bytes)
    → needs_escape c ≡ false
    → string_body (c ∷ bs) ≡ prepend c 1 (string_body bs)
unfolding string_body
string_body-plain c [] e = ground arith
string_body-plain c (d ∷ bs) e = ground arith

unescape-same : (c : ℕ) → needs_escape c ≡ true → unescape c ≡ c
unfolding unescape
unescape-same c e = ground arith

string_body-escape :
    (c : ℕ) (bs : Bytes)
    → needs_escape c ≡ true
    → string_body (b'\\' ∷ c ∷ bs) ≡ prepend c 2 (string_body bs)
unfolding string_body unescape
string_body-escape c bs e = ap (λ d. prepend d 2 (string_body bs)) (unescape-same c e)

string_body-quote : (rest : Bytes) → string_body (b'"' ∷ rest) ≡ some ([], 1)
unfolding string_body
string_body-quote [] = refl
string_body-quote (c ∷ rest) = refl

counted :
    (c : ℕ) (s : Bytes) (n m : ℕ)
    → m ≡ suc (n + length (escaped s))
    → ◌≡◌ {A = Option (Bytes × ℕ)} (some (c ∷ s, n + suc (length (escaped s)))) (some (c ∷ s, m))
counted c s n m e = ap (λ k. some (c ∷ s, k)) (omega (arith, e))

string_body-quoted :
    (s rest : Bytes) → string_body (quoted s rest) ≡ some (s, suc (length (escaped s)))
unfolding escaped
string_body-quoted [] rest = string_body-quote rest
string_body-quoted (c ∷ s) rest =
    let ih = string_body-quoted s rest in
    if_cases (λ x. string_body (x ++ (b'"' ∷ rest)) ≡ some (c ∷ s, suc (length x))) (needs_escape c)
      (λ e.
        string_body-escape c (quoted s rest) e
        ∙ ap (λ o. prepend c 2 o) ih
        ∙ counted c s 2 (suc (suc (suc (length (escaped s))))) (omega arith))
      (λ e.
        string_body-plain c (quoted s rest) e
        ∙ ap (λ o. prepend c 1 o) ih
        ∙ counted c s 1 (suc (suc (length (escaped s)))) (omega arith))

-- Where a quote stands, a text in quotes is lexed as that text, whatever follows, and takes its
-- bytes and no more: so every text has a literal, with a backslash before each quote and backslash.
pub scan-quoted :
    (P : Platform) (inner : Bytes → LexResult P (Toks P.Float)) (fuel i : ℕ) (src s rest : Bytes)
    → scan P inner fuel src i b'"' (quoted s rest)
      ≡ ok (lexeme (str (P.from_utf8_lossy s)) (suc (suc (length (escaped s)))))
unfolding scan string_lexeme
scan-quoted P inner fuel i src s rest =
    ap (λ o. string_lexeme P src i o) (string_body-quoted s rest)
    ∙ ap (λ n. ok (lexeme (str (P.from_utf8_lossy s)) n)) (omega arith)
