-- ===== src/Vjs/Lexer/Total.antt =====
-- The lexer ends, and panics on no ASCII source (core/src/vjs.rs, `lex`).
use vejas.Base.{
  ℕ, zero, suc, ◌<◌, ◌≤◌, ◌≡◌, ◌≢◌, refl, ap, Bool, [], ◌∷◌, length, get_elem?, take, drop,
  if_cases, All, arith,
}
use vejas.Exec.{Result, ok, err, OnErr}
use vejas.Vjs.Value.{Platform}
use vejas.Vjs.Token.{
  Bytes, Complaint, panicked, exhausted, min, err_at, is_continuation, is_char_boundary, slices,
}
use vejas.Vjs.Lexer.{lex}
use vejas.Vjs.Lexer.Ends.{ErrorLaws, lex-OnErr}

error_or : {F A : Type 0} → F → Result F A → F
error_or y (ok a) = y
error_or y (err e) = e

pub err_at-ne-exhausted :
    {F : Type 0} (pos : ℕ) (src : Bytes) (msg : Complaint F) → err_at pos src msg ≢ exhausted
unfolding err_at
err_at-ne-exhausted pos src msg =
    if_cases (λ e. e ≢ exhausted) (is_char_boundary src (min pos (length src)))
      (λ t e. ground (arith, e)) (λ f e. ground (arith, e))

pub OnErr-ne : {F A : Type 0} (x : F) (r : Result F A) → OnErr (λ e. e ≢ x) r → r ≢ err x
unfolding error_or
OnErr-ne x (ok a) h e = ground (arith, e)
OnErr-ne x (err y) h e = h (ap (λ r. error_or y r) e)

-- The lexer ends: the fuel that `lex` gives to the tokens of a source and to the f-string holes
-- nested in them is enough.
pub lex-ne-exhausted : (P : Platform) (src : Bytes) → lex P src ≢ err exhausted
lex-ne-exhausted P src =
    let laws : ErrorLaws (λ bs. Unit) (λ e. e ≢ exhausted) = record {
      take_fine = λ n bs fine. tt;
      drop_fine = λ n bs fine. tt;
      err_fine = λ pos src msg fine. err_at-ne-exhausted pos src msg;
      cut_fine = λ src a b fine le within f e. ground (arith, e);
    } in
    OnErr-ne exhausted (lex P src) (lex-OnErr P (λ bs. Unit) (λ e. e ≢ exhausted) laws src tt)

-- A source of ASCII bytes.
abbrev pub Ascii : Bytes → Type 0
Ascii bs = All (λ b. b < 128) bs

get_elem?-Ascii : (src : Bytes) (i : ℕ) → Ascii src → is_continuation (get_elem? src i) ≡ Bool.false
unfolding is_continuation
get_elem?-Ascii [] i h = refl
get_elem?-Ascii (b ∷ bs) zero (lt, h) = ground arith
get_elem?-Ascii (b ∷ bs) (suc i) (lt, h) = get_elem?-Ascii bs i h

is_char_boundary-Ascii :
    (src : Bytes) (i : ℕ) → Ascii src → i ≤ length src → is_char_boundary src i ≡ Bool.true
unfolding is_char_boundary
is_char_boundary-Ascii src i h le = ground (arith, le, get_elem?-Ascii src i h)

min-le : (a b : ℕ) → min a b ≤ b
unfolding min
min-le a b = ground arith

slices-Ascii :
    (src : Bytes) (a b : ℕ) → Ascii src → a ≤ b → b ≤ length src → slices src a b ≡ Bool.true
unfolding slices
slices-Ascii src a b h le within = ground (
  arith,
  le,
  is_char_boundary-Ascii src a h (omega (arith, le, within)),
  is_char_boundary-Ascii src b h within,
)

err_at-ne-panicked :
    {F : Type 0} (pos : ℕ) (src : Bytes) (msg : Complaint F)
    → Ascii src
    → err_at pos src msg ≢ panicked
unfolding err_at
err_at-ne-panicked pos src msg h =
    if_cases (λ e. e ≢ panicked) (is_char_boundary src (min pos (length src)))
      (λ t e. ground (arith, e))
      (λ f e.
        ground
          (arith, f, is_char_boundary-Ascii src (min pos (length src)) h (min-le pos (length src))))

take-Ascii : (n : ℕ) (bs : Bytes) → Ascii bs → Ascii (take n bs)
take-Ascii zero bs h = tt
take-Ascii (suc n) [] h = tt
take-Ascii (suc n) (b ∷ bs) (lt, h) = (lt, take-Ascii n bs h)

drop-Ascii : (n : ℕ) (bs : Bytes) → Ascii bs → Ascii (drop n bs)
drop-Ascii zero bs h = h
drop-Ascii (suc n) [] h = tt
drop-Ascii (suc n) (b ∷ bs) (lt, h) = drop-Ascii n bs h

-- On a source of ASCII bytes the lexer never panics at a slice: those of a number, of a word, of the
-- two bytes of a symbol, of an f-string's hole and of the source before an error are within the
-- source and cut no character.
pub lex-ne-panicked : (P : Platform) (src : Bytes) → Ascii src → lex P src ≢ err panicked
lex-ne-panicked P src h =
    let laws : ErrorLaws Ascii (λ e. e ≢ panicked) = record {
      take_fine = take-Ascii;
      drop_fine = drop-Ascii;
      err_fine = λ pos src msg fine. err_at-ne-panicked pos src msg fine;
      cut_fine =
          λ src a b fine le within f e. ground (arith, f, slices-Ascii src a b fine le within);
    } in
    OnErr-ne panicked (lex P src) (lex-OnErr P Ascii (λ e. e ≢ panicked) laws src h)
