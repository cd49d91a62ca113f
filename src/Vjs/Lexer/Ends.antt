-- ===== src/Vjs/Lexer/Ends.antt =====
-- The errors that the lexer can end in (core/src/vjs.rs, `lex`).
use vejas.Base.{
  ℕ, zero, suc, ◌+◌, ◌-◌, ◌≤◌, ◌<◌, ◌≡◌, refl, Bool, true, false, ◌&&◌, ◌||◌, Option, none, some,
  [], ◌∷◌, length, take, drop, if_cases, ◌==◌, length-drop, length-take, arith,
}
use vejas.Exec.{Result, ok, err, OnErr}
use vejas.Vjs.Value.{Platform}
use vejas.Vjs.Token.{
  Bytes, Tok, Toks, FParts, Complaint, SyntaxError, panicked, err_at, slices, f_str,
}
use vejas.Vjs.Lexer.{
  and_then, string_body, hole_end, one_more, deeper, sliced, Piece, cut_off, closing, literal, hole,
  unclosed, hole_piece, piece, Lexeme, lexeme, width, lexed, LexResult, fstring_piece, fstring_at,
  string_lexeme, number_lexeme, single_lexeme, double_lexeme, symbol_lexeme, starts_with_quote,
  number_from, word_from, fstring_from, scan, lex_at, lex,
}
use vejas.Vjs.Symbols.{run_length, is_digit, is_letter, two_symbol, one_symbol}

not_below : (n : ℕ) → n < 0 → ⊥
not_below n lt = omega arith

pub and_then-OnErr :
    {F A B : Type 0} (Q : F → Type 0) (r : Result F A) (f : A → Result F B)
    → OnErr Q r
    → ((a : A) → r ≡ ok a → OnErr Q (f a))
    → OnErr Q (and_then r f)
and_then-OnErr Q (ok a) f h k = k a refl
and_then-OnErr Q (err e) f h k = h

-- What is known of the sources, which parts of them share, and what follows for the errors.
pub record ErrorLaws {F : Type 0} (Fine : Bytes → Type 0) (Q : SyntaxError F → Type 0)
    : Type 0 where
  pub take_fine : (n : ℕ) (bs : Bytes) → Fine bs → Fine (take n bs)
  pub drop_fine : (n : ℕ) (bs : Bytes) → Fine bs → Fine (drop n bs)
  pub err_fine : (pos : ℕ) (src : Bytes) (msg : Complaint F) → Fine src → Q (err_at pos src msg)
  pub cut_fine :
      (src : Bytes) (a b : ℕ)
      → Fine src
      → a ≤ b
      → b ≤ length src
      → slices src a b ≡ false
      → Q panicked

or-left : (a b : Bool) → a ≡ true → (a || b) ≡ true
or-left a b t = ground arith

run_length-pos : (p : ℕ → Bool) (c : ℕ) (bs : Bytes) → p c ≡ true → 1 ≤ run_length p (c ∷ bs)
unfolding run_length
run_length-pos p c bs e = if_cases (λ n. 1 ≤ n) (p c) (λ t. omega arith) (λ f. ground (arith, e, f))

run_length-le : (p : ℕ → Bool) (bs : Bytes) → run_length p bs ≤ length bs
unfolding run_length
run_length-le p [] = omega arith
run_length-le p (c ∷ bs) =
    if_cases (λ n. n ≤ suc (length bs)) (p c) (λ t. omega (arith, run_length-le p bs))
      (λ f. omega arith)

-- A hole's end is behind its first brace and no further than the source.
HoleWithin : Option ℕ → ℕ → Type 0
HoleWithin none len = Unit
HoleWithin (some n) len = n ≤ len

one_more-Within : (o : Option ℕ) (len : ℕ) → HoleWithin o len → HoleWithin (one_more o) (suc len)
unfolding HoleWithin
one_more-Within none len h = tt
one_more-Within (some n) len h = omega (arith, h)

hole_end-Within : (depth : ℕ) (bs : Bytes) → HoleWithin (hole_end depth bs) (length bs)
unfolding HoleWithin hole_end
hole_end-Within zero bs = omega arith
hole_end-Within (suc depth) [] = tt
hole_end-Within (suc depth) (c ∷ bs) =
    one_more-Within (hole_end (deeper c depth) bs) (length bs) (hole_end-Within (deeper c depth) bs)

-- A position and what is left there: the source is at its end, or this much is left of it.
abbrev pub Place : Bytes → ℕ → ℕ → Type 0
Place src i left = 1 ≤ left → i + left ≡ length src

module _ (Fine : Bytes → Type 0) where
  -- A piece takes bytes that are there, and a hole's body is shorter than what is there.
  abbrev Fits : ℕ → Piece → Type 0
  Fits len (literal b n) = (1 ≤ n) × (n ≤ len)
  Fits len (hole body n) = (2 ≤ n) × (n ≤ len) × (length body < len) × Fine body
  Fits len _ = Unit

  module _ (take_fine : (n : ℕ) (bs : Bytes) → Fine bs → Fine (take n bs)) where
    hole_piece-Fits :
        (c depth : ℕ) (bs : Bytes)
        → Fine bs
        → Fits (suc (length bs)) (hole_piece bs (hole_end (suc depth) bs))
    unfolding hole_end HoleWithin
    hole_piece-Fits c depth [] fine = tt
    hole_piece-Fits c depth (d ∷ bs) fine =
        closed-Fits (hole_end (deeper d depth) bs) (hole_end-Within (deeper d depth) bs)
      where
        closed-Fits :
            (o : Option ℕ)
            → HoleWithin o (length bs)
            → Fits (suc (suc (length bs))) (hole_piece (d ∷ bs) (one_more o))
        closed-Fits none h = tt
        closed-Fits (some n) h = (
          omega arith,
          omega (arith, h),
          omega (arith, length-take (suc n - 1) (d ∷ bs)),
          take_fine (suc n - 1) (d ∷ bs) fine,
        )

    piece-Fits : (bs : Bytes) → Fine (drop 1 bs) → Fits (length bs) (piece bs)
    unfolding piece
    piece-Fits [] fine = tt
    piece-Fits (c ∷ []) fine =
        if_cases (Fits 1) (c == b'"') (λ e. tt)
          λ e. if_cases (Fits 1) (c == b'{') (λ e. tt) λ e. (omega arith, omega arith)
    piece-Fits (c ∷ d ∷ bs) fine =
        let F = Fits (suc (suc (length bs))) in
        if_cases F (c == b'"') (λ e. tt)
          λ e.
            if_cases F ((c == b'{') && (d == b'{')) (λ e. (omega arith, omega arith))
              λ e.
                if_cases F ((c == b'}') && (d == b'}')) (λ e. (omega arith, omega arith))
                  λ e.
                    if_cases F (c == b'{') (λ e. hole_piece-Fits c 0 (d ∷ bs) fine)
                      λ e.
                        if_cases F (c == b'\\') (λ e. (omega arith, omega arith))
                          λ e. (omega arith, omega arith)

module _ (P : Platform) (Fine : Bytes → Type 0) (Q : SyntaxError P.Float → Type 0)
    (laws : ErrorLaws Fine Q) where
  -- The lexer of a hole's body, on bodies that are shorter than `limit`.
  abbrev Inner : (Bytes → LexResult P (Toks P.Float)) → ℕ → Type 0
  Inner inner limit = (body : Bytes) → length body < limit → Fine body → OnErr Q (inner body)

  sliced-OnErr :
      {A : Type 0} (src : Bytes) (a b : ℕ) (r : LexResult P A)
      → Fine src
      → a ≤ b
      → b ≤ length src
      → OnErr Q r
      → OnErr Q (sliced P src a b r)
  sliced-OnErr src a b r fs le within h =
      if_cases (OnErr Q) (slices src a b) (λ t. h) (λ f. laws.cut_fine src a b fs le within f)

  fstring_piece-OnErr :
      (inner : Bytes → LexResult P (Toks P.Float)) (src : Bytes) (quote len i : ℕ) (lit : Bytes)
      (more : ℕ → Bytes → LexResult P (FParts P.Float × ℕ)) (p : Piece)
      → Fine src
      → Place src i len
      → Inner inner len
      → ((n : ℕ) (lit' : Bytes) → 1 ≤ n → 1 ≤ len → OnErr Q (more n lit'))
      → Fits Fine len p
      → OnErr Q (fstring_piece P inner src quote more i lit p)
  unfolding fstring_piece
  fstring_piece-OnErr inner src quote len i lit more cut_off fs at h k f =
      laws.err_fine quote src _ fs
  fstring_piece-OnErr inner src quote len i lit more closing fs at h k f = tt
  fstring_piece-OnErr inner src quote len i lit more unclosed fs at h k f = laws.err_fine i src _ fs
  fstring_piece-OnErr inner src quote len i lit more (literal b n) fs at h k (one, le) =
      and_then-OnErr Q _ _ (k n _ one (omega arith)) λ r e. tt
  fstring_piece-OnErr inner src quote len i lit more (hole body n) fs at h k (two, le, lt, fine) =
      and_then-OnErr Q (sliced P src (i + 1) (i + n - 1) (inner body)) _
        (sliced-OnErr src (i + 1) (i + n - 1) (inner body) fs (omega (arith, two))
          (omega (arith, le, two, at (omega (arith, le, two)))) (h body lt fine))
        λ toks e.
          and_then-OnErr Q _ _ (k n _ (omega (arith, two)) (omega (arith, le, two))) λ r e'. tt

  fstring_at-OnErr :
      (inner : Bytes → LexResult P (Toks P.Float)) (src : Bytes) (quote fuel i : ℕ) (bs lit : Bytes)
      (limit : ℕ)
      → Fine src
      → Fine bs
      → Place src i (length bs)
      → length bs < fuel
      → length bs ≤ limit
      → Inner inner limit
      → OnErr Q (fstring_at P inner src quote fuel i bs lit)
  unfolding fstring_at
  fstring_at-OnErr inner src quote zero i bs lit limit fs fb at lt le h =
      elim (not_below (length bs) lt) [ ]
  fstring_at-OnErr inner src quote (suc fuel) i bs lit limit fs fb at lt le h =
      fstring_piece-OnErr inner src quote (length bs) i lit _ (piece bs) fs at
        (λ body short fine. h body (omega arith) fine)
        (λ n lit' one some.
          fstring_at-OnErr inner src quote fuel (i + n) (drop n bs) lit' limit fs
            (laws.drop_fine n bs fb)
            (λ left.
              omega (arith, left, length-drop n bs, at (omega (arith, left, length-drop n bs))))
            (omega (arith, length-drop n bs)) (omega (arith, length-drop n bs)) h)
        (piece-Fits Fine (laws.take_fine) bs (laws.drop_fine 1 bs fb))

  -- A lexeme takes a byte or more.
  abbrev Advances : LexResult P (Lexeme P.Float) → Type 0
  Advances (ok l) = 1 ≤ width l
  Advances (err e) = Q e

  sliced-Advances :
      (src : Bytes) (a b : ℕ) (r : LexResult P (Lexeme P.Float))
      → Fine src
      → a ≤ b
      → b ≤ length src
      → Advances r
      → Advances (sliced P src a b r)
  sliced-Advances src a b r fs le within h =
      if_cases Advances (slices src a b) (λ t. h) (λ f. laws.cut_fine src a b fs le within f)

  and_then-Advances :
      (r : LexResult P (FParts P.Float × ℕ))
      → OnErr Q r
      → Advances (and_then r λ r. ok (lexeme (f_str r.0) (2 + r.1)))
  and_then-Advances (ok r) h = omega arith
  and_then-Advances (err e) h = h

  string_lexeme-Advances :
      (src : Bytes) (i : ℕ) (o : Option (Bytes × ℕ)) → Fine src → Advances (string_lexeme P src i o)
  unfolding string_lexeme
  string_lexeme-Advances src i none fs = laws.err_fine i src _ fs
  string_lexeme-Advances src i (some (s, n)) fs = omega arith

  number_lexeme-Advances :
      (src : Bytes) (i n : ℕ) (o : Option P.Float)
      → Fine src
      → 1 ≤ n
      → Advances (number_lexeme P src i n o)
  unfolding number_lexeme
  number_lexeme-Advances src i n none fs one = laws.err_fine i src _ fs
  number_lexeme-Advances src i n (some x) fs one = one

  single_lexeme-Advances :
      (src : Bytes) (i c : ℕ) (o : Option (Tok P.Float))
      → Fine src
      → Advances (single_lexeme P src i c o)
  unfolding single_lexeme
  single_lexeme-Advances src i c none fs = laws.err_fine i src _ fs
  single_lexeme-Advances src i c (some t) fs = omega arith

  double_lexeme-Advances :
      (src : Bytes) (i c : ℕ) (o : Option (Tok P.Float))
      → Fine src
      → Advances (double_lexeme P src i c o)
  unfolding double_lexeme
  double_lexeme-Advances src i c none fs = single_lexeme-Advances src i c (one_symbol c) fs
  double_lexeme-Advances src i c (some t) fs = omega arith

  symbol_lexeme-Advances :
      (src : Bytes) (i c : ℕ) (bs : Bytes)
      → Fine src
      → i + suc (length bs) ≡ length src
      → Advances (symbol_lexeme P src i c bs)
  unfolding symbol_lexeme
  symbol_lexeme-Advances src i c [] fs at = single_lexeme-Advances src i c (one_symbol c) fs
  symbol_lexeme-Advances src i c (d ∷ bs) fs at =
      sliced-Advances src i (i + 2) _ fs (omega arith) (omega (arith, at))
        (double_lexeme-Advances src i c (two_symbol c d) fs)

  scan-Advances :
      (inner : Bytes → LexResult P (Toks P.Float)) (fuel : ℕ) (src : Bytes) (i c : ℕ) (bs : Bytes)
      → Fine src
      → Fine bs
      → i + suc (length bs) ≡ length src
      → length bs < fuel
      → Inner inner fuel
      → Advances (scan P inner fuel src i c bs)
  unfolding scan number_from word_from fstring_from
  scan-Advances inner fuel src i c bs fs fb at lt h =
      let word_byte = λ (b : ℕ). is_letter b || is_digit b in
      let number_byte = λ (b : ℕ). is_digit b || (b == b'.') in
      let fstring = fstring_at P inner src (i + 1) fuel (i + 2) (drop 1 bs) [] in
      if_cases Advances ((c == b' ') || (c == b'\t') || (c == b'\r')) (λ e. omega arith)
        λ e.
          if_cases Advances (c == b'\n') (λ e. omega arith)
            λ e.
              if_cases Advances (c == b'#') (λ e. omega arith)
                λ e.
                  if_cases Advances (c == b'"')
                    (λ e. string_lexeme-Advances src i (string_body bs) fs)
                    λ e.
                      if_cases Advances ((c == b'f') && starts_with_quote bs)
                        (λ e. and_then-Advances fstring (
                          fstring_at-OnErr inner src (i + 1) fuel (i + 2) (drop 1 bs) [] fuel fs
                            (laws.drop_fine 1 bs fb)
                            (λ left. omega (arith, at, left, length-drop 1 bs))
                            (omega (arith, length-drop 1 bs)) (omega (arith, length-drop 1 bs)) h))
                        λ e.
                          if_cases Advances (is_digit c)
                            (λ e.
                              sliced-Advances src i _ _ fs (omega arith)
                                (omega (arith, at, run_length-le number_byte (c ∷ bs)))
                                (number_lexeme-Advances src i _ _ fs
                                  (run_length-pos number_byte c bs (or-left _ _ e))))
                            λ e'.
                              if_cases Advances (is_letter c)
                                (λ e.
                                  sliced-Advances src i _ _ fs (omega arith)
                                    (omega (arith, at, run_length-le word_byte (c ∷ bs)))
                                    (run_length-pos word_byte c bs (or-left _ _ e)))
                                λ e. symbol_lexeme-Advances src i c bs fs at

  after_lexeme :
      (fuel : ℕ) (src : Bytes) (i c : ℕ) (bs : Bytes) (r : LexResult P (Lexeme P.Float))
      → Advances r
      → ((n : ℕ) → 1 ≤ n → OnErr Q (lex_at P fuel src (i + n) (drop n (c ∷ bs))))
      → OnErr Q (
          and_then r λ l.
            and_then
              (lex_at P fuel src (i + width l) (drop (width l) (c ∷ bs)))
              λ rest. ok (lexed l i rest))
  after_lexeme fuel src i c bs (ok l) h k = and_then-OnErr Q _ _ (k (width l) h) λ rest e. tt
  after_lexeme fuel src i c bs (err e) h k = h

  pub lex_at-OnErr :
      (fuel : ℕ) (src : Bytes) (i : ℕ) (bs : Bytes)
      → Fine src
      → Fine bs
      → Place src i (length bs)
      → length bs < fuel
      → OnErr Q (lex_at P fuel src i bs)
  unfolding lex_at
  lex_at-OnErr zero src i bs fs fb at lt = elim (not_below (length bs) lt) [ ]
  lex_at-OnErr (suc fuel) src i [] fs fb at lt = tt
  lex_at-OnErr (suc fuel) src i (c ∷ bs) fs fb at lt =
      after_lexeme fuel src i c bs _
        (scan-Advances _ fuel src i c bs fs (laws.drop_fine 1 (c ∷ bs) fb) (at (omega arith))
          (omega arith)
          (λ body short fine. lex_at-OnErr fuel body 0 body fine fine (λ left. omega arith) short))
        (λ n one.
          lex_at-OnErr fuel src (i + n) (drop n (c ∷ bs)) fs (laws.drop_fine n (c ∷ bs) fb)
            (λ left. omega (arith, at (omega arith), left, length-drop n (c ∷ bs)))
            (omega (arith, length-drop n (c ∷ bs))))

  pub lex-OnErr : (src : Bytes) → Fine src → OnErr Q (lex P src)
  unfolding lex
  lex-OnErr src fine =
      lex_at-OnErr (suc (length src)) src 0 src fine fine (λ left. omega arith) (omega arith)
