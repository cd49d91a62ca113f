-- ===== src/Vjs/Parser/Within.antt =====
-- Parsers that end without want of fuel, on so many tokens at most, and how many tokens they take:
-- one rule for each way to build a parser (core/src/vjs.rs, `Parser`).
pub mod Loops
pub mod Expressions
pub mod Statements
pub mod Literals
pub mod Program
use vejas.Base.{
  ℕ, zero, suc, ◌+◌, ◌-◌, ◌≤◌, ◌<◌, ◌≡◌, ◌≢◌, refl, ap, subst, sym, Bool, true, false, Bool-cases,
  inl, inr, ◌⊎◌, Option, none, some, Option-cases, String, if◌then◌else◌, if_cases, ◌∙◌, arith,
}
use vejas.Exec.{Result, ok, err, OnErr, Exec, pure, raise, lift, gets, continue, ◌>>=◌}
use vejas.Vjs.Token.{
  Bytes, Tok, Toks, Complaint, SyntaxError, newline, no_toks, spanned, exhausted, toks_size,
  tok_size, parts_size, tag, err_at,
}
use vejas.Vjs.Lexer.Total.{err_at-ne-exhausted}
use vejas.Vjs.Parser.{
  Cursor, Parser, first, tail, pos_or, skip, same, peek, pos, next, skip_newlines, taken, take_if,
  only, fail, or_expected, expect, eat, word, word_of,
}

abbrev pub size : {F : Type 0} → Cursor F → ℕ
size c = toks_size (c.rest)

-- A result that leaves `k` tokens fewer, or an error that is not want of fuel.
abbrev pub Done : {F A : Type 0} → ℕ → Cursor F → Result (SyntaxError F) A × Cursor F → Type 0
Done k c (ok a, after) = size after + k ≤ size c
Done k c (err e, after) = e ≢ exhausted

pub record Within {F A : Type 0} (n k : ℕ) (m : Parser F A) : Type 0 where
  pub at : (c : Cursor F) → size c ≤ n → Done k c (m c)

none-ne-some : {B : Type 0} {b : B} → none ≢ some b
none-ne-some e = ground (arith, e)

module _ {F A : Type 0} where
  pub Done-le :
      (k j : ℕ) (c d : Cursor F) (r : Result (SyntaxError F) A × Cursor F)
      → size d + j ≤ size c + k
      → Done k d r
      → Done j c r
  Done-le k j c d (ok a, after) le h = omega arith
  Done-le k j c d (err e, after) le h = h

  pub Within-weaken : (n : ℕ) (m : Parser F A) → Within n 1 m → Within n 0 m
  Within-weaken n m h = record { at = λ c le. Done-le 1 0 c c (m c) (omega arith) (h.at c le) }

  pub Within-le : (n n' k : ℕ) (m : Parser F A) → n' ≤ n → Within n k m → Within n' k m
  Within-le n n' k m le h = record { at = λ c le'. h.at c (omega arith) }

  pub Within-pure : (n : ℕ) (a : A) → Within {F = F} n 0 (pure a)
  unfolding pure
  Within-pure n a = record { at = λ c le. omega arith }

  pub Within-fail : (n k : ℕ) (src : Bytes) (msg : Complaint F) → Within {A = A} n k (fail src msg)
  unfolding fail
  Within-fail n k src msg = record { at = λ c le. err_at-ne-exhausted _ src msg }

  pub Within-lift :
      (n : ℕ) (r : Result (SyntaxError F) A) → OnErr (λ e. e ≢ exhausted) r → Within n 0 (lift r)
  unfolding lift
  Within-lift n (ok a) h = record { at = λ c le. omega arith }
  Within-lift n (err e) h = record { at = λ c le. h }

  pub Within-gets : (n : ℕ) (f : Cursor F → A) → Within n 0 (gets f)
  unfolding gets
  Within-gets n f = record { at = λ c le. omega arith }

  pub Within-if :
      (n k : ℕ) (b : Bool) (m m' : Parser F A)
      → Within n k m
      → Within n k m'
      → Within n k (if b then m else m')
  Within-if n k true m m' h h' = h
  Within-if n k false m m' h h' = h'

module _ {F A B : Type 0} where
  bind_done :
      (n j k : ℕ) (f : A → Parser F B) (c : Cursor F) (r : Result (SyntaxError F) A × Cursor F)
      → size c ≤ n
      → Done j c r
      → ((a : A) (d : Cursor F) → size d + j ≤ size c → Done k d (f a d))
      → Done (j + k) c (continue r.0 f r.1)
  bind_done n j k f c (ok a, d) le h kf = Done-le k (j + k) c d (f a d) (omega arith) (kf a d h)
  bind_done n j k f c (err e, d) le h kf = h

  pub Within-bind :
      (n k : ℕ) (m : Parser F A) (f : A → Parser F B)
      → Within n 0 m
      → ((a : A) → Within n k (f a))
      → Within n k (m >>= f)
  unfolding ◌>>=◌
  Within-bind n k m f h kf = record {
    at = λ c le.
        Done-le (0 + k) k c c _ (omega arith)
          (bind_done n 0 k f c (m c) le (h.at c le) λ a d le'. (kf a).at d (omega arith));
  }

  -- Behind a token, one fewer is left.
  pub Within-bind-taking :
      (n : ℕ) (m : Parser F A) (f : A → Parser F B)
      → Within n 1 m
      → ((a : A) → 1 ≤ n → Within (n - 1) 0 (f a))
      → Within n 1 (m >>= f)
  unfolding ◌>>=◌
  Within-bind-taking n m f h kf = record {
    at = λ c le. Done-le (1 + 0) 1 c c _ (omega arith) (
        bind_done n 1 0 f c (m c) le (h.at c le)
          λ a d le'. (kf a (omega arith)).at d (omega arith));
  }

-- A match that does not look for a newline takes a token where it succeeds.
module _ {F B : Type 0} where
  taken_fewer :
      (classify : Tok F → Option B) (ts : Toks F) (b : B)
      → classify newline ≡ none
      → classify (first ts) ≡ some b
      → suc (toks_size (tail ts)) ≤ toks_size ts
  unfolding first tail toks_size
  taken_fewer classify no_toks b e h = elim (none-ne-some (sym e ∙ h)) [ ]
  taken_fewer classify (spanned t i ts) b e h = omega arith

module _ {F A B : Type 0} where
  take_if_done :
      (n k : ℕ) (o : Option B) (f : Option B → Parser F A) (c : Cursor F)
      → size c ≤ n
      → k ≤ 1
      → ((b : B) → o ≡ some b → suc (toks_size (tail (c.rest))) ≤ size c)
      → ((b : B) → 1 ≤ n → Within (n - 1) 0 (f (some b)))
      → Within n k (f none)
      → Done k c (continue (taken o c).0 f (taken o c).1)
  take_if_done n k none f c le one fewer hs hn = hn.at c le
  take_if_done n k (some b) f c le one fewer hs hn =
      let d : Cursor F = record c { rest = tail (c.rest) } in
      let less = fewer b refl in
      Done-le 0 k c d (f (some b) d) (omega (arith, less))
        ((hs b (omega (arith, less))).at d (omega (arith, less)))

  pub Within-take_if :
      (n k : ℕ) (classify : Tok F → Option B) (f : Option B → Parser F A)
      → classify newline ≡ none
      → k ≤ 1
      → ((b : B) → 1 ≤ n → Within (n - 1) 0 (f (some b)))
      → Within n k (f none)
      → Within n k (take_if classify >>= f)
  unfolding take_if ◌>>=◌
  Within-take_if n k classify f e one hs hn = record {
    at = λ c le.
        take_if_done n k (classify (first (c.rest))) f c le one
          (λ b h. taken_fewer classify (c.rest) b e h) hs hn;
  }

module _ {F A : Type 0} where
  next_done :
      (n : ℕ) (f : Tok F → Parser F A) (ts : Toks F) (last : ℕ)
      → toks_size ts ≤ n
      → ((t : Tok F) → 1 ≤ n → tok_size t ≤ n - 1 → Within (n - 1) 0 (f t))
      → Within n 1 (f newline)
      → Done 1
          (record { rest = ts; last = last })
          (f (first ts) (record { rest = tail ts; last = last }))
  unfolding first tail toks_size
  next_done n f no_toks last le h hn = hn.at (record { rest = no_toks; last = last }) le
  next_done n f (spanned t i ts) last le h hn =
      let c : Cursor F = record { rest = spanned t i ts; last = last } in
      let d : Cursor F = record { rest = ts; last = last } in
      Done-le 0 1 c d (f t d) (omega arith) ((h t (omega arith) (omega arith)).at d (omega arith))

  -- The next token, or a newline where none is left.
  pub Within-next :
      (n : ℕ) (f : Tok F → Parser F A)
      → ((t : Tok F) → 1 ≤ n → tok_size t ≤ n - 1 → Within (n - 1) 0 (f t))
      → Within n 1 (f newline)
      → Within n 1 (next >>= f)
  unfolding next ◌>>=◌
  Within-next n f h hn = record { at = λ c le. next_done n f (c.rest) (c.last) le h hn }

toks_size-skip : {F : Type 0} (ts : Toks F) → toks_size (skip ts) ≤ toks_size ts
unfolding skip toks_size
toks_size-skip no_toks = omega arith
toks_size-skip (spanned t i ts) =
    let all = spanned t i ts in
    if_cases (λ us. toks_size us ≤ toks_size all) (same t newline) {x = skip ts} {y = all}
      (λ e. omega (arith, toks_size-skip ts)) (λ e. omega arith)

pub Within-skip_newlines : {F : Type 0} (n : ℕ) → Within {F = F} n 0 skip_newlines
unfolding skip_newlines
Within-skip_newlines n = record { at = λ c le. omega (arith, toks_size-skip (c.rest)) }

pub Within-fail-bind :
    {F A B : Type 0} (n k : ℕ) (src : Bytes) (msg : Complaint F) (f : A → Parser F B)
    → Within n k (fail src msg >>= f)
unfolding fail ◌>>=◌
Within-fail-bind n k src msg f = record { at = λ c le. err_at-ne-exhausted _ src msg }

pub toks_size-tail : {F : Type 0} (ts : Toks F) → toks_size (tail ts) ≤ toks_size ts
unfolding tail toks_size
toks_size-tail no_toks = omega arith
toks_size-tail (spanned t i ts) = omega arith

pub Done-OnErr :
    {F A : Type 0} (k : ℕ) (c : Cursor F) (r : Result (SyntaxError F) A × Cursor F)
    → Done k c r
    → OnErr (λ e. e ≢ exhausted) r.0
Done-OnErr k c (ok a, after) h = tt
Done-OnErr k c (err e, after) h = h

pub Within-peek : {F : Type 0} (n : ℕ) → Within {F = F} n 0 peek
unfolding peek
Within-peek n = Within-gets n _

pub Within-pos : {F : Type 0} (n : ℕ) → Within {F = F} n 0 pos
unfolding pos
Within-pos n = Within-gets n _

module _ {F B : Type 0} where
  pub Within-expect :
      (n : ℕ) (src : Bytes) (classify : Tok F → Option B) (what : String)
      → classify newline ≡ none
      → Within n 1 (expect src classify what)
  unfolding expect
  Within-expect n src classify what e = Within-bind n 1 peek _ (Within-peek n) λ t.
      Within-take_if n 1 classify _ e (omega arith) (λ b one. Within-pure (n - 1) b)
        (Within-fail n 1 src _)

only-newline : {F : Type 0} (t : Tok F) → same newline t ≡ false → only t newline ≡ none
unfolding only
only-newline t e = ap (λ b. if b then some tt else none) e

pub Within-eat :
    {F : Type 0} (n : ℕ) (src : Bytes) (t : Tok F) (what : String)
    → same newline t ≡ false
    → Within n 1 (eat src t what)
unfolding eat
Within-eat n src t what e = Within-expect n src (only t) what (only-newline t e)

pub Within-word :
    {F : Type 0} (n : ℕ) (src : Bytes) (what : String) → Within {F = F} n 1 (word src what)
unfolding word word_of
Within-word n src what = Within-expect n src word_of what refl
