-- ===== src/Vjs/Surface/Edits.antt =====
-- What an edit of a constant leaves of the source (core/src/vjs.rs, `set_literal`).
use vejas.Base.{
  ℕ, zero, suc, ◌≤◌, ◌<◌, String, ◌≡◌, refl, sym, ◌∙◌, ap, subst, Bool, true, false, ◌&&◌, Option,
  ◌⊎◌, inl, inr, none, some, ◌++◌, length, take, drop, ltb, get_elem?, if_cases, arith,
}
use vejas.Exec.{Result, ok, err}
use vejas.Vjs.Value.{Platform, Json, null, bool, number, string, array, object}
use vejas.Vjs.Ast.{Span, SurfaceEntry, Program}
use vejas.Vjs.Token.{Bytes, SyntaxError, min}
use vejas.Vjs.Parser.Programs.{parse}
use vejas.Vjs.Surface.{
  as_bytes, find_literal, span_of, is_blank, trimmed, splice, rfind_brace, if_parses, checked,
  replace_span, add_before, add_to, add_key, edit_at, edit_entry, edit_program, set_literal,
}

-- The bytes from `b` up to `end` are blanks, and `b` is not behind `end`.
abbrev pub Blanks : Bytes → ℕ → ℕ → Type 0
Blanks src b end = (b ≤ end) × ((i : ℕ) → b ≤ i → i < end → is_blank (get_elem? src i) ≡ true)

trimmed-step :
    (src : Bytes) (b e : ℕ)
    → is_blank (get_elem? src e) ≡ true
    → Blanks src b e
    → Blanks src b (suc e)
trimmed-step src b e h (le, blank) = (omega arith, λ i from to. last_or i (ltb i e) refl from to)
  where
    last_or :
        (i : ℕ) (c : Bool) → ltb i e ≡ c → b ≤ i → i < suc e → is_blank (get_elem? src i) ≡ true
    last_or i true t from to = blank i from (ground (arith, t))
    last_or i false t from to =
        subst (λ j. is_blank (get_elem? src j) ≡ true) {x = e} (ground (arith, t, to)) h

trimmed-Blanks : (src : Bytes) (start e : ℕ) → Blanks src (trimmed src start e) e
unfolding trimmed
trimmed-Blanks src start zero = (omega arith, λ i from to. ground (arith, to))
trimmed-Blanks src start (suc e) =
    if_cases (λ b. Blanks src b (suc e)) (ltb start (suc e) && is_blank (get_elem? src e))
      {x = trimmed src start e} {y = suc e}
      (λ h. trimmed-step src _ e (ground (arith, h)) (trimmed-Blanks src start e))
      (λ h. (omega arith, λ i from to. ground (arith, from, to)))

-- `b` is where a span ends without its trailing blanks: all from `b` to `end` are blanks, and either
-- nothing of the span is left before `b`, or the byte before it is no blank.
pub record IsTrimmed (src : Bytes) (start end b : ℕ) : Type 0 where
  pub blanks : Blanks src b end
  pub tight : (b ≤ start) ⊎ ((c : ℕ) × (b ≡ suc c) × (is_blank (get_elem? src c) ≡ false))

kept_byte :
    (start e : ℕ) (blank : Bool)
    → (ltb start (suc e) && blank) ≡ false
    → (suc e ≤ start) ⊎ (blank ≡ false)
kept_byte start e true h = inl (ground (arith, h))
kept_byte start e false h = inr refl

trimmed-tight :
    (src : Bytes) (start e : ℕ)
    → (trimmed src start e ≤ start)
      ⊎ ((c : ℕ) × (trimmed src start e ≡ suc c) × (is_blank (get_elem? src c) ≡ false))
unfolding trimmed
trimmed-tight src start zero = inl (omega arith)
trimmed-tight src start (suc e) =
    if_cases (λ b. (b ≤ start) ⊎ ((c : ℕ) × (b ≡ suc c) × (is_blank (get_elem? src c) ≡ false)))
      (ltb start (suc e) && is_blank (get_elem? src e)) {x = trimmed src start e} {y = suc e}
      (λ h. trimmed-tight src start e)
      (λ h. elim (kept_byte start e (is_blank (get_elem? src e)) h) [
        | inl le ↦ inl le
        | inr ink ↦ inr (e, refl, ink)
      ])

trimmed-IsTrimmed : (src : Bytes) (start e : ℕ) → IsTrimmed src start e (trimmed src start e)
trimmed-IsTrimmed src start e = record {
  blanks = trimmed-Blanks src start e;
  tight = trimmed-tight src start e;
}

module _ (P : Platform) where
  abbrev pub Parses : Bytes → Type 0
  Parses out = (prog : Program P.Number) × (parse P out ≡ ok prog)

  if_parses-ok :
      (text out : Bytes) (r : Result (SyntaxError P.Float) (Program P.Number))
      → parse P text ≡ r
      → if_parses P text r ≡ ok out
      → (text ≡ out) × Parses out
  if_parses-ok text out (ok prog) e h =
      let same : text ≡ out = ground (arith, h) in (same, subst Parses same (prog, e))
  if_parses-ok text out (err f) e h = ground (arith, h)

  checked-ok : (text out : Bytes) → checked P text ≡ ok out → (text ≡ out) × Parses out
  unfolding checked
  checked-ok text out h = if_parses-ok text out (parse P text) refl h

  module _ (from_str : String → Option (Json P)) where
    add_to-Parses :
        (src : Bytes) (vstart : ℕ) (name key : String) (v : Json P) (text : Bytes)
        (o : Option (Json P)) (out : Bytes)
        → add_to P from_str src vstart name key v text o ≡ ok out
        → Parses out
    add_to-Parses src vstart name key v text none out h = ground (arith, h)
    add_to-Parses src vstart name key v text (some (object m)) out h =
        add_before-Parses (rfind_brace text) h
      where
        add_before-Parses :
            (n : Option ℕ) → add_before P from_str src vstart name key v m n ≡ ok out → Parses out
        add_before-Parses none h' = ground (arith, h')
        add_before-Parses (some n) h' = (checked-ok _ out h').1
    add_to-Parses src vstart name key v text (some null) out h = ground (arith, h)
    add_to-Parses src vstart name key v text (some (bool b)) out h = ground (arith, h)
    add_to-Parses src vstart name key v text (some (number n)) out h = ground (arith, h)
    add_to-Parses src vstart name key v text (some (string s)) out h = ground (arith, h)
    add_to-Parses src vstart name key v text (some (array vs)) out h = ground (arith, h)

    edit_at-Parses :
        (src : Bytes) (name key : String) (v : Json P) (e : SurfaceEntry P.Number)
        (span : Option Span) (out : Bytes)
        → edit_at P from_str src name key v e span ≡ ok out
        → Parses out
    unfolding replace_span add_key
    edit_at-Parses src name key v e (some span) out h = (checked-ok _ out h).1
    edit_at-Parses src name key v e none out h = add_to-Parses src _ name key v _ _ out h

    edit_entry-Parses :
        (src : Bytes) (name key : String) (v : Json P) (o : Option (SurfaceEntry P.Number))
        (out : Bytes)
        → edit_entry P from_str src name key v o ≡ ok out
        → Parses out
    edit_entry-Parses src name key v none out h = ground (arith, h)
    edit_entry-Parses src name key v (some e) out h =
        edit_at-Parses src name key v e (span_of key e) out h

    edit_program-Parses :
        (src : Bytes) (name key : String) (v : Json P)
        (r : Result (SyntaxError P.Float) (Program P.Number)) (out : Bytes)
        → edit_program P from_str src name key v r ≡ ok out
        → Parses out
    edit_program-Parses src name key v (ok prog) out h =
        edit_entry-Parses src name key v (find_literal name (prog.surface)) out h
    edit_program-Parses src name key v (err e) out h = ground (arith, h)

    -- An edit that succeeds, of a value or of a table that gains a key, gives a source that parses.
    pub set_literal-Parses :
        (src : Bytes) (name key : String) (v : Json P) (out : Bytes)
        → set_literal P from_str src name key v ≡ ok out
        → Parses out
    unfolding set_literal
    set_literal-Parses src name key v out h = edit_program-Parses src name key v (parse P src) out h

    -- An edit of a value that the surface has writes the new value's JSON in place of the source from
    -- the start of the value's span up to `b`, where the span ends without its trailing blanks, and
    -- keeps the source before the span and all from `b` on, those blanks included. What stands in
    -- the span beside the literal, as a comment behind it, is replaced too.
    pub set_literal-replaces :
        (src : Bytes) (name key : String) (v : Json P) (out : Bytes) (prog : Program P.Number)
        (e : SurfaceEntry P.Number) (start end : ℕ)
        → parse P src ≡ ok prog
        → find_literal name (prog.surface) ≡ some e
        → span_of key e ≡ some (start, end)
        → set_literal P from_str src name key v ≡ ok out
        → (b : ℕ) × (out ≡ take start src ++ (as_bytes (P.to_string v) ++ drop b src))
          × IsTrimmed src start (min end (length src)) b
    unfolding set_literal replace_span splice
    set_literal-replaces src name key v out prog e start end hp he hs h =
        let at_program = sym (ap (edit_program P from_str src name key v) hp) ∙ h in
        let at_entry = sym (ap (edit_entry P from_str src name key v) he) ∙ at_program in
        let at_span = sym (ap (edit_at P from_str src name key v e) hs) ∙ at_entry in
        let b = trimmed src start (min end (length src)) in
        (b, sym (checked-ok _ out at_span).0, trimmed-IsTrimmed src start (min end (length src)))
