-- ===== src/Vjs/Surface.antt =====
-- Edits of the constants of a flow's surface (core/src/vjs.rs, `get_literal`, `set_literal`), on the
-- bytes of the source. `from_str` is serde_json's reader.
pub mod Edits
use Prim.Native.Char.{code}
use vejas.Base.{
  ℕ, zero, suc, ◌+◌, ◌-◌, String, Bool, true, false, ◌&&◌, ◌||◌, Option, none, some, List, [], ◌∷◌,
  ◌++◌, length, take, drop, ltb, get_elem?, str_eq, lookup, if◌then◌else◌, ◌==◌,
}
use vejas.Exec.{Result, ok, err}
use vejas.Vjs.Value.{Platform, Value, Json, Entries, string, object, no_entries, entry, get_field}
use vejas.Vjs.Ast.{Span, SurfaceEntry, Program}
use vejas.Vjs.Token.{Bytes, SyntaxError, min}
use vejas.Vjs.Text.{trim_end}
use vejas.Vjs.Lexer.{and_then}
use vejas.Vjs.Parser.Programs.{parse}
use vejas.Versions.{utf8}

unfoldable pub as_bytes : String → Bytes
as_bytes String.[] = []
as_bytes (String.◌∷◌ c s) = utf8 (code c) ++ as_bytes s

-- What is wrong with an edit; the messages name the constant and the key.
pub data EditError (F : Type 0) : Type 0 where
  unreadable : SyntaxError F → EditError F
  no_literal : String → EditError F
  not_editable : String → String → EditError F
  not_table : String → String → EditError F
  malformed : String → EditError F

unfoldable pub find_literal :
    {N : Type 0} → String → List (SurfaceEntry N) → Option (SurfaceEntry N)
find_literal name [] = none
find_literal name (e ∷ es) = if str_eq (e.name) name then some e else find_literal name es

unfoldable pub is_whole : String → Bool
is_whole key = str_eq key "" || str_eq key "-"

unfoldable pub span_of : {N : Type 0} → String → SurfaceEntry N → Option Span
span_of key e = if is_whole key then some (e.value_span) else lookup key (e.entry_spans)

unfoldable pub is_blank : Option ℕ → Bool
is_blank none = false
is_blank (some c) = (c == b' ') || (c == b'\t') || (c == b'\r')

-- Where a literal that ends at the next token ends itself.
unfoldable pub trimmed : Bytes → ℕ → ℕ → ℕ
trimmed src start zero = zero
trimmed src start (suc e) =
    let rest = trimmed src start e in
    if ltb start (suc e) && is_blank (get_elem? src e) then rest else suc e

unfoldable pub splice : Bytes → ℕ → ℕ → Bytes → Bytes
splice src start end text = take start src ++ (text ++ drop end src)

-- `rfind` of a closing brace
abbrev pub last_of : Option ℕ → Bool → Option ℕ
last_of (some n) b = some (suc n)
last_of none true = some 0
last_of none false = none

unfoldable pub rfind_brace : Bytes → Option ℕ
rfind_brace [] = none
rfind_brace (c ∷ bs) = last_of (rfind_brace bs) (c == b'}')

module _ (P : Platform) where
  abbrev pub literal_of : String → Option (SurfaceEntry P.Number) → Option (Json P)
  literal_of key none = none
  literal_of key (some e) = if is_whole key then some (e.value) else get_field key (e.value)

  abbrev pub read_literal :
      String → String → Result (SyntaxError P.Float) (Program P.Number) → Option (Json P)
  read_literal name key (ok prog) = literal_of key (find_literal name (prog.surface))
  read_literal name key (err e) = none

  unfoldable pub get_literal : Bytes → String → String → Option (Json P)
  get_literal src name key = read_literal name key (parse P src)

  abbrev pub EditResult : Type 0 → Type 0
  EditResult A = Result (EditError P.Float) A

  -- An edited source is returned if it parses.
  abbrev pub if_parses : Bytes → Result (SyntaxError P.Float) (Program P.Number) → EditResult Bytes
  if_parses out (ok prog) = ok out
  if_parses out (err e) = err (unreadable e)

  unfoldable pub checked : Bytes → EditResult Bytes
  checked out = if_parses out (parse P out)

  unfoldable pub replace_span : Bytes → Span → Json P → EditResult Bytes
  replace_span src (start, end) v =
      checked
        (splice src start (trimmed src start (min end (length src))) (as_bytes (P.to_string v)))

  abbrev pub insertion : Entries P.Number → String → Json P → Bytes
  insertion no_entries key v =
      as_bytes (P.to_string (string key)) ++ (b':' ∷ b' ' ∷ as_bytes (P.to_string v))
  insertion (entry k w m) key v =
      b','
      ∷ b' '
      ∷ (as_bytes (P.to_string (string key)) ++ (b':' ∷ b' ' ∷ as_bytes (P.to_string v)))

  module _ (from_str : String → Option (Json P)) where
    abbrev pub add_before :
        Bytes → ℕ → String → String → Json P → Entries P.Number → Option ℕ → EditResult Bytes
    add_before src vstart name key v m none = err (malformed name)
    add_before src vstart name key v m (some n) =
        checked (splice src (vstart + n) (vstart + n) (insertion m key v))

    abbrev pub add_to :
        Bytes → ℕ → String → String → Json P → Bytes → Option (Json P) → EditResult Bytes
    add_to src vstart name key v text none = err (not_editable name key)
    add_to src vstart name key v text (some (object m)) =
        add_before src vstart name key v m (rfind_brace text)
    add_to src vstart name key v text (some w) = err (not_table name key)

    -- A key that is not there yet is added before the closing brace of a table.
    unfoldable pub add_key : Bytes → String → String → Json P → Span → EditResult Bytes
    add_key src name key v (vstart, vend) =
        let text = take (min vend (length src) - vstart) (drop vstart src) in
        add_to src vstart name key v text (from_str (trim_end (P.from_utf8_lossy text)))

    abbrev pub edit_at :
        Bytes → String → String → Json P → SurfaceEntry P.Number → Option Span → EditResult Bytes
    edit_at src name key v e (some span) = replace_span src span v
    edit_at src name key v e none = add_key src name key v (e.value_span)

    abbrev pub edit_entry :
        Bytes → String → String → Json P → Option (SurfaceEntry P.Number) → EditResult Bytes
    edit_entry src name key v none = err (no_literal name)
    edit_entry src name key v (some e) = edit_at src name key v e (span_of key e)

    abbrev pub edit_program :
        Bytes
        → String
        → String
        → Json P
        → Result (SyntaxError P.Float) (Program P.Number)
        → EditResult Bytes
    edit_program src name key v (ok prog) =
        edit_entry src name key v (find_literal name (prog.surface))
    edit_program src name key v (err e) = err (unreadable e)

    unfoldable pub set_literal : Bytes → String → String → Json P → EditResult Bytes
    set_literal src name key v = edit_program src name key v (parse P src)
