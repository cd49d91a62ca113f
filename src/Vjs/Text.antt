-- ===== src/Vjs/Text.antt =====
-- What core/src/vjs.rs uses of `str` in the language's standard library, on the characters of a
-- native text, and the subjects that may go on the wire.
use Prim.Native.Char.{code}
use Prim.Native.String.{◌++◌, count}
use text.Mathlib.Text.{starts_with}
use vejas.Base.{
  ℕ, zero, suc, ◌-◌, String, Bool, false, not, ◌&&◌, ◌||◌, List, [], ◌∷◌, ltb, leb, str_eq,
  if◌then◌else◌, ◌==◌,
}

-- `char::is_whitespace`: Unicode's White_Space
unfoldable pub is_whitespace : ℕ → Bool
is_whitespace c =
    (leb 9 c && leb c 13)
    || (c == 32)
    || (c == 0x85)
    || (c == 0xa0)
    || (c == 0x1680)
    || (leb 0x2000 c && leb c 0x200a)
    || (c == 0x2028)
    || (c == 0x2029)
    || (c == 0x202f)
    || (c == 0x205f)
    || (c == 0x3000)

-- `char::is_control`: Unicode's category Cc
unfoldable pub is_control : ℕ → Bool
is_control c = ltb c 32 || (leb 127 c && leb c 159)

unfoldable pub any_char : (ℕ → Bool) → String → Bool
any_char p String.[] = false
any_char p (String.◌∷◌ c s) = p (code c) || any_char p s

unfoldable pub valid_subject : String → Bool
valid_subject subject =
    not (str_eq subject "") && not (any_char (λ c. is_whitespace c || is_control c) subject)

-- `s.contains(needle)`
unfoldable pub contains_text : String → String → Bool
contains_text String.[] needle = str_eq needle ""
contains_text (String.◌∷◌ c s) needle =
    starts_with (String.◌∷◌ c s) needle || contains_text s needle

-- `s.trim()`
unfoldable pub trim_start : String → String
trim_start String.[] = ""
trim_start (String.◌∷◌ c s) =
    let rest = trim_start s in if is_whitespace (code c) then rest else String.◌∷◌ c s

unfoldable pub trim_end : String → String
trim_end String.[] = ""
trim_end (String.◌∷◌ c s) =
    let rest = trim_end s in
    if is_whitespace (code c) && str_eq rest "" then "" else String.◌∷◌ c rest

unfoldable pub trim : String → String
unfolding trim_start trim_end is_whitespace
trim s = trim_end (trim_start s)

-- `s.split(sep)` for a separator that is not empty: `piece` is the piece so far, and `skip` counts
-- the characters of a separator that was met and is not passed yet.
split_loop : String → String → ℕ → String → List String
split_loop sep piece skip String.[] = piece ∷ []
split_loop sep piece (suc skip) (String.◌∷◌ c s) = split_loop sep piece skip s
split_loop sep piece zero (String.◌∷◌ c s) =
    let next = piece ∷ split_loop sep "" (count sep - 1) s in
    let more = split_loop sep (piece ++ String.◌∷◌ c "") zero s in
    if starts_with (String.◌∷◌ c s) sep then next else more

-- The empty separator stands before and after every character.
split_chars : String → List String
split_chars String.[] = "" ∷ []
split_chars (String.◌∷◌ c s) = String.◌∷◌ c "" ∷ split_chars s

unfoldable pub split : String → String → List String
unfolding split_loop split_chars
split s sep = if str_eq sep "" then "" ∷ split_chars s else split_loop sep "" zero s

-- `pieces.join(sep)`
unfoldable pub join : List String → String → String
join [] sep = ""
join (piece ∷ []) sep = piece
join (piece ∷ rest) sep = piece ++ (sep ++ join rest sep)

-- `s.replace(from, to)`
unfoldable pub replace : String → String → String → String
unfolding split join
replace s from to = join (split s from) to
