-- ===== src/Vjs/Builtin.antt =====
-- The built-in functions of VejasScript (core/src/vjs.rs, `builtin`): one function for each name,
-- over the arguments that it reads, and the table of names.
use Prim.Native.String.{count}
use vejas.Base.{
  ℕ, String, true, false, Option, none, some, List, [], ◌∷◌, str_eq, unwrap_or, if◌then◌else◌,
}
use vejas.Exec.{Result, ok, err}
use vejas.Vjs.Failure.{Failure, unknown_function}
use vejas.Vjs.Value.{
  Items, Platform, Json, null, bool, number, string, array, object, no_items, item, item_at,
  items_len, entries_len, value_f64, num, to_display,
}
use vejas.Vjs.Text.{trim, split, join, replace}

module _ (P : Platform) where
  unfoldable pub arg : Items P.Number → ℕ → Json P
  arg args i = unwrap_or (item_at args i) null

  -- `upper` and `lower`
  with_case : (String → String) → Json P → Json P
  with_case f (string s) = string (f s)
  with_case f null = null
  with_case f v = string (f (to_display P v))

  trim_value : Json P → Json P
  trim_value (string s) = string (trim s)
  trim_value v = v

  len_value : Json P → Json P
  len_value (string s) = num P (P.from_usize (count s))
  len_value (array a) = num P (P.from_usize (items_len a))
  len_value (object o) = num P (P.from_usize (entries_len o))
  len_value _ = num P P.zero

  parsed : Option P.Float → Json P
  parsed none = null
  parsed (some f) = num P f

  num_value : Json P → Json P
  unfolding parsed
  num_value (number n) = number n
  num_value (string s) = parsed (P.parse_f64 (trim s))
  num_value (bool true) = num P P.one
  num_value (bool false) = num P P.zero
  num_value _ = null

  strings : List String → Items P.Number
  strings [] = no_items
  strings (s ∷ rest) = item (string s) (strings rest)

  split_value : Json P → Json P → Json P
  unfolding strings
  split_value (string s) (string sep) = array (strings (split s sep))
  split_value _ _ = null

  displays : Items P.Number → List String
  displays no_items = []
  displays (item v vs) = to_display P v ∷ displays vs

  join_value : Json P → Json P → Json P
  unfolding displays
  join_value (array a) (string sep) = string (join (displays a) sep)
  join_value _ _ = null

  replace_value : Json P → Json P → Json P → Json P
  replace_value (string s) (string from) (string to) = string (replace s from to)
  replace_value _ _ _ = null

  round_number : Option P.Float → Option P.Float → Json P
  round_number (some v) (some d) =
      let f = P.powi P.ten (P.to_i32 d) in num P (P.div (P.round (P.mul v f)) f)
  round_number (some v) none = num P (P.round v)
  round_number none _ = null

  abs_number : Option P.Float → Json P
  abs_number none = null
  abs_number (some f) = num P (P.abs f)

  unfoldable pub builtin : String → Items P.Number → Result (Failure P.Number) (Json P)
  unfolding arg with_case trim_value len_value num_value split_value join_value replace_value
      round_number abs_number
  builtin name args =
      if str_eq name "upper"
      then ok (with_case P.to_uppercase (arg args 0))
      else if str_eq name "lower"
      then ok (with_case P.to_lowercase (arg args 0))
      else if str_eq name "trim"
      then ok (trim_value (arg args 0))
      else if str_eq name "len"
      then ok (len_value (arg args 0))
      else if str_eq name "str"
      then ok (string (to_display P (arg args 0)))
      else if str_eq name "num"
      then ok (num_value (arg args 0))
      else if str_eq name "split"
      then ok (split_value (arg args 0) (arg args 1))
      else if str_eq name "join"
      then ok (join_value (arg args 0) (arg args 1))
      else if str_eq name "replace"
      then ok (replace_value (arg args 0) (arg args 1) (arg args 2))
      else if str_eq name "round"
      then ok (round_number (value_f64 P (arg args 0)) (value_f64 P (arg args 1)))
      else if str_eq name "abs"
      then ok (abs_number (value_f64 P (arg args 0)))
      else err (unknown_function name)
