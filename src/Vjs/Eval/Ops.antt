-- ===== src/Vjs/Eval/Ops.antt =====
-- The operators of expressions on values (core/src/vjs.rs, `eval`).
use Prim.Native.Nat.{Ordering}
use Prim.Native.String.{compare, ◌++◌}
use text.Mathlib.Text.{is_lt, is_le}
use vejas.Base.{
  String, Bool, true, false, not, ◌||◌, Option, none, some, unwrap_or, if◌then◌else◌, pos, ℤ,
}
use vejas.Exec.{Result, ok, err}
use vejas.Vjs.Value.{
  Value, Items, Platform, Json, null, bool, number, string, array, object, no_items, item, get,
  get_field, item_at, append_items, map_items, value_f64, num, truthy, to_display,
}
use vejas.Vjs.Text.{contains_text}
use vejas.Vjs.Ast.{UnOp, BinOp, eq, ne, lt, le, gt, ge, in_op}
use vejas.Vjs.Failure.{Failure, cannot_read_field}

module _ {N : Type 0} where
  -- A path's field: of each item, if the value is an array.
  unfoldable pub read_field : String → Bool → Value N → Result (Failure N) (Value N)
  read_field f safe (object o) = ok (unwrap_or (get f o) null)
  read_field f safe (array items) =
      ok (array (map_items (λ v. unwrap_or (get_field f v) null) items))
  read_field f safe null = ok null
  read_field f true other = ok null
  read_field f false other = err (cannot_read_field f other)

module _ (P : Platform) where
  at_index : Items P.Number → Option ℤ → Json P
  at_index a (some (pos i)) = unwrap_or (item_at a i) null
  at_index a _ = null

  unfoldable pub index_value : Json P → Json P → Json P
  unfolding at_index
  index_value (object o) (string s) = unwrap_or (get s o) null
  index_value (array a) (number n) = at_index a (P.as_i64 n)
  index_value _ _ = null

  negated : Option P.Float → Json P
  negated none = null
  negated (some f) = num P (P.neg f)

  unfoldable pub unary_value : UnOp → Json P → Json P
  unfolding negated
  unary_value UnOp.not v = bool (not (truthy P v))
  unary_value UnOp.neg v = negated (value_f64 P v)

  compare_floats : Option P.Float → Option P.Float → Option Ordering
  compare_floats (some x) (some y) = P.partial_cmp x y
  compare_floats _ _ = none

  compare_values : Json P → Json P → Option Ordering
  unfolding compare_floats
  compare_values (number a) (number b) = compare_floats (P.as_f64 a) (P.as_f64 b)
  compare_values (string a) (string b) = some (compare a b)
  compare_values _ _ = none

  test_order : (Ordering → Bool) → Option Ordering → Json P
  test_order test none = bool false
  test_order test (some o) = bool (test o)

  any_equal : Json P → Items P.Number → Bool
  any_equal v no_items = false
  any_equal v (item w ws) = P.value_eq w v || any_equal v ws

  has_key : Option (Json P) → Bool
  has_key none = false
  has_key (some v) = true

  is_in : Json P → Json P → Bool
  unfolding any_equal has_key
  is_in lv (array a) = any_equal lv a
  is_in (string needle) (string s) = contains_text s needle
  is_in (string k) (object o) = has_key (get k o)
  is_in _ _ = false

  float_or_zero : Option P.Float → P.Float
  float_or_zero none = P.zero
  float_or_zero (some f) = f

  add_values : Json P → Json P → Json P
  unfolding float_or_zero
  add_values (number a) (number b) =
      num P (P.add (float_or_zero (P.as_f64 a)) (float_or_zero (P.as_f64 b)))
  add_values (array a) (array b) = array (append_items a b)
  add_values lv rv = string (to_display P lv ++ to_display P rv)

  on_floats : (P.Float → P.Float → Json P) → Option P.Float → Option P.Float → Json P
  on_floats f (some a) (some b) = f a b
  on_floats f _ _ = null

  divide : P.Float → P.Float → Json P
  divide a b = if P.feq b P.zero then null else num P (P.div a b)

  -- The operators that evaluate both sides. The three that may not are in `bin_eval`.
  unfoldable pub binary_value : BinOp → Json P → Json P → Json P
  unfolding compare_values test_order is_in add_values on_floats divide
  binary_value eq lv rv = bool (P.value_eq lv rv)
  binary_value ne lv rv = bool (not (P.value_eq lv rv))
  binary_value lt lv rv = test_order is_lt (compare_values lv rv)
  binary_value le lv rv = test_order is_le (compare_values lv rv)
  binary_value gt lv rv = test_order (λ o. not (is_le o)) (compare_values lv rv)
  binary_value ge lv rv = test_order (λ o. not (is_lt o)) (compare_values lv rv)
  binary_value in_op lv rv = bool (is_in lv rv)
  binary_value BinOp.add lv rv = add_values lv rv
  binary_value BinOp.sub lv rv =
      on_floats (λ a b. num P (P.sub a b)) (value_f64 P lv) (value_f64 P rv)
  binary_value BinOp.mul lv rv =
      on_floats (λ a b. num P (P.mul a b)) (value_f64 P lv) (value_f64 P rv)
  binary_value BinOp.div lv rv = on_floats divide (value_f64 P lv) (value_f64 P rv)
  binary_value _ lv rv = null
