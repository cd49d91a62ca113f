-- ===== src/Vjs/Value.antt =====
-- JSON values (`serde_json::Value`) as core/src/vjs.rs matches on them, and what the interpreter
-- takes from code that is not in the repository: serde_json, the floating-point unit and the case
-- tables of Unicode are the fields of `Platform`.
use Prim.Native.Nat.{Ordering}
use vejas.Base.{
  ℕ, suc, String, ◌≡◌, Bool, true, false, not, ◌&&◌, Option, none, some, List, [], ◌∷◌, str_eq,
  if◌then◌else◌, ℤ,
}

-- `N` is serde_json's `Number`; an object is the sequence of its entries, in the order in which
-- the map is iterated.
mutual
  pub data Value (N : Type 0) : Type 0 where
    null : Value N
    bool : Bool → Value N
    number : N → Value N
    string : String → Value N
    array : Items N → Value N
    object : Entries N → Value N

  pub data Items (N : Type 0) : Type 0 where
    no_items : Items N
    item : Value N → Items N → Items N

  pub data Entries (N : Type 0) : Type 0 where
    no_entries : Entries N
    entry : String → Value N → Entries N → Entries N

module _ {N : Type 0} where
  -- `map.get(k).cloned()`
  unfoldable pub get : String → Entries N → Option (Value N)
  get k no_entries = none
  get k (entry j v m) = if str_eq j k then some v else get k m

  -- `value.get(k)` with a text for its index: only an object has keys.
  unfoldable pub get_field : String → Value N → Option (Value N)
  unfolding get
  get_field k (object m) = get k m
  get_field k _ = none

  unfoldable pub as_str : Value N → Option String
  as_str (string s) = some s
  as_str _ = none

  -- `a.get(i)` and the lengths of an array and an object
  unfoldable pub item_at : Items N → ℕ → Option (Value N)
  item_at no_items i = none
  item_at (item v vs) ℕ.zero = some v
  item_at (item v vs) (suc i) = item_at vs i

  unfoldable pub items_len : Items N → ℕ
  items_len no_items = 0
  items_len (item v vs) = suc (items_len vs)

  unfoldable pub entries_len : Entries N → ℕ
  entries_len no_entries = 0
  entries_len (entry k v m) = suc (entries_len m)

  unfoldable pub append_items : Items N → Items N → Items N
  append_items no_items ws = ws
  append_items (item v vs) ws = item v (append_items vs ws)

  unfoldable pub map_items : (Value N → Value N) → Items N → Items N
  map_items f no_items = no_items
  map_items f (item v vs) = item (f v) (map_items f vs)

  unfoldable pub keys : Entries N → List String
  keys no_entries = []
  keys (entry k v m) = k ∷ keys m

-- What the interpreter takes from outside the repository. The laws are what serde_json documents
-- of its `Map`.
pub record Platform : Type 1 where
  pub Number : Type 0
  pub Float : Type 0
  -- serde_json::Number
  pub as_f64 : Number → Option Float
  pub as_i64 : Number → Option ℤ
  pub from_i64 : ℤ → Number
  pub from_f64 : Float → Option Number
  -- serde_json::Value: `==` and `to_string`
  pub value_eq : Value Number → Value Number → Bool
  pub to_string : Value Number → String
  -- serde_json::Map
  pub insert : String → Value Number → Entries Number → Entries Number
  pub remove : String → Entries Number → Entries Number
  pub get-insert :
      (k j : String) (v : Value Number) (m : Entries Number)
      → get j (insert k v m) ≡ (if str_eq k j then some v else get j m)
  pub get-remove :
      (k j : String) (m : Entries Number)
      → get j (remove k m) ≡ (if str_eq k j then none else get j m)
  -- f64
  pub zero : Float
  pub one : Float
  pub ten : Float
  pub nine_e15 : Float
  pub feq : Float → Float → Bool
  pub flt : Float → Float → Bool
  pub partial_cmp : Float → Float → Option Ordering
  pub fract : Float → Float
  pub abs : Float → Float
  pub neg : Float → Float
  pub round : Float → Float
  pub add : Float → Float → Float
  pub sub : Float → Float → Float
  pub mul : Float → Float → Float
  pub div : Float → Float → Float
  pub powi : Float → ℤ → Float
  pub to_i64 : Float → ℤ
  pub to_i32 : Float → ℤ
  pub from_usize : ℕ → Float
  pub parse_f64 : String → Option Float
  -- String::from_utf8_lossy, on bytes
  pub from_utf8_lossy : List ℕ → String
  -- str::to_uppercase and str::to_lowercase
  pub to_uppercase : String → String
  pub to_lowercase : String → String

module _ (P : Platform) where
  abbrev pub Json : Type 0
  Json = Value P.Number

  abbrev pub Map : Type 0
  Map = Entries P.Number

  -- `value.as_f64()`
  unfoldable pub value_f64 : Json → Option P.Float
  value_f64 (number n) = P.as_f64 n
  value_f64 _ = none

  as_number : Option P.Number → Json
  as_number none = null
  as_number (some n) = number n

  -- A float as a JSON number: an integer where it is one, null where JSON has no such number.
  unfoldable pub num : P.Float → Json
  unfolding as_number
  num n =
      if P.feq (P.fract n) P.zero && P.flt (P.abs n) P.nine_e15
      then number (P.from_i64 (P.to_i64 n))
      else as_number (P.from_f64 n)

  is_nonzero : Option P.Float → Bool
  is_nonzero none = false
  is_nonzero (some f) = not (P.feq f P.zero)

  unfoldable pub truthy : Json → Bool
  unfolding is_nonzero
  truthy null = false
  truthy (bool b) = b
  truthy (number n) = is_nonzero (P.as_f64 n)
  truthy (string s) = not (str_eq s "")
  truthy (array no_items) = false
  truthy (array (item v vs)) = true
  truthy (object m) = true

  unfoldable pub to_display : Json → String
  to_display null = ""
  to_display (string s) = s
  to_display other = P.to_string other
