-- ===== src/Tests/Toy.antt =====
-- A platform of whole numbers, for the tests: a map is an association list whose first entry of a
-- key counts.
use Prim.Native.Nat.{compare}
use Prim.Native.Char.{code}
use Prim.Native.String.{char_at}
use vejas.Base.{
  ℕ, ◌+◌, ◌-◌, ◌*◌, ◌/◌, String, ◌≡◌, refl, Bool, true, false, none, some, arith, eq_iff, str_eq,
  Option, List, [], ◌∷◌, ltb, ◌==◌, if◌then◌else◌, ℤ, pos, negsuc,
}
use vejas.Vjs.Value.{Value, Entries, Platform, null, number, string, no_entries, entry, get}

unfoldable pub insert_entry : String → Value ℕ → Entries ℕ → Entries ℕ
insert_entry k v no_entries = entry k v no_entries
insert_entry k v (entry j w m) = if str_eq j k then entry k v m else entry j w (insert_entry k v m)

unfoldable pub remove_entry : String → Entries ℕ → Entries ℕ
remove_entry k no_entries = no_entries
remove_entry k (entry j w m) =
    let rest = remove_entry k m in if str_eq j k then rest else entry j w rest

pub get-insert_entry :
    (k j : String) (v : Value ℕ) (m : Entries ℕ)
    → get j (insert_entry k v m) ≡ (if str_eq k j then some v else get j m)
unfolding get insert_entry
get-insert_entry k j v no_entries = refl
get-insert_entry k j v (entry i w m) =
    ground (arith, eq_iff k j, eq_iff i k, eq_iff i j, get-insert_entry k j v m)

pub get-remove_entry :
    (k j : String) (m : Entries ℕ)
    → get j (remove_entry k m) ≡ (if str_eq k j then none else get j m)
unfolding get remove_entry
get-remove_entry k j no_entries = ground arith
get-remove_entry k j (entry i w m) =
    ground (arith, eq_iff k j, eq_iff i k, eq_iff i j, get-remove_entry k j m)

abbrev pub to_int : ℤ → ℕ
to_int (pos n) = n
to_int (negsuc n) = 0

abbrev pub same_value : Value ℕ → Value ℕ → Bool
same_value (number a) (number b) = a == b
same_value (string s) (string t) = str_eq s t
same_value null null = true
same_value _ _ = false

-- The texts of printable ASCII bytes.
abbrev printable : String
printable =
    " !\"#$%&'()*+,-./0123456789:;<=>?@ABCDEFGHIJKLMNOPQRSTUVWXYZ[\\]^_`abcdefghijklmnopqrstuvwxyz{|}~"

unfoldable pub ascii_text : List ℕ → String
ascii_text [] = ""
ascii_text (b ∷ bs) = String.◌∷◌ (char_at printable (b - 32)) (ascii_text bs)

unfoldable pub decimal : String → ℕ → Option ℕ
decimal String.[] n = some n
decimal (String.◌∷◌ c s) n =
    let rest = decimal s (n * 10 + (code c - 48)) in if ltb (code c) 48 then none else rest

abbrev pub toy : Platform
toy = record {
  Number = ℕ;
  Float = ℕ;
  as_f64 = λ n. some n;
  as_i64 = λ n. some (pos n);
  from_i64 = to_int;
  from_f64 = λ n. some n;
  value_eq = same_value;
  to_string = λ v. "value";
  insert = insert_entry;
  remove = remove_entry;
  get-insert = get-insert_entry;
  get-remove = get-remove_entry;
  zero = 0;
  one = 1;
  ten = 10;
  nine_e15 = 9_000_000_000_000_000;
  feq = λ a b. a == b;
  flt = ltb;
  partial_cmp = λ a b. some (compare a b);
  fract = λ n. 0;
  abs = λ n. n;
  neg = λ n. 0;
  round = λ n. n;
  add = λ a b. a + b;
  sub = λ a b. a - b;
  mul = λ a b. a * b;
  div = λ a b. a / b;
  powi = λ a z. a * to_int z;
  to_i64 = pos;
  to_i32 = pos;
  from_usize = λ n. n;
  parse_f64 = λ s. decimal s 0;
  from_utf8_lossy = ascii_text;
  to_uppercase = λ s. s;
  to_lowercase = λ s. s;
}
