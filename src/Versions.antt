-- ===== src/Versions.antt =====
-- The version overlay (core/src/versions.rs): snapshots of a flow's source in a key-value bucket,
-- valid only against the source in git that they were made from.
pub mod GitWins
pub mod Log
use Prim.Native.Char.{Char, code}
use Prim.Native.Nat.{bit_xor}
use vejas.Base.{
  ℕ, zero, suc, ◌+◌, ◌*◌, ◌/◌, ◌%◌, ◌^◌, String, ◌≡◌, Bool, ◌||◌, Option, none, some, List, [], ◌∷◌,
  ◌++◌, length, ltb, unwrap_or, get_elem?, if◌then◌else◌, ◌==◌, str_eq, ℤ, pos,
}
use vejas.Exec.{Result, ok, err}
use vejas.Vjs.Value.{
  Value, Platform, Json, Map, number, string, object, no_entries, get_field, as_str,
}
use vejas.Vjs.Engine.{is_word_char}

-- `char::encode_utf8`, on the code point
unfoldable pub utf8 : ℕ → List ℕ
utf8 c =
    if ltb c 128
    then c ∷ []
    else if ltb c 2048
    then (192 + c / 64) ∷ (128 + c % 64) ∷ []
    else if ltb c 65536
    then (224 + c / 4096) ∷ (128 + c / 64 % 64) ∷ (128 + c % 64) ∷ []
    else (240 + c / 262144) ∷ (128 + c / 4096 % 64) ∷ (128 + c / 64 % 64) ∷ (128 + c % 64) ∷ []

-- One byte of FNV-1a on 64 bits.
unfoldable pub hash_byte : ℕ → ℕ → ℕ
hash_byte hash b = bit_xor hash b * 0x100000001b3 % 2 ^ 64

unfoldable pub hash_bytes : ℕ → List ℕ → ℕ
unfolding hash_byte
hash_bytes hash [] = hash
hash_bytes hash (b ∷ bs) = hash_bytes (hash_byte hash b) bs

unfoldable pub hash_text : ℕ → String → ℕ
unfolding hash_bytes utf8
hash_text hash String.[] = hash
hash_text hash (String.◌∷◌ c s) = hash_text (hash_bytes hash (utf8 (code c))) s

unfoldable pub hex_digit : ℕ → Char
hex_digit n =
    unwrap_or
      (get_elem?
        ("0" ∷ "1" ∷ "2" ∷ "3" ∷ "4" ∷ "5" ∷ "6" ∷ "7" ∷ "8" ∷ "9" ∷ "a" ∷ "b" ∷ "c" ∷ "d" ∷ "e"
          ∷ "f" ∷ [])
        n)
      "0"

-- The last `k` hexadecimal digits of a number.
unfoldable pub hex : ℕ → ℕ → String
unfolding hex_digit
hex zero n = ""
hex (suc k) n = String.◌∷◌ (hex_digit (n / 16 ^ k % 16)) (hex k n)

unfoldable pub hash_content : String → String
unfolding hash_text hex
hash_content s = hex 16 (hash_text 0xcbf29ce484222325 s)

unfoldable pub key_of : String → String
unfolding is_word_char
key_of String.[] = ""
key_of (String.◌∷◌ c s) = String.◌∷◌ (if is_word_char (code c) then c else "_") (key_of s)

-- What the overlay uses of a bucket and of serde_json; a bucket's reads do not change it.
pub record Bucket (P : Platform) (S : Type 0) : Type 0 where
  pub get : String → S → Result String (Option String)
  pub put : String → String → S → Result String ℕ × S
  pub delete : String → S → Result String (Unit {0}) × S
  pub from_slice : String → Option (Json P)

pub data Outcome : Type 0 where
  baseline : Outcome
  overlay : Outcome
  evicted : String → String → Outcome

-- The bucket's state, and the log of evictions.
pub record Db (P : Platform) (S : Type 0) : Type 0 where
  pub kv : S
  pub evictions : List (Json P)

-- `while v.len() > 50 { v.remove(0); }`
unfoldable pub capped {ℓ} : {A : Type ℓ} → List A → List A
capped [] = []
capped (x ∷ xs) = let rest = capped xs in if ltb 50 (suc (length xs)) then rest else x ∷ xs

abbrev pub text_of : {N : Type 0} → Option (Value N) → Option String
text_of none = none
text_of (some v) = as_str v

-- `v[k].as_str()`
unfoldable pub text_field : {N : Type 0} → String → Value N → Option String
unfolding get_field as_str
text_field k v = text_of (get_field k v)

module _ (P : Platform) where
  -- The records of `json!`
  unfoldable pub version_record : String → String → String → String → ℕ → Map P
  version_record flow source parent_hash actor ts = P.insert "ts" (number (P.from_i64 (pos ts))) (
      P.insert "actor" (string actor) (
        P.insert "hash" (string (hash_content source)) (
          P.insert "parent" (string parent_hash)
            (P.insert "source" (string source) (P.insert "flow" (string flow) no_entries)))))

  unfoldable pub eviction_record : String → String → String → ℕ → Json P
  eviction_record flow parent base_hash ts = object (
      P.insert "ts" (number (P.from_i64 (pos ts))) (
        P.insert "baseline" (string base_hash)
          (P.insert "parent" (string parent) (P.insert "flow" (string flow) no_entries))))

module _ {P : Platform} {S : Type 0} (bucket : Bucket P S) where
  abbrev pub parsed : Result String (Option String) → Option (Json P)
  parsed (ok (some b)) = bucket.from_slice b
  parsed _ = none

  unfoldable pub get_version : String → S → Option (Json P)
  get_version flow s = parsed (bucket.get (key_of flow) s)

  unfoldable pub put_version : String → String → String → String → ℕ → S → Result String ℕ × S
  unfolding version_record
  put_version flow source parent_hash actor ts s =
      bucket.put (key_of flow)
        (P.to_string (object (version_record P flow source parent_hash actor ts))) s

  unfoldable pub note_eviction : String → String → String → ℕ → List (Json P) → List (Json P)
  unfolding capped eviction_record
  note_eviction flow parent base_hash ts log =
      capped (log ++ (eviction_record P flow parent base_hash ts ∷ []))

  -- The overlay loses: it is deleted, whatever the bucket answers, and the eviction is noted.
  unfoldable pub evict : String → String → String → ℕ → Db P S → (String × Outcome) × Db P S
  unfolding note_eviction
  evict flow base parent ts db = (
    (base, evicted parent (hash_content base)),
    record {
      kv = (bucket.delete (key_of flow) (db.kv)).1;
      evictions = note_eviction flow parent (hash_content base) ts (db.evictions);
    },
  )

  unfoldable pub settle :
      String → String → ℕ → Option (Json P) → Db P S → (String × Outcome) × Db P S
  unfolding text_field evict
  settle flow base ts none db = ((base, baseline), db)
  settle flow base ts (some ov) db =
      let parent = unwrap_or (text_field "parent" ov) "" in
      let source = unwrap_or (text_field "source" ov) base in
      if str_eq parent (hash_content base)
      then ((source, overlay), db)
      else evict flow base parent ts db

-- Without a bucket there is only the baseline.
unfoldable pub resolve_source :
    {P : Platform} {S : Type 0}
    → Option (Bucket P S)
    → String
    → String
    → ℕ
    → Db P S
    → (String × Outcome) × Db P S
unfolding settle
resolve_source none flow base ts db = ((base, baseline), db)
resolve_source (some bucket) flow base ts db =
    settle bucket flow base ts (get_version bucket flow (db.kv)) db
