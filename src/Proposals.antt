-- ===== src/Proposals.antt =====
-- The proposal queue (core/src/proposals.rs): changes that wait for a decision, in a key-value
-- bucket. The bucket is that of the version overlay, `bus::Kv`, with the listing of its keys.
pub mod Decision
pub mod Newest
use Prim.Native.String.{char_at, ◌++◌ as ◌++ₛ◌}
use vejas.Base.{
  ℕ, zero, suc, ◌+◌, ◌/◌, ◌%◌, ◌^◌, ltb, String, Bool, true, false, Option, none, some, List, [],
  ◌∷◌, leb, unwrap_or, if◌then◌else◌, pos,
}
use vejas.Exec.{Result, ok, err}
use vejas.Vjs.Value.{Value, Platform, Json, Map, number, string, object, no_entries, get_field}
use vejas.Versions.{Bucket, parsed}

-- A number of 64 bits in decimal, which has 20 digits at most.
unfoldable pub decimal : ℕ → ℕ → String
decimal zero n = ""
decimal (suc k) n =
    let rest = decimal k (n / 10) in
    let digit = String.◌∷◌ (char_at "0123456789" (n % 10)) "" in
    if ltb n 10 then digit else rest ++ₛ digit

-- The counter is `SEQ`, which wraps.
unfoldable pub new_id : ℕ → ℕ → String × ℕ
new_id ts seq = ("p-" ++ₛ decimal 20 ts ++ₛ "-" ++ₛ decimal 20 seq, (seq + 1) % 2 ^ 64)

module _ (P : Platform) where
  -- The record of `json!`
  unfoldable pub proposal_record : String → String → Json P → String → String → Json P → ℕ → Map P
  proposal_record id kind payload author baseline evidence ts =
      P.insert "status" (string "pending") (
        P.insert "evidence" evidence (
          P.insert "baseline" (string baseline) (
            P.insert "created_at" (number (P.from_i64 (pos ts))) (
              P.insert "author" (string author) (
                P.insert "payload" payload
                  (P.insert "kind" (string kind) (P.insert "id" (string id) no_entries)))))))

  abbrev pub with_decider : Option String → Map P → Map P
  with_decider none m = m
  with_decider (some by) m = P.insert "decided_by" (string by) m

  -- A record that is no object is left alone.
  unfoldable pub decided : String → Option String → ℕ → Json P → Json P
  decided status by ts (object m) = object (
      with_decider by (
        P.insert "decided_at" (number (P.from_i64 (pos ts))) (P.insert "status" (string status) m)))
  decided status by ts v = v

module _ {P : Platform} {S : Type 0} (bucket : Bucket P S) where
  -- What is stored is returned once the bucket has taken it.
  abbrev pub stored : Json P → Result String ℕ × S → Result String (Json P) × S
  stored record' (ok n, s) = (ok record', s)
  stored record' (err e, s) = (err e, s)

  unfoldable pub submit :
      String → String → Json P → String → String → Json P → ℕ → S → Result String (Json P) × S
  submit id kind payload author baseline evidence ts s =
      let v = object (proposal_record P id kind payload author baseline evidence ts) in
      stored v (bucket.put id (P.to_string v) s)

  unfoldable pub get_proposal : String → S → Option (Json P)
  get_proposal id s = parsed bucket (bucket.get id s)

  abbrev pub transition :
      String → String → Option String → ℕ → S → Option (Json P) → Result String (Json P) × S
  transition id status by ts s none = (err "proposal not found", s)
  transition id status by ts s (some v) =
      let v' = decided P status by ts v in stored v' (bucket.put id (P.to_string v') s)

  unfoldable pub set_status : String → String → Option String → ℕ → S → Result String (Json P) × S
  set_status id status by ts s = transition id status by ts s (get_proposal id s)

-- `as_u64` is serde_json's reading of a number.
module _ {N : Type 0} (as_u64 : N → Option ℕ) where
  abbrev pub seconds_of : Option (Value N) → ℕ
  seconds_of (some (number n)) = unwrap_or (as_u64 n) 0
  seconds_of v = 0

  unfoldable pub created_at : Value N → ℕ
  created_at v = seconds_of (get_field "created_at" v)

  -- `sort_by_key` with the order reversed; it keeps the order of equal keys.
  unfoldable pub insert_newest : Value N → List (Value N) → List (Value N)
  insert_newest v [] = v ∷ []
  insert_newest v (w ∷ ws) =
      let rest = insert_newest v ws in
      if leb (created_at w) (created_at v) then v ∷ w ∷ ws else w ∷ rest

  unfoldable pub sort_newest : List (Value N) → List (Value N)
  sort_newest [] = []
  sort_newest (v ∷ vs) = insert_newest v (sort_newest vs)

module _ {P : Platform} {S : Type 0} (bucket : Bucket P S) where
  abbrev pub with_found : Option (Json P) → List (Json P) → List (Json P)
  with_found none vs = vs
  with_found (some v) vs = v ∷ vs

  unfoldable pub collected : List String → S → List (Json P)
  collected [] s = []
  collected (k ∷ ks) s = with_found (get_proposal bucket k s) (collected ks s)

  abbrev pub all_of : Result String (List String) → S → List (Json P)
  all_of (ok ks) s = collected ks s
  all_of (err e) s = []

  unfoldable pub list :
      (P.Number → Option ℕ) → (S → Result String (List String)) → S → List (Json P)
  list as_u64 keys s = sort_newest as_u64 (all_of (keys s) s)
