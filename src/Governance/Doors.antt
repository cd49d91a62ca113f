-- ===== src/Governance/Doors.antt =====
-- The credentials of the runtime's HTTP doors (core/src/main.rs, `ct_eq`, `approval_authorized`,
-- `bearer_authorized`). A header's name is compared by tiny_http, and texts are their bytes.
pub mod Equal
pub mod Gate
use Prim.Native.Nat.{bit_or, bit_xor}
use vejas.Base.{
  ℕ, String, Bool, true, false, not, ◌&&◌, ◌||◌, Option, none, some, List, [], ◌∷◌, length, ltb,
  leb, any, str_eq, leb, if◌then◌else◌, ◌==◌,
}
use vejas.Vjs.Token.{Bytes}
use vejas.Governance.State.{ends_with}
use text.Mathlib.Text.{starts_with}

-- The differences of the bytes, where a text has the byte 0 behind its end.
unfoldable pub ct_loop : Bytes → Bytes → ℕ → ℕ
ct_loop [] [] diff = diff
ct_loop [] (y ∷ ys) diff = ct_loop [] ys (bit_or diff (bit_xor 0 y))
ct_loop (x ∷ xs) [] diff = ct_loop xs [] (bit_or diff (bit_xor x 0))
ct_loop (x ∷ xs) (y ∷ ys) diff = ct_loop xs ys (bit_or diff (bit_xor x y))

-- No byte ends it early.
unfoldable pub ct_eq : Bytes → Bytes → Bool
ct_eq a b = ct_loop a b (bit_xor (length a) (length b)) == 0

-- A header, and whether its name is the one asked for.
abbrev pub Header : Type 0
Header = String × Bytes

-- `s.strip_prefix(prefix)`, on bytes
unfoldable pub strip_bytes : Bytes → Bytes → Option Bytes
strip_bytes [] bs = some bs
strip_bytes (c ∷ cs) [] = none
strip_bytes (c ∷ cs) (b ∷ bs) = let rest = strip_bytes cs bs in if c == b then rest else none

abbrev pub bearer : Bytes
bearer = b'B' ∷ b'e' ∷ b'a' ∷ b'r' ∷ b'e' ∷ b'r' ∷ b' ' ∷ []

-- `tiny_http::Method`
pub data Method : Type 0 where
  get_method head_method other_method : Method

unfoldable pub is_read_method : Method → Bool
is_read_method get_method = true
is_read_method head_method = true
is_read_method other_method = false

-- The doors that belong to the human.
unfoldable pub is_human_route : String → Bool
unfolding ends_with
is_human_route path =
    str_eq path "/dlq/replay"
    || str_eq path "/dlq/purge"
    || (starts_with path "/proposals/" && (ends_with path "/approve" || ends_with path "/reject"))

-- A credential that is set and not empty.
unfoldable pub credential : Option Bytes → Option Bytes
credential none = none
credential (some []) = none
credential (some (c ∷ cs)) = some (c ∷ cs)

module _ (equiv : String → String → Bool) where
  abbrev pub shows : String → (Bytes → Bool) → Header → Bool
  shows name test (field, value) = equiv field name && test value

  abbrev pub authorized_by : List Header → Option Bytes → Bool
  authorized_by headers none = false
  authorized_by headers (some token) =
      any (λ h. shows "x-approval-token" (λ value. ct_eq value token) h) headers

  -- `token` is the variable VEJAS_APPROVAL_TOKEN.
  unfoldable pub approval_authorized : Option Bytes → List Header → Bool
  unfolding credential ct_eq
  approval_authorized token headers = authorized_by headers (credential token)

  abbrev pub stripped_eq : Bytes → Option Bytes → Bool
  stripped_eq token none = false
  stripped_eq token (some rest) = ct_eq rest token

  unfoldable pub bearer_authorized : Bytes → List Header → Bool
  unfolding ct_eq strip_bytes
  bearer_authorized token headers =
      any (λ h. shows "authorization" (λ value. stripped_eq token (strip_bytes bearer value)) h)
        headers

  abbrev pub refused_by : Option Bytes → Option Bytes → Method → String → List Header → Bool
  refused_by none approval method path headers = false
  refused_by (some token) approval method path headers =
      not (is_read_method method)
      && not (bearer_authorized token headers)
      && not (is_human_route path && approval_authorized approval headers)

  -- The write gate of `handle_request`: whether it answers 401; the tokens are the variables
  -- VEJAS_TOKEN and VEJAS_APPROVAL_TOKEN.
  unfoldable pub write_refused : Option Bytes → Option Bytes → Method → String → List Header → Bool
  unfolding credential is_read_method is_human_route bearer_authorized approval_authorized
  write_refused token approval method path headers =
      refused_by (credential token) approval method path headers

  abbrev pub has_name : String → Header → Bool
  has_name name (field, value) = equiv field name

  -- `dlq_http_gate`: what a refusal answers with.
  unfoldable pub dlq_http_gate : Bool → Option Bytes → List Header → Option ℕ
  unfolding approval_authorized
  dlq_http_gate require_approval approval headers =
      if not require_approval || approval_authorized approval headers
      then none
      else if any (λ h. has_name "x-approval-token" h) headers
      then some 401
      else some 409

  abbrev pub find_header : String → List Header → Option Bytes
  find_header name [] = none
  find_header name ((field, value) ∷ hs) =
      if equiv field name then some value else find_header name hs

  -- `trim` is `str::trim`, on bytes.
  abbrev pub fit_actor : (Bytes → Bytes) → Bytes → Option Bytes → Bytes
  fit_actor trim default none = default
  fit_actor trim default (some value) =
      let actor = trim value in
      if ltb 0 (length actor) && leb (length actor) 128 then actor else default

  unfoldable pub header_actor : (Bytes → Bytes) → List Header → Bytes → Bytes
  header_actor trim headers default = fit_actor trim default (find_header "x-vejas-actor" headers)

-- `require_approval` and `clustered`, of the variable's value
unfoldable pub flag_set : Option String → Bool
flag_set none = false
flag_set (some v) = str_eq v "1" || str_eq v "true"
