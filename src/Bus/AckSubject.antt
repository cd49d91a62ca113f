-- ===== src/Bus/AckSubject.antt =====
-- What JetStream says of a delivery in the reply subject of a message (core/src/bus.rs, `Delivery`,
-- `parse_ack_subject`); `str::parse` of a number is read from its documentation.
use Prim.Native.Char.{code}
use vejas.Base.{
  ℕ, zero, suc, ◌+◌, ◌-◌, ◌*◌, ◌^◌, String, ◌&&◌, Option, none, some, List, length, get_elem?, ltb,
  leb, if◌then◌else◌, ◌==◌, ℤ, pos, negsuc,
}
use vejas.Vjs.Text.{split}
use vejas.Bus.{Message}

pub record Delivery : Type 0 where
  pub delivered : ℤ
  pub stream_seq : ℕ

-- `s.strip_prefix(p)`
unfoldable pub strip_prefix : String → String → Option String
strip_prefix String.[] s = some s
strip_prefix (String.◌∷◌ c p) String.[] = none
strip_prefix (String.◌∷◌ c p) (String.◌∷◌ d s) =
    let rest = strip_prefix p s in if code c == code d then rest else none

-- The digits, behind a number that was read.
unfoldable pub digits_value : ℕ → String → Option ℕ
digits_value n String.[] = some n
digits_value n (String.◌∷◌ c s) =
    let more = digits_value (n * 10 + (code c - 48)) s in
    if leb 48 (code c) && leb (code c) 57 then more else none

unfoldable pub magnitude : String → Option ℕ
unfolding digits_value
magnitude String.[] = none
magnitude (String.◌∷◌ c s) = digits_value 0 (String.◌∷◌ c s)

abbrev pub below : ℕ → Option ℕ → Option ℕ
below limit none = none
below limit (some n) = if ltb n limit then some n else none

-- `str::parse::<u64>`
unfoldable pub parse_u64 : String → Option ℕ
unfolding magnitude
parse_u64 String.[] = none
parse_u64 (String.◌∷◌ c s) = below (2 ^ 64) (magnitude (if code c == 43 then s else String.◌∷◌ c s))

abbrev pub positive : Option ℕ → Option ℤ
positive none = none
positive (some n) = some (pos n)

abbrev pub negative : Option ℕ → Option ℤ
negative none = none
negative (some zero) = some (pos 0)
negative (some (suc n)) = some (negsuc n)

-- `str::parse::<i64>`
unfoldable pub parse_i64 : String → Option ℤ
unfolding magnitude
parse_i64 String.[] = none
parse_i64 (String.◌∷◌ c s) =
    if code c == 45
    then negative (below (2 ^ 63 + 1) (magnitude s))
    else positive (below (2 ^ 63) (magnitude (if code c == 43 then s else String.◌∷◌ c s)))

abbrev pub delivery_of : Option ℤ → Option ℕ → Option Delivery
delivery_of (some d) (some n) = some (record { delivered = d; stream_seq = n })
delivery_of _ _ = none

abbrev pub number_at {ℓ} : {A : Type ℓ} → (String → Option A) → Option String → Option A
number_at parse none = none
number_at parse (some s) = parse s

-- The tokens at `at` and behind it.
abbrev pub delivery_at : ℕ → List String → Option Delivery
delivery_at at tokens =
    delivery_of (number_at parse_i64 (get_elem? tokens at))
      (number_at parse_u64 (get_elem? tokens (at + 1)))

unfoldable pub delivery_in : List String → Option Delivery
delivery_in tokens =
    if length tokens == 7
    then delivery_at 2 tokens
    else if leb 9 (length tokens)
    then delivery_at 4 tokens
    else none

abbrev pub stripped : Option String → Option Delivery
stripped none = none
stripped (some rest) = delivery_in (split rest ".")

unfoldable pub parse_ack_subject : String → Option Delivery
unfolding strip_prefix delivery_in split parse_u64 parse_i64
parse_ack_subject reply = stripped (strip_prefix "$JS.ACK." reply)

abbrev pub replied : Option String → Option Delivery
replied none = none
replied (some reply) = parse_ack_subject reply

-- `Message::delivery`
unfoldable pub delivery : Message → Option Delivery
unfolding parse_ack_subject
delivery m = replied m.reply

abbrev pub delivered_or_one : Option Delivery → ℤ
delivered_or_one none = pos 1
delivered_or_one (some d) = d.delivered
