-- ===== src/Mqtt/Wire.antt =====
-- Writing MQTT packets (core/src/mqtt.rs, `put_str`, `put_remaining_len`, `frame`). A byte is a
-- number below 256; the bits that the code joins by `|` never overlap, so they are added here.
use vejas.Base.{ℕ, zero, suc, ◌+◌, ◌*◌, ◌/◌, ◌%◌, List, [], ◌∷◌, ◌++◌, length, if◌then◌else◌, ◌==◌}

abbrev pub Bytes : Type 0
Bytes = List ℕ

-- `u16::to_be_bytes` and `u16::from_be_bytes`
unfoldable pub to_be_bytes : ℕ → Bytes
to_be_bytes n = (n / 256) ∷ (n % 256) ∷ []

unfoldable pub from_be_bytes : ℕ → ℕ → ℕ
from_be_bytes hi lo = hi * 256 + lo

-- A text's bytes behind their number, which is cast to 16 bits.
unfoldable pub put_str : Bytes → Bytes
unfolding to_be_bytes
put_str b = to_be_bytes (length b % 65536) ++ b

-- The loop of `put_remaining_len`; `fuel` bounds its rounds.
unfoldable pub remaining_len : ℕ → ℕ → Bytes
remaining_len zero n = []
remaining_len (suc fuel) n =
    let more = (n % 128 + 128) ∷ remaining_len fuel (n / 128) in
    if n / 128 == 0 then (n % 128) ∷ [] else more

-- Ten rounds of seven bits are enough for a 64-bit length.
unfoldable pub put_remaining_len : ℕ → Bytes
unfolding remaining_len
put_remaining_len n = remaining_len 10 n

unfoldable pub frame : ℕ → ℕ → Bytes → Bytes
frame packet_type flags body =
    (packet_type * 16 % 256 + flags % 16) ∷ (put_remaining_len (length body) ++ body)

abbrev pub connect_type : ℕ
connect_type = 1

abbrev pub connack_type : ℕ
connack_type = 2

abbrev pub publish_type : ℕ
publish_type = 3

abbrev pub puback_type : ℕ
puback_type = 4

abbrev pub subscribe_type : ℕ
subscribe_type = 8

abbrev pub suback_type : ℕ
suback_type = 9

abbrev pub pingreq_type : ℕ
pingreq_type = 12

abbrev pub pingresp_type : ℕ
pingresp_type = 13

abbrev pub disconnect_type : ℕ
disconnect_type = 14
