-- ===== src/Mqtt/Parse.antt =====
-- Reading MQTT packets (core/src/mqtt.rs, `parse`).
use vejas.Base.{
  ℕ, ◌+◌, ◌/◌, ◌%◌, Bool, [], length, leb, ltb, get_elem?, unwrap_or, if◌then◌else◌, ◌==◌, take,
  drop,
}
use vejas.Mqtt.Wire.{
  Bytes, from_be_bytes, connack_type, publish_type, puback_type, suback_type, pingresp_type,
}

-- A packet that a client handles. A topic is kept as its bytes.
pub data Packet : Type 0 where
  conn_ack : Bool → ℕ → Packet
  publish : Bytes → Bytes → ℕ → ℕ → Packet
  pub_ack : ℕ → Packet
  sub_ack : ℕ → ℕ → Packet
  ping_resp : Packet
  other : ℕ → Packet

-- `body.get(i).copied().unwrap_or(d)`
unfoldable pub byte_or : ℕ → Bytes → ℕ → ℕ
byte_or d body i = unwrap_or (get_elem? body i) d

-- The 16-bit number at a position.
unfoldable pub word_at : Bytes → ℕ → ℕ
unfolding byte_or from_be_bytes
word_at body i = from_be_bytes (byte_or 0 body i) (byte_or 0 body (i + 1))

-- `body.get(i..i + n).unwrap_or(&[])` and `body.get(i..).unwrap_or(&[])`
unfoldable pub slice_at : Bytes → ℕ → ℕ → Bytes
slice_at body i n = if leb (i + n) (length body) then take n (drop i body) else []

unfoldable pub slice_from : Bytes → ℕ → Bytes
slice_from body i = if leb i (length body) then drop i body else []

-- A PUBLISH whose topic has a given length.
unfoldable pub published : ℕ → Bytes → ℕ → Packet
unfolding word_at slice_at slice_from
published qos body tlen =
    let topic = slice_at body 2 tlen in
    if ltb 0 qos
    then publish topic (slice_from body (2 + tlen + 2)) qos (word_at body (2 + tlen))
    else publish topic (slice_from body (2 + tlen)) qos 0

unfoldable pub parse_as : ℕ → ℕ → Bytes → Packet
unfolding word_at byte_or published
parse_as ptype b1 body =
    if ptype == connack_type
    then conn_ack (byte_or 0 body 0 % 2 == 1) (byte_or 255 body 1)
    else if ptype == puback_type
    then pub_ack (word_at body 0)
    else if ptype == suback_type
    then sub_ack (word_at body 0) (byte_or 128 body 2)
    else if ptype == pingresp_type
    then ping_resp
    else if ptype == publish_type
    then published (b1 / 2 % 4) body (word_at body 0)
    else other ptype

unfoldable pub parse : ℕ → Bytes → Packet
unfolding parse_as
parse b1 body = parse_as (b1 / 16) b1 body
