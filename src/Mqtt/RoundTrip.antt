-- ===== src/Mqtt/RoundTrip.antt =====
-- A packet that one client writes is read by another as the same message (core/src/mqtt.rs,
-- `publish`, `puback`, `read_packet`).
use vejas.Base.{
  ℕ, zero, suc, ◌+◌, ◌*◌, ◌/◌, ◌%◌, ◌<◌, ◌≡◌, refl, sym, ap, ◌∙◌, arith, true, Option, some, none,
  [], ◌∷◌, ◌++◌, length, leb, get_elem?, take, drop, append_assoc, length-append, take-append,
  drop-append, if◌then◌else◌, ltb, unwrap_or,
}
use vejas.Exec.{ok}
use vejas.Mqtt.Wire.{Bytes, to_be_bytes, from_be_bytes, put_str, publish_type}
use vejas.Mqtt.Parse.{publish, byte_or, word_at, slice_at, slice_from, published, parse_as, parse}
use vejas.Mqtt.Client.{Stream, Client, read_packet, publish_frame, pid_bytes}
use vejas.Mqtt.Delivery.{Delivers, read_packet-frame}

from_be_bytes-to_be_bytes : (n : ℕ) → from_be_bytes (n / 256) (n % 256) ≡ n
unfolding from_be_bytes
from_be_bytes-to_be_bytes n = omega arith

below : (n : ℕ) → n < 65536 → n % 65536 ≡ n
below n lt = omega arith

room : (m n : ℕ) → leb (2 + m) (suc (suc (m + n))) ≡ true
room m n = ground arith

slice_at-put_str : (topic rest : Bytes) → slice_at (put_str topic ++ rest) 2 (length topic) ≡ topic
unfolding slice_at put_str to_be_bytes
slice_at-put_str topic rest =
    ap (λ b. if b then take (length topic) (topic ++ rest) else [])
      (ap (λ n. leb (2 + length topic) (suc (suc n))) (length-append topic rest)
        ∙ room (length topic) (length rest))
    ∙ take-append topic rest

inside : (m n : ℕ) → leb m (m + n) ≡ true
inside m n = ground arith

slice_from-append : (xs ys : Bytes) (n : ℕ) → length xs ≡ n → slice_from (xs ++ ys) n ≡ ys
unfolding slice_from
slice_from-append xs ys n e =
    ap (λ m. slice_from (xs ++ ys) m) (sym e)
    ∙ ap (λ b. if b then drop (length xs) (xs ++ ys) else [])
        (ap (λ m. leb (length xs) m) (length-append xs ys) ∙ inside (length xs) (length ys))
    ∙ drop-append xs ys

get_elem?-append : (xs ys : Bytes) (i : ℕ) → get_elem? (xs ++ ys) (length xs + i) ≡ get_elem? ys i
get_elem?-append [] ys i = ap (λ k. get_elem? ys k) (omega arith)
get_elem?-append (x ∷ xs) ys i =
    let e : suc (length xs) + i ≡ suc (length xs + i) = omega arith in
    ap (λ k. get_elem? (x ∷ (xs ++ ys)) k) e ∙ get_elem?-append xs ys i

word_at-append :
    (xs ys : Bytes) (n p : ℕ) → length xs ≡ n → word_at (xs ++ (to_be_bytes p ++ ys)) n ≡ p
unfolding word_at byte_or to_be_bytes
word_at-append xs ys n p e =
    let bs = xs ++ (to_be_bytes p ++ ys) in
    ap (λ k. word_at bs k) (sym e)
    ∙ ap (λ hi. from_be_bytes hi (byte_or 0 bs (length xs + 1)))
        (ap (λ k. unwrap_or (get_elem? bs k) 0) (omega arith)
          ∙ ap (λ o. unwrap_or o 0) (get_elem?-append xs (to_be_bytes p ++ ys) 0))
    ∙ ap (λ lo. from_be_bytes (p / 256) lo)
        (ap (λ o. unwrap_or o 0) (get_elem?-append xs (to_be_bytes p ++ ys) 1))
    ∙ from_be_bytes-to_be_bytes p

word_at-put_str :
    (topic rest : Bytes) → length topic < 65536 → word_at (put_str topic ++ rest) 0 ≡ length topic
unfolding put_str
word_at-put_str topic rest lt =
    ap (λ bs. word_at bs 0) (append_assoc (to_be_bytes (length topic % 65536)) topic rest)
    ∙ word_at-append [] (topic ++ rest) 0 (length topic % 65536) refl
    ∙ below (length topic) lt

length-put_str : (topic : Bytes) → length (put_str topic) ≡ 2 + length topic
unfolding put_str to_be_bytes
length-put_str topic = omega arith

pid_end : (topic : Bytes) (p : ℕ) → length (put_str topic ++ to_be_bytes p) ≡ 2 + length topic + 2
unfolding to_be_bytes
pid_end topic p =
    length-append (put_str topic) (to_be_bytes p) ∙ ap (λ n. n + 2) (length-put_str topic)

published-none :
    (topic payload : Bytes)
    → published 0 (put_str topic ++ payload) (length topic) ≡ publish topic payload 0 0
unfolding published put_str to_be_bytes
published-none topic payload =
    ap (λ t. publish t (slice_from (put_str topic ++ payload) (2 + length topic)) 0 0)
      (slice_at-put_str topic payload)
    ∙ ap (λ b. publish topic b 0 0)
        (slice_from-append (put_str topic) payload (2 + length topic) (length-put_str topic))

ltb-suc : (q : ℕ) → ltb 0 (suc q) ≡ true
ltb-suc q = ground arith

published-some :
    (topic payload : Bytes) (q p : ℕ)
    → published (suc q) (put_str topic ++ (to_be_bytes p ++ payload)) (length topic)
      ≡ publish topic payload (suc q) p
unfolding published put_str to_be_bytes
published-some topic payload q p =
    let body = put_str topic ++ (to_be_bytes p ++ payload) in
    let at_pid = 2 + length topic in
    let t = slice_at body 2 (length topic) in
    ap
      (λ b.
        if b
        then publish t (slice_from body (at_pid + 2)) (suc q) (word_at body at_pid)
        else publish t (slice_from body at_pid) (suc q) 0)
      (ltb-suc q)
    ∙ ap (λ t. publish t (slice_from body (at_pid + 2)) (suc q) (word_at body at_pid))
        (slice_at-put_str topic (to_be_bytes p ++ payload))
    ∙ ap (λ b. publish topic b (suc q) (word_at body at_pid))
        (ap (λ b. slice_from b (at_pid + 2))
            (sym (append_assoc (put_str topic) (to_be_bytes p) payload))
          ∙ slice_from-append (put_str topic ++ to_be_bytes p) payload (at_pid + 2)
              (pid_end topic p))
    ∙ ap (λ w. publish topic payload (suc q) w)
        (word_at-append (put_str topic) payload at_pid p (length-put_str topic))

-- The identifier that a packet of a quality of service carries.
abbrev pub carried : ℕ → ℕ → Option ℕ
carried zero p = none
carried (suc q) p = some p

abbrev pub carried_pid : ℕ → ℕ → ℕ
carried_pid zero p = 0
carried_pid (suc q) p = p

published-carried :
    (topic payload : Bytes) (qos p : ℕ)
    → published qos (put_str topic ++ (pid_bytes (carried qos p) ++ payload)) (length topic)
      ≡ publish topic payload qos (carried_pid qos p)
published-carried topic payload zero p = published-none topic payload
published-carried topic payload (suc q) p = published-some topic payload q p

publish_bits :
    (qos : ℕ) → qos < 4 → (publish_type * 16 % 256 + qos % 4 * 2 % 16) / 16 ≡ publish_type
publish_bits qos lt = omega arith

qos_bits : (qos : ℕ) → qos < 4 → (publish_type * 16 % 256 + qos % 4 * 2 % 16) / 2 % 4 ≡ qos
qos_bits qos lt = omega arith

parse-publish :
    (topic payload : Bytes) (qos p : ℕ)
    → qos < 4
    → length topic < 65536
    → parse
        (publish_type * 16 % 256 + qos % 4 * 2 % 16)
        (put_str topic ++ (pid_bytes (carried qos p) ++ payload))
      ≡ publish topic payload qos (carried_pid qos p)
unfolding parse parse_as
parse-publish topic payload qos p lt short =
    let b1 = publish_type * 16 % 256 + qos % 4 * 2 % 16 in
    let rest = pid_bytes (carried qos p) ++ payload in
    let body = put_str topic ++ rest in
    ap (λ t. parse_as t b1 body) (publish_bits qos lt)
    ∙ ap (λ q. published q body (word_at body 0)) (qos_bits qos lt)
    ∙ ap (λ n. published qos body n) (word_at-put_str topic rest short)
    ∙ published-carried topic payload qos p

-- When the stream delivers the packet that `publish` writes, of a quality of service below 4, a
-- topic shorter than 65536 bytes and a body that a length of four bytes can state, `read_packet`
-- returns that topic, that payload, that quality of service and, above quality 0, that identifier,
-- and has read exactly that packet.
pub read_packet-publish_frame :
    {S : Type 0} (st : Stream S) (c : Client S) (s : S) (topic payload : Bytes) (qos p : ℕ)
    → qos < 4
    → length topic < 65536
    → length (put_str topic ++ (pid_bytes (carried qos p) ++ payload)) < 268435456
    → Delivers st (publish_frame topic payload qos (carried qos p)) (c.stream) s
    → read_packet st c
      ≡ (ok (some (publish topic payload qos (carried_pid qos p))), record c { stream = s })
unfolding publish_frame
read_packet-publish_frame st c s topic payload qos p lt short fits h =
    read_packet-frame st publish_type (qos % 4 * 2) _ c s fits h
    ∙ ap (λ m. (ok (some m), record c { stream = s })) (parse-publish topic payload qos p lt short)
