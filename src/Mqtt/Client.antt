-- ===== src/Mqtt/Client.antt =====
-- The MQTT client over a stream (core/src/mqtt.rs, `Client`). The stream is `Read + Write`, the
-- clock is `Instant::now`; both are operations on one state `S` of the world outside the client.
use vejas.Base.{
  ℕ, zero, suc, ◌+◌, ◌-◌, ◌*◌, ◌%◌, Bool, Option, none, some, [], ◌∷◌, ◌++◌, leb, ltb,
  if◌then◌else◌, ◌==◌, String,
}
use vejas.Exec.{Result, ok, err, Exec, pure, raise, lift, gets, ◌>>=◌, ◌>>◌}
use vejas.Mqtt.Wire.{
  Bytes, to_be_bytes, put_str, frame, connect_type, publish_type, puback_type, subscribe_type,
  pingreq_type, disconnect_type,
}
use vejas.Mqtt.Parse.{Packet, conn_ack, sub_ack, parse}

-- One `read` into a buffer of one byte: a byte, 0 bytes since the peer closed, the error kinds
-- `WouldBlock` and `TimedOut`, or another error.
pub data ReadResult : Type 0 where
  byte : ℕ → ReadResult
  closed : ReadResult
  timed_out : ReadResult
  broken : String → ReadResult

-- `write_all` is followed by `flush`; the clock counts milliseconds.
pub record Stream (S : Type 0) : Type 0 where
  pub read : S → ReadResult × S
  pub write_all : Bytes → S → Result String (Unit {0}) × S
  pub now : S → ℕ × S

-- The messages of the client; `unexpected_end` is the error of `read_exact` at the end of a stream.
-- `exhausted` is not one of the code: it stands for a wait that has not ended.
pub data MqttError : Type 0 where
  connection_closed : MqttError
  io_error : String → MqttError
  unexpected_end : MqttError
  read_timed_out : MqttError
  malformed_length : MqttError
  connack_refused : ℕ → MqttError
  expected_connack : Packet → MqttError
  suback_failure : ℕ → MqttError
  expected_suback : Packet → MqttError
  exhausted : MqttError

pub record Client (S : Type 0) : Type 0 where
  pub stream : S
  pub next_pid : ℕ
  pub keepalive : ℕ
  pub last_out : ℕ

-- `n.wrapping_add(1).max(1)` on 16 bits
unfoldable pub following : ℕ → ℕ
following n = if (n + 1) % 65536 == 0 then 1 else (n + 1) % 65536

-- `read_exact` of one byte, which ends in an error where `read` has none.
abbrev exact : ReadResult → Result MqttError ℕ
exact (byte b) = ok b
exact closed = err unexpected_end
exact timed_out = err read_timed_out
exact (broken e) = err (io_error e)

abbrev opt_str : Option Bytes → Bytes
opt_str none = []
opt_str (some b) = put_str b

abbrev flag : ℕ → Option Bytes → ℕ
flag bit none = 0
flag bit (some b) = bit

-- The packet that `connect` sends; 77 81 84 84 is "MQTT".
unfoldable pub connect_frame : ℕ → Bytes → Bool → Option Bytes → Option Bytes → Bytes
unfolding frame put_str to_be_bytes
connect_frame keepalive client_id clean_session user pass = frame connect_type 0 (
    put_str (77 ∷ 81 ∷ 84 ∷ 84 ∷ [])
    ++ (4 ∷ ((if clean_session then 2 else 0) + flag 128 user + flag 64 pass) ∷ [])
    ++ to_be_bytes (keepalive % 65536)
    ++ put_str client_id
    ++ opt_str user
    ++ opt_str pass)

unfoldable pub conn_ack_result : Packet → Result MqttError (Unit {0})
conn_ack_result (conn_ack session code) = if code == 0 then ok tt else err (connack_refused code)
conn_ack_result p = err (expected_connack p)

unfoldable pub sub_ack_result : Packet → Result MqttError (Unit {0})
sub_ack_result (sub_ack pid code) = if leb code 2 then ok tt else err (suback_failure code)
sub_ack_result p = err (expected_suback p)

abbrev pub pid_bytes : Option ℕ → Bytes
pid_bytes none = []
pid_bytes (some p) = to_be_bytes p

-- The packet that `publish` sends.
unfoldable pub publish_frame : Bytes → Bytes → ℕ → Option ℕ → Bytes
unfolding frame put_str to_be_bytes
publish_frame topic payload qos p =
    frame publish_type (qos % 4 * 2) (put_str topic ++ (pid_bytes p ++ payload))

module _ {S : Type 0} (st : Stream S) where
  abbrev Io : Type 0 → Type 0
  Io A = Exec MqttError (Client S) A

  -- The keepalive is kept in seconds.
  unfoldable pub new : S → ℕ → Client S
  new s keepalive_secs =
      let (t, s') = st.now s in
      record {
        stream = s';
        next_pid = 1;
        keepalive = if keepalive_secs == 0 then 1 else keepalive_secs;
        last_out = t;
      }

  unfoldable pub pid : Io ℕ
  unfolding following
  pid c = (ok (c.next_pid), record c { next_pid = following (c.next_pid) })

  abbrev stamp : Client S → S → Client S
  stamp c s = let (t, s') = st.now s in record c { stream = s'; last_out = t }

  abbrev after_write :
      Client S → Result String (Unit {0}) → S → Result MqttError (Unit {0}) × Client S
  after_write c (ok u) s = (ok tt, stamp c s)
  after_write c (err e) s = (err (io_error e), record c { stream = s })

  unfoldable pub send : Bytes → Io (Unit {0})
  send bytes c = let (r, s) = st.write_all bytes (c.stream) in after_write c r s

  unfoldable pub read_byte : Io ℕ
  read_byte c = let (r, s) = st.read (c.stream) in (exact r, record c { stream = s })

  unfoldable pub read_exact : ℕ → Io Bytes
  unfolding read_byte ◌>>=◌ pure
  read_exact zero = pure []
  read_exact (suc n) = do b ← read_byte; bs ← read_exact n; pure (b ∷ bs)

  -- The loop of `read_remaining_len` with `rounds` left of its four.
  unfoldable pub remaining_loop : ℕ → ℕ → ℕ → Io ℕ
  unfolding read_byte ◌>>=◌ pure raise
  remaining_loop zero mult value = raise malformed_length
  remaining_loop (suc rounds) mult value = do
    b ← read_byte
    let value' : ℕ = value + b % 128 * mult
    let rest = remaining_loop rounds (mult * 128) value'
    if ltb b 128 then pure value' else rest

  unfoldable pub read_remaining_len : Io ℕ
  unfolding remaining_loop
  read_remaining_len = remaining_loop 4 1 0

  unfoldable pub read_rest : ℕ → Io (Option Packet)
  unfolding read_remaining_len read_exact ◌>>=◌ pure parse
  read_rest b1 = do
    remaining ← read_remaining_len
    body ← read_exact remaining
    pure (some (parse b1 body))

  abbrev first : ReadResult → Io (Option Packet)
  first (byte b1) = read_rest b1
  first closed = raise connection_closed
  first timed_out = pure none
  first (broken e) = raise (io_error e)

  unfoldable pub read_packet : Io (Option Packet)
  unfolding pure raise read_rest
  read_packet c = let (r, s) = st.read (c.stream) in first r (record c { stream = s })

  abbrev pub or_wait : Io Packet → Option Packet → Io Packet
  or_wait rest none = rest
  or_wait rest (some q) = pure q

  -- The loop of `read_packet_blocking`, which waits as long as reads time out; `fuel` bounds its
  -- rounds.
  unfoldable pub read_packet_blocking : ℕ → Io Packet
  unfolding read_packet ◌>>=◌ pure raise
  read_packet_blocking zero = raise exhausted
  read_packet_blocking (suc fuel) = do p ← read_packet; or_wait (read_packet_blocking fuel) p

  unfoldable pub connect : ℕ → Bytes → Bool → Option Bytes → Option Bytes → Io (Unit {0})
  unfolding connect_frame send read_packet_blocking conn_ack_result ◌>>=◌ lift gets
  connect fuel client_id clean_session user pass = do
    keepalive ← gets (λ c. c.keepalive)
    send (connect_frame keepalive client_id clean_session user pass)
    p ← read_packet_blocking fuel
    lift (conn_ack_result p)

  unfoldable pub subscribe : ℕ → Bytes → ℕ → Io (Unit {0})
  unfolding pid put_str to_be_bytes frame send read_packet_blocking sub_ack_result ◌>>=◌ lift
  subscribe fuel topic qos = do
    p ← pid
    send (frame subscribe_type 2 (to_be_bytes p ++ put_str topic ++ (qos ∷ [])))
    q ← read_packet_blocking fuel
    lift (sub_ack_result q)

  unfoldable pub publish : Bytes → Bytes → ℕ → Io (Option ℕ)
  unfolding pid publish_frame send ◌>>=◌ pure
  publish topic payload qos = do
    p ← if ltb 0 qos then (pid >>= λ n. pure (some n)) else pure none
    send (publish_frame topic payload qos p)
    pure p

  unfoldable pub puback : ℕ → Io (Unit {0})
  unfolding frame to_be_bytes send
  puback p = send (frame puback_type 0 (to_be_bytes p))

  unfoldable pub pingreq : Io (Unit {0})
  unfolding frame send
  pingreq = send (frame pingreq_type 0 [])

  unfoldable pub disconnect : Client S → Client S
  unfolding frame send
  disconnect c = let (r, c') = send (frame disconnect_type 0 []) c in c'

  -- A ping once half the keepalive has elapsed.
  unfoldable pub keepalive_tick : Io (Unit {0})
  unfolding pingreq
  keepalive_tick c =
      let (t, s) = st.now (c.stream) in
      let c' : Client S = record c { stream = s } in
      if leb (c.keepalive * 500) (t - c.last_out) then pingreq c' else (ok tt, c')
