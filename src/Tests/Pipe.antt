-- ===== src/Tests/Pipe.antt =====
-- The MQTT client over a pipe: a list of what its reads give, the bytes written to it, and a clock.
use vejas.Base.{ℕ, ◌+◌, ◌≡◌, refl, arith, List, [], ◌∷◌, ◌++◌, map, some, none}
use vejas.Base.{true, ◌≢◌}
use vejas.Exec.{ok, err}
use vejas.Mqtt.Wire.{Bytes, frame, put_str, to_be_bytes, put_remaining_len, remaining_len}
use vejas.Mqtt.Parse.{publish, byte_or}
use vejas.Mqtt.Client.{
  ReadResult, byte, closed, timed_out, Stream, Client, pid, read_packet, publish_frame, connect,
  connect_frame, connack_refused,
}
use vejas.Mqtt.Delivery.{Delivers}
use vejas.Mqtt.RoundTrip.{read_packet-publish_frame}
use vejas.Mqtt.PacketId.{pid-fresh, issued, IsPid}
use vejas.Mqtt.Handshake.{Waits, Answers, connect-Answers}

record Pipe : Type 0 where
  inbound : List ReadResult
  out : Bytes
  clock : ℕ

abbrev take_read : List ReadResult → Bytes → ℕ → ReadResult × Pipe
take_read [] out t = (closed, record { inbound = []; out = out; clock = t })
take_read (r ∷ rs) out t = (r, record { inbound = rs; out = out; clock = t })

abbrev pipe : Stream Pipe
pipe = record {
  read = λ s. take_read (s.inbound) (s.out) (s.clock);
  write_all = λ bs s. (ok tt, record s { out = s.out ++ bs });
  now = λ s. (s.clock, record s { clock = s.clock + 1 });
}

abbrev arriving : List ReadResult → Client Pipe
arriving rs = record {
  stream = record { inbound = rs; out = []; clock = 10 };
  next_pid = 65535;
  keepalive = 30;
  last_out = 4;
}

delivers :
    (bs : Bytes) (rest : List ReadResult) (out : Bytes) (t : ℕ)
    → Delivers pipe bs
        (record { inbound = map byte bs ++ rest; out = out; clock = t })
        (record { inbound = rest; out = out; clock = t })
unfolding Delivers
delivers [] rest out t = refl
delivers (b ∷ bs) rest out t = (_, refl, delivers bs rest out t)

-- A message on the topic "t", of quality 1 and identifier 7.
abbrev message : Bytes
message = 50 ∷ 7 ∷ 0 ∷ 1 ∷ 116 ∷ 0 ∷ 7 ∷ 1 ∷ 2 ∷ []

message-publish_frame : publish_frame (116 ∷ []) (1 ∷ 2 ∷ []) 1 (some 7) ≡ message
unfolding publish_frame frame put_str to_be_bytes put_remaining_len remaining_len
message-publish_frame = refl

read_packet-publish_frame_example :
    read_packet pipe (arriving (map byte message))
    ≡ (ok (some (publish (116 ∷ []) (1 ∷ 2 ∷ []) 1 7)), arriving [])
unfolding publish_frame frame put_str to_be_bytes put_remaining_len remaining_len
read_packet-publish_frame_example =
    read_packet-publish_frame pipe (arriving (map byte message)) ((arriving []).stream) (116 ∷ [])
      (1 ∷ 2 ∷ []) 1 7 (omega arith) (omega arith) (omega arith) (delivers message [] [] 10)

pid-fresh_example :
    ((n : ℕ) × ((pid pipe (issued pipe 1 (arriving []))).0 ≡ ok n) × IsPid n)
    × ((pid pipe (issued pipe 1 (arriving []))).0 ≢ (pid pipe (arriving [])).0)
pid-fresh_example =
    pid-fresh pipe 1 (arriving []) (omega arith, omega arith) (omega arith) (omega arith)

-- A timeout, then a CONNACK of code 5.
abbrev refusal : List ReadResult
refusal = timed_out ∷ byte 32 ∷ byte 2 ∷ byte 0 ∷ byte 5 ∷ []

connect-Answers_example : connect pipe 2 (118 ∷ []) true none none (arriving refusal) ≡ (
  err (connack_refused 5),
  record {
    stream = record { inbound = []; out = connect_frame 30 (118 ∷ []) true none none; clock = 11 };
    next_pid = 65535;
    keepalive = 30;
    last_out = 10;
  },
)
unfolding Waits Answers frame put_remaining_len remaining_len byte_or
connect-Answers_example =
    let out = connect_frame 30 (118 ∷ []) true none none in
    connect-Answers pipe 1 (118 ∷ []) true none none (0 ∷ 5 ∷ []) (arriving refusal) _
      (record { inbound = []; out = out; clock = 11 }) refl (omega arith)
      (_, (_, refl, refl), delivers (32 ∷ 2 ∷ 0 ∷ 5 ∷ []) [] out 11)
