-- ===== src/Mqtt/Handshake.antt =====
-- Waiting for an answer (core/src/mqtt.rs, `read_packet_blocking`, `connect`, `subscribe`).
use vejas.Base.{
  ℕ, zero, suc, ◌+◌, ◌*◌, ◌%◌, ◌<◌, ◌≡◌, sym, ap, ◌∙◌, subst, none, if◌then◌else◌, ◌==◌, Option,
  Bool, length,
}
use vejas.Exec.{ok, err, continue, ◌>>=◌, pure, raise, lift, gets}
use vejas.Mqtt.Wire.{Bytes, frame, connack_type}
use vejas.Mqtt.Parse.{parse, parse_as, byte_or}
use vejas.Mqtt.Client.{
  Stream, Client, connack_refused, timed_out, read_packet, read_packet_blocking, or_wait, send,
  connect, connect_frame, conn_ack_result,
}
use vejas.Mqtt.Delivery.{Delivers, read_packet-frame}

module _ {S : Type 0} (st : Stream S) where
  -- The next `k` reads time out and leave `s'`.
  unfoldable pub Waits : ℕ → S → S → Type 0
  Waits zero s s' = s ≡ s'
  Waits (suc k) s s' = (s1 : S) × (st.read s ≡ (timed_out, s1)) × Waits k s1 s'

  -- After `k` timeouts the stream delivers a frame.
  unfoldable pub Answers : ℕ → ℕ → Bytes → S → S → Type 0
  Answers k t body s s' = (m : S) × Waits k s m × Delivers st (frame t 0 body) m s'

  read_packet-timed_out :
      (c : Client S) (s : S)
      → st.read (c.stream) ≡ (timed_out, s)
      → read_packet st c ≡ (ok none, record c { stream = s })
  unfolding read_packet pure
  read_packet-timed_out c s e = rw e

  read_packet_blocking-Answers :
      (k t : ℕ) (body : Bytes) (c : Client S) (s' : S)
      → length body < 268435456
      → Answers k t body (c.stream) s'
      → read_packet_blocking st (suc k) c
        ≡ (ok (parse (t * 16 % 256 + 0 % 16) body), record c { stream = s' })
  unfolding Waits Answers read_packet_blocking ◌>>=◌ pure raise
  read_packet_blocking-Answers zero t body c s' lt (m, w, d) =
      let d' = subst (λ x. Delivers st (frame t 0 body) x s') (sym w) d in
      ap (λ r. continue r.0 (or_wait st (read_packet_blocking st zero)) r.1)
        (read_packet-frame st t 0 body c s' lt d')
  read_packet_blocking-Answers (suc k) t body c s' lt (m, (s1, e, w), d) =
      let c1 : Client S = record c { stream = s1 } in
      ap (λ r. continue r.0 (or_wait st (read_packet_blocking st (suc k))) r.1)
        (read_packet-timed_out c s1 e)
      ∙ read_packet_blocking-Answers k t body c1 s' lt (m, w, d)

  send-ok :
      (bytes : Bytes) (c : Client S) (s : S)
      → st.write_all bytes (c.stream) ≡ (ok tt, s)
      → send st bytes c ≡ (ok tt, record c { stream = (st.now s).1; last_out = (st.now s).0 })
  unfolding send
  send-ok bytes c s e = rw e

  -- When the stream takes the packet of `connect` and, after `k` timeouts, delivers a CONNACK of a
  -- body that a length of four bytes can state, `connect` ends in that many rounds and one more. It
  -- returns if the body's code is 0 and is refused with the code if not; a code that is missing
  -- counts as 255.
  pub connect-Answers :
      (k : ℕ) (client_id : Bytes) (clean : Bool) (user pass : Option Bytes) (body : Bytes)
      (c : Client S) (s1 s' : S)
      → st.write_all (connect_frame (c.keepalive) client_id clean user pass) (c.stream)
        ≡ (ok tt, s1)
      → length body < 268435456
      → Answers k connack_type body ((st.now s1).1) s'
      → connect st (suc k) client_id clean user pass c ≡ (
        if byte_or 255 body 1 == 0 then ok tt else err (connack_refused (byte_or 255 body 1)),
        record c { stream = s'; last_out = (st.now s1).0 },
      )
  unfolding connect send ◌>>=◌ lift gets conn_ack_result parse parse_as
  connect-Answers k client_id clean user pass body c s1 s' written lt answers =
      let c1 : Client S = record c { stream = (st.now s1).1; last_out = (st.now s1).0 } in
      ap
        (λ r.
          continue r.0 (λ u. read_packet_blocking st (suc k) >>= λ p. lift (conn_ack_result p)) r.1)
        (send-ok _ c s1 written)
      ∙ ap (λ r. continue r.0 (λ p. lift (conn_ack_result p)) r.1)
          (read_packet_blocking-Answers k connack_type body c1 s' lt answers)
