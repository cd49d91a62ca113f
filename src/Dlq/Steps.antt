-- ===== src/Dlq/Steps.antt =====
-- What a dead letter does to the connection (core/src/connectors.rs, `to_dlq`): nothing but the
-- streams is asked, and the letter is stored where it returns Ok.
use vejas.Base.{ℕ, String, ◌≡◌, refl, Bool, List, [], ◌∷◌, str_eq, if_cases, arith}
use vejas.Exec.{Result, ok, err}
use vejas.Bus.{Bytes, Publish, NatsClient}
use vejas.Bus.Laws.{History, ClientLaws, Steps, Steps-refl, Steps-trans, stream-Steps, add-Steps}
use vejas.Dlq.{
  DlqEvent, Letter, Desk, Post, announced, publish_events, announce_dead_letter, stored,
  dlq_subject, sent_letter, dlq_stream, to_dlq,
}

module _ {S E : Type 0} (post : Post E) (history : History S) where
  -- The letter is stored, in its text, under the unit's subject.
  pub record Lettered (letter : Letter E) (s : S) : Type 0 where
    pub body : Bytes
    pub text : post.letter_to_vec letter ≡ ok body
    pub there : history.Stored (dlq_subject letter.unit, body) s

module _ {S E : Type 0} (client : NatsClient S) (post : Post E) (history : History S)
    (laws : ClientLaws client history) (K : Publish → Type 0) where
  publish_events-Steps :
      (es : List DlqEvent) (s : S) → Steps client history K s (publish_events client post es s)
  unfolding publish_events
  publish_events-Steps [] s = Steps-refl client history K s
  publish_events-Steps (e ∷ es) s =
      let p : Publish = (post.events_subject, post.event_to_vec e) in
      Steps-trans client history K s (client.stream_publish p s).1 _
        (stream-Steps client history K laws p s)
        (publish_events-Steps es (client.stream_publish p s).1)

  announce-Steps :
      (now : ℕ) (spawned : Bool) (letter : Letter E) (d : Desk S)
      → Steps client history K d.link.conn
          (announce_dead_letter client post now spawned letter d).link.conn
  unfolding announce_dead_letter
  announce-Steps now spawned letter d =
      let told =
        announced post.events_subject post.gap letter.unit letter.original_subject letter.attempts
          letter.version now d.pending in
      if_cases (λ (k : Desk S). Steps client history K d.link.conn k.link.conn)
        (str_eq letter.original_subject post.events_subject)
        (λ t. Steps-refl client history K d.link.conn)
        (λ f. publish_events-Steps told.0 d.link.conn)

  -- What `to_dlq` does to the connection, and what its answer says.
  pub record Buried (letter : Letter E) (s : S) (r : Result String (Unit {0}) × Desk S)
      : Type 0 where
    pub steps : Steps client history K s r.1.link.conn
    pub lettered : r.0 ≡ ok tt → Lettered post history letter r.1.link.conn

  stored-Buried :
      (now : ℕ) (spawned : Bool) (letter : Letter E) (body : Bytes) (d : Desk S) (s : S)
      (r : Result String ℕ × S)
      → post.letter_to_vec letter ≡ ok body
      → Steps client history K s r.1
      → ((n : ℕ) → r.0 ≡ ok n → history.Stored (dlq_subject letter.unit, body) r.1)
      → Buried letter s (stored client post now spawned letter d r)
  stored-Buried now spawned letter body d s (ok n, t) text h k =
      let e : Desk S = record d { link = record d.link { conn = t } } in
      let more = announce-Steps now spawned letter e in
      record {
        steps = Steps-trans client history K s t _ h more;
        lettered = λ o. record { body = body; text = text; there = more.later.stored _ (k n refl) };
      }
  stored-Buried now spawned letter body d s (err e, t) text h k = record {
    steps = h;
    lettered = λ o. ground (arith, o);
  }

  sent-Buried :
      (now : ℕ) (spawned : Bool) (letter : Letter E) (d : Desk S) (s : S) (r : Result String Bytes)
      → post.letter_to_vec letter ≡ r
      → Steps client history K s d.link.conn
      → Buried letter s (sent_letter client post now spawned letter d r)
  sent-Buried now spawned letter d s (err e) text h = record {
    steps = h;
    lettered = λ o. ground (arith, o);
  }
  sent-Buried now spawned letter d s (ok body) text h =
      let p : Publish = (dlq_subject letter.unit, body) in
      stored-Buried now spawned letter body d s (client.stream_publish p d.link.conn) text
        (Steps-trans client history K s d.link.conn _ h
          (stream-Steps client history K laws p d.link.conn))
        (λ n. laws.stream-Stored p n d.link.conn)

  pub to_dlq-Buried :
      (now : ℕ) (spawned : Bool) (letter : Letter E) (d : Desk S)
      → Buried letter d.link.conn (to_dlq client post now spawned letter d)
  unfolding to_dlq
  to_dlq-Buried now spawned letter d =
      sent-Buried now spawned letter
        (record d { link = record d.link { conn = client.add_stream dlq_stream d.link.conn } })
        d.link.conn (post.letter_to_vec letter) refl
        (add-Steps client history K laws dlq_stream d.link.conn)
