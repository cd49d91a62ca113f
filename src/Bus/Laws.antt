-- ===== src/Bus/Laws.antt =====
-- What the runtime relies on of the NATS client (core/src/bus.rs, the comments of `barrier` and
-- `confirm`): the messages of a connection are handled in the order in which they were sent, and
-- only a new connection loses what was handed over.
use vejas.Base.{
  ℕ, ◌≤◌, String, ◌≡◌, refl, sym, ◌∙◌, ap, List, [], ◌∷◌, ◌++◌, All, All-append, append_assoc,
  append-nil, arith,
}
use vejas.Exec.{ok}
use vejas.Bus.{Publish, NatsClient, answered, be_bytes}

-- The server has read a publish; it was handed to the connection with this number; a stream has
-- stored it; the publishes that this thread has asked for, in order.
pub record History (S : Type 0) : Type 1 where
  pub Read : Publish → S → Type 0
  pub Sent : ℕ → Publish → S → Type 0
  pub Stored : Publish → S → Type 0
  pub calls : S → List Publish

module _ {S : Type 0} (client : NatsClient S) (history : History S) where
  -- What has happened stays so, and connections are only added.
  pub record Later (s t : S) : Type 0 where
    pub read : (p : Publish) → history.Read p s → history.Read p t
    pub sent : (e : ℕ) (p : Publish) → history.Sent e p s → history.Sent e p t
    pub stored : (p : Publish) → history.Stored p s → history.Stored p t
    pub connections : client.connects s ≤ client.connects t

  pub Later-refl : (s : S) → Later s s
  Later-refl s = record {
    read = λ p h. h;
    sent = λ e p h. h;
    stored = λ p h. h;
    connections = omega arith;
  }

  pub Later-trans : (s t u : S) → Later s t → Later t u → Later s u
  Later-trans s t u h k = record {
    read = λ p r. k.read p (h.read p r);
    sent = λ e p r. k.sent e p (h.sent e p r);
    stored = λ p r. k.stored p (h.stored p r);
    connections = omega (arith, h.connections, k.connections);
  }

  pub record ClientLaws : Type 0 where
    pub publish-Later : (p : Publish) (s : S) → Later s (client.publish p s).1
    pub publish-calls :
        (p : Publish) (s : S) → history.calls (client.publish p s).1 ≡ history.calls s ++ (p ∷ [])
    pub publish-Sent :
        (p : Publish) (s : S)
        → (client.publish p s).0 ≡ ok tt
        → client.connects (client.publish p s).1 ≡ client.connects s
        → history.Sent (client.connects s) p (client.publish p s).1
    -- The echo of a barrier cannot overtake what was sent before it on the connection.
    pub echo-Read :
        (echo : String) (id e : ℕ) (p : Publish) (s : S)
        → history.Sent e p s
        → (client.publish (echo, be_bytes 8 id) s).0 ≡ ok tt
        → (client.wait_echo id (client.publish (echo, be_bytes 8 id) s).1).0 ≡ answered
        → client.connects (client.wait_echo id (client.publish (echo, be_bytes 8 id) s).1).1 ≡ e
        → history.Read p (client.wait_echo id (client.publish (echo, be_bytes 8 id) s).1).1
    pub wait-Later : (id : ℕ) (s : S) → Later s (client.wait_echo id s).1
    pub wait-calls : (id : ℕ) (s : S) → history.calls (client.wait_echo id s).1 ≡ history.calls s
    pub reply-Later :
        (subject inbox : String) (s : S) → Later s (client.publish_with_reply subject inbox s).1
    pub reply-calls :
        (subject inbox : String) (s : S)
        → history.calls (client.publish_with_reply subject inbox s).1 ≡ history.calls s
    pub stream-Later : (p : Publish) (s : S) → Later s (client.stream_publish p s).1
    pub stream-calls :
        (p : Publish) (s : S) → history.calls (client.stream_publish p s).1 ≡ history.calls s
    pub stream-Stored :
        (p : Publish) (n : ℕ) (s : S)
        → (client.stream_publish p s).0 ≡ ok n
        → history.Stored p (client.stream_publish p s).1
    pub add-Later : (stream : String) (s : S) → Later s (client.add_stream stream s)
    pub add-calls :
        (stream : String) (s : S) → history.calls (client.add_stream stream s) ≡ history.calls s

abbrev pub Anything : Publish → Type 0
Anything p = Unit

module _ {S : Type 0} (client : NatsClient S) (history : History S) where
  -- What a piece of the loop does to the connection: the publishes that it asks for satisfy `K`.
  pub record Steps (K : Publish → Type 0) (s t : S) : Type 0 where
    pub later : Later client history s t
    pub added : List Publish
    pub asked : history.calls t ≡ history.calls s ++ added
    pub each : All K added

  module _ (K : Publish → Type 0) where
    pub Steps-none :
        (s t : S) → Later client history s t → history.calls t ≡ history.calls s → Steps K s t
    Steps-none s t h e = record {
      later = h;
      added = [];
      asked = e ∙ sym (append-nil (history.calls s));
      each = tt;
    }

    pub Steps-refl : (s : S) → Steps K s s
    Steps-refl s = Steps-none s s (Later-refl client history s) refl

    pub Steps-trans : (s t u : S) → Steps K s t → Steps K t u → Steps K s u
    Steps-trans s t u h k = record {
      later = Later-trans client history s t u h.later k.later;
      added = h.added ++ k.added;
      asked =
          k.asked
          ∙ ap (λ ps. ps ++ k.added) h.asked
          ∙ append_assoc (history.calls s) h.added k.added;
      each = All-append K h.added k.added h.each k.each;
    }

  module _ (K : Publish → Type 0) (laws : ClientLaws client history) where
    pub publish-Steps : (p : Publish) (s : S) → K p → Steps K s (client.publish p s).1
    publish-Steps p s k = record {
      later = laws.publish-Later p s;
      added = p ∷ [];
      asked = laws.publish-calls p s;
      each = (k, tt);
    }

    pub wait-Steps : (id : ℕ) (s : S) → Steps K s (client.wait_echo id s).1
    wait-Steps id s = Steps-none K s _ (laws.wait-Later id s) (laws.wait-calls id s)

    pub stream-Steps : (p : Publish) (s : S) → Steps K s (client.stream_publish p s).1
    stream-Steps p s = Steps-none K s _ (laws.stream-Later p s) (laws.stream-calls p s)

    pub add-Steps : (stream : String) (s : S) → Steps K s (client.add_stream stream s)
    add-Steps stream s = Steps-none K s _ (laws.add-Later stream s) (laws.add-calls stream s)

    pub reply-Steps :
        (subject inbox : String) (s : S) → Steps K s (client.publish_with_reply subject inbox s).1
    reply-Steps subject inbox s =
        Steps-none K s _ (laws.reply-Later subject inbox s) (laws.reply-calls subject inbox s)
