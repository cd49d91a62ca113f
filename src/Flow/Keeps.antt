-- ===== src/Flow/Keeps.antt =====
-- What a message's turn does to the connection and to what a round holds (core/src/main.rs,
-- `supervise_vjs`).
use vejas.Base.{
  String, ◌≡◌, refl, sym, Option, some, none, List, [], ◌∷◌, ◌++◌, All, All-append, subst, ◌||◌,
  length, ltb, str_eq, if_cases, arith,
}
use vejas.Vjs.Text.{any_char}
use vejas.Exec.{OnOk, Result, ok, err}
use vejas.Vjs.Value.{Platform, Json}
use vejas.Metrics.{Seconds}
use vejas.Bus.{
  Bytes, Publish, NatsClient, Link, Refusal, breaks_subject, hold, Message, answer_to, ack, nak,
  then_ack, ack_all,
}
use vejas.Bus.Laws.{History, ClientLaws, Steps, Steps-refl, Steps-trans, publish-Steps}
use vejas.Flow.State.{FlowError, Codec}
use vejas.Flow.{payload_of, then_hold, hold_emits}

abbrev pub nak_bytes : Bytes
nak_bytes = 45 ∷ 78 ∷ 65 ∷ 75 ∷ []

abbrev pub Ackable : (Publish → Type 0) → Message → Type 0
Ackable K m = (r : String) → m.reply ≡ some r → K (r, [])

module _ {S : Type 0} (client : NatsClient S) (history : History S)
    (laws : ClientLaws client history) (K : Publish → Type 0) where
  -- An answer is asked for under the message's reply subject.
  answer-Steps :
      (reply : Option String) (payload : Bytes) (l : Link S)
      → ((r : String) → reply ≡ some r → K (r, payload))
      → Steps client history K l.conn (answer_to client reply payload l).1.conn
  answer-Steps none payload l k = Steps-refl client history K l.conn
  answer-Steps (some r) payload l k =
      publish-Steps client history K laws (r, payload) l.conn (k r refl)

  pub ack-Steps :
      (m : Message) (l : Link S)
      → ((r : String) → m.reply ≡ some r → K (r, []))
      → Steps client history K l.conn (ack client m l).1.conn
  unfolding ack
  ack-Steps m l k = answer-Steps m.reply [] l k

  pub nak-Steps :
      (m : Message) (l : Link S)
      → ((r : String) → m.reply ≡ some r → K (r, nak_bytes))
      → Steps client history K l.conn (nak client m l).1.conn
  unfolding nak
  nak-Steps m l k = answer-Steps m.reply nak_bytes l k

  then_ack-Steps :
      (rest : Link S → Result String (Unit {0}) × Link S) (l : Link S)
      (r : Result String (Unit {0}) × Link S)
      → Steps client history K l.conn r.1.conn
      → ((k : Link S) → Steps client history K k.conn (rest k).1.conn)
      → Steps client history K l.conn (then_ack client rest r).1.conn
  then_ack-Steps rest l (ok u, k) h more =
      Steps-trans client history K l.conn k.conn (rest k).1.conn h (more k)
  then_ack-Steps rest l (err e, k) h more = h

  pub ack_all-Steps :
      (ms : List Message) (l : Link S)
      → All (Ackable K) ms
      → Steps client history K l.conn (ack_all client ms l).1.conn
  unfolding ack_all
  ack_all-Steps [] l ks = Steps-refl client history K l.conn
  ack_all-Steps (m ∷ ms) l ks =
      then_ack-Steps (ack_all client ms) l (ack client m l) (ack-Steps m l ks.0)
        λ k. ack_all-Steps ms k ks.1

module _ (P : Platform) (Q : Seconds) {S : Type 0} (client : NatsClient S) (echo : String)
    (codec : Codec (Json P)) where
  abbrev pub publish_of : String × Json P → Publish
  publish_of e = (e.0, payload_of P Q client echo codec e.1)

  module _ (R K : Publish → Type 0) where
    -- What `R` has of the batch behind it, it has of the batch before and, where the run is held, of
    -- its emits; and what is held beyond the batch before is an emit.
    pub record Holding {A : Type 0} (es : List (String × Json P)) (held : List Publish)
        (r : Result (FlowError P.Number) A) (after : List Publish) : Type 0 where
      pub kept : All R after → All R held
      pub emitted : (a : A) → r ≡ ok a → All R after → All (λ e. R (publish_of e)) es
      pub from_emits : All K held → All (λ e. K (publish_of e)) es → All K after

    abbrev Added : Publish → List Publish → List Publish → Type 0
    Added p held more = more ≡ held ++ (p ∷ [])

    hold-Added :
        (p : Publish) (held : List Publish) (l : Link S)
        → OnOk (Added p held) (hold client echo p.0 p.1 held l)
    unfolding hold
    hold-Added p held l =
        if_cases (OnOk (Added p held)) (str_eq p.0 "" || any_char breaks_subject p.0) (λ t. tt)
          (λ f.
            if_cases (OnOk (Added p held)) (ltb (client.max_payload l.conn) (length p.1)) (λ t. tt)
              (λ g. refl))

    All-before : (held : List Publish) (p : Publish) → All R (held ++ (p ∷ [])) → All R held × R p
    All-before [] p h = (tt, h.0)
    All-before (q ∷ held) p h = let (hs, r) = All-before held p h.1 in ((h.0, hs), r)

    then_hold-Holding :
        (rest : List Publish → Result (FlowError P.Number) (Unit {0}) × List Publish)
        (e : String × Json P) (es : List (String × Json P)) (held : List Publish)
        (r : Result Refusal (List Publish))
        → OnOk (Added (publish_of e) held) r
        → ((more : List Publish) → Holding es more (rest more).0 (rest more).1)
        → (let a = then_hold P Q client echo rest e.0 held r in Holding (e ∷ es) held a.0 a.1)
    then_hold-Holding rest e es held (err f) h k = record {
      kept = λ r. r;
      emitted = λ a o. ground (arith, o);
      from_emits = λ r ks. r;
    }
    then_hold-Holding rest e es held (ok more) h k =
        let before = λ (r : All R (rest more).1).
          All-before held (publish_of e) (subst (All R) h ((k more).kept r)) in
        record {
          kept = λ r. (before r).0;
          emitted = λ a o r. ((before r).1, (k more).emitted a o r);
          from_emits = λ r ks.
              (k more).from_emits
                (subst (All K) (sym h) (All-append K held (publish_of e ∷ []) r (ks.0, tt))) ks.1;
        }

    pub hold_emits-Holding :
        (l : Link S) (es : List (String × Json P)) (held : List Publish)
        → (let a = hold_emits P Q client echo codec l es held in Holding es held a.0 a.1)
    unfolding hold_emits
    hold_emits-Holding l [] held = record {
      kept = λ r. r;
      emitted = λ a o r. tt;
      from_emits = λ r ks. r;
    }
    hold_emits-Holding l (e ∷ es) held =
        then_hold-Holding (hold_emits P Q client echo codec l es) e es held _
          (hold-Added (publish_of e) held l) λ more. hold_emits-Holding l es more
