-- ===== src/Flow/Asked.antt =====
-- What a flow's round may ask the connection to publish (core/src/main.rs, `supervise_vjs`; the rule of
-- publish before ack that its comments name).
use mathlib.Core.List.{Memᴰ}
use vejas.Base.{ℕ, String, ◌≡◌, some, List, [], map}
use vejas.Vjs.Value.{Platform, Json}
use vejas.Vjs.Ast.{Program}
use vejas.Vjs.Engine.{Sources}
use vejas.Metrics.{Seconds}
use vejas.Bus.{Publish, NatsClient, Message, be_bytes}
use vejas.Bus.Laws.{History}
use vejas.Dlq.{Post}
use vejas.Flow.State.{FlowError, Codec, Turn}
use vejas.Flow.Keeps.{nak_bytes, publish_of}
use vejas.Flow.Messages.{RunOf, Delivered, Kept}

module _ (P : Platform) (Q : Seconds) {S : Type 0} (client : NatsClient S) (echo : String)
    (codec : Codec (Json P)) (post : Post (FlowError P.Number)) (sources : Sources P.Number)
    (prog : Program P.Number) (history : History S) where
  -- The message is one of the round's.
  abbrev pub Among : List (Turn Q.Time) → Message → Type 0
  Among ts m = Memᴰ m (map (λ t. t.message) ts)

  abbrev pub emit_publish : String × Json P → Publish
  emit_publish = publish_of P Q client echo codec

  abbrev pub ReadAt : S → Publish → Type 0
  ReadAt end p = history.Read p end

  -- A message is settled at a state: the server has read every emit of a run of it, or a letter with
  -- its payload is stored.
  pub data Settled (end : S) (m : Message) : Type 0 where
    delivered :
        Delivered P Q client echo codec post sources prog history (ReadAt end) m → Settled end m
    kept : Kept P Q client echo codec post sources prog history m end → Settled end m

  -- What a round may ask the connection to publish: an emit of a run of one of its messages, the
  -- echo of a barrier, the nak of a message, and the ack of a message that is settled at the end.
  pub data Allowed (ts : List (Turn Q.Time)) (end : S) (p : Publish) : Type 0 where
    emitted :
        (m : Message)
        → Among ts m
        → (ran : RunOf P Q client echo codec post sources prog history m) → (e : String × Json P)
        → Memᴰ e ran.ctx.emits
        → p ≡ emit_publish e
        → Allowed ts end p
    echoed : (id : ℕ) → p ≡ (echo, be_bytes 8 id) → Allowed ts end p
    rejected :
        (m : Message)
        → Among ts m
        → (r : String) → m.reply ≡ some r
        → p ≡ (r, nak_bytes)
        → Allowed ts end p
    settled :
        (m : Message)
        → Among ts m
        → (r : String) → m.reply ≡ some r
        → p ≡ (r, [])
        → Settled end m
        → Allowed ts end p
