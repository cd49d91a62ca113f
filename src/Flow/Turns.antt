-- ===== src/Flow/Turns.antt =====
-- The loop over a round's messages (core/src/main.rs, `supervise_vjs`): what it asks of the
-- connection, and which messages it leaves to be acked behind the barrier.
use vejas.Base.{String, Bool, List, [], ◌∷◌, All, if_cases}
use vejas.Vjs.Value.{Platform, Json}
use vejas.Vjs.Ast.{Program}
use vejas.Vjs.Engine.{Sources}
use vejas.Metrics.{Seconds}
use vejas.Bus.{Publish, NatsClient, Message}
use vejas.Bus.Laws.{
  Anything, History, Later, Later-refl, Later-trans, ClientLaws, Steps, Steps-refl, Steps-trans,
}
use vejas.Dlq.{Post}
use vejas.Flow.State.{FlowError, Codec, Turn, Flow}
use vejas.Flow.{on_message, on_messages}
use vejas.Flow.Keeps.{Ackable}
use vejas.Flow.Messages.{RunOf, Delivered, Kept, Sound, Allows, on_message-Does}

module _ (P : Platform) (Q : Seconds) {S : Type 0} (client : NatsClient S) (echo : String)
    (codec : Codec (Json P)) (post : Post (FlowError P.Number)) (sources : Sources P.Number)
    (prog : Program P.Number) (history : History S) (laws : ClientLaws client history)
    (name version : String) where
  abbrev pub RunOf' : Message → Type 0
  RunOf' = RunOf P Q client echo codec post sources prog history

  abbrev pub Delivered' : (Publish → Type 0) → Message → Type 0
  Delivered' = Delivered P Q client echo codec post sources prog history

  abbrev pub Kept' : Message → S → Type 0
  Kept' = Kept P Q client echo codec post sources prog history

  abbrev pub turned : Turn Q.Time → Flow P Q S → Flow P Q S
  turned = on_message P Q client echo codec post sources prog name version

  abbrev pub all_turned : List (Turn Q.Time) → Flow P Q S → Bool × Flow P Q S
  all_turned = on_messages P Q client echo codec post sources prog name version

  abbrev pub at : Flow P Q S → S
  at w = w.desk.link.conn

  module _ (R : Publish → Type 0) (Mine : Message → Type 0) where
    abbrev pub Sound' : (Publish → Type 0) → Flow P Q S → Type 0
    Sound' K w = Sound P Q client echo codec post sources prog history laws R K Mine w.held w.to_ack

    abbrev pub Allows' : (Publish → Type 0) → Turn Q.Time → Type 0
    Allows' K t = Allows P Q client echo codec post sources prog history laws R K Mine t.message

    pub All-any : {A : Type 0} (F : A → Type 0) (xs : List A) → ((x : A) → F x) → All F xs
    All-any F [] f = tt
    All-any F (x ∷ xs) f = (f x, All-any F xs f)

    -- What a turn does, where the acks of stored letters are allowed.
    turn-Does :
        (K : Publish → Type 0) (t : Turn Q.Time) (w : Flow P Q S)
        → Allows' K t
        → Sound' K w
        → ((s : S)
            → Kept' t.message s
            → Later client history s (at (turned t w))
            → Ackable K t.message)
        → Steps client history K (at w) (at (turned t w)) × Sound' K (turned t w)
    turn-Does K t w may sound acks =
        on_message-Does P Q client echo codec post sources prog history laws R K Mine name version t
          may w sound acks

    forget : (K : Publish → Type 0) (w : Flow P Q S) → Sound' K w → Sound' Anything w
    forget K w sound = record { asks = All-any _ w.held λ p. tt; acks = sound.acks }

    -- The message of a turn is one of this round's.
    may_any : (t : Turn Q.Time) → Mine t.message → Allows' Anything t
    may_any t mine = record {
      mine = mine;
      emits = λ ran. All-any _ ran.ctx.emits λ e. tt;
      naks = λ r e. tt;
    }

    abbrev pub EachMine : List (Turn Q.Time) → Type 0
    EachMine ts = All (λ t. Mine t.message) ts

    pub turns-Later :
        (ts : List (Turn Q.Time)) (w : Flow P Q S)
        → EachMine ts
        → Sound' Anything w
        → Later client history (at w) (at (all_turned ts w).1)
    unfolding on_messages
    turns-Later [] w mine sound = Later-refl client history (at w)
    turns-Later (t ∷ ts) w mine sound =
        let (steps, after) = turn-Does Anything t w (may_any t mine.0) sound (λ s k h r e. tt) in
        if_cases (λ (x : Bool × Flow P Q S). Later client history (at w) (at x.1)) t.running
          (λ h.
            Later-trans client history (at w) (at (turned t w)) _ steps.later
              (turns-Later ts (turned t w) mine.1 after))
          (λ h. Later-refl client history (at w))

    module _ (K : Publish → Type 0) where
      -- Of a state: an ack of a message whose letter is stored before it is allowed.
      abbrev pub AcksBefore : S → Type 0
      AcksBefore e =
          (m : Message) → Mine m → (s : S) → Kept' m s → Later client history s e → Ackable K m

      abbrev pub Through : Flow P Q S → Bool × Flow P Q S → Type 0
      Through w x = AcksBefore (at x.1) → Steps client history K (at w) (at x.1) × Sound' K x.1

      pub turns-Through :
          (ts : List (Turn Q.Time)) (w : Flow P Q S)
          → EachMine ts
          → All (Allows' K) ts
          → Sound' K w
          → Through w (all_turned ts w)
      unfolding on_messages
      turns-Through [] w mine may sound = λ acks. (Steps-refl client history K (at w), sound)
      turns-Through (t ∷ ts) w mine may sound =
          let here =
            turn-Does Anything t w (may_any t mine.0) (forget K w sound) (λ s k h r e. tt) in
          let later = turns-Later ts (turned t w) mine.1 here.1 in
          if_cases (Through w) t.running
            (λ h acks.
              let (steps, after) =
                turn-Does K t w may.0 sound
                  λ s k l. acks t.message mine.0 s k (Later-trans client history s _ _ l later) in
              let (more, end) = turns-Through ts (turned t w) mine.1 may.1 after acks in
              (Steps-trans client history K (at w) (at (turned t w)) _ steps more, end))
            (λ h acks. (Steps-refl client history K (at w), sound))
