-- ===== src/Flow/Messages.antt =====
-- What working on a message does (core/src/main.rs, `supervise_vjs`, the body of its loop): what it
-- asks of the connection, and which messages are to be acked behind the barrier.
use vejas.Base.{String, ◌≡◌, refl, Option, none, some, List, [], ◌∷◌, All, All-append, if_cases}
use vejas.Exec.{Result, ok, err}
use vejas.Vjs.Value.{Platform, Json}
use vejas.Vjs.Ast.{Program}
use vejas.Vjs.Failure.{Failure}
use vejas.Vjs.Engine.{Engine, Sources}
use vejas.Vjs.Eval.{Ctx}
use vejas.Vjs.Run.{run}
use vejas.Metrics.{Seconds}
use vejas.Bus.{Publish, NatsClient, Message}
use vejas.Bus.Laws.{Anything, History, Later, ClientLaws, Steps, Steps-refl, Steps-trans}
use vejas.Dlq.{Letter, letter_of, Desk, Post}
use vejas.Dlq.Steps.{Lettered, Buried, to_dlq-Buried}
use vejas.Flow.State.{
  FlowError, bad_json, run_failed, TraceError, dead_lettered_after, max_deliveries, at_least, Codec,
  Turn, Flow,
}
use vejas.Flow.{
  held_for, hold_run, after_letter, attempts, bury, run_fails, ended, decoded, on_message,
}
use vejas.Flow.Keeps.{
  nak_bytes, Ackable, ack-Steps, nak-Steps, publish_of, Holding, hold_emits-Holding,
}

module _ (P : Platform) (Q : Seconds) {S : Type 0} (client : NatsClient S) (echo : String)
    (codec : Codec (Json P)) (post : Post (FlowError P.Number)) (sources : Sources P.Number)
    (prog : Program P.Number) (history : History S) where
  -- A run of a message that succeeds.
  pub record RunOf (m : Message) : Type 0 where
    pub event : Json P
    pub ctx : Ctx P.Number
    pub before : Engine P.Number
    pub after : Engine P.Number
    pub parsed : codec.from_slice m.payload ≡ ok event
    pub ran : run P sources prog event before ≡ (ok ctx, after)

  -- `R` has every emit of a run of the message.
  pub record Delivered (R : Publish → Type 0) (m : Message) : Type 0 where
    pub ran : RunOf m
    pub each : All (λ e. R (publish_of P Q client echo codec e)) ran.ctx.emits

  -- A letter with the message's subject and payload is stored.
  pub record Kept (m : Message) (s : S) : Type 0 where
    pub letter : Letter (FlowError P.Number)
    pub subject : letter.original_subject ≡ m.subject
    pub payload : letter.payload ≡ m.payload
    pub lettered : Lettered post history letter s

  module _ (laws : ClientLaws client history) (R K : Publish → Type 0)
      (Mine : Message → Type 0) where
    -- What is held may be asked for, and once it is read the messages to ack are delivered.
    pub record Sound (held : List Publish) (to_ack : List Message) : Type 0 where
      pub asks : All K held
      pub acks : All (λ m. Mine m × (All R held → Delivered R m)) to_ack

    Acks-mono :
        (held more : List Publish) (ms : List Message)
        → (All R more → All R held)
        → All (λ m. Mine m × (All R held → Delivered R m)) ms
        → All (λ m. Mine m × (All R more → Delivered R m)) ms
    Acks-mono held more [] f h = tt
    Acks-mono held more (m ∷ ms) f h = ((h.0.0, λ r. h.0.1 (f r)), Acks-mono held more ms f h.1)

    abbrev conn_of : Flow P Q S → S
    conn_of w = w.desk.link.conn

    -- An ack is allowed where a letter is stored at a state before `e`.
    abbrev pub AcksAt : Message → S → Type 0
    AcksAt m e = (s : S) → Kept m s → Later client history s e → Ackable K m

    -- From `w` to `x` the connection is asked what `K` allows, if it allows the acks of letters.
    abbrev pub Does : Message → Flow P Q S → Flow P Q S → Type 0
    Does m w x =
        AcksAt m (conn_of x)
        → Steps client history K (conn_of w) (conn_of x) × Sound x.held x.to_ack

    -- What `K` allows of a message of this round, acks aside.
    pub record Allows (m : Message) : Type 0 where
      pub mine : Mine m
      pub emits : (ran : RunOf m) → All (λ e. K (publish_of P Q client echo codec e)) ran.ctx.emits
      pub naks : (r : String) → m.reply ≡ some r → K (r, nak_bytes)

    module _ (name version : String) (t : Turn Q.Time) (may : Allows t.message) where
      after_letter-Does :
          (stored : TraceError P.Number) (lost : String → TraceError P.Number) (preview : String)
          (event : Option (Json P)) (letter : Letter (FlowError P.Number)) (w : Flow P Q S)
          (r : Result String (Unit {0}) × Desk S)
          → letter.original_subject ≡ t.message.subject
          → letter.payload ≡ t.message.payload
          → Buried client post history laws K letter (conn_of w) r
          → Sound w.held w.to_ack
          → Does t.message w (
              after_letter P Q client echo codec post sources prog name version t stored lost
                preview event w r)
      after_letter-Does stored lost preview event letter w (ok u, d) se pe b sound = λ acks.
          let k : Kept t.message d.link.conn = record {
            letter = letter;
            subject = se;
            payload = pe;
            lettered = b.lettered refl;
          } in
          let later = (ack-Steps client history laws Anything t.message d.link λ r e. tt).later in
          (
            Steps-trans client history K (conn_of w) d.link.conn _ b.steps
                (ack-Steps client history laws K t.message d.link (acks d.link.conn k later)),
            sound,
          )
      after_letter-Does stored lost preview event letter w (err e, d) se pe b sound = λ acks. (
        Steps-trans client history K (conn_of w) d.link.conn _ b.steps
            (nak-Steps client history laws K t.message d.link may.naks),
        sound,
      )

      bury-Does :
          (e : FlowError P.Number) (stored : TraceError P.Number) (preview : String)
          (event : Option (Json P)) (w : Flow P Q S)
          → Sound w.held w.to_ack
          → Does t.message w
              (bury P Q client echo codec post sources prog name version t e stored preview event w)
      unfolding bury letter_of
      bury-Does e stored preview event w sound =
          let letter =
            letter_of t.dead_at name t.message.subject
              (attempts P Q client echo codec post sources prog name version t) e t.message.payload
              version in
          after_letter-Does stored _ preview event letter w _ refl refl
            (to_dlq-Buried client post history laws K t.announced_at t.spawned letter w.desk) sound

      -- Where nothing is asked.
      still : (w : Flow P Q S) → Sound w.held w.to_ack → Does t.message w w
      still w sound = λ acks. (Steps-refl client history K (conn_of w), sound)

      run_fails-Does :
          (event : Json P) (e : FlowError P.Number) (w : Flow P Q S)
          → Sound w.held w.to_ack
          → Does t.message w
              (run_fails P Q client echo codec post sources prog name version t event e w)
      unfolding run_fails
      run_fails-Does event e w sound =
          let n = attempts P Q client echo codec post sources prog name version t in
          if_cases (Does t.message w) (at_least n max_deliveries)
            (λ h. bury-Does e (dead_lettered_after e n) "" (some event) _ sound)
            (λ h. still w sound)

      -- A run that is held whole is to be acked once its emits are read.
      held_run-Does :
          (ran : RunOf t.message) (w : Flow P Q S)
          (r : Result (FlowError P.Number) (Unit {0}) × List Publish)
          → Sound w.held w.to_ack
          → Holding P Q client echo codec R K ran.ctx.emits w.held r.0 r.1
          → Does t.message w (
              ended P Q client echo codec post sources prog name version t ran.event
                (held_for P Q client echo ran.ctx w r))
      held_run-Does ran w (ok u, held) sound h = λ acks. (
        Steps-refl client history K (conn_of w),
        record {
          asks = h.from_emits sound.asks (may.emits ran);
          acks =
              All-append _ w.to_ack (t.message ∷ [])
                (Acks-mono w.held held w.to_ack h.kept sound.acks)
                ((may.mine, λ r. record { ran = ran; each = h.emitted u refl r }), tt);
        },
      )
      held_run-Does ran w (err e, held) sound h =
          run_fails-Does ran.event e (record w { held = held })
            (record {
              asks = h.from_emits sound.asks (may.emits ran);
              acks = Acks-mono w.held held w.to_ack h.kept sound.acks;
            })

      hold_run-Does :
          (event : Json P) (w : Flow P Q S)
          (r : Result (Failure P.Number) (Ctx P.Number) × Engine P.Number)
          → codec.from_slice t.message.payload ≡ ok event
          → run P sources prog event w.engine ≡ r
          → Sound w.held w.to_ack
          → Does t.message w (
              ended P Q client echo codec post sources prog name version t event
                (hold_run P Q client echo codec w r))
      hold_run-Does event w (ok c, g) parsed ran sound =
          let of_message : RunOf t.message = record {
            event = event;
            ctx = c;
            before = w.engine;
            after = g;
            parsed = parsed;
            ran = ran;
          } in
          held_run-Does of_message (record w { engine = g }) _ sound
            (hold_emits-Holding P Q client echo codec R K w.desk.link c.emits w.held)
      hold_run-Does event w (err e, g) parsed ran sound =
          run_fails-Does event (run_failed e) (record w { engine = g }) sound

      decoded-Does :
          (w : Flow P Q S) (r : Result String (Json P))
          → codec.from_slice t.message.payload ≡ r
          → Sound w.held w.to_ack
          → Does t.message w (decoded P Q client echo codec post sources prog name version t w r)
      decoded-Does w (ok event) parsed sound = hold_run-Does event w _ parsed refl sound
      decoded-Does w (err e) parsed sound = bury-Does (bad_json e) _ _ none _ sound

      pub on_message-Does :
          (w : Flow P Q S)
          → Sound w.held w.to_ack
          → Does t.message w (on_message P Q client echo codec post sources prog name version t w)
      unfolding on_message
      on_message-Does w sound = decoded-Does w (codec.from_slice t.message.payload) refl sound
