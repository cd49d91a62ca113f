-- ===== src/Flow/Poison.antt =====
-- The end of a message that keeps failing (core/src/main.rs, `supervise_vjs`, its poison guard).
use vejas.Base.{
  String, ◌≡◌, refl, sym, ◌∙◌, ap, subst, true, false, Option, none, some, List, [], ◌∷◌, ◌++◌, All,
  append-nil, if_cases, arith, ℤ,
}
use vejas.Exec.{Result, ok, err}
use vejas.Vjs.Value.{Platform, Json}
use vejas.Vjs.Ast.{Program}
use vejas.Vjs.Failure.{Failure}
use vejas.Vjs.Engine.{Engine, Sources}
use vejas.Vjs.Eval.{Ctx}
use vejas.Vjs.Run.{run}
use vejas.Metrics.{Seconds, Units, observed, dead_letter, observe_unit}
use vejas.Bus.{Bytes, Publish, NatsClient, Link, answer_to, ack, nak}
use vejas.Bus.Laws.{History, ClientLaws, Steps}
use vejas.Dlq.{letter_of, Desk, Post, to_dlq}
use vejas.Dlq.Steps.{to_dlq-Buried}
use vejas.Flow.State.{
  FlowError, bad_json, TraceError, dlq_failed, max_deliveries, at_least, Codec, Turn, Flow,
}
use vejas.Flow.{
  held_for, hold_emits, hold_run, after_letter, attempts, bury, run_fails, ended, decoded,
  on_message,
}
use vejas.Flow.Keeps.{nak_bytes}

module _ {S : Type 0} (client : NatsClient S) (history : History S)
    (laws : ClientLaws client history) where
  -- Where nothing may be asked, nothing was.
  Steps-nothing : (s t : S) → Steps client history (λ p. ⊥) s t → history.calls t ≡ history.calls s
  Steps-nothing s t h = nothing h.added h.asked h.each
    where
      nothing :
          (ps : List Publish)
          → history.calls t ≡ history.calls s ++ ps
          → All (λ p. ⊥) ps
          → history.calls t ≡ history.calls s
      nothing [] e none_asked = e ∙ append-nil (history.calls s)
      nothing (p ∷ ps) e none_asked = elim (none_asked.0) [ ]

  answer-calls :
      (reply : Option String) (r : String) (payload : Bytes) (l : Link S)
      → reply ≡ some r
      → history.calls (answer_to client reply payload l).1.conn
        ≡ history.calls l.conn ++ ((r, payload) ∷ [])
  answer-calls reply r payload l e =
      subst
        (λ q.
          history.calls (answer_to client q payload l).1.conn
          ≡ history.calls l.conn ++ ((r, payload) ∷ []))
        (sym e) (laws.publish-calls (r, payload) l.conn)

-- What a dead letter's message is told: that it is done with, or to come again.
abbrev pub verdict : Result String (Unit {0}) → Bytes
verdict (ok u) = []
verdict (err e) = nak_bytes

-- The calls that observe a unit when its letter is stored.
abbrev pub counted_dead : (Q : Seconds) → String → Result String (Unit {0}) → Units Q → Units Q
counted_dead Q name (ok u) units = observe_unit Q name dead_letter units
counted_dead Q name (err e) units = units

module _ (P : Platform) (Q : Seconds) {S : Type 0} (client : NatsClient S) (echo : String)
    (codec : Codec (Json P)) (post : Post (FlowError P.Number)) (sources : Sources P.Number)
    (prog : Program P.Number) (history : History S) (laws : ClientLaws client history)
    (name version : String) (t : Turn Q.Time) where
  abbrev tries : ℤ
  tries = attempts P Q client echo codec post sources prog name version t

  -- The answer of the dead-letter queue to this message, dead of an error.
  abbrev pub stored_letter : FlowError P.Number → Desk S → Result String (Unit {0}) × Desk S
  stored_letter e d =
      to_dlq client post t.announced_at t.spawned
        (letter_of t.dead_at name t.message.subject tries e t.message.payload version) d

  -- From `w` to `x` the message is told the verdict of that answer, and the unit counts a failure and,
  -- where the letter is stored, a dead letter.
  pub record Buries (e : FlowError P.Number) (r : String) (secs : Q.Time) (w x : Flow P Q S)
      : Type 0 where
    pub told :
        history.calls x.desk.link.conn
        ≡ history.calls w.desk.link.conn ++ ((r, verdict (stored_letter e w.desk).0) ∷ [])
    pub units :
        x.units
        ≡ counted_dead Q name
            (stored_letter e w.desk).0
            (observe_unit Q name (observed false 0 secs) w.units)
    pub held : x.to_ack ≡ w.to_ack

  after_letter-told :
      (stored : TraceError P.Number) (lost : String → TraceError P.Number) (preview : String)
      (event : Option (Json P)) (w : Flow P Q S) (a : Result String (Unit {0}) × Desk S)
      (r : String)
      → t.message.reply ≡ some r
      → history.calls a.1.link.conn ≡ history.calls w.desk.link.conn
      → (let x =
            after_letter P Q client echo codec post sources prog name version t stored lost preview
              event w a in
          (history.calls x.desk.link.conn
            ≡ history.calls w.desk.link.conn ++ ((r, verdict a.0) ∷ []))
          × (x.units ≡ counted_dead Q name a.0 w.units)
          × (x.to_ack ≡ w.to_ack))
  unfolding ack nak
  after_letter-told stored lost preview event w (ok u, d) r e h = (
    answer-calls client history laws t.message.reply r [] d.link e
        ∙ ap (λ ps. ps ++ ((r, []) ∷ [])) h,
    refl,
    refl,
  )
  after_letter-told stored lost preview event w (err f, d) r e h = (
    answer-calls client history laws t.message.reply r nak_bytes d.link e
        ∙ ap (λ ps. ps ++ ((r, nak_bytes) ∷ [])) h,
    refl,
    refl,
  )

  bury-told :
      (e : FlowError P.Number) (stored : TraceError P.Number) (preview : String)
      (event : Option (Json P)) (w : Flow P Q S) (r : String)
      → t.message.reply ≡ some r
      → (let x =
            bury P Q client echo codec post sources prog name version t e stored preview event w in
          (history.calls x.desk.link.conn
            ≡ history.calls w.desk.link.conn ++ ((r, verdict (stored_letter e w.desk).0) ∷ []))
          × (x.units ≡ counted_dead Q name (stored_letter e w.desk).0 w.units)
          × (x.to_ack ≡ w.to_ack))
  unfolding bury
  bury-told e stored preview event w r same =
      after_letter-told stored (dlq_failed e) preview event w (stored_letter e w.desk) r same (
        Steps-nothing client history laws _ _
          (to_dlq-Buried client post history laws (λ p. ⊥) t.announced_at t.spawned _ w.desk).steps)

  run_fails-Buries :
      (event : Json P) (e : FlowError P.Number) (w : Flow P Q S) (r : String)
      → at_least tries max_deliveries ≡ true
      → t.message.reply ≡ some r
      → Buries e r t.elapsed w
          (run_fails P Q client echo codec post sources prog name version t event e w)
  unfolding run_fails
  run_fails-Buries event e w r last same =
      if_cases
        (λ x. Buries e r t.elapsed w (record x { state = record x.state { last_error = some e } }))
        (at_least tries max_deliveries)
        (λ h.
          let (told, units, held) = bury-told e _ "" (some event) _ r same in
          record { told = told; units = units; held = held })
        (λ h. ground (arith, h, last))

  -- Which of the thread's state `Buries` is about.
  record Same (w v : Flow P Q S) : Type 0 where
    desk : w.desk ≡ v.desk
    units : w.units ≡ v.units
    acks : w.to_ack ≡ v.to_ack

  Buries-Same :
      (e : FlowError P.Number) (r : String) (secs : Q.Time) (w v x : Flow P Q S)
      → Same w v
      → Buries e r secs w x
      → Buries e r secs v x
  Buries-Same e r secs w v x s b = record {
    told =
        subst
          (λ (d : Desk S).
            history.calls x.desk.link.conn
            ≡ history.calls d.link.conn ++ ((r, verdict (stored_letter e d).0) ∷ []))
          s.desk b.told;
    units =
        b.units
        ∙ ap
            (λ (d : Desk S).
              counted_dead Q name (stored_letter e d).0
                (observe_unit Q name (observed false 0 secs) w.units))
            s.desk
        ∙ ap
            (λ u.
              counted_dead Q name (stored_letter e v.desk).0
                (observe_unit Q name (observed false 0 secs) u))
            s.units;
    held = b.held ∙ s.acks;
  }

  held_for-Same :
      (c : Ctx P.Number) (w v : Flow P Q S)
      (r : Result (FlowError P.Number) (Unit {0}) × List Publish)
      → Same w v
      → Same (held_for P Q client echo c w r).1 v
  held_for-Same c w v (ok u, held) s = record { desk = s.desk; units = s.units; acks = s.acks }
  held_for-Same c w v (err e, held) s = record { desk = s.desk; units = s.units; acks = s.acks }

  hold_run-Same :
      (w : Flow P Q S) (r : Result (Failure P.Number) (Ctx P.Number) × Engine P.Number)
      → Same (hold_run P Q client echo codec w r).1 w
  hold_run-Same w (err e, g) = record { desk = refl; units = refl; acks = refl }
  hold_run-Same w (ok c, g) =
      held_for-Same c (record w { engine = g }) w
        (hold_emits P Q client echo codec w.desk.link c.emits w.held)
        (record { desk = refl; units = refl; acks = refl })

  -- A message that is not worth another delivery, of which error, and the time that is observed: it
  -- is not JSON, or its run fails, or an emit is refused, at a delivery that is the last allowed.
  pub data Poisonous (w : Flow P Q S) : FlowError P.Number → Q.Time → Type 0 where
    garbled :
        (f : String) → codec.from_slice t.message.payload ≡ err f → Poisonous w (bad_json f) Q.zero
    worn_out :
        (event : Json P)
        → codec.from_slice t.message.payload ≡ ok event
        → (e : FlowError P.Number) → (v : Flow P Q S)
        → hold_run P Q client echo codec w (run P sources prog event w.engine) ≡ (err e, v)
        → at_least tries max_deliveries ≡ true
        → Poisonous w e t.elapsed

  -- A message that is not worth another delivery is answered at once, by one core publish: it is
  -- acked if its letter is stored and naked if not; the unit counts a failure and, if the letter is
  -- stored, a dead letter; and the message is not among those to ack behind the barrier.
  pub on_message-Buries :
      (w : Flow P Q S) (e : FlowError P.Number) (secs : Q.Time) (r : String)
      → Poisonous w e secs
      → t.message.reply ≡ some r
      → Buries e r secs w (on_message P Q client echo codec post sources prog name version t w)
  unfolding on_message
  on_message-Buries w e secs r (garbled f bad) same =
      subst
        (λ o.
          Buries (bad_json f) r Q.zero w
            (decoded P Q client echo codec post sources prog name version t w o))
        (sym bad)
        (let (told, units, held) = bury-told (bad_json f) _ _ none _ r same in
          record { told = told; units = units; held = held })
  on_message-Buries w e secs r (worn_out event parsed e' v fails last) same =
      let after =
        Buries-Same e r t.elapsed v w _
          (subst (λ (x : Result (FlowError P.Number) (Ctx P.Number) × Flow P Q S). Same x.1 w) fails
            (hold_run-Same w (run P sources prog event w.engine)))
          (run_fails-Buries event e v r last same) in
      subst
        (λ o.
          Buries e r t.elapsed w
            (decoded P Q client echo codec post sources prog name version t w o))
        (sym parsed)
        (subst
          (λ o.
            Buries e r t.elapsed w
              (ended P Q client echo codec post sources prog name version t event o))
          (sym fails) after)
