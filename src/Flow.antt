-- ===== src/Flow.antt =====
-- A flow's round (core/src/main.rs, `supervise_vjs`): the messages of a pull are run one by one,
-- what they emit is held, and one barrier for the round stands before their acks.
pub mod State
pub mod Keeps
pub mod Messages
pub mod Turns
pub mod Asked
pub mod Settled
pub mod Poison
use vejas.Base.{
  ℕ, ◌+◌, ◌%◌, ◌^◌, String, Bool, true, false, Option, none, some, List, [], ◌∷◌, ◌++◌, ◌⊎◌, map,
  length, leb, str_eq, unwrap_or, if◌then◌else◌, ℤ, pos, negsuc,
}
use vejas.Exec.{Result, ok, err}
use vejas.Vjs.Value.{Platform, Json}
use vejas.Vjs.Ast.{Program}
use vejas.Vjs.Failure.{Failure}
use vejas.Vjs.Engine.{Engine, Sources, invalidate}
use vejas.Vjs.Eval.{Ctx}
use vejas.Vjs.Run.{run}
use vejas.Metrics.{
  Seconds, Observation, observed, fetched, dead_letter, Units, observe_unit, round as round_took,
}
use vejas.Versions.{capped}
use vejas.Bus.{Bytes, Publish, NatsClient, Link, Refusal, hold, confirm, Message, ack, nak, ack_all}
use vejas.Bus.AckSubject.{delivery, delivered_or_one}
use vejas.Bus.Pull.{Fault, Round, round}
use vejas.Flow.State.{
  FlowError, bad_json, run_failed, refused, TraceError, failed, dead_lettered, dead_lettered_after,
  dlq_failed, Trace, Traces, record_trace_full, Span, ProcState, Codec, Turn, Flow, max_deliveries,
  at_least, Turned, goes_on, stops, fails,
}
use vejas.Dlq.{Letter, letter_of, Desk, Post, to_dlq}

module _ (P : Platform) (Q : Seconds) {S : Type 0} (client : NatsClient S) (echo : String) where
  abbrev pub linked : (Link S → Result String (Unit {0}) × Link S) → Flow P Q S → Flow P Q S
  linked f w = record w { desk = record w.desk { link = (f w.desk.link).1 } }

  abbrev pub at_unit : String → Observation Q.Time → Flow P Q S → Flow P Q S
  at_unit name e w = record w { units = observe_unit Q name e w.units }

  abbrev pub traced : Trace P.Number (Json P) → Flow P Q S → Flow P Q S
  traced t w = record w { traces = record_trace_full t w.traces }

  abbrev pub spanned : Span P.Number → Flow P Q S → Flow P Q S
  spanned s w = record w { spans = s ∷ w.spans }

  abbrev pub payload_of : Codec (Json P) → Json P → Bytes
  payload_of codec v = unwrap_or (codec.to_vec v) []

  abbrev pub then_hold :
      (List Publish → Result (FlowError P.Number) (Unit {0}) × List Publish)
      → String
      → List Publish
      → Result Refusal (List Publish)
      → Result (FlowError P.Number) (Unit {0}) × List Publish
  then_hold rest subject held (ok more) = rest more
  then_hold rest subject held (err e) = (err (refused subject e), held)

  -- The emits are held up to the first that is refused.
  unfoldable pub hold_emits :
      Codec (Json P)
      → Link S
      → List (String × Json P)
      → List Publish
      → Result (FlowError P.Number) (Unit {0}) × List Publish
  hold_emits codec l [] held = (ok tt, held)
  hold_emits codec l ((subject, v) ∷ es) held =
      then_hold (hold_emits codec l es) subject held
        (hold client echo subject (payload_of codec v) held l)

  abbrev pub held_for :
      Ctx P.Number
      → Flow P Q S
      → Result (FlowError P.Number) (Unit {0}) × List Publish
      → Result (FlowError P.Number) (Ctx P.Number) × Flow P Q S
  held_for c w (ok u, held) = (ok c, record w { held = held })
  held_for c w (err e, held) = (err e, record w { held = held })

  abbrev pub hold_run :
      Codec (Json P)
      → Flow P Q S
      → Result (Failure P.Number) (Ctx P.Number) × Engine P.Number
      → Result (FlowError P.Number) (Ctx P.Number) × Flow P Q S
  hold_run codec w (ok c, g) =
      held_for c (record w { engine = g }) (hold_emits codec w.desk.link c.emits w.held)
  hold_run codec w (err e, g) = (err (run_failed e), record w { engine = g })

  abbrev pub first_of : String × Json P → String
  first_of (subject, v) = subject

  module _ (codec : Codec (Json P)) (post : Post (FlowError P.Number)) (sources : Sources P.Number)
      (prog : Program P.Number) (name version : String) where
    abbrev pub trace_of :
        Turn Q.Time
        → Option (TraceError P.Number)
        → List String
        → String
        → Option (Json P)
        → Trace P.Number (Json P)
    trace_of t error emits preview event = record {
      seq = 0;
      ts = t.ts;
      flow = name;
      subject = t.message.subject;
      error = error;
      emits = emits;
      preview = preview;
      event = event;
    }

    abbrev pub span_of : Turn Q.Time → Option (FlowError P.Number) → ℕ → Span P.Number
    span_of t error n = record {
      unit = name;
      subject = t.message.subject;
      error = error;
      start_nanos = t.start_nanos;
      end_nanos = t.end_nanos;
      emits = n;
    }

    abbrev pub succeeded : Turn Q.Time → Json P → Ctx P.Number → Flow P Q S → Flow P Q S
    succeeded t event c w =
        let u = at_unit name (observed true (length c.emits) t.elapsed) w in
        let v = spanned (span_of t none (length c.emits)) u in
        let x = traced (trace_of t none (map first_of c.emits) "" (some event)) v in
        record x { to_ack = x.to_ack ++ (t.message ∷ []) }

    -- What the answer of `to_dlq` leads to: the ack, or a nak.
    abbrev pub after_letter :
        Turn Q.Time
        → TraceError P.Number
        → (String → TraceError P.Number)
        → String
        → Option (Json P)
        → Flow P Q S
        → Result String (Unit {0}) × Desk S
        → Flow P Q S
    after_letter t stored lost preview event w (ok u, d) =
        let x = at_unit name dead_letter (record w { desk = d }) in
        linked (ack client t.message) (traced (trace_of t (some stored) [] preview event) x)
    after_letter t stored lost preview event w (err e, d) =
        linked (nak client t.message)
          (traced (trace_of t (some (lost e)) [] preview event) (record w { desk = d }))

    abbrev pub attempts : Turn Q.Time → ℤ
    attempts t = delivered_or_one (delivery t.message)

    unfoldable pub bury :
        Turn Q.Time
        → FlowError P.Number
        → TraceError P.Number
        → String
        → Option (Json P)
        → Flow P Q S
        → Flow P Q S
    bury t e stored preview event w =
        let letter =
          letter_of t.dead_at name t.message.subject (attempts t) e t.message.payload version in
        after_letter t stored (dlq_failed e) preview event w
          (to_dlq client post t.announced_at t.spawned letter w.desk)

    -- A payload that is not JSON is dead-lettered at once.
    abbrev pub not_json : Turn Q.Time → String → Flow P Q S → Flow P Q S
    not_json t e w =
        bury t (bad_json e) (dead_lettered (bad_json e)) (codec.preview t.message.payload) none
          (at_unit name (observed false 0 Q.zero) w)

    -- A failed run is tried again, up to the deliveries that are allowed.
    unfoldable pub run_fails : Turn Q.Time → Json P → FlowError P.Number → Flow P Q S → Flow P Q S
    unfolding max_deliveries at_least bury
    run_fails t event e w =
        let u = at_unit name (observed false 0 t.elapsed) w in
        let v = spanned (span_of t (some e) 0) u in
        let x =
          if at_least (attempts t) max_deliveries
          then bury t e (dead_lettered_after e (attempts t)) "" (some event) v
          else traced (trace_of t (some (failed e)) [] "" (some event)) v in
        record x { state = record x.state { last_error = some e } }

    abbrev pub ended :
        Turn Q.Time → Json P → Result (FlowError P.Number) (Ctx P.Number) × Flow P Q S → Flow P Q S
    ended t event (ok c, w) = succeeded t event c w
    ended t event (err e, w) = run_fails t event e w

    abbrev pub decoded : Turn Q.Time → Flow P Q S → Result String (Json P) → Flow P Q S
    decoded t w (ok event) = ended t event (hold_run codec w (run P sources prog event w.engine))
    decoded t w (err e) = not_json t e w

    -- The body of the loop over a round's messages.
    unfoldable pub on_message : Turn Q.Time → Flow P Q S → Flow P Q S
    unfolding run_fails bury hold_emits record_trace_full
    on_message t w = decoded t w (codec.from_slice t.message.payload)

    -- The loop: it ends early where the flow is to stop.
    unfoldable pub on_messages : List (Turn Q.Time) → Flow P Q S → Bool × Flow P Q S
    on_messages [] w = (true, w)
    on_messages (t ∷ ts) w =
        let rest = on_messages ts (on_message t w) in if t.running then rest else (false, w)

    abbrev pub acked : Result String (Unit {0}) × (List Publish × Link S) → Flow P Q S → Flow P Q S
    acked (ok u, (held, l)) w = record w {
      desk = record w.desk { link = (ack_all client w.to_ack l).1 };
      held = held;
    }
    acked (err e, (held, l)) w = record w { desk = record w.desk { link = l }; held = held }

    -- The barrier of the round, and the acks behind it; `secs` is what the round took.
    unfoldable pub settle_round : ℕ → Q.Time × Q.Time × Q.Time → Flow P Q S → Flow P Q S
    settle_round n secs w =
        let u = at_unit name (fetched n) w in
        at_unit name (round_took secs.0 secs.1 secs.2)
          (acked (confirm client echo u.held u.desk.link) u)

    abbrev pub worked : ℕ → Q.Time × Q.Time × Q.Time → Bool × Flow P Q S → Turned × Flow P Q S
    worked n secs (true, w) = (goes_on, settle_round n secs w)
    worked n secs (false, w) = (stops, w)

    abbrev pub pulled_round :
        List (Turn Q.Time)
        → Q.Time × Q.Time × Q.Time
        → Flow P Q S
        → Result (String ⊎ Fault) Round × Link S
        → Turned × Flow P Q S
    pulled_round ts secs w (ok r, l) =
        worked (length ts) secs (on_messages ts (record w { desk = record w.desk { link = l } }))
    pulled_round ts secs w (err e, l) = (fails e, record w { desk = record w.desk { link = l } })

    -- A round of the loop: the next pull leaves before this round's messages are worked on. `fault`
    -- is what the pulls before left.
    unfoldable pub flow_round :
        String
        → String
        → Option Fault
        → Bool
        → List (Turn Q.Time)
        → Q.Time × Q.Time × Q.Time
        → Flow P Q S
        → Turned × Flow P Q S
    unfolding on_messages settle_round
    flow_round next inbox fault running ts secs w =
        if running
        then pulled_round ts secs (record w { engine = invalidate w.engine; to_ack = [] })
            (round client next inbox fault [] w.desk.link)
        else (stops, w)
