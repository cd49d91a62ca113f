-- ===== src/Tests/Rounds.antt =====
-- A round of a flow with a message that runs and one that is not JSON, and the letters it leaves.
use vejas.Base.{ℕ, ◌+◌, String, ◌≡◌, refl, true, false, none, some, List, [], ◌∷◌, arith, pos}
use vejas.Exec.{◌>>=◌, Result, ok, err}
use vejas.Vjs.Value.{get, Value, string, number}
use vejas.Vjs.Ast.{Program, lit, var, emit, end_block, stmt}
use vejas.Vjs.Engine.{live, invalidate, with_secrets}
use vejas.Vjs.Text.{valid_subject, any_char, is_control, is_whitespace}
use vejas.Vjs.Eval.{eval, append_emits, read_var, set_vars}
use vejas.Vjs.Run.{run, run_service, exec_block, emit_subject, finished, run_ctx}
use vejas.Bus.{
  hold, confirm, send_all, barrier_since, barrier, be_bytes, without, ack_all, ack, breaks_subject,
  Bytes,
}
use vejas.Bus.Pull.{round}
use vejas.Bus.AckSubject.{strip_prefix, delivery, parse_ack_subject}
use vejas.Dlq.{
  to_dlq, announce_dead_letter, announced, count_letter, counted, letter_of, publish_events,
  starts_flusher, dlq_subject, dlq_unit_token, is_token_char, Post, Pending, take_due_dlq_events,
  is_due, event_of,
}
use vejas.Dlq.Counted.{
  Moment, died, turn, waiting, told, happen, letters, happen-letters, take_due-all,
}
use vejas.Flow.State.{FlowError, bad_json, Codec, Turn, Flow}
use vejas.Flow.{on_messages, settle_round, hold_emits, bury, flow_round, on_message}
use vejas.Flow.Settled.{AsksAllowed, flow_round-Allowed}
use vejas.Flow.Poison.{Buries, garbled, on_message-Buries}
use vejas.Tests.Toy.{insert_entry, toy}
use vejas.Tests.Script.{program, live_engine, sources}
use vejas.Tests.Gauges.{ticks}
use vejas.Tests.Wire.{Net, net, past, net-ClientLaws, quiet}

-- A payload of no bytes is not JSON, and any other is its first byte.
abbrev codec : Codec (Value ℕ)
codec = record { from_slice = λ b. number_of b; to_vec = λ v. some (1 ∷ []); preview = λ b. "" }
  where
    number_of : Bytes → Result String (Value ℕ)
    number_of [] = err "no value"
    number_of (n ∷ b) = ok (number n)

abbrev post : Post (FlowError ℕ)
post = record {
  events_subject = "vx.dlq.events";
  gap = 60;
  letter_to_vec = λ letter. ok letter.payload;
  event_to_vec = λ e. e.count ∷ [];
}

-- emit "vx.out", event
abbrev forward : Program ℕ
forward = program (stmt (emit (lit (string "vx.out")) (var "event")) end_block) []

abbrev turn_of : Bytes → Turn ℕ
turn_of payload = record {
  message = record { subject = "vx.in"; payload = payload; reply = some "$JS.ACK.S.c.3.17.4.99.0" };
  running = true;
  start_nanos = 1;
  end_nanos = 2;
  elapsed = 3;
  ts = 4;
  dead_at = 100;
  announced_at = 100;
  spawned = true;
}

abbrev idle : Flow toy ticks Net
idle = record {
  desk = record { link = quiet; pending = []; flushing = false };
  engine = live_engine;
  held = [];
  to_ack = [];
  units = λ name. none;
  traces = record { next_seq = 0; rings = λ name. [] };
  spans = [];
  state = record { status = "running"; restarts = 0; started_at = none; last_error = none };
}

abbrev turns : List (Turn ℕ)
turns = turn_of (7 ∷ []) ∷ turn_of [] ∷ []

-- The letter of the second message is stored and it is acked; the emit of the first is read before
-- its ack.
turns-round :
    (flow_round toy ticks net "_INBOX.1" codec post sources forward "flow:out" "v1" "next"
      "_INBOX.2" none true turns
      (1, 2, 3)
      idle).1.desk.link.conn
    ≡ record {
      handed =
          ("$JS.ACK.S.c.3.17.4.99.0", [])
          ∷ ("vx.out", 1 ∷ [])
          ∷ ("_INBOX.1", 0 ∷ 0 ∷ 0 ∷ 0 ∷ 0 ∷ 0 ∷ 0 ∷ 7 ∷ [])
          ∷ ("$JS.ACK.S.c.3.17.4.99.0", [])
          ∷ [];
      kept = ("vxdlq.flow_out", []) ∷ ("vx.dlq.events", 1 ∷ []) ∷ [];
    }
unfolding flow_round on_messages on_message settle_round hold_emits hold bury letter_of to_dlq
    announce_dead_letter announced count_letter counted take_due_dlq_events is_due event_of
    publish_events starts_flusher dlq_subject dlq_unit_token is_token_char round confirm send_all
    barrier_since barrier be_bytes without ack_all ack run run_service live exec_block eval
    valid_subject insert_entry get emit_subject append_emits ◌>>=◌ finished run_ctx any_char
    is_control is_whitespace breaks_subject read_var with_secrets invalidate set_vars delivery
    parse_ack_subject strip_prefix
turns-round = refl

flow_round-Allowed_example :
    AsksAllowed toy ticks net "_INBOX.1" codec post sources forward past net-ClientLaws "flow:out"
      "v1" turns idle
      (flow_round toy ticks net "_INBOX.1" codec post sources forward "flow:out" "v1" "next"
        "_INBOX.2" none true turns
        (1, 2, 3)
        idle)
flow_round-Allowed_example =
    flow_round-Allowed toy ticks net "_INBOX.1" codec post sources forward past net-ClientLaws
      "flow:out" "v1" "next" "_INBOX.2" none true turns (1, 2, 3) idle refl

on_message-Buries_example :
    Buries toy ticks net "_INBOX.1" codec post sources forward past net-ClientLaws "flow:out" "v1"
      (turn_of [])
      (bad_json "no value")
      "$JS.ACK.S.c.3.17.4.99.0"
      0
      idle
      (on_message toy ticks net "_INBOX.1" codec post sources forward "flow:out" "v1"
        (turn_of [])
        idle)
on_message-Buries_example =
    on_message-Buries toy ticks net "_INBOX.1" codec post sources forward past net-ClientLaws
      "flow:out" "v1" (turn_of []) idle (bad_json "no value") 0 "$JS.ACK.S.c.3.17.4.99.0"
      (garbled "no value" refl) refl

-- Two letters of a unit in one window, and a turn behind it.
abbrev moments : List Moment
moments =
    died "flow:out" "vx.in" (pos 5) "v1" 100
    ∷ died "flow:out" "vx.in" (pos 5) "v1" 110
    ∷ died "flow:out" "vx.dlq.events" (pos 5) "v1" 115
    ∷ died "flow:in" "vx.b" (pos 5) "v1" 120
    ∷ turn 130
    ∷ []

happen-letters_example :
    told (happen "vx.dlq.events" 60 moments []).0 + waiting (happen "vx.dlq.events" 60 moments []).1
    ≡ letters "vx.dlq.events" 60 moments
happen-letters_example = happen-letters "vx.dlq.events" 60 moments (omega arith)

abbrev held_back : Pending
held_back =
    (
      "flow:out",
      record { last_sent = 100; count = 2; subject = "vx.in"; attempts = pos 5; version = "v1" },
    )
    ∷ []

take_due-all_example :
    (told (take_due_dlq_events 160 60 held_back).0 ≡ waiting held_back)
    × (waiting (take_due_dlq_events 160 60 held_back).1 ≡ 0)
take_due-all_example = take_due-all 160 60 held_back (omega arith, tt)
