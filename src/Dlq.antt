-- ===== src/Dlq.antt =====
-- The dead-letter queue (core/src/connectors.rs, `to_dlq` and the dead-letter events): a message that
-- keeps failing is stored in a stream of its own, and its death is announced, at most once in a
-- while for each unit.
pub mod Counted
pub mod Steps
use Prim.Native.Char.{code}
use Prim.Native.String.{◌++◌}
use vejas.Base.{
  ℕ, ◌+◌, ◌-◌, ◌%◌, ◌^◌, String, Bool, true, false, not, ◌&&◌, ◌||◌, Option, none, some, List, [],
  ◌∷◌, ltb, leb, str_eq, if◌then◌else◌, ◌==◌, ℤ,
}
use vejas.Exec.{Result, ok, err}
use vejas.Bus.{Bytes, Publish, NatsClient, Link}

-- Dead letters of a unit that are not announced yet, and the coordinates of the last one.
pub record DlqAnnouncement : Type 0 where
  pub last_sent : ℕ
  pub count : ℕ
  pub subject : String
  pub attempts : ℤ
  pub version : String

-- The event that stands for `count` dead letters of a unit.
pub record DlqEvent : Type 0 where
  pub ts : ℕ
  pub unit : String
  pub subject : String
  pub attempts : ℤ
  pub version : String
  pub count : ℕ

-- The map of the units' announcements, in the order in which it is iterated.
abbrev pub Pending : Type 0
Pending = List (String × DlqAnnouncement)

unfoldable pub is_due : ℕ → ℕ → DlqAnnouncement → Bool
is_due now gap a = ltb 0 a.count && leb gap (now - a.last_sent)

unfoldable pub event_of : ℕ → String → DlqAnnouncement → DlqEvent
event_of now unit a = record {
  ts = now;
  unit = unit;
  subject = a.subject;
  attempts = a.attempts;
  version = a.version;
  count = a.count;
}

unfoldable pub take_due_dlq_events : ℕ → ℕ → Pending → List DlqEvent × Pending
unfolding is_due event_of
take_due_dlq_events now gap [] = ([], [])
take_due_dlq_events now gap ((unit, a) ∷ pending) =
    let (events, rest) = take_due_dlq_events now gap pending in
    if is_due now gap a
    then (event_of now unit a ∷ events, (unit, record a { last_sent = now; count = 0 }) ∷ rest)
    else (events, (unit, a) ∷ rest)

-- A dead letter: what the unit's announcement is set to, and the letter is counted.
unfoldable pub counted : String → ℤ → String → DlqAnnouncement → DlqAnnouncement
counted subject attempts version a = record {
  last_sent = a.last_sent;
  count = (a.count + 1) % 2 ^ 64;
  subject = subject;
  attempts = attempts;
  version = version;
}

-- `DlqAnnouncement::default()`
abbrev pub no_letters : DlqAnnouncement
no_letters = record { last_sent = 0; count = 0; subject = ""; attempts = ℤ.pos 0; version = "" }

-- `pending.entry(unit).or_default()` and what is done to it
unfoldable pub count_letter : String → String → ℤ → String → Pending → Pending
unfolding counted
count_letter unit subject attempts version [] =
    (unit, counted subject attempts version no_letters) ∷ []
count_letter unit subject attempts version ((name, a) ∷ pending) =
    let rest = count_letter unit subject attempts version pending in
    if str_eq name unit
    then (name, counted subject attempts version a) ∷ pending
    else (name, a) ∷ rest

-- The events of a dead letter at a time; a letter of a reader of the events has none.
unfoldable pub announced :
    String → ℕ → String → String → ℤ → String → ℕ → Pending → List DlqEvent × Pending
unfolding take_due_dlq_events count_letter
announced events_subject gap unit subject attempts version now pending =
    if str_eq subject events_subject
    then ([], pending)
    else take_due_dlq_events now gap (count_letter unit subject attempts version pending)

-- `dlq_unit_token`
unfoldable pub is_token_char : ℕ → Bool
is_token_char c =
    (leb 48 c && leb c 57) || (leb 65 c && leb c 90) || (leb 97 c && leb c 122) || (c == 95)

unfoldable pub dlq_unit_token : String → String
unfolding is_token_char
dlq_unit_token String.[] = ""
dlq_unit_token (String.◌∷◌ c s) =
    let rest = dlq_unit_token s in if is_token_char (code c) then String.◌∷◌ c rest else "_" ++ rest

unfoldable pub dlq_subject : String → String
unfolding dlq_unit_token
dlq_subject unit = "vxdlq." ++ dlq_unit_token unit

-- A death envelope, whose text serde_json makes; `E` is the error.
pub record Letter (E : Type 0) : Type 0 where
  pub original_subject : String
  pub unit : String
  pub attempts : ℤ
  pub first_seen : ℕ
  pub dead_at : ℕ
  pub last_error : E
  pub version : String
  pub payload : Bytes

-- The connection, what is to be announced, and whether a thread announces what a window held back.
pub record Desk (S : Type 0) : Type 0 where
  pub link : Link S
  pub pending : Pending
  pub flushing : Bool

-- How the death is told: the events' subject and gap, and serde_json on letters and events.
pub record Post (E : Type 0) : Type 0 where
  pub events_subject : String
  pub gap : ℕ
  pub letter_to_vec : Letter E → Result String Bytes
  pub event_to_vec : DlqEvent → Bytes

abbrev pub dlq_stream : String
dlq_stream = "VEJAS_DLQ"

-- The envelope that `to_dlq` makes at a time.
unfoldable pub letter_of : {E : Type 0} → ℕ → String → String → ℤ → E → Bytes → String → Letter E
letter_of now unit subject attempts last_error payload version = record {
  original_subject = subject;
  unit = unit;
  attempts = attempts;
  first_seen = now;
  dead_at = now;
  last_error = last_error;
  version = version;
  payload = payload;
}

module _ {S E : Type 0} (client : NatsClient S) (post : Post E) where
  -- `publish_dlq_event` for each: a failure is only logged.
  unfoldable pub publish_events : List DlqEvent → S → S
  publish_events [] s = s
  publish_events (e ∷ es) s =
      publish_events es (client.stream_publish (post.events_subject, post.event_to_vec e) s).1

  -- The first letter starts the thread of the windows, unless every letter is announced; `spawned`
  -- says whether a thread could be started.
  unfoldable pub starts_flusher : Bool → Bool → Bool
  starts_flusher spawned flushing = flushing || (ltb 0 post.gap && spawned)

  abbrev pub announce_to : Bool → List DlqEvent × Pending → Desk S → Desk S
  announce_to spawned (events, pending) d = record {
    link = record d.link { conn = publish_events events d.link.conn };
    pending = pending;
    flushing = starts_flusher spawned d.flushing;
  }

  -- `announce_dead_letter`, at a time that is not before the letter's
  unfoldable pub announce_dead_letter : ℕ → Bool → Letter E → Desk S → Desk S
  unfolding announced publish_events starts_flusher
  announce_dead_letter now spawned letter d =
      let told =
        announced post.events_subject post.gap letter.unit letter.original_subject letter.attempts
          letter.version now d.pending in
      if str_eq letter.original_subject post.events_subject then d else announce_to spawned told d

  -- One turn of the thread that announces what a window held back.
  unfoldable pub flush_due : ℕ → Desk S → Desk S
  unfolding take_due_dlq_events publish_events
  flush_due now d =
      let (events, pending) = take_due_dlq_events now post.gap d.pending in
      record d {
        link = record d.link { conn = publish_events events d.link.conn };
        pending = pending;
      }

  abbrev pub stored :
      ℕ → Bool → Letter E → Desk S → Result String ℕ × S → Result String (Unit {0}) × Desk S
  stored now spawned letter d (ok n, s) = (
    ok tt,
    announce_dead_letter now spawned letter (record d { link = record d.link { conn = s } }),
  )
  stored now spawned letter d (err e, s) = (err e, record d { link = record d.link { conn = s } })

  abbrev pub sent_letter :
      ℕ → Bool → Letter E → Desk S → Result String Bytes → Result String (Unit {0}) × Desk S
  sent_letter now spawned letter d (ok body) =
      stored now spawned letter d
        (client.stream_publish (dlq_subject letter.unit, body) d.link.conn)
  sent_letter now spawned letter d (err e) = (err e, d)

  -- `to_dlq`: Ok only where the letter is stored.
  unfoldable pub to_dlq : ℕ → Bool → Letter E → Desk S → Result String (Unit {0}) × Desk S
  unfolding announce_dead_letter dlq_subject
  to_dlq now spawned letter d =
      sent_letter now spawned letter
        (record d { link = record d.link { conn = client.add_stream dlq_stream d.link.conn } })
        (post.letter_to_vec letter)
