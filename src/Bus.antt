-- ===== src/Bus.antt =====
-- The bus client (core/src/bus.rs): one connection, the barrier that proves that the server has read
-- what was sent on it, and batches of publishes that are held until they are confirmed. The NATS
-- client is the record `NatsClient`; `S` is its state, which other threads of the process share.
pub mod Pull
pub mod AckSubject
pub mod Laws
pub mod Confirm
pub mod Rounds
use Prim.Native.Char.{code}
use vejas.Base.{
  ℕ, zero, suc, ◌+◌, ◌/◌, ◌%◌, ◌^◌, String, Bool, true, false, ◌||◌, not, Option, none, some, List,
  [], ◌∷◌, ◌++◌, length, ltb, if◌then◌else◌, ◌==◌, str_eq,
}
use vejas.Exec.{Result, ok, err}
use vejas.Vjs.Text.{any_char}

abbrev pub Bytes : Type 0
Bytes = List ℕ

-- A publish: the subject and the payload.
abbrev pub Publish : Type 0
Publish = String × Bytes

-- How the wait for an echo ends.
pub data Heard : Type 0 where
  answered dropped timed_out : Heard

-- `async_nats::Client`, the wait for an echo, `jetstream::Context::publish` and `create_stream`.
-- `connects` counts the connections that were made.
pub record NatsClient (S : Type 0) : Type 0 where
  pub connected : S → Bool
  pub connects : S → ℕ
  pub max_payload : S → ℕ
  pub publish : Publish → S → Result String (Unit {0}) × S
  pub publish_with_reply : String → String → S → Result String (Unit {0}) × S
  pub wait_echo : ℕ → S → Heard × S
  pub stream_publish : Publish → S → Result String ℕ × S
  pub add_stream : String → S → S

-- A link: the client's state, the number of the next barrier, and the barriers that are waited for.
pub record Link (S : Type 0) : Type 0 where
  pub conn : S
  pub next_id : ℕ
  pub waiting : List ℕ

-- Why a batch does not hold a publish.
pub data Refusal : Type 0 where
  bad_subject : String → Refusal
  over_limit : ℕ → ℕ → Refusal

-- `u64::to_be_bytes`
unfoldable pub be_bytes : ℕ → ℕ → Bytes
be_bytes zero n = []
be_bytes (suc k) n = (n / 256 ^ k % 256) ∷ be_bytes k n

unfoldable pub without : ℕ → List ℕ → List ℕ
without id [] = []
without id (j ∷ js) = let rest = without id js in if j == id then rest else j ∷ rest

-- What no subject may hold.
unfoldable pub breaks_subject : ℕ → Bool
breaks_subject c = (c == 32) || (c == 9) || (c == 13) || (c == 10)

module _ {S : Type 0} (client : NatsClient S) (echo : String) where
  abbrev pub up : Link S → Bool
  up l = client.connected l.conn

  abbrev pub epoch : Link S → ℕ
  epoch l = client.connects l.conn

  -- The task that reads the echoes takes the waiter out of the map, and a failure does it here.
  abbrev pub heard_by : ℕ → Link S → Heard × S → Result String (Unit {0}) × Link S
  heard_by id l (answered, s) = (ok tt, record l { conn = s; waiting = without id l.waiting })
  heard_by id l (dropped, s) =
      (err "the barrier was dropped", record l { conn = s; waiting = without id l.waiting })
  heard_by id l (timed_out, s) = (
    err "timed out waiting for the server",
    record l { conn = s; waiting = without id l.waiting },
  )

  abbrev pub asked : ℕ → Link S → Result String (Unit {0}) × S → Result String (Unit {0}) × Link S
  asked id l (ok u, s) = heard_by id l (client.wait_echo id s)
  asked id l (err e, s) = (err e, record l { conn = s; waiting = without id l.waiting })

  abbrev pub entered : Link S → Link S
  entered l = record l { next_id = (l.next_id + 1) % 2 ^ 64; waiting = l.next_id ∷ l.waiting }

  unfoldable pub barrier : Link S → Result String (Unit {0}) × Link S
  barrier l = asked l.next_id (entered l) (client.publish (echo, be_bytes 8 l.next_id) l.conn)

  abbrev pub since : ℕ → Result String (Unit {0}) × Link S → Result String (Unit {0}) × Link S
  since e (ok u, l) =
      if epoch l == e then (ok tt, l) else (err "the connection was replaced during the batch", l)
  since e (err f, l) = (err f, l)

  unfoldable pub barrier_since : ℕ → Link S → Result String (Unit {0}) × Link S
  barrier_since e l = since e (barrier l)

  -- What a send leaves to do: the rest, or nothing behind an error.
  abbrev pub then_send :
      (Link S → Result String (Unit {0}) × Link S)
      → Link S
      → Result String (Unit {0}) × S
      → Result String (Unit {0}) × Link S
  then_send rest l (ok u, s) = rest (record l { conn = s })
  then_send rest l (err e, s) = (err e, record l { conn = s })

  unfoldable pub send_all : List Publish → Link S → Result String (Unit {0}) × Link S
  send_all [] l = (ok tt, l)
  send_all (p ∷ ps) l = then_send (send_all ps) l (client.publish p l.conn)

  abbrev pub then_barrier :
      ℕ → Result String (Unit {0}) × Link S → Result String (Unit {0}) × Link S
  then_barrier e (ok u, l) = barrier_since e l
  then_barrier e (err f, l) = (err f, l)

  abbrev pub confirm_up : Bool → List Publish → Link S → Result String (Unit {0}) × Link S
  confirm_up true held l = then_barrier (epoch l) (send_all held l)
  confirm_up false held l = (err "the connection is down", l)

  -- `Batch::confirm`: the batch is empty afterwards, either way.
  unfoldable pub confirm :
      List Publish → Link S → Result String (Unit {0}) × (List Publish × Link S)
  confirm [] l = (ok tt, ([], l))
  confirm (p ∷ ps) l = let (r, l') = confirm_up (up l) (p ∷ ps) l in (r, ([], l'))

  -- `Batch::publish`
  unfoldable pub hold : String → Bytes → List Publish → Link S → Result Refusal (List Publish)
  hold subject payload held l =
      let limit = client.max_payload l.conn in
      if str_eq subject "" || any_char breaks_subject subject
      then err (bad_subject subject)
      else if ltb limit (length payload)
      then err (over_limit (length payload) limit)
      else ok (held ++ ((subject, payload) ∷ []))

-- A message off the bus.
pub record Message : Type 0 where
  pub subject : String
  pub payload : Bytes
  pub reply : Option String

module _ {S : Type 0} (client : NatsClient S) where
  -- `Message::answer`: a message that expects no answer is left alone.
  abbrev pub answer_to : Option String → Bytes → Link S → Result String (Unit {0}) × Link S
  answer_to none payload l = (ok tt, l)
  answer_to (some reply) payload l =
      let (r, s) = client.publish (reply, payload) l.conn in (r, record l { conn = s })

  unfoldable pub ack : Message → Link S → Result String (Unit {0}) × Link S
  ack m l = answer_to m.reply [] l

  unfoldable pub nak : Message → Link S → Result String (Unit {0}) × Link S
  nak m l = answer_to m.reply (45 ∷ 78 ∷ 65 ∷ 75 ∷ []) l

  abbrev pub then_ack :
      (Link S → Result String (Unit {0}) × Link S)
      → Result String (Unit {0}) × Link S
      → Result String (Unit {0}) × Link S
  then_ack rest (ok u, l) = rest l
  then_ack rest (err e, l) = (err e, l)

  -- `Bus::ack_all`: the first ack that is not handed over ends it.
  unfoldable pub ack_all : List Message → Link S → Result String (Unit {0}) × Link S
  ack_all [] l = (ok tt, l)
  ack_all (m ∷ ms) l = then_ack (ack_all ms) (ack m l)
