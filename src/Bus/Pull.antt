-- ===== src/Bus/Pull.antt =====
-- Pull rounds (core/src/bus.rs, `Puller`, `Round`, `classify`). What the inbox receives until a
-- deadline is a list: `next` takes from it, and finds it empty when the deadline has passed.
use vejas.Base.{
  ℕ, zero, suc, String, Bool, true, false, not, ◌&&◌, Option, none, some, List, [], ◌∷◌, ◌⊎◌, inl,
  inr, unwrap_or, ltb, if◌then◌else◌, ◌==◌,
}
use vejas.Exec.{Result, ok, err}
use vejas.Vjs.Text.{contains_text}
use vejas.Bus.{NatsClient, Link, Message, up}

-- `async_nats::Message`, with the code of its status.
pub record Arrival : Type 0 where
  pub message : Message
  pub status : Option ℕ
  pub description : Option String

-- `gone`: the status and its description, which the fault's text names.
pub data Pulled : Type 0 where
  a_message nothing over : Pulled
  gone : ℕ → String → Pulled

unfoldable pub status_of : ℕ → String → Pulled
status_of status description =
    if status == 200
    then a_message
    else if status == 404
    then nothing
    else if status == 408
    then over
    else if (status == 409) && not (contains_text description "Deleted")
    then over
    else gone status description

abbrev pub pulled : Option ℕ → String → Pulled
pulled none description = a_message
pulled (some status) description = status_of status description

unfoldable pub classify : Arrival → Pulled
classify m = pulled m.status (unwrap_or m.description "")

-- The text of a fault names the status and the description.
abbrev pub Fault : Type 0
Fault = ℕ × String

-- A round: the messages it has taken, and the puller's fault; and what its inbox still receives.
pub record Round : Type 0 where
  pub taken : ℕ
  pub fault : Option Fault
  pub arrivals : List Arrival

abbrev pub pull_batch : ℕ
pull_batch = 64

abbrev pub on_arrival : Pulled → Message → Round → Option Message × Round → Option Message × Round
on_arrival a_message m r more = (some m, record r { taken = suc r.taken })
on_arrival nothing m r more = more
on_arrival over m r more = (none, r)
on_arrival (gone status description) m r more =
    (none, record r { fault = some (status, description) })

-- The loop of `Round::next`, on what the inbox receives.
unfoldable pub next_from : ℕ → Option Fault → List Arrival → Option Message × Round
next_from taken fault [] = (none, record { taken = taken; fault = fault; arrivals = [] })
next_from taken fault (m ∷ ms) =
    let more = next_from taken fault ms in
    let r : Round = record { taken = taken; fault = fault; arrivals = ms } in
    if ltb taken pull_batch
    then on_arrival (classify m) m.message r more
    else (none, record { taken = taken; fault = fault; arrivals = m ∷ ms })

unfoldable pub next_message : Round → Option Message × Round
next_message r = next_from r.taken r.fault r.arrivals

-- The messages that a `for` loop gets from a round, on fuel for its turns.
abbrev pub collect_from :
    (Round → List Message × Round) → Option Message × Round → List Message × Round
collect_from rest (none, r) = ([], r)
collect_from rest (some m, r) = let (ms, r') = rest r in (m ∷ ms, r')

unfoldable pub collect : ℕ → Round → List Message × Round
collect zero r = ([], r)
collect (suc fuel) r = collect_from (collect fuel) (next_message r)

-- `Puller::round`: a fault of the round before fails it, and a link that is down is not asked.
module _ {S : Type 0} (client : NatsClient S) (subject inbox : String) where
  abbrev pub requested :
      List Arrival → Link S → Result String (Unit {0}) × S → Result (String ⊎ Fault) Round × Link S
  requested arrivals l (ok u, s) =
      (ok (record { taken = 0; fault = none; arrivals = arrivals }), record l { conn = s })
  requested arrivals l (err e, s) = (err (inl e), record l { conn = s })

  abbrev pub request_if : Bool → List Arrival → Link S → Result (String ⊎ Fault) Round × Link S
  request_if true arrivals l = requested arrivals l (client.publish_with_reply subject inbox l.conn)
  request_if false arrivals l = (ok (record { taken = 0; fault = none; arrivals = arrivals }), l)

  unfoldable pub round :
      Option Fault → List Arrival → Link S → Result (String ⊎ Fault) Round × Link S
  round (some fault) arrivals l = (err (inr fault), l)
  round none arrivals l = request_if (up client inbox l) arrivals l
