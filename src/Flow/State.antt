-- ===== src/Flow/State.antt =====
-- The state of a flow's thread (core/src/main.rs, `supervise_vjs`): what it holds, the trace rings,
-- and what it reads from its surroundings while it works on a message, a `Turn`.
use vejas.Base.{
  ℕ, ◌+◌, ◌%◌, ◌^◌, String, Bool, false, Option, List, [], ◌∷◌, ◌++◌, ◌⊎◌, leb, str_eq,
  if◌then◌else◌, ℤ, pos, negsuc,
}
use vejas.Exec.{Result}
use vejas.Vjs.Value.{Platform, Json}
use vejas.Vjs.Failure.{Failure}
use vejas.Vjs.Engine.{Engine}
use vejas.Metrics.{Seconds, Units}
use vejas.Versions.{capped}
use vejas.Bus.{Bytes, Publish, Refusal, Message}
use vejas.Bus.Pull.{Fault}
use vejas.Dlq.{Desk}

-- Why a message failed.
pub data FlowError (N : Type 0) : Type 0 where
  bad_json : String → FlowError N
  run_failed : Failure N → FlowError N
  refused : String → Refusal → FlowError N

-- The error of a trace: the failure, and what became of the message.
pub data TraceError (N : Type 0) : Type 0 where
  failed : FlowError N → TraceError N
  dead_lettered : FlowError N → TraceError N
  dead_lettered_after : FlowError N → ℤ → TraceError N
  dlq_failed : FlowError N → String → TraceError N

-- An entry of the trace ring; `A` is the event.
pub record Trace (N A : Type 0) : Type 0 where
  pub seq : ℕ
  pub ts : ℕ
  pub flow : String
  pub subject : String
  pub error : Option (TraceError N)
  pub emits : List String
  pub preview : String
  pub event : Option A

-- `TRACE_SEQ` and `TRACES`
pub record Traces (N A : Type 0) : Type 0 where
  pub next_seq : ℕ
  pub rings : String → List (Trace N A)

pub record Span (N : Type 0) : Type 0 where
  pub unit : String
  pub subject : String
  pub error : Option (FlowError N)
  pub start_nanos : ℕ
  pub end_nanos : ℕ
  pub emits : ℕ

pub record ProcState (N : Type 0) : Type 0 where
  pub status : String
  pub restarts : ℕ
  pub started_at : Option ℕ
  pub last_error : Option (FlowError N)

-- serde_json on the payload of a message and on an emitted value, and the start of a payload.
pub record Codec (A : Type 0) : Type 0 where
  pub from_slice : Bytes → Result String A
  pub to_vec : A → Option Bytes
  pub preview : Bytes → String

-- A message, whether the flow is to go on when it comes, and the clocks while it is worked on;
-- `spawned` is what starting a thread gives.
pub record Turn (T : Type 0) : Type 0 where
  pub message : Message
  pub running : Bool
  pub start_nanos : ℕ
  pub end_nanos : ℕ
  pub elapsed : T
  pub ts : ℕ
  pub dead_at : ℕ
  pub announced_at : ℕ
  pub spawned : Bool

-- What a flow's thread works on. `spans` are those that were handed over, the latest first.
pub record Flow (P : Platform) (Q : Seconds) (S : Type 0) : Type 0 where
  pub desk : Desk S
  pub engine : Engine P.Number
  pub held : List Publish
  pub to_ack : List Message
  pub units : Units Q
  pub traces : Traces P.Number (Json P)
  pub spans : List (Span P.Number)
  pub state : ProcState P.Number

module _ {N A : Type 0} where
  -- `record_trace_full`, whose entry has its number
  unfoldable pub record_trace_full : Trace N A → Traces N A → Traces N A
  record_trace_full t traces = record {
    next_seq = (traces.next_seq + 1) % 2 ^ 64;
    rings = λ name.
        if str_eq t.flow name
        then capped (traces.rings name ++ (record t { seq = traces.next_seq } ∷ []))
        else traces.rings name;
  }

unfoldable pub max_deliveries : ℕ
max_deliveries = 5

unfoldable pub at_least : ℤ → ℕ → Bool
at_least (pos n) k = leb k n
at_least (negsuc n) k = false

-- How a round ends: the next follows, the flow was stopped, or the attempt fails.
pub data Turned : Type 0 where
  goes_on stops : Turned
  fails : String ⊎ Fault → Turned
