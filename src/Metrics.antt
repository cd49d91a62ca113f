-- ===== src/Metrics.antt =====
-- The metrics of the runtime's units (core/src/metrics.rs): the counters and the histogram of each
-- unit, and the calls that observe it. `Seconds` is f64; `ten_thousandths n` is the
-- literal of n / 10000.
pub mod Histogram
use vejas.Base.{
  ℕ, ◌+◌, ◌%◌, ◌^◌, String, Bool, true, false, Option, none, some, List, [], ◌∷◌, map, str_eq,
  unwrap_or, if◌then◌else◌,
}

pub record Seconds : Type 1 where
  pub Time : Type 0
  pub zero : Time
  pub add : Time → Time → Time
  pub le : Time → Time → Bool
  pub ten_thousandths : ℕ → Time

-- A counter of 64 bits.
unfoldable pub add_u64 : ℕ → ℕ → ℕ
add_u64 n k = (n + k) % 2 ^ 64

pub record UnitMetrics (T : Type 0) : Type 0 where
  pub oks : ℕ
  pub errs : ℕ
  pub emits : ℕ
  pub dead : ℕ
  pub rejected : ℕ
  pub fetch_rounds : ℕ
  pub fetch_messages : ℕ
  pub round_fetch_secs : T
  pub round_process_secs : T
  pub round_barrier_secs : T
  pub buckets : List ℕ
  pub sum : T
  pub count : ℕ
  pub snapshots : ℕ
  pub snapshot_seq : ℕ
  pub snapshot_bytes : ℕ
  pub snapshot_secs : T
  pub restores : ℕ
  pub restore_seq : ℕ

-- A call that observes a unit, with its arguments behind the unit's name.
pub data Observation (T : Type 0) : Type 0 where
  observed : Bool → ℕ → T → Observation T
  tick_emits : ℕ → Observation T
  fetched : ℕ → Observation T
  round : T → T → T → Observation T
  snapshot : ℕ → ℕ → T → Observation T
  restored : ℕ → Observation T
  dead_letter : Observation T
  refused : Observation T

module _ (Q : Seconds) where
  abbrev pub Metric : Type 0
  Metric = UnitMetrics Q.Time

  -- The constant `BUCKETS`, of 0.0005 to 5.0 seconds.
  abbrev pub bounds : List Q.Time
  bounds =
      map Q.ten_thousandths
        (5 ∷ 10 ∷ 25 ∷ 50 ∷ 100 ∷ 250 ∷ 500 ∷ 1000 ∷ 2500 ∷ 5000 ∷ 10000 ∷ 25000 ∷ 50000 ∷ [])

  unfoldable pub empty_buckets : List Q.Time → List ℕ
  empty_buckets [] = []
  empty_buckets (b ∷ bs) = 0 ∷ empty_buckets bs

  -- `Unit::default()`
  abbrev pub unseen : Metric
  unseen = record {
    oks = 0;
    errs = 0;
    emits = 0;
    dead = 0;
    rejected = 0;
    fetch_rounds = 0;
    fetch_messages = 0;
    round_fetch_secs = Q.zero;
    round_process_secs = Q.zero;
    round_barrier_secs = Q.zero;
    buckets = empty_buckets bounds;
    sum = Q.zero;
    count = 0;
    snapshots = 0;
    snapshot_seq = 0;
    snapshot_bytes = 0;
    snapshot_secs = Q.zero;
    restores = 0;
    restore_seq = 0;
  }

  -- Every bucket whose bound is not below the time counts it.
  unfoldable pub bump : Q.Time → List Q.Time → List ℕ → List ℕ
  bump secs [] ns = ns
  bump secs (b ∷ bs) [] = []
  bump secs (b ∷ bs) (n ∷ ns) =
      let rest = bump secs bs ns in (if Q.le secs b then add_u64 n 1 else n) ∷ rest

  abbrev pub with_result : Bool → Metric → Metric
  with_result true u = record u { oks = add_u64 u.oks 1 }
  with_result false u = record u { errs = add_u64 u.errs 1 }

  unfoldable pub observe : Bool → ℕ → Q.Time → Metric → Metric
  observe okay n secs u =
      let v = with_result okay u in
      record v {
        emits = add_u64 v.emits n;
        sum = Q.add v.sum secs;
        count = add_u64 v.count 1;
        buckets = bump secs bounds v.buckets;
      }

  unfoldable pub apply : Observation Q.Time → Metric → Metric
  unfolding observe
  apply (observed okay n secs) u = observe okay n secs u
  apply (tick_emits n) u = record u { emits = add_u64 u.emits n }
  apply (fetched n) u = record u {
    fetch_rounds = add_u64 u.fetch_rounds 1;
    fetch_messages = add_u64 u.fetch_messages n;
  }
  apply (round fetch process barrier) u = record u {
    round_fetch_secs = Q.add u.round_fetch_secs fetch;
    round_process_secs = Q.add u.round_process_secs process;
    round_barrier_secs = Q.add u.round_barrier_secs barrier;
  }
  apply (snapshot seq bytes secs) u = record u {
    snapshots = add_u64 u.snapshots 1;
    snapshot_seq = seq;
    snapshot_bytes = bytes;
    snapshot_secs = Q.add u.snapshot_secs secs;
  }
  apply (restored seq) u = record u { restores = add_u64 u.restores 1; restore_seq = seq }
  apply dead_letter u = record u { dead = add_u64 u.dead 1 }
  apply refused u = record u { rejected = add_u64 u.rejected 1 }

  -- The map of the units, `units()`.
  abbrev pub Units : Type 0
  Units = String → Option Metric

  -- `map.entry(unit).or_default()` and what the call does with it
  unfoldable pub observe_unit : String → Observation Q.Time → Units → Units
  observe_unit name e units k =
      if str_eq name k then some (apply e (unwrap_or (units k) unseen)) else units k

  -- The units after the calls, the latest first, since the process started.
  unfoldable pub after : List (String × Observation Q.Time) → Units
  after [] = λ k. none
  after ((name, e) ∷ es) = observe_unit name e (after es)
