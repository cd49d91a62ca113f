-- ===== src/Tests/Gauges.antt =====
-- The metrics of a unit that has seen two events, in tenths of a millisecond.
use vejas.Base.{ℕ, ◌+◌, ◌≡◌, refl, String, true, false, List, [], ◌∷◌, some, leb, unwrap_or, arith}
use vejas.Metrics.{
  Seconds, Observation, observed, refused, add_u64, empty_buckets, bump, observe, apply,
  observe_unit, after, Metric, unseen,
}
use vejas.Metrics.Histogram.{IsOrder, KeepsOrder, Counts, calls_of, Cumulative, after-Cumulative}

abbrev pub ticks : Seconds
ticks = record { Time = ℕ; zero = 0; add = λ a b. a + b; le = leb; ten_thousandths = λ n. n }

ticks-IsOrder : IsOrder ticks
ticks-IsOrder a b c h k = ground (arith, h, k)

ticks-KeepsOrder : KeepsOrder ticks
ticks-KeepsOrder m n le = ground (arith, le)

-- The latest is first.
abbrev calls : List (String × Observation ℕ)
calls = ("flow", observed false 0 73) ∷ ("flow", refused) ∷ ("flow", observed true 2 20) ∷ []

abbrev flow : Metric ticks
flow = record (unseen ticks) {
  oks = 1;
  errs = 1;
  emits = 2;
  rejected = 1;
  buckets = 0 ∷ 0 ∷ 1 ∷ 1 ∷ 2 ∷ 2 ∷ 2 ∷ 2 ∷ 2 ∷ 2 ∷ 2 ∷ 2 ∷ 2 ∷ [];
  sum = 93;
  count = 2;
}

calls-flow : after ticks calls "flow" ≡ some flow
unfolding after observe_unit apply observe bump add_u64 empty_buckets
calls-flow = refl

after-Cumulative_example :
    Counts ticks (unwrap_or (after ticks calls "flow") (unseen ticks)) (calls_of ticks "flow" calls)
    × Cumulative
        (unwrap_or (after ticks calls "flow") (unseen ticks)).buckets
        (unwrap_or (after ticks calls "flow") (unseen ticks)).count
after-Cumulative_example =
    after-Cumulative ticks calls "flow" ticks-IsOrder ticks-KeepsOrder (omega arith)
