-- ===== src/Metrics/Histogram.antt =====
-- The counters and the histogram that are rendered (core/src/metrics.rs, `observe`, `render`).
use vejas.Base.{
  ℕ, suc, ◌+◌, ◌^◌, ◌≤◌, ◌<◌, ◌≡◌, refl, sym, ◌∙◌, ap, subst, String, Bool, true, false, not,
  Option, some, List, [], ◌∷◌, map, length, leb, str_eq, unwrap_or, if◌then◌else◌, if_cases, arith,
}
use vejas.Metrics.{
  Seconds, bounds, add_u64, Observation, observed, tick_emits, fetched, round, snapshot, restored,
  dead_letter, refused, Metric, empty_buckets, unseen, bump, observe, apply, observe_unit, after,
}

-- The buckets do not decrease, and none is above the count.
abbrev pub Cumulative : List ℕ → ℕ → Type 0
Cumulative [] count = Unit
Cumulative (n ∷ []) count = n ≤ count
Cumulative (n ∷ m ∷ ns) count = (n ≤ m) × Cumulative (m ∷ ns) count

add_u64-small : (n k : ℕ) → n + k < 2 ^ 64 → add_u64 n k ≡ n + k
unfolding add_u64
add_u64-small n k lt = omega (arith, lt)

-- One more on 64 bits, where there is room.
add_u64-one : (n m : ℕ) → n ≡ m → suc m < 2 ^ 64 → add_u64 n 1 ≡ suc m
add_u64-one n m e lt = omega (arith, e, lt, add_u64-small n 1 (omega (arith, e, lt)))

-- How many entries of a list pass a test.
module _ {A : Type 0} where
  abbrev pub number_of : (A → Bool) → List A → ℕ
  number_of p [] = 0
  number_of p (x ∷ xs) = let rest = number_of p xs in if p x then suc rest else rest

  number_of-le : (p : A → Bool) (xs : List A) → number_of p xs ≤ length xs
  number_of-le p [] = omega arith
  number_of-le p (x ∷ xs) = ground (arith, number_of-le p xs)

  number_of_mono :
      (p q : A → Bool) (xs : List A)
      → ((x : A) → p x ≡ true → q x ≡ true)
      → number_of p xs ≤ number_of q xs
  number_of_mono p q [] h = omega arith
  number_of_mono p q (x ∷ xs) h = ground (arith, number_of_mono p q xs h, h x)

module _ (Q : Seconds) where
  -- f64's order is transitive.
  abbrev pub IsOrder : Type 0
  IsOrder = (a b c : Q.Time) → Q.le a b ≡ true → Q.le b c ≡ true → Q.le a c ≡ true

  -- Literals are read in the order of the numbers that they stand for.
  abbrev pub KeepsOrder : Type 0
  KeepsOrder = (m n : ℕ) → m ≤ n → Q.le (Q.ten_thousandths m) (Q.ten_thousandths n) ≡ true

  abbrev InOrder : List Q.Time → Type 0
  InOrder [] = Unit
  InOrder (a ∷ []) = Unit
  InOrder (a ∷ b ∷ bs) = (Q.le a b ≡ true) × InOrder (b ∷ bs)

  -- The numbers are in order.
  abbrev Ascending : List ℕ → Type 0
  Ascending [] = Unit
  Ascending (m ∷ []) = Unit
  Ascending (m ∷ n ∷ ns) = (leb m n ≡ true) × Ascending (n ∷ ns)

  map-InOrder : (ns : List ℕ) → KeepsOrder → Ascending ns → InOrder (map Q.ten_thousandths ns)
  map-InOrder [] keeps h = tt
  map-InOrder (m ∷ []) keeps h = tt
  map-InOrder (m ∷ n ∷ ns) keeps h =
      (keeps m n (ground (arith, h.0)), map-InOrder (n ∷ ns) keeps h.1)

  bounds-InOrder : KeepsOrder → InOrder (bounds Q)
  bounds-InOrder keeps =
      map-InOrder
        (5 ∷ 10 ∷ 25 ∷ 50 ∷ 100 ∷ 250 ∷ 500 ∷ 1000 ∷ 2500 ∷ 5000 ∷ 10000 ∷ 25000 ∷ 50000 ∷ []) keeps
        ((
          refl,
          (
            refl,
            (refl, (refl, (refl, (refl, (refl, (refl, (refl, (refl, (refl, (refl, tt)))))))))),
          ),
        ))

  -- An event that a unit has processed: whether it succeeded, and the time that it took.
  abbrev pub Call : Type 0
  Call = Bool × Q.Time

  abbrev pub with_call : Observation Q.Time → List Call → List Call
  with_call (observed okay n secs) cs = (okay, secs) ∷ cs
  with_call _ cs = cs

  -- The events of the unit `k` among all that was observed, the latest first.
  abbrev pub calls_of : String → List (String × Observation Q.Time) → List Call
  calls_of k [] = []
  calls_of k ((name, e) ∷ es) =
      let rest = calls_of k es in if str_eq name k then with_call e rest else rest

  -- How many took no longer than `b`.
  abbrev pub within : List Call → Q.Time → ℕ
  within cs b = number_of (λ c. Q.le c.1 b) cs

  abbrev pub total : List Call → Q.Time
  total [] = Q.zero
  total (c ∷ cs) = Q.add (total cs) c.1

  -- A unit's counters are of exactly these events.
  pub record Counts (u : Metric Q) (cs : List Call) : Type 0 where
    pub all_events : u.count ≡ length cs
    pub successes : u.oks ≡ number_of (λ c. c.0) cs
    pub failures : u.errs ≡ number_of (λ c. not c.0) cs
    pub within_bounds : u.buckets ≡ map (within cs) (bounds Q)
    pub times : u.sum ≡ total cs

  empty-within : (bs : List Q.Time) → empty_buckets Q bs ≡ map (within []) bs
  unfolding empty_buckets
  empty-within [] = refl
  empty-within (b ∷ bs) = ap (λ ns. 0 ∷ ns) (empty-within bs)

  unseen-Counts : Counts (unseen Q) []
  unseen-Counts = record {
    all_events = refl;
    successes = refl;
    failures = refl;
    within_bounds = empty-within (bounds Q);
    times = refl;
  }

  incremented :
      (b : Bool) (n : ℕ)
      → suc n < 2 ^ 64
      → (if b then add_u64 n 1 else n) ≡ (if b then suc n else n)
  incremented true n lt = add_u64-one n n refl lt
  incremented false n lt = refl

  bump-within :
      (okay : Bool) (secs : Q.Time) (cs : List Call) (bs : List Q.Time)
      → suc (length cs) < 2 ^ 64
      → bump Q secs bs (map (within cs) bs) ≡ map (within ((okay, secs) ∷ cs)) bs
  unfolding bump
  bump-within okay secs cs [] lt = refl
  bump-within okay secs cs (b ∷ bs) lt =
      let few : suc (within cs b) < 2 ^ 64 = omega (arith, lt, number_of-le (λ c. Q.le c.1 b) cs) in
      ap (λ n. n ∷ bump Q secs bs (map (within cs) bs))
        (incremented (Q.le secs b) (within cs b) few)
      ∙ ap (λ ns. (within ((okay, secs) ∷ cs) b) ∷ ns) (bump-within okay secs cs bs lt)

  observe-within :
      (okay : Bool) (secs : Q.Time) (u : Metric Q) (cs : List Call)
      → suc (length cs) < 2 ^ 64
      → Counts u cs
      → bump Q secs (bounds Q) u.buckets ≡ map (within ((okay, secs) ∷ cs)) (bounds Q)
  observe-within okay secs u cs lt h =
      ap (bump Q secs (bounds Q)) h.within_bounds ∙ bump-within okay secs cs (bounds Q) lt

  observe-Counts :
      (okay : Bool) (k : ℕ) (secs : Q.Time) (u : Metric Q) (cs : List Call)
      → suc (length cs) < 2 ^ 64
      → Counts u cs
      → Counts (observe Q okay k secs u) ((okay, secs) ∷ cs)
  unfolding observe
  observe-Counts true k secs u cs lt h = record {
    all_events = add_u64-one u.count _ h.all_events lt;
    successes = add_u64-one u.oks _ h.successes (omega (arith, lt, number_of-le (λ c. c.0) cs));
    failures = h.failures;
    within_bounds = observe-within true secs u cs lt h;
    times = ap (λ t. Q.add t secs) h.times;
  }
  observe-Counts false k secs u cs lt h = record {
    all_events = add_u64-one u.count _ h.all_events lt;
    successes = h.successes;
    failures = add_u64-one u.errs _ h.failures (omega (arith, lt, number_of-le (λ c. not c.0) cs));
    within_bounds = observe-within false secs u cs lt h;
    times = ap (λ t. Q.add t secs) h.times;
  }

  unchanged :
      (u v : Metric Q) (cs : List Call)
      → Counts u cs
      → v.count ≡ u.count
      → v.oks ≡ u.oks
      → v.errs ≡ u.errs
      → v.buckets ≡ u.buckets
      → v.sum ≡ u.sum
      → Counts v cs
  unchanged u v cs h a b c d e = record {
    all_events = a ∙ h.all_events;
    successes = b ∙ h.successes;
    failures = c ∙ h.failures;
    within_bounds = d ∙ h.within_bounds;
    times = e ∙ h.times;
  }

  apply-Counts :
      (e : Observation Q.Time) (u : Metric Q) (cs : List Call)
      → suc (length cs) < 2 ^ 64
      → Counts u cs
      → Counts (apply Q e u) (with_call e cs)
  unfolding apply
  apply-Counts (observed okay k secs) u cs lt h = observe-Counts okay k secs u cs lt h
  apply-Counts (tick_emits k) u cs lt h = unchanged u _ cs h refl refl refl refl refl
  apply-Counts (fetched k) u cs lt h = unchanged u _ cs h refl refl refl refl refl
  apply-Counts (round a b c) u cs lt h = unchanged u _ cs h refl refl refl refl refl
  apply-Counts (snapshot a b c) u cs lt h = unchanged u _ cs h refl refl refl refl refl
  apply-Counts (restored k) u cs lt h = unchanged u _ cs h refl refl refl refl refl
  apply-Counts dead_letter u cs lt h = unchanged u _ cs h refl refl refl refl refl
  apply-Counts refused u cs lt h = unchanged u _ cs h refl refl refl refl refl

  with_call-le :
      (e : Observation Q.Time) (cs : List Call) → length (with_call e cs) ≤ suc (length cs)
  with_call-le (observed okay k secs) cs = omega arith
  with_call-le (tick_emits k) cs = omega arith
  with_call-le (fetched k) cs = omega arith
  with_call-le (round a b c) cs = omega arith
  with_call-le (snapshot a b c) cs = omega arith
  with_call-le (restored k) cs = omega arith
  with_call-le dead_letter cs = omega arith
  with_call-le refused cs = omega arith

  length-calls_of :
      (k : String) (es : List (String × Observation Q.Time)) → length (calls_of k es) ≤ length es
  length-calls_of k [] = omega arith
  length-calls_of k ((name, e) ∷ es) =
      if_cases (λ cs. length cs ≤ suc (length es)) (str_eq name k)
        (λ t. omega (arith, with_call-le e (calls_of k es), length-calls_of k es))
        (λ f. omega (arith, length-calls_of k es))

  step_Counts :
      (o : Option (Metric Q)) (e : Observation Q.Time) (cs : List Call)
      → suc (length cs) < 2 ^ 64
      → Counts (unwrap_or o (unseen Q)) cs
      → (b : Bool)
      → Counts
          (unwrap_or (if b then some (apply Q e (unwrap_or o (unseen Q))) else o) (unseen Q))
          (if b then with_call e cs else cs)
  step_Counts o e cs lt h true = apply-Counts e _ cs lt h
  step_Counts o e cs lt h false = h

  after-Counts :
      (es : List (String × Observation Q.Time)) (k : String)
      → length es < 2 ^ 64
      → Counts (unwrap_or (after Q es k) (unseen Q)) (calls_of k es)
  unfolding after observe_unit
  after-Counts [] k lt = unseen-Counts
  after-Counts ((name, e) ∷ es) k lt =
      step_Counts (after Q es k) e (calls_of k es) (omega (arith, lt, length-calls_of k es))
        (after-Counts es k (omega (arith, lt))) (str_eq name k)

  within-Cumulative :
      (cs : List Call) (bs : List Q.Time)
      → IsOrder
      → InOrder bs
      → Cumulative (map (within cs) bs) (length cs)
  within-Cumulative cs [] order o = tt
  within-Cumulative cs (b ∷ []) order o = number_of-le (λ c. Q.le c.1 b) cs
  within-Cumulative cs (b ∷ d ∷ bs) order o = (
    number_of_mono (λ c. Q.le c.1 b) (λ c. Q.le c.1 d) cs (λ c h. order c.1 b d h o.0),
    within-Cumulative cs (d ∷ bs) order o.1,
  )

  -- After fewer than 2 ^ 64 calls, from the start of the process, a unit has counted exactly its
  -- events: all of them, those that succeeded, those that failed, and for each of the thirteen
  -- bounds those that took no longer; its sum is of their times. No bucket is above the next, and
  -- none above the count. A unit that is not there counts as one with no events.
  pub after-Cumulative :
      (es : List (String × Observation Q.Time)) (k : String)
      → IsOrder
      → KeepsOrder
      → length es < 2 ^ 64
      → Counts (unwrap_or (after Q es k) (unseen Q)) (calls_of k es)
        × Cumulative
            (unwrap_or (after Q es k) (unseen Q)).buckets
            (unwrap_or (after Q es k) (unseen Q)).count
  after-Cumulative es k order keeps lt =
      let h = after-Counts es k lt in
      let cs = calls_of k es in
      (
        h,
        subst (λ ns. Cumulative ns (unwrap_or (after Q es k) (unseen Q)).count)
            (sym h.within_bounds)
            (subst (Cumulative (map (within cs) (bounds Q))) (sym h.all_events)
              (within-Cumulative cs (bounds Q) order (bounds-InOrder keeps))),
      )
