-- ===== src/Lease/OneHolder.antt =====
-- Leases are told apart by their revisions, and a renewal fences the other leaders
-- (core/src/cluster.rs).
use vejas.Base.{
  ℕ, ◌≡◌, ◌≢◌, refl, sym, ap, ◌∙◌, ◌<◌, ◌≤◌, Option, none, some, List, [], ◌∷◌, String, Bool, true,
  false, inl, inr, if◌then◌else◌, ◌==◌, arith,
}
use vejas.Exec.{Result, ok, err, Result-cases}
use vejas.Lease.{
  Bucket, Instance, standby, leading, lost, World, Event, acquiring, renewing, releasing, aging,
  set_instance, acquired, renewed, acquire, renew, release, step, steps, start,
}

-- What the bucket is documented to do: a write takes a revision above all before it, a
-- compare-and-set succeeds only at the current revision, a key is created only where there is none,
-- a write that is refused for these reasons leaves the key, and nothing lowers the last revision.
pub record BucketLaws {S : Type 0} (bucket : Bucket S) : Type 0 where
  pub create-ok :
      (i n : ℕ) (s : S)
      → (bucket.create i s).0 ≡ ok n
      → (bucket.last s < n) × (n ≤ bucket.last ((bucket.create i s).1))
  pub update-ok :
      (i r n : ℕ) (s : S)
      → (bucket.update i r s).0 ≡ ok n
      → (bucket.current s ≡ some r)
        × (bucket.last s < n)
        × (n ≤ bucket.last ((bucket.update i r s).1))
        × (bucket.current ((bucket.update i r s).1) ≡ some n)
  pub create-free : (i n : ℕ) (s : S) → (bucket.create i s).0 ≡ ok n → bucket.current s ≡ none
  pub create-held :
      (i r : ℕ) (s : S)
      → bucket.current s ≡ some r
      → bucket.current ((bucket.create i s).1) ≡ some r
  pub update-held :
      (i r r' : ℕ) (s : S)
      → bucket.current s ≡ some r
      → r ≢ r'
      → bucket.current ((bucket.update i r' s).1) ≡ some r
  pub create-last : (i : ℕ) (s : S) → bucket.last s ≤ bucket.last ((bucket.create i s).1)
  pub update-last : (i r : ℕ) (s : S) → bucket.last s ≤ bucket.last ((bucket.update i r s).1)
  pub delete-last : (s : S) → bucket.last s ≤ bucket.last ((bucket.delete s).1)
  pub age_out-last : (s : S) → bucket.last s ≤ bucket.last (bucket.age_out s)

-- The revision that an instance renews from.
abbrev pub revision : Instance → Option ℕ
revision standby = none
revision (leading r) = some r
revision lost = none

-- The instances' revisions are of the bucket, and no two instances have the same.
pub record Distinct (last : ℕ) (f : ℕ → Instance) : Type 0 where
  pub below : (i r : ℕ) → revision (f i) ≡ some r → r ≤ last
  pub unique : (i j r : ℕ) → revision (f i) ≡ some r → revision (f j) ≡ some r → i ≡ j

revision-if :
    (b : Bool) (x y : Instance)
    → revision (if b then x else y) ≡ (if b then revision x else revision y)
revision-if true x y = refl
revision-if false x y = refl

set_leading-Distinct :
    (i n last last' : ℕ) (f : ℕ → Instance)
    → Distinct last f
    → last < n
    → n ≤ last'
    → Distinct last' (set_instance i (leading n) f)
set_leading-Distinct i n last last' f d above le = record {
  below = λ j r e. ground (arith, revision-if (i == j) (leading n) (f j), d.below j r);
  unique = λ j k r e e'. ground (
    arith,
    revision-if (i == j) (leading n) (f j),
    revision-if (i == k) (leading n) (f k),
    d.below j r,
    d.below k r,
    d.unique j k r,
  );
}

set_idle-Distinct :
    (i last last' : ℕ) (x : Instance) (f : ℕ → Instance)
    → Distinct last f
    → last ≤ last'
    → revision x ≡ none
    → Distinct last' (set_instance i x f)
set_idle-Distinct i last last' x f d le idle = record {
  below = λ j r e. ground (arith, revision-if (i == j) x (f j), d.below j r);
  unique = λ j k r e e'.
      ground (arith, revision-if (i == j) x (f j), revision-if (i == k) x (f k), d.unique j k r);
}

-- A write's answer as a leading instance, or as one that holds nothing.
acquired-Distinct :
    (i last last' : ℕ) (r : Result String ℕ) (f : ℕ → Instance)
    → Distinct last f
    → last ≤ last'
    → ((n : ℕ) → r ≡ ok n → (last < n) × (n ≤ last'))
    → Distinct last' (set_instance i (acquired r) f)
acquired-Distinct i last last' (ok n) f d le law =
    set_leading-Distinct i n last last' f d (law n refl).0 (law n refl).1
acquired-Distinct i last last' (err e) f d le law =
    set_idle-Distinct i last last' standby f d le refl

renewed-Distinct :
    (i last last' : ℕ) (r : Result String ℕ) (f : ℕ → Instance)
    → Distinct last f
    → last ≤ last'
    → ((n : ℕ) → r ≡ ok n → (last < n) × (n ≤ last'))
    → Distinct last' (set_instance i (renewed r) f)
renewed-Distinct i last last' (ok n) f d le law =
    set_leading-Distinct i n last last' f d (law n refl).0 (law n refl).1
renewed-Distinct i last last' (err e) f d le law = set_idle-Distinct i last last' lost f d le refl

same_instances-Distinct :
    (last last' : ℕ) (f : ℕ → Instance) → Distinct last f → last ≤ last' → Distinct last' f
same_instances-Distinct last last' f d le = record {
  below = λ i r e. ground (arith, d.below i r);
  unique = d.unique;
}

stale : (n rj last : ℕ) → ◌≡◌ {A = Option ℕ} (some n) (some rj) → last < n → rj ≤ last → ⊥
stale n rj last e above le = ground arith

pub apart : (i j : ℕ) → i ≢ j → (i == j) ≡ false
apart i j other = ground arith

same : (j : ℕ) → (j == j) ≡ true
same j = ground arith

module _ {S : Type 0} (bucket : Bucket S) where
  abbrev pub DistinctIn : World S → Type 0
  DistinctIn w = Distinct (bucket.last (w.store)) (w.instances)

  module _ (laws : BucketLaws bucket) where
    acquire-Distinct :
        (i : ℕ) (x : Instance) (w : World S) → DistinctIn w → DistinctIn (acquire bucket i x w)
    unfolding acquire
    acquire-Distinct i standby w d =
        acquired-Distinct i _ _ _ (w.instances) d (laws.create-last i (w.store))
          (λ n. laws.create-ok i n (w.store))
    acquire-Distinct i (leading r) w d = d
    acquire-Distinct i lost w d = d

    renew-Distinct :
        (i : ℕ) (x : Instance) (w : World S) → DistinctIn w → DistinctIn (renew bucket i x w)
    unfolding renew
    renew-Distinct i standby w d = d
    renew-Distinct i lost w d = d
    renew-Distinct i (leading r) w d =
        renewed-Distinct i _ _ _ (w.instances) d (laws.update-last i r (w.store))
          (λ n e. let (held, above, le, now) = laws.update-ok i r n (w.store) e in (above, le))

    release-Distinct :
        (i : ℕ) (x : Instance) (w : World S) → DistinctIn w → DistinctIn (release bucket i x w)
    unfolding release
    release-Distinct i standby w d = d
    release-Distinct i (leading r) w d =
        set_idle-Distinct i _ _ standby (w.instances) d (laws.delete-last (w.store)) refl
    release-Distinct i lost w d =
        set_idle-Distinct i _ _ standby (w.instances) d (laws.delete-last (w.store)) refl

    pub step-Distinct : (e : Event) (w : World S) → DistinctIn w → DistinctIn (step bucket e w)
    unfolding step
    step-Distinct (acquiring i) w d = acquire-Distinct i (w.instances i) w d
    step-Distinct (renewing i) w d = renew-Distinct i (w.instances i) w d
    step-Distinct (releasing i) w d = release-Distinct i (w.instances i) w d
    step-Distinct aging w d =
        same_instances-Distinct _ _ (w.instances) d (laws.age_out-last (w.store))

    pub steps-Distinct :
        (es : List Event) (w : World S) → DistinctIn w → DistinctIn (steps bucket es w)
    unfolding steps
    steps-Distinct [] w d = d
    steps-Distinct (e ∷ es) w d = steps-Distinct es (step bucket e w) (step-Distinct e w d)

    pub start-Distinct : (s : S) → DistinctIn (start bucket s)
    start-Distinct s = record {
      below = λ i r e. ground (arith, e);
      unique = λ i j r e e'. ground (arith, e);
    }

    refused :
        (j rj n last : ℕ) (s : S)
        → bucket.current s ≡ some n
        → last < n
        → rj ≤ last
        → renewed ((bucket.update j rj s).0) ≡ lost
    refused j rj n last s now above le = elim (Result-cases ((bucket.update j rj s).0)) [
      | inl (m, e) ↦
          let (held, above_too, le_too, now_too) = laws.update-ok j rj m s e in
          elim (stale n rj last (sym now ∙ held) above le) [ ]
      | inr (m, e) ↦ ap renewed e
    ]

    renewing_fences :
        (w : World S) (i j ri rj n : ℕ)
        → DistinctIn w
        → i ≢ j
        → w.instances i ≡ leading ri
        → w.instances j ≡ leading rj
        → (bucket.update i ri (w.store)).0 ≡ ok n
        → (step bucket (renewing j) (step bucket (renewing i) w)).instances j ≡ lost
    unfolding step renew
    renewing_fences w i j ri rj n d other ei ej won =
        let s1 = (bucket.update i ri (w.store)).1 in
        let r0 = (bucket.update i ri (w.store)).0 in
        let r1 = (bucket.update j rj s1).0 in
        let w1 = renew bucket i (leading ri) w in
        let (held, above, le, now) = laws.update-ok i ri n (w.store) won in
        ap
          (λ x.
            (renew bucket j ((renew bucket i x w).instances j) (renew bucket i x w)).instances j)
          ei
        ∙ ap (λ x. (renew bucket j x w1).instances j)
            (ap (λ b. if b then renewed r0 else w.instances j) (apart i j other) ∙ ej)
        ∙ ap (λ b. if b then renewed r1 else w1.instances j) (same j)
        ∙ refused j rj n _ s1 now above (d.below j rj (ap revision ej))

  -- From a start where all stand by, after any sequence of acquisitions, renewals, releases and
  -- values that age out: when the renewal of one instance succeeds, a renewal of another that leads
  -- still, directly after it, fails, and that instance has lost the lease.
  pub steps-renewing :
      (s : S) (es : List Event) (i j ri rj n : ℕ)
      → BucketLaws bucket
      → i ≢ j
      → (steps bucket es (start bucket s)).instances i ≡ leading ri
      → (steps bucket es (start bucket s)).instances j ≡ leading rj
      → (bucket.update i ri ((steps bucket es (start bucket s)).store)).0 ≡ ok n
      → (step bucket
            (renewing j)
            (step bucket (renewing i) (steps bucket es (start bucket s)))).instances
          j
        ≡ lost
  unfolding step renew
  steps-renewing s es i j ri rj n laws other ei ej won =
      let d = steps-Distinct laws es (start bucket s) (start-Distinct laws s) in
      renewing_fences laws (steps bucket es (start bucket s)) i j ri rj n d other ei ej won
