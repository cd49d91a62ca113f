-- ===== src/Lease/Held.antt =====
-- A lease that is held is taken over by no other instance (core/src/cluster.rs, `acquire_blocking`
-- and the renewal thread).
use vejas.Base.{
  ℕ, ◌≡◌, ◌≢◌, refl, sym, ap, subst, ◌∙◌, Bool-cases, Option, none, some, List, [], ◌∷◌, All, ◌⊎◌,
  inl, inr, if◌then◌else◌, ◌==◌, arith,
}
use vejas.Exec.{Result-cases}
use vejas.Lease.{
  Bucket, Instance, standby, leading, lost, World, Event, acquiring, renewing, releasing, aging,
  set_instance, acquired, renewed, acquire, renew, step, steps, start,
}
use vejas.Lease.OneHolder.{
  BucketLaws, DistinctIn, revision, apart, step-Distinct, steps-Distinct, start-Distinct,
}

-- An instance other than `i` tries to acquire or to renew.
abbrev pub IsAttempt : ℕ → Event → Type 0
IsAttempt i (acquiring j) = i ≢ j
IsAttempt i (renewing j) = i ≢ j
IsAttempt i (releasing j) = ⊥
IsAttempt i aging = ⊥

-- An instance is as it was, or has lost the lease.
abbrev pub NoGain : Instance → Instance → Type 0
NoGain x y = (y ≡ x) ⊎ (y ≡ lost)

NoGain-trans : (x y z : Instance) → NoGain x y → NoGain y z → NoGain x z
NoGain-trans x y z g (inr l) = inr l
NoGain-trans x y z (inl e) (inl e') = inl (e' ∙ e)
NoGain-trans x y z (inr l) (inl e') = inr (e' ∙ l)

set-NoGain :
    (j k : ℕ) (x : Instance) (f : ℕ → Instance)
    → NoGain (f j) x
    → NoGain (f k) (set_instance j x f k)
set-NoGain j k x f g = elim (Bool-cases (j == k)) [
  | inl e ↦ let same : j ≡ k = ground (arith, e) in rw e (subst (λ n. NoGain (f n) x) same g)
  | inr e ↦ rw e (inl refl)
]

set-other : (i j : ℕ) (x : Instance) (f : ℕ → Instance) → i ≢ j → set_instance j x f i ≡ f i
set-other i j x f other = ap (λ b. if b then x else f i) (apart j i (λ e. other (sym e)))

module _ {S : Type 0} (bucket : Bucket S) where
  -- An instance holds the lease: the revision it renews from is the current one.
  abbrev pub Holds : World S → ℕ → Type 0
  Holds w i = (r : ℕ) × (w.instances i ≡ leading r) × (bucket.current (w.store) ≡ some r)

  -- The holder and the key are as they were, and no instance has gained the lease.
  pub record Undisturbed (i : ℕ) (w w' : World S) : Type 0 where
    pub holder : w'.instances i ≡ w.instances i
    pub key : bucket.current (w'.store) ≡ bucket.current (w.store)
    pub others : (k : ℕ) → NoGain (w.instances k) (w'.instances k)

  Undisturbed-refl : (i : ℕ) (w : World S) → Undisturbed i w w
  Undisturbed-refl i w = record { holder = refl; key = refl; others = λ k. inl refl }

  Undisturbed-trans :
      (i : ℕ) (u v w : World S) → Undisturbed i u v → Undisturbed i v w → Undisturbed i u w
  Undisturbed-trans i u v w p q = record {
    holder = q.holder ∙ p.holder;
    key = q.key ∙ p.key;
    others = λ k. NoGain-trans _ _ _ (p.others k) (q.others k);
  }

  set-Undisturbed :
      (i j : ℕ) (x : Instance) (s : S) (w : World S)
      → i ≢ j
      → NoGain (w.instances j) x
      → bucket.current s ≡ bucket.current (w.store)
      → Undisturbed i w (record { store = s; instances = set_instance j x w.instances })
  set-Undisturbed i j x s w other g same = record {
    holder = set-other i j x w.instances other;
    key = same;
    others = λ k. set-NoGain j k x w.instances g;
  }

  module _ (laws : BucketLaws bucket) where
    acquire-Undisturbed :
        (i j r : ℕ) (x : Instance) (w : World S)
        → i ≢ j
        → w.instances j ≡ x
        → bucket.current (w.store) ≡ some r
        → Undisturbed i w (acquire bucket j x w)
    unfolding acquire
    acquire-Undisturbed i j r (leading n) w other e held = Undisturbed-refl i w
    acquire-Undisturbed i j r lost w other e held = Undisturbed-refl i w
    acquire-Undisturbed i j r standby w other e held =
        set-Undisturbed i j _ _ w other
          (elim (Result-cases ((bucket.create j (w.store)).0)) [
            | inl (n, won) ↦
                let free = laws.create-free j n (w.store) won in
                absurd (some_none r (sym held ∙ free))
            | inr (f, refused) ↦ inl (ap acquired refused ∙ sym e)
          ])
          (laws.create-held j r (w.store) held ∙ sym held)
      where
        some_none : (n : ℕ) → ◌≡◌ {A = Option ℕ} (some n) none → ⊥
        some_none n h = ground (arith, h)

    same_revision : (m n : ℕ) → ◌≡◌ {A = Option ℕ} (some m) (some n) → m ≡ n
    same_revision m n h = ground (arith, h)

    renew-Undisturbed :
        (i j r : ℕ) (x : Instance) (w : World S)
        → DistinctIn bucket w
        → i ≢ j
        → w.instances i ≡ leading r
        → w.instances j ≡ x
        → bucket.current (w.store) ≡ some r
        → Undisturbed i w (renew bucket j x w)
    unfolding renew
    renew-Undisturbed i j r standby w d other ei e held = Undisturbed-refl i w
    renew-Undisturbed i j r lost w d other ei e held = Undisturbed-refl i w
    renew-Undisturbed i j r (leading n) w d other ei e held =
        let stale : r ≢ n =
          λ same. other (d.unique i j n (ap revision ei ∙ ap (λ m. some m) same) (ap revision e)) in
        set-Undisturbed i j _ _ w other
          (elim (Result-cases ((bucket.update j n (w.store)).0)) [
            | inl (m, won) ↦
                let (current, above, le, now) = laws.update-ok j n m (w.store) won in
                absurd (stale (same_revision r n (sym held ∙ current)))
            | inr (f, refused) ↦ inr (ap renewed refused)
          ])
          (laws.update-held j r n (w.store) held stale ∙ sym held)

    step-Undisturbed :
        (i r : ℕ) (e : Event) (w : World S)
        → DistinctIn bucket w
        → IsAttempt i e
        → w.instances i ≡ leading r
        → bucket.current (w.store) ≡ some r
        → Undisturbed i w (step bucket e w)
    unfolding step
    step-Undisturbed i r (acquiring j) w d other ei held =
        acquire-Undisturbed i j r (w.instances j) w other refl held
    step-Undisturbed i r (renewing j) w d other ei held =
        renew-Undisturbed i j r (w.instances j) w d other ei refl held
    step-Undisturbed i r (releasing j) w d never ei held = absurd never
    step-Undisturbed i r aging w d never ei held = absurd never

    steps-Undisturbed :
        (i r : ℕ) (fs : List Event) (w : World S)
        → DistinctIn bucket w
        → All (IsAttempt i) fs
        → w.instances i ≡ leading r
        → bucket.current (w.store) ≡ some r
        → Undisturbed i w (steps bucket fs w)
    unfolding steps
    steps-Undisturbed i r [] w d h ei held = Undisturbed-refl i w
    steps-Undisturbed i r (e ∷ fs) w d h ei held =
        let u = step-Undisturbed i r e w d h.0 ei held in
        Undisturbed-trans i w (step bucket e w) _ u (
          steps-Undisturbed i r fs (step bucket e w) (step-Distinct bucket laws e w d) h.1
            (u.holder ∙ ei) (u.key ∙ held))

  -- From a start where all stand by, after any sequence of acquisitions, renewals, releases and
  -- values that age out: while an instance leads with the revision that the key has, any sequence of
  -- attempts of the others to acquire or to renew leaves it leading with that revision, leaves the
  -- key, and leaves every other instance as it was or lost.
  pub steps-Held :
      (s : S) (es fs : List Event) (i r k : ℕ)
      → BucketLaws bucket
      → All (IsAttempt i) fs
      → (steps bucket es (start bucket s)).instances i ≡ leading r
      → bucket.current ((steps bucket es (start bucket s)).store) ≡ some r
      → Holds (steps bucket fs (steps bucket es (start bucket s))) i
        × NoGain
            ((steps bucket es (start bucket s)).instances k)
            ((steps bucket fs (steps bucket es (start bucket s))).instances k)
  steps-Held s es fs i r k laws attempts ei held =
      let w = steps bucket es (start bucket s) in
      let u =
        steps-Undisturbed laws i r fs w
          (steps-Distinct bucket laws es (start bucket s) (start-Distinct bucket laws s)) attempts
          ei held in
      ((r, u.holder ∙ ei, u.key ∙ held), u.others k)
