-- ===== src/Tests/Leases.antt =====
-- Leases over a bucket that keeps the revision of its value and the last revision.
use vejas.Base.{
  ℕ, ◌+◌, ◌≡◌, ◌≢◌, ◌∙◌, refl, Option, none, some, List, [], ◌∷◌, ◌==◌, arith, String, Bool, true,
  false, ◌≤◌, ◌<◌,
}
use vejas.Exec.{Result, ok, err}
use vejas.Lease.{
  Bucket, World, Event, acquiring, renewing, releasing, aging, leading, lost, steps, step, start,
  acquire, renew, release,
}
use vejas.Lease.OneHolder.{BucketLaws, steps-renewing}
use vejas.Lease.Held.{Holds, NoGain, steps-Held}

record Key : Type 0 where
  value : Option ℕ
  last : ℕ

abbrev create : Option ℕ → ℕ → Result String ℕ × Key
create none n = (ok (n + 1), record { value = some (n + 1); last = n + 1 })
create (some r) n = (err "key exists", record { value = some r; last = n })

abbrev written : Bool → ℕ → ℕ → Result String ℕ × Key
written true r n = (ok (n + 1), record { value = some (n + 1); last = n + 1 })
written false r n = (err "wrong last sequence", record { value = some r; last = n })

abbrev update : Option ℕ → ℕ → ℕ → Result String ℕ × Key
update none r n = (err "wrong last sequence", record { value = none; last = n })
update (some k) r n = written (k == r) k n

abbrev bucket : Bucket Key
bucket = record {
  create = λ i s. create (s.value) (s.last);
  update = λ i r s. update (s.value) r (s.last);
  delete = λ s. (ok tt, record { value = none; last = s.last + 1 });
  age_out = λ s. record s { value = none };
  current = λ s. s.value;
  last = λ s. s.last;
}

create-laws : (v : Option ℕ) (m n : ℕ) → (create v m).0 ≡ ok n → (m < n) × (n ≤ (create v m).1.last)
create-laws none m n e = ground (arith, e)
create-laws (some r) m n e = ground (arith, e)

create-last : (v : Option ℕ) (m : ℕ) → m ≤ (create v m).1.last
create-last none m = omega arith
create-last (some r) m = omega arith

written-laws :
    (b : Bool) (k r m n : ℕ)
    → (k == r) ≡ b
    → (written b k m).0 ≡ ok n
    → (◌≡◌ {A = Option ℕ} (some k) (some r))
      × (m < n)
      × (n ≤ (written b k m).1.last)
      × ((written b k m).1.value ≡ some n)
written-laws true k r m n h e = ground (arith, e)
written-laws false k r m n h e = ground (arith, e)

update-laws :
    (v : Option ℕ) (r m n : ℕ)
    → (update v r m).0 ≡ ok n
    → (v ≡ some r) × (m < n) × (n ≤ (update v r m).1.last) × ((update v r m).1.value ≡ some n)
update-laws none r m n e = ground (arith, e)
update-laws (some k) r m n e = written-laws (k == r) k r m n refl e

written-last : (b : Bool) (k m : ℕ) → m ≤ (written b k m).1.last
written-last true k m = omega arith
written-last false k m = omega arith

update-last : (v : Option ℕ) (r m : ℕ) → m ≤ (update v r m).1.last
update-last none r m = omega arith
update-last (some k) r m = written-last (k == r) k m

create-free : (v : Option ℕ) (m n : ℕ) → (create v m).0 ≡ ok n → v ≡ none
create-free none m n e = refl
create-free (some r) m n e = ground (arith, e)

create-held : (v : Option ℕ) (m r : ℕ) → v ≡ some r → (create v m).1.value ≡ some r
create-held none m r e = ground (arith, e)
create-held (some k) m r e = e

written-held : (b : Bool) (k m : ℕ) → b ≡ false → (written b k m).1.value ≡ some k
written-held true k m e = ground (arith, e)
written-held false k m e = refl

update-held : (v : Option ℕ) (r r' m : ℕ) → v ≡ some r → r ≢ r' → (update v r' m).1.value ≡ some r
update-held none r r' m e other = ground (arith, e)
update-held (some k) r r' m e other = written-held (k == r') k m (ground (arith, e, other)) ∙ e

bucket-BucketLaws : BucketLaws bucket
bucket-BucketLaws = record {
  create-ok = λ i n s e. create-laws (s.value) (s.last) n e;
  update-ok = λ i r n s e. update-laws (s.value) r (s.last) n e;
  create-free = λ i n s e. create-free (s.value) (s.last) n e;
  create-held = λ i r s e. create-held (s.value) (s.last) r e;
  update-held = λ i r r' s e other. update-held (s.value) r r' (s.last) e other;
  create-last = λ i s. create-last (s.value) (s.last);
  update-last = λ i r s. update-last (s.value) r (s.last);
  delete-last = λ s. omega arith;
  age_out-last = λ s. omega arith;
}

abbrev fresh : Key
fresh = record { value = none; last = 0 }

-- Instance 1 leads, its lease ages out, and instance 2 leads.
abbrev handoff : List Event
handoff = acquiring 1 ∷ aging ∷ acquiring 2 ∷ []

-- Instance 3 cannot create the key, and instance 1 renews from a revision that is past.
steps-Held_example :
    Holds bucket
      (steps bucket (acquiring 3 ∷ renewing 1 ∷ []) (steps bucket handoff (start bucket fresh)))
      2
    × NoGain ((steps bucket handoff (start bucket fresh)).instances 1) (
        (steps bucket
            (acquiring 3 ∷ renewing 1 ∷ [])
            (steps bucket handoff (start bucket fresh))).instances
          1)
unfolding steps step acquire
steps-Held_example =
    steps-Held bucket fresh handoff (acquiring 3 ∷ renewing 1 ∷ []) 2 2 1 bucket-BucketLaws
      (omega arith, (omega arith, tt)) refl refl

steps-renewing_example :
    (step bucket
        (renewing 1)
        (step bucket (renewing 2) (steps bucket handoff (start bucket fresh)))).instances
      1
    ≡ lost
unfolding steps step acquire
steps-renewing_example =
    steps-renewing bucket fresh handoff 2 1 2 1 3 bucket-BucketLaws (omega arith) refl refl refl

-- Instance 1 has lost the lease to instance 2 and drops its guard: the key of instance 2 is gone,
-- and instance 3 leads beside it.
abbrev undone : World Key
undone =
    steps bucket (acquiring 1 ∷ aging ∷ acquiring 2 ∷ renewing 1 ∷ releasing 1 ∷ acquiring 3 ∷ [])
      (start bucket fresh)

two_leaders : (undone.instances 2 ≡ leading 2) × (undone.instances 3 ≡ leading 4)
unfolding steps step acquire renew release
two_leaders = (refl, refl)
