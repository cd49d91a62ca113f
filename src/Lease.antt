-- ===== src/Lease.antt =====
-- Leases of singleton drivers (core/src/cluster.rs): instances that acquire, renew and release one
-- key of a bucket, in any order.
pub mod OneHolder
pub mod Held
use vejas.Base.{
  ℕ, ◌≡◌, ◌<◌, ◌≤◌, Option, none, some, List, [], ◌∷◌, String, if◌then◌else◌, ◌==◌, Bool, ◌||◌,
  contains,
}
use vejas.Exec.{Result, ok, err}

-- The bucket, as one key of it is used: `current` is the revision of the key's value while it has
-- one, `last` is the bucket's last revision, and `age_out` is what `max_age` does.
pub record Bucket (S : Type 0) : Type 0 where
  pub create : ℕ → S → Result String ℕ × S
  pub update : ℕ → ℕ → S → Result String ℕ × S
  pub delete : S → Result String (Unit {0}) × S
  pub age_out : S → S
  pub current : S → Option ℕ
  pub last : S → ℕ

-- An instance: standing by, in the loop of `acquire_blocking`; leading, with the revision that its
-- renewal thread holds; or lost, when the thread has cleared `running` and the guard is not dropped.
pub data Instance : Type 0 where
  standby : Instance
  leading : ℕ → Instance
  lost : Instance

pub record World (S : Type 0) : Type 0 where
  pub store : S
  pub instances : ℕ → Instance

pub data Event : Type 0 where
  acquiring : ℕ → Event
  renewing : ℕ → Event
  releasing : ℕ → Event
  aging : Event

unfoldable pub is_singleton : String → Bool
is_singleton kind =
    contains
      ("source:interval" ∷ "source:poll" ∷ "source:exec" ∷ "source:stream" ∷ "source:mqtt" ∷ [])
      kind

-- The state of one instance replaced.
abbrev pub set_instance : ℕ → Instance → (ℕ → Instance) → ℕ → Instance
set_instance i x f j = if i == j then x else f j

abbrev pub acquired : Result String ℕ → Instance
acquired (ok r) = leading r
acquired (err e) = standby

abbrev pub renewed : Result String ℕ → Instance
renewed (ok r) = leading r
renewed (err e) = lost

module _ {S : Type 0} (bucket : Bucket S) where
  abbrev pub set_world : World S → ℕ → Instance → S → World S
  set_world w i x s = record { store = s; instances = set_instance i x (w.instances) }

  -- A round of the loop of `acquire_blocking`.
  unfoldable pub acquire : ℕ → Instance → World S → World S
  acquire i standby w = let (r, s) = bucket.create i (w.store) in set_world w i (acquired r) s
  acquire i _ w = w

  -- A round of the renewal thread.
  unfoldable pub renew : ℕ → Instance → World S → World S
  renew i (leading rev) w =
      let (r, s) = bucket.update i rev (w.store) in set_world w i (renewed r) s
  renew i _ w = w

  -- The guard is dropped: the renewal thread stops, and the key is deleted whoever holds it.
  unfoldable pub release : ℕ → Instance → World S → World S
  release i standby w = w
  release i _ w = set_world w i standby ((bucket.delete (w.store)).1)

  unfoldable pub step : Event → World S → World S
  unfolding acquire renew release
  step (acquiring i) w = acquire i (w.instances i) w
  step (renewing i) w = renew i (w.instances i) w
  step (releasing i) w = release i (w.instances i) w
  step aging w = record w { store = bucket.age_out (w.store) }

  unfoldable pub steps : List Event → World S → World S
  unfolding step
  steps [] w = w
  steps (e ∷ es) w = steps es (step e w)

  -- Every instance stands by.
  abbrev pub start : S → World S
  start s = record { store = s; instances = λ i. standby }
