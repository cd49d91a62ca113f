-- ===== src/Dlq/Counted.antt =====
-- The dead-letter events (core/src/connectors.rs) stand for every letter: a window delays news and
-- loses none.
use vejas.Base.{
  ℕ, ◌+◌, ◌^◌, ◌≤◌, ◌<◌, String, ◌≡◌, refl, Bool, true, false, List, [], ◌∷◌, ◌++◌, All, length,
  str_eq, if◌then◌else◌, if_cases, ℤ, arith,
}
use vejas.Dlq.{
  DlqAnnouncement, DlqEvent, Pending, is_due, event_of, take_due_dlq_events, counted, count_letter,
  announced,
}

-- The letters that the units' announcements wait with, and those that events stand for.
unfoldable pub waiting : Pending → ℕ
waiting [] = 0
waiting ((unit, a) ∷ pending) = a.count + waiting pending

unfoldable pub told : List DlqEvent → ℕ
told [] = 0
told (e ∷ es) = e.count + told es

-- A turn's events and what is left of the announcements.
abbrev Turned : Type 0
Turned = List DlqEvent × Pending

-- What an event stands for, no announcement waits with.
abbrev Tells : ℕ → Turned → Type 0
Tells n r = told r.0 + waiting r.1 ≡ n

module _ (now gap : ℕ) where
  take_due-Tells :
      (pending : Pending) → Tells (waiting pending) (take_due_dlq_events now gap pending)
  unfolding take_due_dlq_events told waiting event_of
  take_due-Tells [] = refl
  take_due-Tells ((unit, a) ∷ pending) =
      if_cases (Tells (waiting ((unit, a) ∷ pending))) (is_due now gap a)
        (λ t. omega (arith, take_due-Tells pending)) (λ f. omega (arith, take_due-Tells pending))

  abbrev pub Ready : String × DlqAnnouncement → Type 0
  Ready p = p.1.last_sent + gap ≤ now

  -- What is a gap old is announced.
  take_due-none :
      (pending : Pending) → All Ready pending → waiting (take_due_dlq_events now gap pending).1 ≡ 0
  unfolding take_due_dlq_events waiting is_due
  take_due-none [] h = refl
  take_due-none ((unit, a) ∷ pending) h =
      let old = h.0 in
      if_cases (λ (r : Turned). waiting r.1 ≡ 0) (is_due now gap a)
        (λ t. omega (arith, take_due-none pending h.1))
        (λ f. ground (arith, f, old, take_due-none pending h.1))

module _ (unit subject : String) (attempts : ℤ) (version : String) where
  count_letter-waiting :
      (pending : Pending)
      → waiting pending + 1 < 2 ^ 64
      → waiting (count_letter unit subject attempts version pending) ≡ waiting pending + 1
  unfolding count_letter waiting counted
  count_letter-waiting [] lt = refl
  count_letter-waiting ((name, a) ∷ pending) lt =
      if_cases (λ r. waiting r ≡ waiting ((name, a) ∷ pending) + 1) (str_eq name unit)
        (λ t. omega (arith, lt))
        (λ f. omega (arith, lt, count_letter-waiting pending (omega (arith, lt))))

told-append : (es fs : List DlqEvent) → told (es ++ fs) ≡ told es + told fs
unfolding told
told-append [] fs = omega arith
told-append (e ∷ es) fs = omega (arith, told-append es fs)

with_events-Tells :
    (es : List DlqEvent) (n : ℕ) (r : Turned) → Tells n r → Tells (told es + n) (es ++ r.0, r.1)
with_events-Tells es n r h = omega (arith, h, told-append es r.0)

if_announced :
    (b : Bool) (pending : Pending) (r : Turned)
    → Tells (waiting pending + 1) r
    → Tells (waiting pending + (if b then 0 else 1)) (if b then ([], pending) else r)
unfolding told
if_announced true pending r h = omega arith
if_announced false pending r h = h

-- What happens to the announcements: a dead letter at a time, or a turn of the thread that
-- announces what a window held back.
pub data Moment : Type 0 where
  died : String → String → ℤ → String → ℕ → Moment
  turn : ℕ → Moment

module _ (events_subject : String) (gap : ℕ) where
  unfoldable pub happens : Moment → Pending → Turned
  happens (died unit subject attempts version now) pending =
      announced events_subject gap unit subject attempts version now pending
  happens (turn now) pending = take_due_dlq_events now gap pending

  abbrev with_events : List DlqEvent → Turned → Turned
  with_events events r = (events ++ r.0, r.1)

  -- The events of all the moments, in order, and what is left to announce.
  unfoldable pub happen : List Moment → Pending → Turned
  happen [] pending = ([], pending)
  happen (m ∷ ms) pending =
      let (events, rest) = happens m pending in with_events events (happen ms rest)

  -- Whether a moment is a letter that is to be announced.
  unfoldable pub counts : Moment → ℕ
  counts (died unit subject attempts version now) = if str_eq subject events_subject then 0 else 1
  counts (turn now) = 0

  unfoldable pub letters : List Moment → ℕ
  letters [] = 0
  letters (m ∷ ms) = counts m + letters ms

  happens-Tells :
      (m : Moment) (pending : Pending)
      → waiting pending + 1 < 2 ^ 64
      → Tells (waiting pending + counts m) (happens m pending)
  unfolding happens counts announced told
  happens-Tells (turn now) pending lt = omega (arith, take_due-Tells now gap pending)
  happens-Tells (died unit subject attempts version now) pending lt =
      let after = count_letter unit subject attempts version pending in
      if_announced (str_eq subject events_subject) pending (take_due_dlq_events now gap after) (
        omega (
          arith,
          take_due-Tells now gap after,
          count_letter-waiting unit subject attempts version pending lt,
        ))

  counts-le_one : (m : Moment) → counts m ≤ 1
  unfolding counts
  counts-le_one (turn now) = omega arith
  counts-le_one (died unit subject attempts version now) =
      if_cases (λ n. n ≤ 1) (str_eq subject events_subject) (λ t. omega arith) (λ f. omega arith)

  happen-Tells :
      (ms : List Moment) (pending : Pending)
      → waiting pending + length ms < 2 ^ 64
      → Tells (waiting pending + letters ms) (happen ms pending)
  unfolding happen letters told
  happen-Tells [] pending lt = omega arith
  happen-Tells (m ∷ ms) pending lt =
      let r = happens m pending in
      let here : Tells (waiting pending + counts m) r =
        happens-Tells m pending (omega (arith, lt)) in
      let small = counts-le_one m in
      let rest = happen-Tells ms r.1 (omega (arith, lt, here, small)) in
      omega (arith, here, with_events-Tells r.0 _ (happen ms r.1) rest)

  -- Every letter is made due for an event or waits to be: from no announcements, what the events of any letters
  -- and turns count and what is still waiting add up to the letters, those of the events' own
  -- subject left out, if fewer than 2^64 things happen.
  pub happen-letters :
      (ms : List Moment)
      → length ms < 2 ^ 64
      → told (happen ms []).0 + waiting (happen ms []).1 ≡ letters ms
  unfolding waiting
  happen-letters ms lt = omega (arith, happen-Tells ms [] (omega (arith, lt)))

-- A turn of the thread a gap after each unit's last event announces all that waits: its events count
-- every letter that was held back, and no letter waits behind it.
pub take_due-all :
    (now gap : ℕ) (pending : Pending)
    → All (Ready now gap) pending
    → (told (take_due_dlq_events now gap pending).0 ≡ waiting pending)
      × (waiting (take_due_dlq_events now gap pending).1 ≡ 0)
take_due-all now gap pending h =
    let none_left = take_due-none now gap pending h in
    (omega (arith, take_due-Tells now gap pending, none_left), none_left)
