-- ===== src/Bus/Rounds.antt =====
-- What a round of pulls gives (core/src/bus.rs, `Round`), against a description of it.
use vejas.Base.{
  ℕ, zero, suc, ◌+◌, ◌≤◌, ◌≡◌, refl, ap, Option, List, [], ◌∷◌, length, take, ltb, if_cases, arith,
}
use vejas.Bus.{Message}
use vejas.Bus.Pull.{
  Arrival, Pulled, a_message, nothing, over, gone, classify, Fault, Round, pull_batch, on_arrival,
  next_from, next_message, collect_from, collect,
}

-- The messages before the first status that ends a round, and the fault that one leaves.
abbrev add_pulled : Pulled → Message → List Message → List Message
add_pulled a_message m more = m ∷ more
add_pulled nothing m more = more
add_pulled over m more = []
add_pulled (gone status description) m more = []

unfoldable pub before_end : List Arrival → List Message
before_end [] = []
before_end (m ∷ ms) = add_pulled (classify m) m.message (before_end ms)

-- `n` more messages may be taken, and these are the first of `wanted` that the round gives.
abbrev Gives : ℕ → ℕ → List Message → List Message × Round → Type 0
Gives n taken wanted r = (r.0 ≡ take n wanted) × (r.1.taken ≡ taken + length r.0)

abbrev started : ℕ → Option Fault → List Arrival → Round
started taken fault ms = record { taken = taken; fault = fault; arrivals = ms }

module _ (fuel n taken : ℕ) (fault : Option Fault) where
  Gives-more :
      (m : Message) (wanted : List Message) (r : List Message × Round)
      → Gives n (suc taken) wanted r
      → Gives (suc n) taken (m ∷ wanted) (m ∷ r.0, r.1)
  Gives-more m wanted r h = (ap (λ xs. m ∷ xs) h.0, omega (arith, h.1))

  on_arrival-Gives :
      (c : Pulled) (m : Message) (ms : List Arrival) (more : Option Message × Round)
      → Gives n (suc taken) (before_end ms) (collect fuel (started (suc taken) fault ms))
      → Gives (suc n) taken (before_end ms) (collect_from (collect fuel) more)
      → Gives
          (suc n)
          taken
          (add_pulled c m (before_end ms))
          (collect_from (collect fuel) (on_arrival c m (started taken fault ms) more))
  on_arrival-Gives a_message m ms more h k =
      Gives-more m (before_end ms) (collect fuel (started (suc taken) fault ms)) h
  on_arrival-Gives nothing m ms more h k = k
  on_arrival-Gives over m ms more h k = (refl, omega arith)
  on_arrival-Gives (gone status description) m ms more h k = (refl, omega arith)

-- A full round asks for nothing more.
next_from-Gives_full :
    (fuel taken : ℕ) (fault : Option Fault) (ms : List Arrival)
    → pull_batch ≤ taken
    → Gives 0 taken (before_end ms) (collect_from (collect fuel) (next_from taken fault ms))
unfolding next_from before_end
next_from-Gives_full fuel taken fault [] le = (refl, omega arith)
next_from-Gives_full fuel taken fault (m ∷ ms) le =
    if_cases (λ r. Gives 0 taken (before_end (m ∷ ms)) (collect_from (collect fuel) r))
      (ltb taken pull_batch) (λ t. ground (arith, t, le)) (λ f. (refl, omega arith))

next_from-Gives :
    (fuel n taken : ℕ) (fault : Option Fault) (ms : List Arrival)
    → taken + suc n ≡ pull_batch
    → ((ks : List Arrival)
        → Gives n (suc taken) (before_end ks) (collect fuel (started (suc taken) fault ks)))
    → Gives (suc n) taken (before_end ms) (collect_from (collect fuel) (next_from taken fault ms))
unfolding next_from before_end
next_from-Gives fuel n taken fault [] e rest = (refl, omega arith)
next_from-Gives fuel n taken fault (m ∷ ms) e rest =
    if_cases (λ r. Gives (suc n) taken (before_end (m ∷ ms)) (collect_from (collect fuel) r))
      (ltb taken pull_batch)
      (λ t.
        on_arrival-Gives fuel n taken fault (classify m) m.message ms (next_from taken fault ms)
          (rest ms) (next_from-Gives fuel n taken fault ms e rest))
      (λ f. ground (arith, f, e))

collect-Gives :
    (n taken : ℕ) (fault : Option Fault) (ms : List Arrival)
    → taken + n ≡ pull_batch
    → Gives n taken (before_end ms) (collect (suc n) (started taken fault ms))
unfolding collect next_message
collect-Gives zero taken fault ms e = next_from-Gives_full 0 taken fault ms (omega (arith, e))
collect-Gives (suc n) taken fault ms e =
    next_from-Gives (suc n) n taken fault ms e
      λ ks. collect-Gives n (suc taken) fault ks (omega (arith, e))

-- A round gives the messages that stand before the first status that ends it, as `classify` tells
-- the statuses apart, in their order, those
-- after an empty request's status too, and no more than the batch that was asked for.
pub collect-before_end :
    (fault : Option Fault) (ms : List Arrival)
    → (collect 65 (started 0 fault ms)).0 ≡ take pull_batch (before_end ms)
collect-before_end fault ms = (collect-Gives 64 0 fault ms refl).0
