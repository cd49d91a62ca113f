-- ===== src/Versions/Log.antt =====
-- The log of evictions that the panel shows (core/src/versions.rs, `note_eviction`).
use vejas.Base.{
  ℕ, suc, ◌-◌, ◌≤◌, String, ◌≡◌, refl, ap, ◌∙◌, inl, inr, Bool, true, false, Bool-cases, List, [],
  ◌∷◌, ◌++◌, length, length-append, ltb, drop, if◌then◌else◌, arith,
}
use vejas.Vjs.Value.{Platform, Json}
use vejas.Versions.{Bucket, capped, eviction_record, note_eviction}

length-capped {ℓ} : {A : Type ℓ} (xs : List A) → length (capped xs) ≤ 50
unfolding capped
length-capped [] = omega arith
length-capped (x ∷ xs) = ground (arith, length-capped xs)

beyond : (n : ℕ) → ltb 50 (suc n) ≡ true → suc (n - 50) ≡ suc n - 50
beyond n e = ground (arith, e)

within : (n : ℕ) → ltb 50 (suc n) ≡ false → 0 ≡ suc n - 50
within n e = ground (arith, e)

-- The loop drops as many of the oldest as there are above 50.
capped-drop {ℓ} : {A : Type ℓ} (xs : List A) → capped xs ≡ drop (length xs - 50) xs
unfolding capped
capped-drop [] = refl
capped-drop (x ∷ xs) =
    let outcome_of = λ (b : Bool). if b then capped xs else x ∷ xs in
    elim (Bool-cases (ltb 50 (suc (length xs)))) [
      | inl more ↦
          ap outcome_of more ∙ capped-drop xs ∙ ap (λ n. drop n (x ∷ xs)) (beyond (length xs) more)
      | inr fits ↦ ap outcome_of fits ∙ ap (λ n. drop n (x ∷ xs)) (within (length xs) fits)
    ]

-- The log after an eviction is the log before it with the new record behind it, less exactly the
-- oldest that are above 50; so it holds at most 50.
pub note_eviction-newest :
    {P : Platform} {S : Type 0} (bucket : Bucket P S) (flow parent base_hash : String) (ts : ℕ)
    (log : List (Json P))
    → (note_eviction bucket flow parent base_hash ts log
        ≡ drop (suc (length log) - 50) (log ++ (eviction_record P flow parent base_hash ts ∷ [])))
      × (length (note_eviction bucket flow parent base_hash ts log) ≤ 50)
unfolding note_eviction
note_eviction-newest {P = P} bucket flow parent base_hash ts log =
    let added = eviction_record P flow parent base_hash ts in
    let size : length (log ++ (added ∷ [])) ≡ suc (length log) =
      omega (arith, length-append log (added ∷ [])) in
    (
      capped-drop (log ++ (added ∷ [])) ∙ ap (λ n. drop (n - 50) (log ++ (added ∷ []))) size,
      length-capped (log ++ (added ∷ [])),
    )
