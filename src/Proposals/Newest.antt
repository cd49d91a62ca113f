-- ===== src/Proposals/Newest.antt =====
-- The order in which proposals are listed (core/src/proposals.rs, `list`).
use mathlib.Core.List.{Perm, filter_map}
use mathlib.Core.List.Perm
use vejas.Base.{
  ℕ, ◌≤◌, ◌≡◌, refl, sym, ap, ◌∙◌, subst, none, some, String, List, [], ◌∷◌, Option, All, leb,
  if_cases, arith,
}
use vejas.Exec.{Result, ok, err}
use vejas.Vjs.Value.{Platform, Value, Json}
use vejas.Versions.{Bucket}
use vejas.Proposals.{
  created_at, insert_newest, sort_newest, get_proposal, with_found, collected, all_of, list,
}

module _ {N : Type 0} (as_u64 : N → Option ℕ) where
  -- No proposal is newer than one before it.
  abbrev pub IsNewestFirst : List (Value N) → Type 0
  IsNewestFirst [] = Unit
  IsNewestFirst (v ∷ vs) =
      All (λ w. created_at as_u64 w ≤ created_at as_u64 v) vs × IsNewestFirst vs

  abbrev Below : ℕ → List (Value N) → Type 0
  Below n vs = All (λ w. created_at as_u64 w ≤ n) vs

  Below-le : (n m : ℕ) (vs : List (Value N)) → n ≤ m → Below n vs → Below m vs
  Below-le n m [] le h = tt
  Below-le n m (v ∷ vs) le h = (omega (arith, h.0), Below-le n m vs le h.1)

  Below-insert :
      (n : ℕ) (v : Value N) (ws : List (Value N))
      → created_at as_u64 v ≤ n
      → Below n ws
      → Below n (insert_newest as_u64 v ws)
  unfolding insert_newest
  Below-insert n v [] le h = (le, tt)
  Below-insert n v (w ∷ ws) le h =
      if_cases (Below n) (leb (created_at as_u64 w) (created_at as_u64 v)) (λ e. (le, h))
        (λ e. (h.0, Below-insert n v ws le h.1))

  insert_newest-IsNewestFirst :
      (v : Value N) (ws : List (Value N))
      → IsNewestFirst ws
      → IsNewestFirst (insert_newest as_u64 v ws)
  unfolding insert_newest
  insert_newest-IsNewestFirst v [] h = (tt, tt)
  insert_newest-IsNewestFirst v (w ∷ ws) h =
      if_cases IsNewestFirst (leb (created_at as_u64 w) (created_at as_u64 v))
        (λ e.
          let le : created_at as_u64 w ≤ created_at as_u64 v = ground (arith, e) in
          ((le, Below-le _ _ ws le h.0), h))
        (λ e. (
          Below-insert (created_at as_u64 w) v ws (ground (arith, e)) h.0,
          insert_newest-IsNewestFirst v ws h.1,
        ))

  insert_newest-Perm :
      (v : Value N) (ws : List (Value N)) → Perm (insert_newest as_u64 v ws) (v ∷ ws)
  unfolding insert_newest
  insert_newest-Perm v [] = Perm.rfl
  insert_newest-Perm v (w ∷ ws) =
      if_cases (λ us. Perm us (v ∷ w ∷ ws)) (leb (created_at as_u64 w) (created_at as_u64 v))
        (λ e. Perm.rfl) (λ e. Perm.trans (Perm.cons w (insert_newest-Perm v ws)) (Perm.swap v w ws))

  sort_newest-IsNewestFirst : (vs : List (Value N)) → IsNewestFirst (sort_newest as_u64 vs)
  unfolding sort_newest
  sort_newest-IsNewestFirst [] = tt
  sort_newest-IsNewestFirst (v ∷ vs) =
      insert_newest-IsNewestFirst v (sort_newest as_u64 vs) (sort_newest-IsNewestFirst vs)

  sort_newest-Perm : (vs : List (Value N)) → Perm (sort_newest as_u64 vs) vs
  unfolding sort_newest
  sort_newest-Perm [] = Perm.rfl
  sort_newest-Perm (v ∷ vs) =
      Perm.trans (insert_newest-Perm v (sort_newest as_u64 vs)) (Perm.cons v (sort_newest-Perm vs))

-- The keys of a bucket that answers, and none of one that does not: `unwrap_or_default()`.
abbrev pub listed_keys : Result String (List String) → List String
listed_keys (ok ks) = ks
listed_keys (err e) = []

module _ {P : Platform} {S : Type 0} (bucket : Bucket P S) (s : S) where
  with_found-filter_map :
      (o : Option (Json P)) (k : String) (ks : List String)
      → get_proposal bucket k s ≡ o
      → filter_map (λ k. get_proposal bucket k s) (k ∷ ks)
        ≡ with_found bucket o (filter_map (λ k. get_proposal bucket k s) ks)
  unfolding filter_map
  with_found-filter_map none k ks e = rw e refl
  with_found-filter_map (some v) k ks e = rw e refl

  collected-filter_map :
      (ks : List String) → collected bucket ks s ≡ filter_map (λ k. get_proposal bucket k s) ks
  unfolding collected filter_map
  collected-filter_map [] = refl
  collected-filter_map (k ∷ ks) =
      ap (λ vs. with_found bucket (get_proposal bucket k s) vs) (collected-filter_map ks)
      ∙ sym (with_found-filter_map (get_proposal bucket k s) k ks refl)

  all_of-filter_map :
      (keys : Result String (List String))
      → all_of bucket keys s ≡ filter_map (λ k. get_proposal bucket k s) (listed_keys keys)
  unfolding filter_map
  all_of-filter_map (ok ks) = collected-filter_map ks
  all_of-filter_map (err e) = refl

-- The listing is a rearrangement of the proposals read under the bucket's keys, key by key, without
-- the keys under which none can be read, and empty where the bucket lists no keys; and no proposal
-- stands before a newer one.
pub list-IsNewestFirst :
    {P : Platform} {S : Type 0} (bucket : Bucket P S) (as_u64 : P.Number → Option ℕ)
    (keys : S → Result String (List String)) (s : S)
    → IsNewestFirst as_u64 (list bucket as_u64 keys s)
      × Perm
          (list bucket as_u64 keys s)
          (filter_map (λ k. get_proposal bucket k s) (listed_keys (keys s)))
unfolding list
list-IsNewestFirst bucket as_u64 keys s =
    let vs = all_of bucket (keys s) s in
    (
      sort_newest-IsNewestFirst as_u64 vs,
      subst (λ ws. Perm (sort_newest as_u64 vs) ws) (all_of-filter_map bucket s (keys s))
          (sort_newest-Perm as_u64 vs),
    )
