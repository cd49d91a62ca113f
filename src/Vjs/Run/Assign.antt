-- ===== src/Vjs/Run/Assign.antt =====
-- Assignments to a path (core/src/vjs.rs, `Stmt::Assign`, `set_path`).
use mathlib.Core.Logic.{◌≢◌}
use vejas.Base.{String, ◌≡◌, ◌∙◌, ap, some, List, [], ◌∷◌, arith, eq_iff, unwrap_or}
use vejas.Vjs.Value.{Value, Platform, Json, Map, null, object, no_entries, get}
use vejas.Vjs.Run.{as_map, set_path, assign_path}

-- What `value.a.b.c` reads of objects: null where there is no such field.
abbrev pub value_at : {N : Type 0} → List String → Value N → Value N
value_at [] v = v
value_at (k ∷ ks) (object m) = value_at ks (unwrap_or (get k m) null)
value_at (k ∷ ks) _ = null

module _ (P : Platform) where
  get-insert_self : (k : String) (v : Json P) (m : Map P) → get k (P.insert k v m) ≡ some v
  get-insert_self k v m = ground (arith, P.get-insert k k v m, eq_iff k k)

  value_at-set_path :
      (k : String) (ks : List String) (v root : Json P)
      → value_at (k ∷ ks) (set_path P (k ∷ ks) v root) ≡ v
  unfolding set_path
  value_at-set_path k [] v root = rw (get-insert_self k v (as_map root))
  value_at-set_path k (j ∷ ks) v root =
      let inner = unwrap_or (get k (as_map root)) (object no_entries) in
      let written = set_path P (j ∷ ks) v inner in
      ap (λ o. value_at (j ∷ ks) (unwrap_or o null)) (get-insert_self k written (as_map root))
      ∙ value_at-set_path j ks v inner

  -- After `k.ks = v` the path reads `v`, and another variable is as it was; whatever stood on the
  -- way and is no object was replaced by one.
  pub assign_path-reads :
      (k j : String) (ks : List String) (v : Json P) (vars : Map P)
      → k ≢ j
      → (value_at ks (unwrap_or (get k (assign_path P (k ∷ ks) v vars)) null) ≡ v)
        × (get j (assign_path P (k ∷ ks) v vars) ≡ get j vars)
  unfolding assign_path
  assign_path-reads k j [] v vars other =
      (rw (get-insert_self k v vars), ground (arith, P.get-insert k j v vars, eq_iff k j))
  assign_path-reads k j (i ∷ ks) v vars other =
      let inner = unwrap_or (get k vars) (object no_entries) in
      let written = set_path P (i ∷ ks) v inner in
      (
        ap (λ o. value_at (i ∷ ks) (unwrap_or o null)) (get-insert_self k written vars)
            ∙ value_at-set_path i ks v inner,
        ground (arith, P.get-insert k j written vars, eq_iff k j),
      )
