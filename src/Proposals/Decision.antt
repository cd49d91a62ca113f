-- ===== src/Proposals/Decision.antt =====
-- Submitting and deciding a proposal (core/src/proposals.rs, `submit`, `set_status`).
use vejas.Base.{ℕ, String, ◌≡◌, ◌≢◌, refl, sym, ◌∙◌, ap, Option, none, some, eq_iff, arith}
use vejas.Exec.{Result, ok, err}
use vejas.Vjs.Value.{Platform, Json, Map, string, object, get, get_field}
use vejas.Versions.{Bucket, parsed}
use vejas.Versions.GitWins.{BucketLaws, Readable}
use vejas.Proposals.{proposal_record, decided, stored, submit, get_proposal, transition, set_status}

get-insert_other :
    (P : Platform) (j k : String) (v : Json P) (m : Map P)
    → j ≢ k
    → get k (P.insert j v m) ≡ get k m
get-insert_other P j k v m ne = ground (arith, P.get-insert j k v m, eq_iff j k, ne)

module _ (P : Platform) (status : String) (ts : ℕ) (m : Map P) where
  pub decided-status :
      (by : Option String)
      → get_field "status" (decided P status by ts (object m)) ≡ some (string status)
  unfolding decided get_field
  decided-status none = P.get-insert "decided_at" "status" _ _ ∙ P.get-insert "status" "status" _ _
  decided-status (some by) =
      P.get-insert "decided_by" "status" _ _
      ∙ P.get-insert "decided_at" "status" _ _
      ∙ P.get-insert "status" "status" _ _

  decided-other :
      (k : String) (by : Option String)
      → "status" ≢ k
      → "decided_at" ≢ k
      → "decided_by" ≢ k
      → get_field k (decided P status by ts (object m)) ≡ get k m
  unfolding decided get_field
  decided-other k none a b c =
      get-insert_other P "decided_at" k _ _ b ∙ get-insert_other P "status" k _ _ a
  decided-other k (some by) a b c =
      get-insert_other P "decided_by" k _ _ c
      ∙ get-insert_other P "decided_at" k _ _ b
      ∙ get-insert_other P "status" k _ _ a

module _ {P : Platform} {S : Type 0} (bucket : Bucket P S) (laws : BucketLaws bucket) where
  -- What the bucket took reads back.
  pub stored-get :
      (id : String) (v out : Json P) (r : Result String ℕ × S) (s : S)
      → r ≡ bucket.put id (P.to_string v) s
      → Readable bucket v
      → (stored bucket v r).0 ≡ ok out
      → (get_proposal bucket id (stored bucket v r).1 ≡ some v) × (v ≡ out)
  unfolding get_proposal
  stored-get id v out (ok n, s') s e readable h =
      let took : (bucket.put id (P.to_string v) s).0 ≡ ok n = sym (ap (λ r. r.0) e) in
      let state : s' ≡ (bucket.put id (P.to_string v) s).1 = ap (λ r. r.1) e in
      (
        ap (λ t. parsed bucket (bucket.get id t)) state
            ∙ ap (λ r. parsed bucket r) (laws.get-put id (P.to_string v) n s took)
            ∙ readable,
        ground (arith, h),
      )
  stored-get id v out (err e', s') s e readable h = ground (arith, h)

  -- A proposal that was submitted, once the bucket has taken it, reads back as the record that
  -- `submit` returned, is pending, and has the baseline and the payload it was submitted with.
  pub get_proposal-submit :
      (id kind : String) (payload : Json P) (author baseline : String) (evidence : Json P) (ts : ℕ)
      (s : S) (out : Json P)
      → Readable bucket (object (proposal_record P id kind payload author baseline evidence ts))
      → (submit bucket id kind payload author baseline evidence ts s).0 ≡ ok out
      → (get_proposal bucket id (submit bucket id kind payload author baseline evidence ts s).1
          ≡ some out)
        × (get_field "status" out ≡ some (string "pending"))
        × (get_field "baseline" out ≡ some (string baseline))
        × (get_field "payload" out ≡ some payload)
  unfolding submit proposal_record get_field
  get_proposal-submit id kind payload author baseline evidence ts s out readable h =
      let v = object (proposal_record P id kind payload author baseline evidence ts) in
      let (read, same) = stored-get id v out (bucket.put id (P.to_string v) s) s refl readable h in
      let field : (k : String) (w : Json P) → get_field k v ≡ some w → get_field k out ≡ some w =
        λ k w e. sym (ap (get_field k) same) ∙ e in
      (
        read ∙ ap some same,
        field "status" _ (P.get-insert "status" "status" _ _),
        field "baseline" _ (
            P.get-insert "status" "baseline" _ _
            ∙ P.get-insert "evidence" "baseline" _ _
            ∙ P.get-insert "baseline" "baseline" _ _),
        field "payload" _ (
            P.get-insert "status" "payload" _ _
            ∙ P.get-insert "evidence" "payload" _ _
            ∙ P.get-insert "baseline" "payload" _ _
            ∙ P.get-insert "created_at" "payload" _ _
            ∙ P.get-insert "author" "payload" _ _
            ∙ P.get-insert "payload" "payload" _ _),
      )

  -- A decision on a proposal that is in the queue, once the bucket has taken it: the proposal reads
  -- back as the record returned, with the new status, and every field but those of the decision is
  -- as it was.
  pub get_proposal-set_status :
      (id status : String) (by : Option String) (ts : ℕ) (s : S) (m : Map P) (out : Json P)
      → get_proposal bucket id s ≡ some (object m)
      → Readable bucket (decided P status by ts (object m))
      → (set_status bucket id status by ts s).0 ≡ ok out
      → (get_proposal bucket id (set_status bucket id status by ts s).1 ≡ some out)
        × (get_field "status" out ≡ some (string status))
        × ((k : String)
            → "status" ≢ k
            → "decided_at" ≢ k
            → "decided_by" ≢ k
            → get_field k out ≡ get k m)
  unfolding set_status
  get_proposal-set_status id status by ts s m out held readable h =
      let v = decided P status by ts (object m) in
      let step = transition bucket id status by ts s in
      let (read, same) =
        stored-get id v out (bucket.put id (P.to_string v) s) s refl readable
          (sym (ap (λ o. (step o).0) held) ∙ h) in
      (
        ap (λ o. get_proposal bucket id (step o).1) held ∙ read ∙ ap some same,
        sym (ap (get_field "status") same) ∙ decided-status P status ts m by,
        λ k a b c. sym (ap (get_field k) same) ∙ decided-other P status ts m k by a b c,
      )
