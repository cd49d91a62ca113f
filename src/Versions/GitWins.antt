-- ===== src/Versions/GitWins.antt =====
-- Which source a flow runs (core/src/versions.rs, `resolve_source`, `put_version`): git wins.
use vejas.Base.{
  ◌∷◌, [], ◌++◌, suc, ◌-◌, length, drop, subst, ℕ, String, ◌≡◌, ◌≢◌, refl, sym, ap, ◌∙◌, inl, inr,
  Bool, true, Bool-cases, Option, none, some, List, unwrap_or, if◌then◌else◌, str_eq, eq_iff, arith,
}
use vejas.Exec.{ok, OnOk, Result-cases}
use vejas.Versions.Log.{note_eviction-newest}
use vejas.Vjs.Value.{Platform, Json, get_field, as_str, object}
use vejas.Versions.{
  Bucket, eviction_record, Outcome, evicted, Db, baseline, overlay, text_field, text_of, parsed,
  hash_content, key_of, version_record, get_version, put_version, evict, settle, resolve_source,
}

-- What a bucket that answers is documented to do.
pub record BucketLaws {P : Platform} {S : Type 0} (bucket : Bucket P S) : Type 0 where
  pub get-put :
      (k v : String) (n : ℕ) (s : S)
      → (bucket.put k v s).0 ≡ ok n
      → bucket.get k ((bucket.put k v s).1) ≡ ok (some v)
  pub get-delete :
      (k : String) (s : S)
      → (bucket.delete k s).0 ≡ ok tt
      → bucket.get k ((bucket.delete k s).1) ≡ ok none

-- serde_json reads a value as it wrote it.
abbrev pub Readable : {P : Platform} {S : Type 0} → Bucket P S → Json P → Type 0
Readable {P = P} bucket v = bucket.from_slice (P.to_string v) ≡ some v

module _ {P : Platform} {S : Type 0} (bucket : Bucket P S) (flow base : String) (ts : ℕ) where
  -- The overlay that a source comes from: its parent is the hash of the baseline.
  abbrev pub Forked : Option (Json P) → String → Type 0
  Forked o source =
      (ov : Json P) × (o ≡ some ov)
      × (unwrap_or (text_field "parent" ov) "" ≡ hash_content base)
      × (text_field "source" ov ≡ some source)

  evict-base : (parent : String) (db : Db P S) → (evict bucket flow base parent ts db).0.0 ≡ base
  unfolding evict
  evict-base parent db = refl

  texts_agree : (a b : String) → str_eq a b ≡ true → a ≡ b
  texts_agree a b e = ground (arith, eq_iff a b)

  from_overlay :
      (o : Option String) (source : String)
      → source ≡ unwrap_or o base
      → source ≢ base
      → o ≡ some source
  from_overlay none source e h = elim (h e) [ ]
  from_overlay (some t) source e h = ap (λ x. some x) (sym e)

  settle-Forked :
      (o : Option (Json P)) (db : Db P S)
      → (settle bucket flow base ts o db).0.0 ≢ base
      → Forked o (settle bucket flow base ts o db).0.0
  unfolding settle
  settle-Forked none db h = elim (h refl) [ ]
  settle-Forked (some ov) db h =
      let parent = unwrap_or (text_field "parent" ov) "" in
      let source = unwrap_or (text_field "source" ov) base in
      let lost = evict bucket flow base parent ts db in
      let outcome_of = λ (b : Bool). (if b then ((source, overlay), db) else lost).0.0 in
      elim (Bool-cases (str_eq parent (hash_content base))) [
        | inl e ↦ (
          ov,
          refl,
          texts_agree _ _ e,
          from_overlay (text_field "source" ov) _ (ap outcome_of e) h,
        )
        | inr e ↦ elim (h (ap outcome_of e ∙ evict-base parent db)) [ ]
      ]

  -- A source other than the baseline comes from the flow's overlay, whose recorded parent is the
  -- hash of that very baseline.
  pub resolve_source-Forked :
      (db : Db P S)
      → (resolve_source (some bucket) flow base ts db).0.0 ≢ base
      → Forked (get_version bucket flow (db.kv)) (resolve_source (some bucket) flow base ts db).0.0
  unfolding resolve_source
  resolve_source-Forked db h = settle-Forked (get_version bucket flow (db.kv)) db h

  -- The record of a version, as `get_version` returns it.
  abbrev pub version : String → String → String → ℕ → Json P
  version source parent_hash actor at = object (version_record P flow source parent_hash actor at)

  get_version-put_version :
      (source parent_hash actor : String) (at n : ℕ) (s : S)
      → BucketLaws bucket
      → Readable bucket (version source parent_hash actor at)
      → (put_version bucket flow source parent_hash actor at s).0 ≡ ok n
      → get_version bucket flow ((put_version bucket flow source parent_hash actor at s).1)
        ≡ some (version source parent_hash actor at)
  unfolding get_version put_version
  get_version-put_version source parent_hash actor at n s laws readable e =
      let text = P.to_string (version source parent_hash actor at) in
      ap (λ r. parsed bucket r) (laws.get-put (key_of flow) text n s e) ∙ readable

  text_field-parent :
      (source parent_hash actor : String) (at : ℕ)
      → text_field "parent" (version source parent_hash actor at) ≡ some parent_hash
  unfolding text_field get_field as_str version_record
  text_field-parent source parent_hash actor at =
      ap (λ o. text_of o)
        (P.get-insert "ts" "parent" _ _
          ∙ P.get-insert "actor" "parent" _ _
          ∙ P.get-insert "hash" "parent" _ _
          ∙ P.get-insert "parent" "parent" _ _)

  text_field-source :
      (source parent_hash actor : String) (at : ℕ)
      → text_field "source" (version source parent_hash actor at) ≡ some source
  unfolding text_field get_field as_str version_record
  text_field-source source parent_hash actor at =
      ap (λ o. text_of o)
        (P.get-insert "ts" "source" _ _
          ∙ P.get-insert "actor" "source" _ _
          ∙ P.get-insert "hash" "source" _ _
          ∙ P.get-insert "parent" "source" _ _
          ∙ P.get-insert "source" "source" _ _)

  get_version-delete :
      (s : S)
      → BucketLaws bucket
      → OnOk
          (λ _. get_version bucket flow ((bucket.delete (key_of flow) s).1) ≡ none)
          (bucket.delete (key_of flow) s).0
  unfolding get_version
  get_version-delete s laws = elim (Result-cases (bucket.delete (key_of flow) s).0) [
    | inl (t, gone) ↦ rw gone (ap (λ r. parsed bucket r) (laws.get-delete (key_of flow) s gone))
    | inr (e, kept) ↦ rw kept tt
  ]

  -- An eviction, written out: the baseline runs, the flow's key is deleted, and the record is the
  -- newest of at most 50 in the log.
  evict-effect :
      (parent : String) (db : Db P S)
      → evict bucket flow base parent ts db ≡ (
        (base, evicted parent (hash_content base)),
        record {
          kv = (bucket.delete (key_of flow) (db.kv)).1;
          evictions =
              drop
                (suc (length db.evictions) - 50)
                (db.evictions ++ (eviction_record P flow parent (hash_content base) ts ∷ []));
        },
      )
  unfolding evict
  evict-effect parent db =
      let kept = (bucket.delete (key_of flow) (db.kv)).1 in
      let outcome_of : List (Json P) → (String × Outcome) × Db P S = λ log.
        ((base, evicted parent (hash_content base)), record { kv = kept; evictions = log }) in
      ap outcome_of
        (note_eviction-newest bucket flow parent (hash_content base) ts (db.evictions)).0

  -- Once a version is published, the next resolution gives the version as an overlay and changes
  -- nothing where the baseline has the parent's hash. Where it has not, it gives the baseline with
  -- an eviction that names both hashes, deletes the flow's key, adds the eviction's record to the
  -- log, and drops the oldest above 50. Where the bucket answers the deletion with success, no
  -- version is found in it.
  pub resolve_source-put_version :
      (source parent_hash actor : String) (at n : ℕ) (s s' : S) (log : List (Json P))
      → BucketLaws bucket
      → Readable bucket (version source parent_hash actor at)
      → put_version bucket flow source parent_hash actor at s ≡ (ok n, s')
      → (resolve_source (some bucket) flow base ts (record { kv = s'; evictions = log }) ≡ (
          if str_eq parent_hash (hash_content base)
          then ((source, overlay), record { kv = s'; evictions = log })
          else (
            (base, evicted parent_hash (hash_content base)),
            record {
              kv = (bucket.delete (key_of flow) s').1;
              evictions =
                  drop
                    (suc (length log) - 50)
                    (log ++ (eviction_record P flow parent_hash (hash_content base) ts ∷ []));
            },
          )))
        × OnOk
            (λ _. get_version bucket flow ((bucket.delete (key_of flow) s').1) ≡ none)
            (bucket.delete (key_of flow) s').0
  unfolding resolve_source settle
  resolve_source-put_version source parent_hash actor at n s s' log laws readable e =
      let db : Db P S = record { kv = s'; evictions = log } in
      let settled = λ (p q : Option String).
        if str_eq (unwrap_or p "") (hash_content base)
        then ((unwrap_or q base, overlay), db)
        else evict bucket flow base (unwrap_or p "") ts db in
      let found : get_version bucket flow s' ≡ some (version source parent_hash actor at) =
        subst (λ t. get_version bucket flow t ≡ some (version source parent_hash actor at))
          (ap (λ t. t.1) e)
          (get_version-put_version source parent_hash actor at n s laws readable
            (ap (λ t. t.0) e)) in
      (
        ap (λ o. settle bucket flow base ts o db) found
            ∙ ap (λ p. settled p (text_field "source" (version source parent_hash actor at)))
                (text_field-parent source parent_hash actor at)
            ∙ ap (λ q. settled (some parent_hash) q) (text_field-source source parent_hash actor at)
            ∙ ap
                (λ lost.
                  if str_eq parent_hash (hash_content base) then ((source, overlay), db) else lost)
                (evict-effect parent_hash db),
        get_version-delete s' laws,
      )

  -- When an overlay is evicted and the bucket deletes it, the next resolution of the flow, against
  -- any baseline, finds no overlay and changes nothing.
  pub resolve_source-evict :
      (parent next_base : String) (next_ts : ℕ) (db : Db P S)
      → BucketLaws bucket
      → (bucket.delete (key_of flow) (db.kv)).0 ≡ ok tt
      → (let db' = (evict bucket flow base parent ts db).1 in
          resolve_source (some bucket) flow next_base next_ts db' ≡ ((next_base, baseline), db'))
  unfolding resolve_source settle evict get_version
  resolve_source-evict parent next_base next_ts db laws e =
      let db' = (evict bucket flow base parent ts db).1 in
      ap (λ r. settle bucket flow next_base next_ts (parsed bucket r) db')
        (laws.get-delete (key_of flow) (db.kv) e)
