-- ===== src/Governance/Decided.antt =====
-- What a decision may change (core/src/main.rs, `decide_proposal`).
use vejas.Base.{
  ℕ, String, ◌≡◌, refl, sym, ◌∙◌, ap, subst, ◌⊎◌, inl, inr, Bool, true, false, not, Option, none,
  some, str_eq, eq_iff, unwrap_or, if_cases, if◌then◌else◌, arith,
}
use vejas.Exec.{Result, ok, err, Exec, continue, pure, raise, gets, modify, ◌>>=◌}
use vejas.Vjs.Value.{Platform, Json, null, get_field}
use vejas.Versions.{
  Bucket, Db, Outcome, text_field, key_of, hash_content, get_version, evict, settle, resolve_source,
}
use vejas.Proposals.{get_proposal, set_status}
use vejas.Governance.State.{
  Paths, guard_path, Refused, message, Applied, Files, Around, Site, Act, need, told, opened,
  read_file, effective,
}
use vejas.Governance.{
  effective_source_hash, status_set, record_status, reject, expire, approve_at, approve_proposal,
  is_pending, decide_found, decide_proposal,
}

-- What holds of a call, by the ways its first step can end.
module _ {F X A B : Type 0} (T : Result (Refused F) B × X → Type 0) (f : A → Exec (Refused F) X B)
    (s : X) where
  pub bind-cases :
      (m : Exec (Refused F) X A)
      → ((a : A) (t : X) → m s ≡ (ok a, t) → T (f a t))
      → ((e : Refused F) (t : X) → m s ≡ (err e, t) → T (err e, t))
      → T ((m >>= f) s)
  unfolding ◌>>=◌
  bind-cases m h k = by_result (m s) refl
    where
      by_result : (r : Result (Refused F) A × X) → m s ≡ r → T (continue r.0 f r.1)
      by_result (ok a, t) e = h a t e
      by_result (err x, t) e = k x t e

  pub told-cases :
      (r : Result String A)
      → ((a : A) → r ≡ ok a → T (f a s))
      → ((text : String) → T (err (message text), s))
      → T ((told r >>= f) s)
  unfolding ◌>>=◌ pure raise
  told-cases (ok a) h k = h a refl
  told-cases (err text) h k = k text

  pub need-cases :
      (o : Option A) (text : String)
      → ((a : A) → o ≡ some a → T (f a s))
      → T (err (message text), s)
      → T ((need o text >>= f) s)
  unfolding ◌>>=◌ pure raise
  need-cases (some a) text h k = h a refl
  need-cases none text h k = k

module _ {F X B : Type 0} (T : Result (Refused F) B × X → Type 0)
    (f : Unit {0} → Exec (Refused F) X B) (s : X) where
  pub opened-cases :
      (b : Bool) (text : String)
      → T (f tt s)
      → T (err (message text), s)
      → T ((opened b text >>= f) s)
  unfolding ◌>>=◌ pure raise
  opened-cases true text h k = h
  opened-cases false text h k = k

module _ (P : Platform) {S D : Type 0} (bucket : Bucket P S) (files : Files D) (paths : Paths)
    (from_str : String → Option (Json P)) (around : Around) where
  read_file-cases :
      {B : Type 0} (T : Result (Refused P.Float) B × Site P S D → Type 0) (f : String → Act P S D B)
      (path : String) (w : Site P S D)
      → ((text : String) → T (f text w))
      → ((e : Refused P.Float) → T (err e, w))
      → T ((read_file files path >>= f) w)
  unfolding read_file ◌>>=◌ gets pure raise
  read_file-cases T f path w h k = by_text (files.read_to_string path w.disk)
    where
      by_text :
          (r : Result String String)
          → T (continue (told {F = P.Float} r w).0 f (told {F = P.Float} r w).1)
      by_text (ok text) = h text
      by_text (err text) = k (message text)

  -- The bucket of versions is as it was, or a flow's key was deleted from it.
  abbrev pub Deletes : Db P S → Db P S → Type 0
  Deletes db db' =
      (db'.kv ≡ db.kv) ⊎ ((flow : String) × (db'.kv ≡ (bucket.delete (key_of flow) (db.kv)).1))

  settle-Deletes :
      (flow base : String) (ts : ℕ) (o : Option (Json P)) (db : Db P S)
      → Deletes db (settle bucket flow base ts o db).1
  unfolding settle evict
  settle-Deletes flow base ts none db = inl refl
  settle-Deletes flow base ts (some ov) db =
      if_cases (λ (r : (String × Outcome) × Db P S). Deletes db r.1)
        (str_eq (unwrap_or (text_field "parent" ov) "") (hash_content base)) (λ t. inl refl)
        (λ f. inr (flow, refl))

  effective-Deletes :
      (b : Bool) (flow base : String) (ts : ℕ) (db : Db P S)
      → Deletes db (resolve_source (if b then some bucket else none) flow base ts db).1
  unfolding resolve_source
  effective-Deletes true flow base ts db =
      settle-Deletes flow base ts (get_version bucket flow (db.kv)) db
  effective-Deletes false flow base ts db = inl refl

  SameDisk : {B : Type 0} → Site P S D → Result (Refused P.Float) B × Site P S D → Type 0
  SameDisk w r = r.1.disk ≡ w.disk

  -- Reading which source runs writes no file.
  effective_source_hash-SameDisk :
      (file : String) (w : Site P S D)
      → SameDisk w (effective_source_hash P bucket files paths from_str around file w)
  unfolding effective_source_hash SameDisk ◌>>=◌ pure effective
  effective_source_hash-SameDisk file w =
      need-cases (SameDisk w) _ w (guard_path paths file) "path not allowed"
        (λ path e. read_file-cases (SameDisk w) _ path w (λ baseline. refl) (λ e'. refl)) refl

  DeletesAt : {B : Type 0} → Site P S D → Result (Refused P.Float) B × Site P S D → Type 0
  DeletesAt w r = Deletes w.overlays r.1.overlays

  effective_source_hash-Deletes :
      (file : String) (w : Site P S D)
      → DeletesAt w (effective_source_hash P bucket files paths from_str around file w)
  unfolding effective_source_hash DeletesAt ◌>>=◌ pure effective
  effective_source_hash-Deletes file w =
      need-cases (DeletesAt w) _ w (guard_path paths file) "path not allowed"
        (λ path e.
          read_file-cases (DeletesAt w) _ path w
            (λ baseline.
              effective-Deletes around.versions_open _ baseline around.read_at w.overlays)
            (λ e'. inl refl))
        (inl refl)

  abbrev hash_at : String → Act P S D String
  hash_at = effective_source_hash P bucket files paths from_str around

  abbrev payload_file : Json P → Option String
  payload_file p = text_field "file" (unwrap_or (get_field "payload" p) null)

  -- The grounds on which a change may be applied: it is approved, the proposal is in the queue and is
  -- pending, and the source that runs has the hash that the proposal was made against.
  pub record Grounds (id : String) (approve : Bool) (w : Site P S D) : Type 0 where
    pub asked : approve ≡ true
    pub proposal : Json P
    pub found : get_proposal bucket id w.queue ≡ some proposal
    pub pending : is_pending P bucket files paths from_str around proposal ≡ true
    pub file : String
    pub names : payload_file proposal ≡ some file
    pub unmoved : (hash_at file w).0 ≡ ok (unwrap_or (text_field "baseline" proposal) "")

  -- No file is written and no version put: of the bucket of versions, at most one flow's key is
  -- deleted, and that by reading which source of a flow runs.
  pub record Untouched (w x : Site P S D) : Type 0 where
    pub disk : x.disk ≡ w.disk
    pub overlays :
        (x.overlays ≡ w.overlays) ⊎ ((file : String) × (x.overlays ≡ (hash_at file w).1.overlays))
    pub versions : Deletes w.overlays x.overlays

  abbrev pub Decision : Type 0
  Decision = Result (Refused P.Float) (Json P × Option (Applied P.Number)) × Site P S D

  abbrev pub MayTouch : String → Bool → Site P S D → Decision → Type 0
  MayTouch id approve w r = Grounds id approve w ⊎ Untouched w r.1

  untouched : (w : Site P S D) → Untouched w w
  untouched w = record { disk = refl; overlays = inl refl; versions = inl refl }

  -- Setting a status touches the queue alone.
  status_set-cases :
      (w t : Site P S D) (r : Result String (Json P) × S)
      (f : Json P → Act P S D (Json P × Option (Applied P.Number)))
      → Untouched w t
      → ((v : Json P) (u : Site P S D) → Untouched w u → Untouched w (f v u).1)
      → Untouched w
          (continue
            (status_set P bucket files paths from_str around t r).0
            f
            (status_set P bucket files paths from_str around t r).1).1
  status_set-cases w t (ok v, s) f h k =
      k v (record t { queue = s })
        (record { disk = h.disk; overlays = h.overlays; versions = h.versions })
  status_set-cases w t (err text, s) f h k = record {
    disk = h.disk;
    overlays = h.overlays;
    versions = h.versions;
  }

  reject-Untouched :
      (id by : String) (w : Site P S D)
      → Untouched w (reject P bucket files paths from_str around id by w).1
  unfolding reject record_status ◌>>=◌ modify pure
  reject-Untouched id by w =
      status_set-cases w w (set_status bucket id "rejected" (some by) around.decided_at w.queue) _
        (untouched w)
        λ v u h. record { disk = h.disk; overlays = h.overlays; versions = h.versions }

  expire-Untouched :
      (id : String) (w t : Site P S D)
      → Untouched w t
      → Untouched w (expire P bucket files paths from_str around id t).1
  unfolding expire record_status ◌>>=◌ modify raise
  expire-Untouched id w t h =
      status_set-cases w t (set_status bucket id "expired" none around.decided_at t.queue) _ h
        λ v u k. record { disk = k.disk; overlays = k.overlays; versions = k.versions }

  approve_at-MayTouch :
      (id by : String) (p : Json P) (file : String) (w : Site P S D)
      → get_proposal bucket id w.queue ≡ some p
      → is_pending P bucket files paths from_str around p ≡ true
      → payload_file p ≡ some file
      → MayTouch id true w (approve_at P bucket files paths from_str around id by p file w)
  unfolding approve_at SameDisk DeletesAt
  approve_at-MayTouch id by p file w found pending names =
      let base = unwrap_or (text_field "baseline" p) "" in
      bind-cases (MayTouch id true w) _ w (hash_at file)
        (λ current t e.
          if_cases
            (λ (m : Act P S D (Json P × Option (Applied P.Number))). MayTouch id true w (m t))
            (str_eq current base)
            (λ h. inl (record {
              asked = refl;
              proposal = p;
              found = found;
              pending = pending;
              file = file;
              names = names;
              unmoved = ap (λ r. r.0) e ∙ ap ok (ground (arith, h, eq_iff current base));
            }))
            (λ h. inr (expire-Untouched id w t (read_from file t (ap (λ r. r.1) e)))))
        (λ x t e. inr (read_from file t (ap (λ r. r.1) e)))
    where
      read_from : (file : String) (t : Site P S D) → (hash_at file w).1 ≡ t → Untouched w t
      read_from file t e = record {
        disk = subst (λ u. u.disk ≡ w.disk) e (effective_source_hash-SameDisk file w);
        overlays = inr (file, sym (ap (λ u. u.overlays) e));
        versions =
            subst (λ u. Deletes w.overlays u.overlays) e (effective_source_hash-Deletes file w);
      }

  decided-MayTouch :
      (id : String) (approve : Bool) (by : String) (p : Json P) (w : Site P S D)
      → get_proposal bucket id w.queue ≡ some p
      → is_pending P bucket files paths from_str around p ≡ true
      → MayTouch id approve w (
          (if approve
              then approve_proposal P bucket files paths from_str around id by p
              else reject P bucket files paths from_str around id by)
            w)
  unfolding approve_proposal
  decided-MayTouch id true by p w found pending =
      need-cases (MayTouch id true w) _ w (payload_file p) "payload.file"
        (λ file names. approve_at-MayTouch id by p file w found pending names) (inr (untouched w))
  decided-MayTouch id false by p w found pending = inr (reject-Untouched id by w)

  decide_found-MayTouch :
      (id : String) (approve : Bool) (by : String) (p : Json P) (w : Site P S D)
      → get_proposal bucket id w.queue ≡ some p
      → MayTouch id approve w (decide_found P bucket files paths from_str around id approve by p w)
  unfolding decide_found raise
  decide_found-MayTouch id approve by p w found =
      let pending = is_pending P bucket files paths from_str around p in
      if_cases (λ (m : Act P S D (Json P × Option (Applied P.Number))). MayTouch id approve w (m w))
        (not pending) (λ t. inr (untouched w))
        (λ f. decided-MayTouch id approve by p w found (ground (arith, f)))

  -- A decision touches the files and the versions only on its grounds: it approves a proposal that is
  -- in the queue and pending, and the source that runs has the hash that the proposal was made
  -- against. Every other call leaves the files, and of the bucket of versions at most one flow's key
  -- is deleted: it puts no version.
  pub decide_proposal-MayTouch :
      (id : String) (approve : Bool) (by : String) (w : Site P S D)
      → MayTouch id approve w (decide_proposal P bucket files paths from_str around id approve by w)
  unfolding decide_proposal ◌>>=◌ gets
  decide_proposal-MayTouch id approve by w =
      let T = MayTouch id approve w in
      let still : Untouched w w = untouched w in
      told-cases T _ w around.connect
        (λ u e.
          opened-cases T _ w around.queue_opens "proposal store unavailable"
            (need-cases T _ w (get_proposal bucket id w.queue) "proposal not found"
              (λ p found. decide_found-MayTouch id approve by p w found) (inr still))
            (inr still))
        (λ text. inr still)
