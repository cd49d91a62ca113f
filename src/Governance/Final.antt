-- ===== src/Governance/Final.antt =====
-- A decision is taken once (core/src/main.rs, `decide_proposal`).
use vejas.Base.{
  ℕ, String, ◌≡◌, ◌≢◌, refl, sym, ◌∙◌, ap, subst, Bool, true, false, not, ◌∷◌, Option, none, some,
  str_eq, eq_iff, unwrap_or, if_cases, if◌then◌else◌, arith,
}
use vejas.Exec.{Result, ok, err, continue, pure, raise, gets, modify, ◌>>=◌}
use vejas.Vjs.Value.{Platform, Json, null, bool, number, string, array, object, as_str, get_field}
use vejas.Versions.{Bucket, text_of, text_field}
use vejas.Versions.GitWins.{BucketLaws, Readable}
use vejas.Proposals.{decided, stored, transition, get_proposal, set_status}
use vejas.Proposals.Decision.{stored-get, decided-status}
use vejas.Governance.State.{Paths, Refused, Applied, approved, Files, Around, Site, Act}
use vejas.Governance.Apply.{apply_approved}
use vejas.Governance.{
  effective_source_hash, status_set, record_status, reject, expire, apply_and_record, approve_at,
  approve_proposal, is_pending, decide_found, decide_proposal,
}
use vejas.Governance.Decided.{bind-cases, told-cases, need-cases, opened-cases}

err-ne_ok : {E A : Type 0} {x : E} {a : A} → err x ≡ ok a → ⊥
err-ne_ok e = ground (arith, e)

ok-inj : {E A : Type 0} {a b : A} → ◌≡◌ {A = Result E A} (ok a) (ok b) → a ≡ b
ok-inj h = ground (arith, h)

some-inj : {A : Type 0} {a b : A} → some a ≡ some b → a ≡ b
some-inj h = ground (arith, h)

rejected-ne : ◌≢◌ {A = String} "rejected" "pending"
rejected-ne e = ground (arith, e, eq_iff "rejected" "pending")

expired-ne : ◌≢◌ {A = String} "expired" "pending"
expired-ne e = ground (arith, e, eq_iff "expired" "pending")

approved-ne : ◌≢◌ {A = String} "approved" "pending"
approved-ne e = ground (arith, e, eq_iff "approved" "pending")

pending_status : (o : Option String) → str_eq (unwrap_or o "") "pending" ≡ true → o ≡ some "pending"
pending_status none e = ground (arith, e)
pending_status (some t) e = ap some (ground (arith, e, eq_iff t "pending"))

module _ (P : Platform) {S D : Type 0} (bucket : Bucket P S) (laws : BucketLaws bucket)
    (files : Files D) (paths : Paths) (from_str : String → Option (Json P)) where
  abbrev pub Out : Type 0
  Out = Json P × Option (Applied P.Number)

  abbrev pub Decision : Type 0
  Decision = Result (Refused P.Float) Out × Site P S D

  -- The queue has the proposal, with a status other than pending.
  pub record IsDecided (id : String) (s : S) : Type 0 where
    pub proposal : Json P
    pub found : get_proposal bucket id s ≡ some proposal
    pub status : text_field "status" proposal ≢ some "pending"

  decided-ne_pending :
      (status : String) (by : Option String) (ts : ℕ) (v : Json P)
      → status ≢ "pending"
      → text_field "status" (decided P status by ts v) ≢ some "pending"
  unfolding decided text_field get_field as_str
  decided-ne_pending status by ts (object m) ne e =
      ne (some-inj (sym (ap text_of (decided-status P status ts m by)) ∙ e))
  decided-ne_pending status by ts null ne e = ground (arith, e)
  decided-ne_pending status by ts (bool b) ne e = ground (arith, e)
  decided-ne_pending status by ts (number n) ne e = ground (arith, e)
  decided-ne_pending status by ts (string t) ne e = ground (arith, e)
  decided-ne_pending status by ts (array vs) ne e = ground (arith, e)

  stored-ok : (v out : Json P) (r : Result String ℕ × S) → (stored bucket v r).0 ≡ ok out → v ≡ out
  stored-ok v out (ok n, s) h = ok-inj h
  stored-ok v out (err e, s) h = elim (err-ne_ok h) [ ]

  transition-IsDecided :
      (id status : String) (by : Option String) (ts : ℕ) (s : S) (o : Option (Json P))
      (out : Json P)
      → status ≢ "pending"
      → Readable bucket out
      → (transition bucket id status by ts s o).0 ≡ ok out
      → IsDecided id (transition bucket id status by ts s o).1
  transition-IsDecided id status by ts s none out ne readable h = elim (err-ne_ok h) [ ]
  transition-IsDecided id status by ts s (some v) out ne readable h =
      let v' = decided P status by ts v in
      let r = bucket.put id (P.to_string v') s in
      let same = stored-ok v' out r h in
      record {
        proposal = v';
        found =
            (stored-get bucket laws id v' out r s refl (subst (Readable bucket) (sym same) readable)
              h).0;
        status = decided-ne_pending status by ts v ne;
      }

  module _ (around : Around) where
    -- A call that returns a decision leaves the proposal decided.
    abbrev Decides : String → Decision → Type 0
    Decides id r = (out : Out) → Readable bucket (out.0) → r.0 ≡ ok out → IsDecided id r.1.queue

    status_set-Decides :
        (id status : String) (by : Option String) (t : Site P S D) (f : Json P → Act P S D Out)
        → status ≢ "pending"
        → ((v : Json P) (u : Site P S D) → (f v u).1.queue ≡ u.queue)
        → ((v : Json P) (u : Site P S D) (out : Out) → (f v u).0 ≡ ok out → v ≡ out.0)
        → Decides id (
            let r =
              status_set P bucket files paths from_str around t
                (set_status bucket id status by around.decided_at t.queue) in
            continue r.0 f r.1)
    unfolding set_status
    status_set-Decides id status by t f ne keeps gives =
        by_result
          (transition bucket id status by around.decided_at t.queue
            (get_proposal bucket id t.queue))
          refl
      where
        by_result :
            (r : Result String (Json P) × S)
            → transition bucket id status by around.decided_at t.queue
                (get_proposal bucket id t.queue)
              ≡ r
            → Decides id (
                continue
                  (status_set P bucket files paths from_str around t r).0
                  f
                  (status_set P bucket files paths from_str around t r).1)
        by_result (ok v, s) e = λ out readable o.
            subst (IsDecided id) (ap (λ r. r.1) e ∙ sym (keeps v (record t { queue = s }))) (
              transition-IsDecided id status by around.decided_at t.queue
                (get_proposal bucket id t.queue) v ne
                (subst (Readable bucket) (sym (gives v (record t { queue = s }) out o)) readable)
                (ap (λ r. r.0) e))
        by_result (err text, s) e = λ out readable o. elim (err-ne_ok o) [ ]

    reject-Decides :
        (id by : String) (w : Site P S D)
        → Decides id (reject P bucket files paths from_str around id by w)
    unfolding reject record_status ◌>>=◌ modify pure
    reject-Decides id by w =
        status_set-Decides id "rejected" (some by) w _ rejected-ne (λ v u. refl)
          (λ v u out o. ap (λ q. q.0) (ok-inj o))

    expire-Decides :
        (id : String) (w : Site P S D)
        → Decides id (expire P bucket files paths from_str around id w)
    unfolding expire record_status ◌>>=◌ modify raise
    expire-Decides id w =
        status_set-Decides id "expired" none w _ expired-ne (λ v u. refl)
          (λ v u out o. elim (err-ne_ok o) [ ])

    apply-Decides :
        (id by : String) (p : Json P) (w : Site P S D)
        → Decides id (apply_and_record P bucket files paths from_str around id by p w)
    unfolding apply_and_record record_status ◌>>=◌ modify pure
    apply-Decides id by p w =
        bind-cases (Decides id) _ w (apply_approved P bucket files paths from_str around p by)
          (λ applied t e.
            status_set-Decides id "approved" (some by)
              (record t { audits = approved by id applied ∷ t.audits }) _ approved-ne (λ v u. refl)
              (λ v u out o. ap (λ q. q.0) (ok-inj o)))
          (λ x t e out readable o. elim (err-ne_ok o) [ ])

    approve_at-Decides :
        (id by : String) (p : Json P) (file : String) (w : Site P S D)
        → Decides id (approve_at P bucket files paths from_str around id by p file w)
    unfolding approve_at
    approve_at-Decides id by p file w =
        bind-cases (Decides id) _ w
          (effective_source_hash P bucket files paths from_str around file)
          (λ current t e.
            if_cases (λ (m : Act P S D Out). Decides id (m t))
              (str_eq current (unwrap_or (text_field "baseline" p) ""))
              {x = apply_and_record P bucket files paths from_str around id by p}
              {y = expire P bucket files paths from_str around id} (λ h. apply-Decides id by p t)
              (λ h. expire-Decides id t))
          (λ x t e out readable o. elim (err-ne_ok o) [ ])

    decided-Decides :
        (id : String) (approve : Bool) (by : String) (p : Json P) (w : Site P S D)
        → Decides id (
            (if approve
                then approve_proposal P bucket files paths from_str around id by p
                else reject P bucket files paths from_str around id by)
              w)
    unfolding approve_proposal
    decided-Decides id true by p w =
        need-cases (Decides id) _ w (text_field "file" (unwrap_or (get_field "payload" p) null))
          "payload.file" (λ file e. approve_at-Decides id by p file w)
          (λ out readable o. elim (err-ne_ok o) [ ])
    decided-Decides id false by p w = reject-Decides id by w

    decide_found-Decides :
        (id : String) (approve : Bool) (by : String) (p : Json P) (w : Site P S D)
        → Decides id (decide_found P bucket files paths from_str around id approve by p w)
    unfolding decide_found raise
    decide_found-Decides id approve by p w =
        if_cases (λ (m : Act P S D Out). Decides id (m w))
          (not (is_pending P bucket files paths from_str around p))
          (λ t out readable o. elim (err-ne_ok o) [ ]) (λ f. decided-Decides id approve by p w)

    decide-Decides :
        (id : String) (approve : Bool) (by : String) (w : Site P S D)
        → Decides id (decide_proposal P bucket files paths from_str around id approve by w)
    unfolding decide_proposal ◌>>=◌ gets
    decide-Decides id approve by w =
        told-cases (Decides id) _ w around.connect
          (λ u e.
            opened-cases (Decides id) _ w around.queue_opens "proposal store unavailable"
              (need-cases (Decides id) _ w (get_proposal bucket id w.queue) "proposal not found"
                (λ p found. decide_found-Decides id approve by p w)
                (λ out readable o. elim (err-ne_ok o) [ ]))
              (λ out readable o. elim (err-ne_ok o) [ ]))
          (λ text out readable o. elim (err-ne_ok o) [ ])

    -- A call that returns an error and changes nothing.
    abbrev pub Refuses : Site P S D → Decision → Type 0
    Refuses w r = (r.1 ≡ w) × ((e : Refused P.Float) × (r.0 ≡ err e))

    decide-Refuses :
        (id : String) (approve : Bool) (by : String) (w : Site P S D)
        → IsDecided id w.queue
        → Refuses w (decide_proposal P bucket files paths from_str around id approve by w)
    unfolding decide_proposal decide_found is_pending ◌>>=◌ gets raise
    decide-Refuses id approve by w done =
        told-cases (Refuses w) _ w around.connect
          (λ u e.
            opened-cases (Refuses w) _ w around.queue_opens "proposal store unavailable"
              (need-cases (Refuses w) _ w (get_proposal bucket id w.queue) "proposal not found"
                (λ p found.
                  if_cases (λ (m : Act P S D Out). Refuses w (m w))
                    (not (is_pending P bucket files paths from_str around p))
                    (λ t. (refl, (_, refl)))
                    (λ f.
                      elim (done.status (
                        ap (text_field "status") (some-inj (sym done.found ∙ found))
                        ∙ pending_status (text_field "status" p) (ground (arith, f)))) [ ]))
                (refl, (_, refl)))
              (refl, (_, refl)))
          (λ text. (refl, (_, refl)))

  abbrev pub decides : Around → String → Bool → String → Site P S D → Decision
  decides around = decide_proposal P bucket files paths from_str around

  -- Once a call has returned a decision on a proposal, which the store reads back as it wrote it, every
  -- later call on it returns an error and changes nothing, whoever asks for what, and however the
  -- runtime's surroundings have changed.
  pub decide_proposal-final :
      (around later : Around) (id : String) (approve again : Bool) (by by' : String)
      (w : Site P S D) (out : Out)
      → Readable bucket (out.0)
      → (decides around id approve by w).0 ≡ ok out
      → Refuses later
          (decides around id approve by w).1
          (decides later id again by' (decides around id approve by w).1)
  decide_proposal-final around later id approve again by by' w out readable o =
      decide-Refuses later id again by' _ (decide-Decides around id approve by w out readable o)
