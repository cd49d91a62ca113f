-- ===== src/Governance/Queue.antt =====
-- The doors of the proposal queue (core/src/main.rs, `submit_proposal`, `reconcile_and_list`): a proposal
-- is pinned to the source that its evidence saw, and one whose source has moved expires.
use vejas.Base.{
  ℕ, String, not, ◌&&◌, ◌||◌, Option, none, some, List, [], ◌∷◌, str_eq, unwrap_or, if◌then◌else◌,
}
use vejas.Exec.{Result, ok, err, pure, raise, gets, modify, ◌>>=◌, ◌>>◌}
use vejas.Vjs.Value.{Platform, Json, null, get_field}
use vejas.Versions.{Bucket, text_field}
use vejas.Proposals.{new_id, submit, list}
use vejas.Governance.State.{Paths, Refused, expired, Files, Around, Site, Act, need, told, opened}
use vejas.Governance.{
  effective_source_hash, status_set, record_status, emit_proposal_event, is_pending,
}

module _ (P : Platform) {S D : Type 0} (bucket : Bucket P S) (files : Files D) (paths : Paths)
    (from_str : String → Option (Json P)) (around : Around) where
  -- The proposal under its new identifier; `seq` is the counter of `new_id`.
  unfoldable pub put_proposal : String → Json P → String → Json P → String → ℕ → Act P S D (Json P)
  unfolding submit new_id
  put_proposal kind payload author evidence baseline seq w =
      let id = (new_id around.put_at seq).0 in
      status_set P bucket files paths from_str around w
        (submit bucket id kind payload author baseline evidence around.decided_at w.queue)

  unfoldable pub submit_proposal : String → Json P → String → Json P → ℕ → Act P S D (Json P)
  unfolding put_proposal effective_source_hash text_field ◌>>=◌ pure raise modify
  submit_proposal kind payload author evidence seq = do
    opened (str_eq kind "set_literal" || str_eq kind "version")
        "kind must be set_literal or version"
    file ← need (text_field "file" payload) "payload.file required"
    told around.connect
    baseline ← effective_source_hash P bucket files paths from_str around file
    opened around.queue_opens "proposal store unavailable"
    rec ← put_proposal kind payload author evidence baseline seq
    emit_proposal_event P bucket files paths from_str around "submitted" rec
    pure rec

  -- Where the source cannot be read its hash is the empty text.
  abbrev pub current_of : Result (Refused P.Float) String × Site P S D → String × Site P S D
  current_of (ok current, w) = (current, w)
  current_of (err e, w) = ("", w)

  abbrev pub expired_in :
      Json P → Result (Refused P.Float) (Json P) × Site P S D → Json P × Site P S D
  expired_in p (ok updated, w) =
      let id = unwrap_or (text_field "id" p) "" in
      (
        updated,
        record w { audits = expired id ∷ w.audits; events = ("expired", updated) ∷ w.events },
      )
  expired_in p (err e, w) = (p, w)

  abbrev pub if_moved : Json P → String × Site P S D → Json P × Site P S D
  if_moved p (current, w) =
      let expires = expired_in p (
        record_status P bucket files paths from_str around (unwrap_or (text_field "id" p) "")
          "expired" none w) in
      if not (str_eq current "") && not (str_eq current (unwrap_or (text_field "baseline" p) ""))
      then expires
      else (p, w)

  abbrev pub check_file : Json P → Option String → Site P S D → Json P × Site P S D
  check_file p none w = (p, w)
  check_file p (some file) w =
      if_moved p (current_of (effective_source_hash P bucket files paths from_str around file w))

  -- A proposal as it is listed: a pending one whose source has moved has expired.
  unfoldable pub reconcile : Json P → Site P S D → Json P × Site P S D
  unfolding is_pending effective_source_hash record_status text_field get_field
  reconcile p w =
      let checked = check_file p (text_field "file" (unwrap_or (get_field "payload" p) null)) w in
      if is_pending P bucket files paths from_str around p then checked else (p, w)

  unfoldable pub reconcile_all : List (Json P) → Site P S D → List (Json P) × Site P S D
  unfolding reconcile
  reconcile_all [] w = ([], w)
  reconcile_all (p ∷ ps) w =
      let (q, u) = reconcile p w in let (qs, v) = reconcile_all ps u in (q ∷ qs, v)

  unfoldable pub reconcile_and_list :
      (P.Number → Option ℕ) → (S → Result String (List String)) → Act P S D (List (Json P))
  unfolding reconcile_all list ◌>>=◌ pure raise gets
  reconcile_and_list as_u64 keys = do
    told around.connect
    opened around.queue_opens "proposal store unavailable"
    found ← gets (λ w. list bucket as_u64 keys w.queue)
    λ w. let (ps, u) = reconcile_all found w in (ok ps, u)
