-- ===== src/Governance.antt =====
-- Governed change (core/src/main.rs): a proposal is decided by a person, and what is approved is applied
-- only to the source that the evidence saw. `std::path` on the root of the project, the file system and
-- serde_json are parameters.
pub mod State
pub mod Apply
pub mod Queue
pub mod Doors
pub mod Decided
pub mod Final
use Prim.Native.Char.{code}
use Prim.Native.String.{◌++◌}
use text.Mathlib.Text.{starts_with}
use vejas.Base.{
  ℕ, ◌+◌, String, Bool, true, false, not, ◌&&◌, ◌||◌, Option, none, some, List, [], ◌∷◌,
  ◌++◌ as ◌++ₗ◌, get_elem?, any, str_eq, unwrap_or, if◌then◌else◌, ◌==◌,
}
use vejas.Exec.{Result, ok, err, Exec, pure, raise, lift, gets, modify, ◌>>=◌, ◌>>◌}
use vejas.Vjs.Value.{Platform, Json, Value, null, get_field, as_str}
use vejas.Vjs.Text.{contains_text, split}
use vejas.Vjs.Token.{SyntaxError, Bytes}
use vejas.Vjs.Parser.Programs.{parse}
use vejas.Vjs.Surface.{EditError, as_bytes, get_literal, set_literal}
use vejas.Versions.{Bucket, Db, Outcome, hash_content, put_version, resolve_source, text_field}
use vejas.Proposals.{get_proposal, set_status}
use vejas.Governance.State.{
  Paths, guard_path, flow_proc_name, Refused, message, bad_edit, bad_candidate, Applied, edited,
  versioned, written, Audit, promoted, rejected, approved, Files, Around, Site, Act, need, told,
  opened, read_file, write_file, effective,
}
use vejas.Governance.Apply.{apply_approved}

module _ (P : Platform) {S D : Type 0} (bucket : Bucket P S) (files : Files D) (paths : Paths)
    (from_str : String → Option (Json P)) (around : Around) where
  unfoldable pub effective_source_hash : String → Act P S D String
  unfolding read_file effective guard_path flow_proc_name hash_content ◌>>=◌ pure raise gets
  effective_source_hash file = do
    path ← need (guard_path paths file) "path not allowed"
    baseline ← read_file files path
    source ← effective bucket around (flow_proc_name paths path) baseline
    pure (hash_content source)

  -- `set_status` on the queue
  abbrev pub status_set :
      Site P S D → Result String (Json P) × S → Result (Refused P.Float) (Json P) × Site P S D
  status_set w (ok v, s) = (ok v, record w { queue = s })
  status_set w (err text, s) = (err (message text), record w { queue = s })

  unfoldable pub record_status : String → String → Option String → Act P S D (Json P)
  unfolding set_status
  record_status id status by w =
      status_set w (set_status bucket id status by around.decided_at w.queue)

  abbrev pub audit : Audit P.Number → Act P S D (Unit {0})
  audit a = modify (λ w. record w { audits = a ∷ w.audits })

  abbrev pub emit_proposal_event : String → Json P → Act P S D (Unit {0})
  emit_proposal_event transition proposal =
      modify (λ w. record w { events = (transition, proposal) ∷ w.events })

  unfoldable pub reject : String → String → Act P S D (Json P × Option (Applied P.Number))
  unfolding record_status ◌>>=◌ pure modify
  reject id decided_by = do
    updated ← record_status id "rejected" (some decided_by)
    audit (rejected decided_by id)
    emit_proposal_event "rejected" updated
    pure (updated, none)

  unfoldable pub expire : String → Act P S D (Json P × Option (Applied P.Number))
  unfolding record_status ◌>>=◌ raise modify
  expire id = do
    updated ← record_status id "expired" none
    emit_proposal_event "expired" updated
    raise (message "baseline changed since the proposal was made")

  unfoldable pub apply_and_record :
      String → String → Json P → Act P S D (Json P × Option (Applied P.Number))
  unfolding record_status apply_approved ◌>>=◌ pure modify
  apply_and_record id decided_by proposal = do
    applied ← apply_approved P bucket files paths from_str around proposal decided_by
    audit (approved decided_by id applied)
    updated ← record_status id "approved" (some decided_by)
    emit_proposal_event "approved" updated
    pure (updated, some applied)

  -- The baseline must not have moved since the evidence was gathered.
  unfoldable pub approve_at :
      String → String → Json P → String → Act P S D (Json P × Option (Applied P.Number))
  unfolding effective_source_hash text_field expire apply_and_record ◌>>=◌
  approve_at id decided_by proposal file = do
    current ← effective_source_hash file
    if str_eq current (unwrap_or (text_field "baseline" proposal) "")
        then apply_and_record id decided_by proposal
        else expire id

  unfoldable pub approve_proposal :
      String → String → Json P → Act P S D (Json P × Option (Applied P.Number))
  unfolding approve_at get_field text_field ◌>>=◌ pure raise
  approve_proposal id decided_by proposal = do
    file ← need (text_field "file" (unwrap_or (get_field "payload" proposal) null)) "payload.file"
    approve_at id decided_by proposal file

  unfoldable pub is_pending : Json P → Bool
  unfolding text_field
  is_pending proposal = str_eq (unwrap_or (text_field "status" proposal) "") "pending"

  unfoldable pub decide_found :
      String → Bool → String → Json P → Act P S D (Json P × Option (Applied P.Number))
  unfolding is_pending reject approve_proposal raise
  decide_found id approve decided_by proposal =
      if not (is_pending proposal)
      then raise (message "proposal already decided")
      else if approve
      then approve_proposal id decided_by proposal
      else reject id decided_by

  unfoldable pub decide_proposal :
      String → Bool → String → Act P S D (Json P × Option (Applied P.Number))
  unfolding decide_found get_proposal ◌>>=◌ pure raise gets
  decide_proposal id approve decided_by = do
    told around.connect
    opened around.queue_opens "proposal store unavailable"
    found ← gets (λ w. get_proposal bucket id w.queue)
    proposal ← need found "proposal not found"
    decide_found id approve decided_by proposal
