-- ===== src/Governance/Apply.antt =====
-- How an approved proposal is applied (core/src/main.rs, `apply_approved`, `promote_version`).
use vejas.Base.{ℕ, ◌+◌, String, Option, ◌∷◌, str_eq, unwrap_or, if◌then◌else◌}
use vejas.Exec.{Result, ok, err, pure, raise, gets, modify, ◌>>=◌, ◌>>◌}
use vejas.Vjs.Value.{Platform, Json, null, get_field}
use vejas.Vjs.Token.{SyntaxError, Bytes}
use vejas.Vjs.Parser.Programs.{parse}
use vejas.Vjs.Surface.{EditError, as_bytes, get_literal, set_literal}
use vejas.Versions.{Bucket, hash_content, put_version, text_field}
use vejas.Governance.State.{
  Paths, guard_path, flow_proc_name, Refused, message, bad_edit, bad_candidate, Applied, edited,
  versioned, written, Audit, promoted, Files, Around, Site, Act, need, told, opened, read_file,
  write_file, effective,
}

module _ (P : Platform) {S D : Type 0} (bucket : Bucket P S) (files : Files D) (paths : Paths)
    (from_str : String → Option (Json P)) (around : Around) where
  abbrev pub edited_text : Result (EditError P.Float) Bytes → Act P S D String
  edited_text (ok bytes) = pure (P.from_utf8_lossy bytes)
  edited_text (err e) = raise (bad_edit e)

  abbrev pub edit : String → String → String → Json P → Act P S D String
  edit source name key value = edited_text (set_literal P from_str (as_bytes source) name key value)

  -- Without NATS a promote is not recorded.
  abbrev pub audit_if : Result String (Unit {0}) → Audit P.Number → Site P S D → Site P S D
  audit_if (ok u) a w = record w { audits = a ∷ w.audits }
  audit_if (err e) a w = w

  abbrev pub record_promote :
      String → String → String → Option (Json P) → Json P → String → Act P S D (Unit {0})
  record_promote file name key before value actor =
      modify (audit_if around.connect (promoted file name key (unwrap_or before null) value actor))

  abbrev pub reload : Act P S D (Unit {0})
  reload = modify (λ w. record w { reloads = w.reloads + 1 })

  abbrev pub put :
      Site P S D → Result String ℕ × S → Result (Refused P.Float) (Unit {0}) × Site P S D
  put w (ok n, s) = (ok tt, record w { overlays = record w.overlays { kv = s } })
  put w (err text, s) = (err (message text), record w { overlays = record w.overlays { kv = s } })

  unfoldable pub publish_version : String → String → String → String → Act P S D (Unit {0})
  unfolding put_version
  publish_version unit source parent actor w =
      put w (put_version bucket unit source parent actor around.put_at w.overlays.kv)

  -- A constant is changed in the effective source, which becomes the flow's version.
  unfoldable pub promote_version :
      String → String → String → Json P → String → Act P S D (Applied P.Number)
  unfolding read_file effective publish_version guard_path flow_proc_name hash_content set_literal
      get_literal as_bytes ◌>>=◌ pure raise gets modify
  promote_version file name key value actor = do
    path ← need (guard_path paths file) "path not allowed"
    baseline ← read_file files path
    told around.connect
    opened around.versions_open "version store unavailable"
    current ← effective bucket around (flow_proc_name paths path) baseline
    source ← edit current name key value
    publish_version (flow_proc_name paths path) source (hash_content baseline) actor
    record_promote file name key (get_literal P (as_bytes current) name key) value actor
    pure (versioned (flow_proc_name paths path))

  -- A constant is changed in its file.
  unfoldable pub edit_file :
      String → String → String → Json P → String → Act P S D (Applied P.Number)
  unfolding read_file write_file guard_path set_literal get_literal as_bytes ◌>>=◌ pure raise gets
      modify
  edit_file file name key value actor = do
    path ← need (guard_path paths file) "path not allowed"
    source ← read_file files path
    text ← edit source name key value
    write_file files path text
    record_promote file name key (get_literal P (as_bytes source) name key) value actor
    reload
    pure (edited file name key)

  abbrev pub parsed_candidate : {A : Type 0} → Result (SyntaxError P.Float) A → Act P S D (Unit {0})
  parsed_candidate (ok prog) = pure tt
  parsed_candidate (err e) = raise (bad_candidate e)

  unfoldable pub write_candidate : String → String → String → Act P S D (Applied P.Number)
  unfolding write_file ◌>>=◌ pure modify
  write_candidate file path candidate = do
    write_file files path candidate
    reload
    pure (written file)

  unfoldable pub put_candidate : String → String → String → String → Act P S D (Applied P.Number)
  unfolding publish_version flow_proc_name hash_content ◌>>=◌ pure raise
  put_candidate path baseline candidate actor = do
    opened around.versions_open "version store unavailable"
    publish_version (flow_proc_name paths path) candidate (hash_content baseline) actor
    pure (versioned (flow_proc_name paths path))

  -- A candidate source replaces the file, or is published as the flow's version.
  unfoldable pub apply_version : String → String → String → Act P S D (Applied P.Number)
  unfolding read_file write_candidate put_candidate guard_path parse as_bytes ◌>>=◌ pure raise gets
  apply_version file candidate actor = do
    parsed_candidate (parse P (as_bytes candidate))
    path ← need (guard_path paths file) "path not allowed"
    baseline ← read_file files path
    told around.connect
    if around.clustered
        then put_candidate path baseline candidate actor
        else write_candidate file path candidate

  abbrev pub payload_of : Json P → Json P
  payload_of proposal = unwrap_or (get_field "payload" proposal) null

  unfoldable pub apply_literal : String → Json P → String → Act P S D (Applied P.Number)
  unfolding promote_version edit_file get_field text_field ◌>>=◌ pure raise
  apply_literal file payload actor = do
    name ← need (text_field "name" payload) "payload.name"
    let key = unwrap_or (text_field "key" payload) "-"
    let value = unwrap_or (get_field "value" payload) null
    if around.clustered
        then promote_version file name key value actor
        else edit_file file name key value actor

  unfoldable pub apply_candidate : String → Json P → String → Act P S D (Applied P.Number)
  unfolding apply_version text_field ◌>>=◌ pure raise
  apply_candidate file payload actor = do
    candidate ← need (text_field "candidate" payload) "payload.candidate"
    apply_version file candidate actor

  unfoldable pub apply_approved : Json P → String → Act P S D (Applied P.Number)
  unfolding apply_literal apply_candidate get_field text_field ◌>>=◌ pure raise
  apply_approved proposal actor = do
    let kind = unwrap_or (text_field "kind" proposal) ""
    let payload = payload_of proposal
    file ← need (text_field "file" payload) "payload.file"
    if str_eq kind "set_literal"
        then apply_literal file payload actor
        else if str_eq kind "version"
        then apply_candidate file payload actor
        else raise (message "unknown proposal kind")
