-- ===== src/Vjs/Failure.antt =====
-- The errors of a VejasScript run (core/src/vjs.rs), one for each message, with what it shows.
use vejas.Base.{String, ◌≡◌, Bool, true, false}
use vejas.Vjs.Value.{Value}

-- `exhausted` has no counterpart in the code: the model's fuel ran out.
pub data Failure (N : Type 0) : Type 0 where
  subject_not_string : Value N → Failure N
  invalid_subject : String → Failure N
  cannot_read_field : String → Value N → Failure N
  secret_needs_reference : Failure N
  secret_store : String → Failure N
  unknown_function : String → Failure N
  invoke_depth : String → Failure N
  invalid_reference : String → Failure N
  no_manifest : String → Failure N
  bad_manifest : String → String → Failure N
  not_exported : String → String → Failure N
  unknown_service : String → Failure N
  bad_service : String → String → Failure N
  exhausted : Failure N

abbrev pub is_exhausted : {N : Type 0} → Failure N → Bool
is_exhausted exhausted = true
is_exhausted _ = false

-- What the code raises.
abbrev pub Raised : {N : Type 0} → Failure N → Type 0
Raised e = is_exhausted e ≡ false
