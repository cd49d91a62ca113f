-- ===== src/Vjs/Run/Shadow.antt =====
-- Shadow runs (core/src/vjs.rs, `Engine::shadow`; core/src/secrets.rs, `RedactedStore`): a run that
-- is shown instead of performed never holds a secret's value.
use vejas.Base.{String, ◌≡◌, refl, ap}
use mathlib.Core.Path.{fun_ext}
use vejas.Exec.{Result, ok, err}
use vejas.Secrets.{SecretStore, redact, redacted}
use vejas.Vjs.Value.{Platform, Json}
use vejas.Vjs.Ast.{Program}
use vejas.Vjs.Engine.{Sources, FilePath, with_secrets, shadow}
use vejas.Vjs.Run.{run}

-- Two answers of a store that a shadow run may not tell apart: two values, or the same error.
pub data SameAnswer : Result String String → Result String String → Type 0 where
  both_values : (v w : String) → SameAnswer (ok v) (ok w)
  same_error : (e : String) → SameAnswer (err e) (err e)

redact-SameAnswer :
    (reference : String) {a b : Result String String}
    → SameAnswer a b
    → redact reference a ≡ redact reference b
unfolding redact
redact-SameAnswer reference (both_values v w) = refl
redact-SameAnswer reference (same_error e) = refl

redacted-eq :
    (a b : SecretStore)
    → ((reference : String) → SameAnswer (a.get reference) (b.get reference))
    → redacted a ≡ redacted b
unfolding redacted
redacted-eq a b h =
    let gets : (λ (r : String). redact r (a.get r)) ≡ (λ r. redact r (b.get r)) =
      fun_ext (λ r. redact-SameAnswer r (h r)) in
    λ i. record { kind = "redacted"; get = gets i; write = (redacted a).write }

-- A shadow run has the same result, whatever the values of the secrets: two stores that hold the
-- same references, and fail alike on the others, give the same run.
pub shadow-run :
    (P : Platform) (sources : Sources P.Number) (prog : Program P.Number) (event : Json P)
    (root : FilePath) (pkg : String) (a b : SecretStore)
    → ((reference : String) → SameAnswer (a.get reference) (b.get reference))
    → run P sources prog event (shadow root pkg a) ≡ run P sources prog event (shadow root pkg b)
unfolding shadow
shadow-run P sources prog event root pkg a b h =
    ap (λ (s : SecretStore). run P sources prog event (with_secrets root pkg s)) (redacted-eq a b h)
