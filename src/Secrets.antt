-- ===== src/Secrets.antt =====
-- Secret stores (core/src/secrets.rs): the trait, and the store that every path takes that shows a
-- run instead of performing it.
use Prim.Native.String.{◌++◌}
use vejas.Base.{String}
use vejas.Exec.{Result, ok, err}

-- `trait SecretStore`; `write` is its `set`, without the write itself.
pub record SecretStore : Type 0 where
  pub kind : String
  pub get : String → Result String String
  pub write : String → String → Result String (Unit {0})

-- The trait's own `set`: a backend that cannot write says so.
read_only : String → String → String → Result String (Unit {0})
read_only kind reference value = err ("the " ++ (kind ++ " secret backend is read-only"))

unfoldable pub placeholder : String → String
placeholder reference = "<secret:" ++ (reference ++ ">")

-- What the placeholder store answers where the inner store has an answer.
unfoldable pub redact : String → Result String String → Result String String
unfolding placeholder
redact reference (ok value) = ok (placeholder reference)
redact reference (err e) = err e

unfoldable pub redacted : SecretStore → SecretStore
unfolding redact read_only
redacted inner = record {
  kind = "redacted";
  get = λ reference. redact reference (inner.get reference);
  write = read_only "redacted";
}
