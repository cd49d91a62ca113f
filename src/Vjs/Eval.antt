-- ===== src/Vjs/Eval.antt =====
-- Expressions (core/src/vjs.rs, `eval`): the pipeline and the engine are the state, and what runs an
-- invoked service is the argument `service`.
mod Ops
pub mod Keeps
pub mod Scope
unfoldable pub use Ops.{read_field, index_value, unary_value, binary_value}
use vejas.Base.{
  String, Bool, true, false, Option, none, some, List, [], ◌∷◌, ◌++◌, str_eq, unwrap_or,
  if◌then◌else◌,
}
use vejas.Exec.{Result, map_err, Exec, pure, raise, lift, gets, modify, ◌>>=◌, ◌>>◌}
use vejas.Vjs.Value.{
  Value, Entries, Platform, Json, Map, null, bool, string, array, object, Items, no_items, item,
  no_entries, entry, get, keys, as_str, truthy, to_display,
}
use vejas.Vjs.Ast.{
  BinOp, Expr, Exprs, Fields, Parts, and, or, coalesce, lit, f_string, var, doc, field, index,
  projection, filter, call, invoke, unary, bin, no_exprs, expr, no_fields, named, no_parts, text,
  hole,
}
use vejas.Vjs.Failure.{Failure, secret_needs_reference, secret_store}
use vejas.Vjs.Engine.{Engine}
use vejas.Vjs.Builtin.{builtin}
use Prim.Native.String.{◌++◌ as ◌++ₛ◌}

-- The pipeline of a run, and the emits and the response that it has so far.
pub record Ctx (N : Type 0) : Type 0 where
  pub vars : Entries N
  pub emits : List (String × Value N)
  pub response : Option (Value N × Value N)

pub record State (N : Type 0) : Type 0 where
  pub ctx : Ctx N
  pub engine : Engine N

abbrev pub Run : Type 0 → Type 0 → Type 0
Run N A = Exec (Failure N) (State N) A

-- `run_service(name, args, engine, &mut emits)`: the document that the service returns, and what
-- it emits.
abbrev pub Service : Type 0 → Type 0
Service N = String → Entries N → Exec (Failure N) (Engine N) (Value N × List (String × Value N))

module _ {N : Type 0} where
  unfoldable pub set_vars : (Entries N → Entries N) → State N → State N
  set_vars f s = record s { ctx = record (s.ctx) { vars = f s.ctx.vars } }

  unfoldable pub append_emits : List (String × Value N) → State N → State N
  append_emits es s = record s { ctx = record (s.ctx) { emits = s.ctx.emits ++ es } }

  unfoldable pub on_engine : {A : Type 0} → Exec (Failure N) (Engine N) A → Run N A
  on_engine m s = let (r, g) = m s.engine in (r, record s { engine = g })

  -- An invoke: the service's emits follow the caller's own.
  unfoldable pub invoke_service : Service N → String → Entries N → Run N (Value N)
  invoke_service service name args = do
    out ← on_engine (service name args)
    modify (append_emits out.1)
    pure out.0

  unfoldable pub read_var : String → Run N (Value N)
  read_var name = gets (λ s. unwrap_or (get name s.ctx.vars) null)

  first_str : Items N → Option String
  first_str no_items = none
  first_str (item v vs) = as_str v

  secret_at : Option String → Run N (Value N)
  secret_at none = raise secret_needs_reference
  secret_at (some reference) = do
    secrets ← gets (λ s. s.engine.secrets)
    value ← lift (map_err secret_store (secrets.get reference))
    pure (string value)

  -- `secret("path/key")` fails closed: a store's error ends the run.
  unfoldable pub read_secret : Items N → Run N (Value N)
  unfolding first_str secret_at as_str
  read_secret args = secret_at (first_str args)

  unfoldable pub saved_vars : List String → Entries N → List (String × Option (Value N))
  saved_vars [] vars = []
  saved_vars (k ∷ ks) vars = (k, get k vars) ∷ saved_vars ks vars

  -- The variables that a filter's item sets, in the order of its entries.
  unfoldable pub item_keys : Value N → List String
  item_keys (object m) = keys m
  item_keys _ = []

module _ (P : Platform) where
  unfoldable pub insert_all : Map P → Map P → Map P
  insert_all no_entries vars = vars
  insert_all (entry k v m) vars = insert_all m (P.insert k v vars)

  -- The fields of an item are variables while its condition is evaluated.
  unfoldable pub bind_item : Json P → Map P → Map P
  unfolding insert_all
  bind_item (object m) vars = insert_all m vars
  bind_item _ vars = vars

  unfoldable pub restore_var : String → Option (Json P) → Map P → Map P
  restore_var k none vars = P.remove k vars
  restore_var k (some v) vars = P.insert k v vars

  unfoldable pub restore_vars : List (String × Option (Json P)) → Map P → Map P
  unfolding restore_var
  restore_vars [] vars = vars
  restore_vars ((k, old) ∷ rest) vars = restore_vars rest (restore_var k old vars)

  -- One item of a filter: an error leaves at once, and restores nothing.
  unfoldable pub scoped : Json P → Run P.Number (Json P) → Run P.Number Bool
  scoped v cond = do
    vars ← gets (λ s. s.ctx.vars)
    modify (set_vars (bind_item v))
    kept ← cond
    modify (set_vars (restore_vars (saved_vars (item_keys v) vars)))
    pure (truthy P kept)

  unfoldable pub filter_items :
      Run P.Number (Json P) → Items P.Number → Run P.Number (Items P.Number)
  filter_items cond no_items = pure no_items
  filter_items cond (item v vs) = do
    keep ← scoped v cond
    out ← filter_items cond vs
    pure (if keep then item v out else out)

  unfoldable pub filter_value : Run P.Number (Json P) → Json P → Run P.Number (Json P)
  filter_value cond (array items) = do out ← filter_items cond items; pure (array out)
  filter_value cond _ = pure (array no_items)

  unfoldable pub call_function : String → Items P.Number → Run P.Number (Json P)
  call_function name args =
      if str_eq name "secret" then read_secret args else lift (builtin P name args)

  is_null : Json P → Bool
  is_null null = true
  is_null _ = false

  -- `and`, `or` and `??` evaluate their right side only if the left one does not decide.
  unfoldable pub bin_eval :
      BinOp → Run P.Number (Json P) → Run P.Number (Json P) → Run P.Number (Json P)
  unfolding is_null
  bin_eval and l r = do lv ← l; if truthy P lv then r else pure lv
  bin_eval or l r = do lv ← l; if truthy P lv then pure lv else r
  bin_eval coalesce l r = do lv ← l; if is_null lv then r else pure lv
  bin_eval op l r = do lv ← l; rv ← r; pure (binary_value P op lv rv)

  module _ (service : Service P.Number) where
    unfoldable mutual
      pub eval : Expr P.Number → Run P.Number (Json P)
      eval (lit v) = pure v
      eval (f_string parts) = do s ← eval_parts parts ""; pure (string s)
      eval (var name) = read_var name
      eval (doc fields) = do m ← eval_fields fields no_entries; pure (object m)
      eval (Expr.array items) = do vs ← eval_exprs items; pure (array vs)
      eval (field base f safe) = do b ← eval base; lift (read_field f safe b)
      eval (index base key) = do b ← eval base; k ← eval key; pure (index_value P b k)
      eval (projection base) = eval base
      eval (filter base cond) = do b ← eval base; filter_value (eval cond) b
      eval (call name args) = do vs ← eval_exprs args; call_function name vs
      eval (invoke name args) = do m ← eval_fields args no_entries; invoke_service service name m
      eval (unary op e) = do v ← eval e; pure (unary_value P op v)
      eval (bin op l r) = bin_eval op (eval l) (eval r)

      pub eval_exprs : Exprs P.Number → Run P.Number (Items P.Number)
      eval_exprs no_exprs = pure no_items
      eval_exprs (expr e es) = do v ← eval e; vs ← eval_exprs es; pure (item v vs)

      pub eval_fields : Fields P.Number → Map P → Run P.Number (Map P)
      eval_fields no_fields m = pure m
      eval_fields (named k e fs) m = do v ← eval e; eval_fields fs (P.insert k v m)

      pub eval_parts : Parts P.Number → String → Run P.Number String
      eval_parts no_parts s = pure s
      eval_parts (text l ps) s = eval_parts ps (s ++ₛ l)
      eval_parts (hole e ps) s = do v ← eval e; eval_parts ps (s ++ₛ to_display P v)
