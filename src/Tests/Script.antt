-- ===== src/Tests/Script.antt =====
-- A flow with a filter and a service of another package, run in full.
use vejas.Base.{
  ℕ, String, ◌≡◌, refl, Option, none, some, List, [], ◌∷◌, arith, str_eq, contains, if◌then◌else◌,
}
use mathlib.Core.Logic.{◌≢◌}
use vejas.Exec.{Result, ok, err, OnOk, ◌>>=◌}
use vejas.Secrets.{SecretStore, placeholder, redact, redacted}
use vejas.Vjs.Value.{
  Value, number, string, array, object, no_items, item, no_entries, entry, get, truthy, as_str,
  keys,
}
use vejas.Vjs.Ast.{
  Expr, Block, Program, SurfaceEntry, lit, var, filter, call, bin, eq, no_exprs, expr, no_fields,
  named, emit, respond, invoke_merge, end_block, stmt,
}
use vejas.Vjs.Failure.{exhausted}
use vejas.Vjs.Engine.{
  Sources, Engine, FilePath, live, shadow, resolve, service_stmts, exported, cache_key, exports_of,
  find_entry, is_valid_name, pkg_dir, split_once, target, with_secrets,
}
use vejas.Vjs.Text.{valid_subject, any_char, is_control, is_whitespace}
use vejas.Vjs.Builtin.{builtin}
use vejas.Vjs.Engine.Same.{SameEngine}
use vejas.Vjs.Engine.Exports.{IsFaithful, MayInvoke}
use vejas.Vjs.Run.Cached.{after_runs, after_runs-MayInvoke}
use vejas.Vjs.Eval.{
  Ctx, State, eval, append_emits, bin_eval, binary_value, bind_item, call_function, eval_exprs,
  filter_items, filter_value, insert_all, invoke_service, item_keys, on_engine, read_secret,
  read_var, restore_vars, saved_vars, scoped, set_vars,
}
use vejas.Vjs.Eval.Scope.{get-eval}
use vejas.Vjs.Run.{
  run, run_service, exec_block, emit_subject, enter, enter_service, finished, leave, merge_vars,
  run_ctx, run_loaded, run_stmts, service_ctx, service_result, set_response,
}
use vejas.Vjs.Run.Nesting.{run-SameEngine, run-ne-exhausted}
use vejas.Vjs.Run.Emits.{AllValid, run-AllValid}
use vejas.Vjs.Run.Silent.{run-silent}
use vejas.Vjs.Run.Shadow.{both_values, shadow-run}
use vejas.Vjs.Static.{writes_bus, expr_writes_bus}
use vejas.Tests.Toy.{toy, insert_entry, remove_entry}

abbrev pub program : Block ℕ → List (SurfaceEntry ℕ) → Program ℕ
program b surface = record {
  source = none;
  tool = none;
  api = none;
  driver = none;
  stmts = b;
  surface = surface;
  emit_subjects = [];
  invokes = [];
  secret_refs = [];
}

-- emit "vx.bill", secret("bank/key")
abbrev bill : Program ℕ
bill =
    program
      (stmt
        (emit (lit (string "vx.bill")) (call "secret" (expr (lit (string "bank/key")) no_exprs)))
        end_block)
      []

-- EXPORTS = ["bill"]
abbrev manifest : Program ℕ
manifest = program end_block (
    record {
      name = "EXPORTS";
      value = array (item (string "bill") no_items);
      value_span = (10, 18);
      entry_spans = [];
    }
    ∷ [])

abbrev file : FilePath → Option String
file path =
    if contains path "services"
    then some "bill"
    else if contains path "package.vjs"
    then some "manifest"
    else none

abbrev pub sources : Sources ℕ
sources = record {
  read_to_string = file;
  parse = λ src. if str_eq src "manifest" then ok manifest else ok bill;
}

-- invoke pay:bill(amount: 3); respond 200, amount
abbrev pay : Program ℕ
pay =
    program
      (stmt (invoke_merge "pay:bill" (named "amount" (lit (number 3)) no_fields))
        (stmt (respond (lit (number 200)) (var "amount")) end_block))
      []

-- respond 200, orders[id == 7]
abbrev paid : Expr ℕ
paid = filter (var "orders") (bin eq (var "id") (lit (number 7)))

abbrev reader : Program ℕ
reader = program (stmt (respond (lit (number 200)) paid) end_block) []

abbrev order : ℕ → Value ℕ
order n = object (entry "id" (number n) no_entries)

-- {"id": 1, "orders": [{"id": 7}, {"id": 8}]}
abbrev event : Value ℕ
event = object (
    entry "id" (number 1)
      (entry "orders" (array (item (order 7) (item (order 8) no_items))) no_entries))

abbrev store : String → SecretStore
store value = record { kind = "test"; get = λ reference. ok value; write = λ reference v. ok tt }

abbrev pub live_engine : Engine ℕ
live_engine = live ("root" ∷ []) "shop" (store "k-123")

abbrev emitted : {E : Type 0} → Result E (Ctx ℕ) → List (String × Value ℕ)
emitted (ok c) = c.emits
emitted (err e) = []

-- What a run of `prog` emits; the line names what a test computes through.
unfoldable pub emits_of : Program ℕ → Engine ℕ → List (String × Value ℕ)
unfolding run run_service resolve service_stmts shadow live exec_block eval exported valid_subject
    builtin insert_entry remove_entry get truthy ◌>>=◌ placeholder redact redacted cache_key
    exports_of find_entry is_valid_name pkg_dir split_once target with_secrets append_emits bin_eval
    binary_value bind_item call_function eval_exprs filter_items filter_value insert_all
    invoke_service item_keys on_engine read_secret read_var restore_vars saved_vars scoped set_vars
    emit_subject enter enter_service finished leave merge_vars run_ctx run_loaded run_stmts
    service_ctx service_result set_response any_char is_control is_whitespace as_str keys
emits_of prog g = emitted (run toy sources prog event g).0

-- The service emits the secret's value in a live run, and its placeholder in a shadow run.
pay-live : emits_of pay live_engine ≡ ("vx.bill", string "k-123") ∷ []
unfolding emits_of
pay-live = refl

pay-shadow :
    emits_of pay (shadow ("root" ∷ []) "shop" (store "k-123"))
    ≡ ("vx.bill", string "<secret:bank/key>") ∷ []
unfolding emits_of
pay-shadow = refl

run-SameEngine_example : SameEngine live_engine (run toy sources pay event live_engine).1
run-SameEngine_example = run-SameEngine toy sources pay event live_engine

run-ne-exhausted_example : (run toy sources pay event live_engine).0 ≢ err exhausted
run-ne-exhausted_example =
    run-ne-exhausted toy sources pay event live_engine (unfold live in omega arith)

run-AllValid_example :
    OnOk (λ (c : Ctx ℕ). AllValid c.emits) (run toy sources pay event live_engine).0
run-AllValid_example = run-AllValid toy sources pay event live_engine

run-silent_example :
    ((run toy sources reader event live_engine).1 ≡ live_engine)
    × OnOk (λ (c : Ctx ℕ). c.emits ≡ []) (run toy sources reader event live_engine).0
run-silent_example =
    run-silent toy sources reader event live_engine (unfold writes_bus expr_writes_bus in refl)

shadow-run_example :
    run toy sources pay event (shadow ("root" ∷ []) "shop" (store "k-123"))
    ≡ run toy sources pay event (shadow ("root" ∷ []) "shop" (store "other"))
shadow-run_example =
    shadow-run toy sources pay event ("root" ∷ []) "shop" (store "k-123") (store "other")
      (λ reference. both_values "k-123" "other")

abbrev start : State ℕ
start = record {
  ctx = record {
    vars = entry "id" (number 1) (entry "orders" (array (item (order 7) no_items)) no_entries);
    emits = [];
    response = none;
  };
  engine = live_engine;
}

get-eval_example :
    OnOk
      (λ v.
        get "id" (eval toy (run_service toy sources 33) paid start).1.ctx.vars
        ≡ get "id" start.ctx.vars)
      (eval toy (run_service toy sources 33) paid start).0
get-eval_example = get-eval toy (run_service toy sources 33) paid start "id"

after_runs-MayInvoke_example :
    IsFaithful sources (after_runs toy sources ((pay, event) ∷ []) live_engine)
    × OnOk
        (λ t. MayInvoke sources (after_runs toy sources ((pay, event) ∷ []) live_engine) t.0 t.1)
        (resolve sources "pay:bill" (after_runs toy sources ((pay, event) ∷ []) live_engine)).0
    × IsFaithful sources
        (resolve sources "pay:bill" (after_runs toy sources ((pay, event) ∷ []) live_engine)).1
after_runs-MayInvoke_example =
    after_runs-MayInvoke toy sources ((pay, event) ∷ []) live_engine "pay:bill"
      (unfold live in refl)
