-- ===== src/Vjs/Eval/Scope.antt =====
-- Evaluating an expression changes no variable (core/src/vjs.rs, `eval`): a filter binds the fields
-- of each item and puts back what they hid, and an invoked service has a pipeline of its own.
use vejas.Base.{
  String, ◌≡◌, refl, ◌∙◌, false, List, [], ◌∷◌, Option, none, some, arith, eq_iff, str_eq, contains,
  if◌then◌else◌,
}
use vejas.Exec.{
  Result, ok, err, Outcome, returned, failed, outcome, OnOk, pure, modify, continue, ◌>>=◌, ◌>>◌,
}
use vejas.Exec.Keeps.{Composes, Keeps}
use vejas.Vjs.Failure.{Failure, Raised}
use vejas.Vjs.Value.{Entries, Platform, Json, Map, get, keys, no_entries, entry, object, truthy}
use vejas.Vjs.Ast.{Expr}
use vejas.Vjs.Engine.{Engine}
use vejas.Vjs.Eval.{
  State, Run, Service, eval, on_engine, set_vars, append_emits, insert_all, bind_item, item_keys,
  saved_vars, restore_var, restore_vars, scoped,
}
use vejas.Vjs.Eval.Keeps.{InvokesKeep, EvalLaws, eval-Keeps, invoke_service-Keeps}

module _ (P : Platform) where
  get-restore_var :
      (k j : String) (old : Option (Json P)) (vars : Map P)
      → get j (restore_var P k old vars) ≡ (if str_eq k j then old else get j vars)
  unfolding restore_var
  get-restore_var k j none vars = P.get-remove k j vars
  get-restore_var k j (some v) vars = P.get-insert k j v vars

  -- What was saved is read back, and nothing else is touched.
  get-restore_vars :
      (ks : List String) (j : String) (vars now : Map P)
      → get j (restore_vars P (saved_vars ks vars) now)
        ≡ (if contains ks j then get j vars else get j now)
  unfolding restore_vars saved_vars
  get-restore_vars [] j vars now = refl
  get-restore_vars (k ∷ ks) j vars now = ground (
    arith,
    eq_iff k j,
    get-restore_vars ks j vars (restore_var P k (get k vars) now),
    get-restore_var k j (get k vars) now,
  )

  -- A document's fields hide the variables of their names only.
  get-insert_all :
      (m : Map P) (j : String) (vars : Map P)
      → contains (keys m) j ≡ false
      → get j (insert_all P m vars) ≡ get j vars
  unfolding insert_all keys
  get-insert_all no_entries j vars h = refl
  get-insert_all (entry k v m) j vars h =
      ground (arith, get-insert_all m j (P.insert k v vars), P.get-insert k j v vars)

  get-bind_item :
      (v : Json P) (j : String) (vars : Map P)
      → contains (item_keys v) j ≡ false
      → get j (bind_item P v vars) ≡ get j vars
  unfolding bind_item item_keys
  get-bind_item (object m) j vars h = get-insert_all m j vars h
  get-bind_item _ j vars h = refl

  get-restored :
      (v : Json P) (j : String) (vars now : Map P)
      → get j now ≡ get j (bind_item P v vars)
      → get j (restore_vars P (saved_vars (item_keys v) vars) now) ≡ get j vars
  get-restored v j vars now h =
      ground (arith, get-restore_vars (item_keys v) j vars now, get-bind_item v j vars)

-- The same variables, where the action returned.
abbrev SameOn : {N : Type 0} → Outcome (Failure N) → Entries N → Entries N → Type 0
SameOn returned a b = (k : String) → get k b ≡ get k a
SameOn (failed e) a b = Unit

record SameVars {N : Type 0} (s : State N) (o : Outcome (Failure N)) (t : State N) : Type 0 where
  vars : SameOn o s.ctx.vars t.ctx.vars

SameOn-trans :
    {N : Type 0} (o : Outcome (Failure N)) (a b c : Entries N)
    → SameOn {N = N} returned a b
    → SameOn o b c
    → SameOn o a c
SameOn-trans returned a b c h k = λ j. k j ∙ h j
SameOn-trans (failed e) a b c h k = tt

same_vars : {N : Type 0} → Composes Raised (SameVars {N = N})
same_vars = record {
  same = λ s. record { vars = λ k. refl };
  fails = λ s e h. record { vars = tt };
  chain = λ s t u o h k. record {
    vars = SameOn-trans o s.ctx.vars t.ctx.vars u.ctx.vars h.vars k.vars;
  };
}

module _ (P : Platform) where
  -- After the condition, the rest of a filter's step puts the variables of `s` back.
  restored-SameVars :
      (v : Json P) (s t : State P.Number) (r : Result (Failure P.Number) (Json P))
      → SameOn (outcome r) (set_vars (bind_item P v) s).ctx.vars t.ctx.vars
      → let f = λ (kept : Json P).
        modify (set_vars (restore_vars P (saved_vars (item_keys v) s.ctx.vars)))
        >> pure (truthy P kept) in
        SameVars s (outcome (continue r f t).0) (continue r f t).1
  unfolding ◌>>=◌ set_vars
  restored-SameVars v s t (ok kept) h = record {
    vars = λ j. get-restored P v j s.ctx.vars t.ctx.vars (h j);
  }
  restored-SameVars v s t (err e) h = record { vars = tt }

  scoped-SameVars :
      (v : Json P) (m : Run P.Number (Json P)) → Keeps SameVars m → Keeps SameVars (scoped P v m)
  unfolding scoped ◌>>=◌
  scoped-SameVars v m h = record {
    at = λ s.
        let bound = set_vars (bind_item P v) s in
        restored-SameVars v s (m bound).1 (m bound).0 (h.at bound).vars;
  }

  module _ (service : Service P.Number) where
    appends-SameVars :
        (s : State P.Number) (r : Result (Failure P.Number) (Json P × List (String × Json P)))
        → OnOk (λ out. SameVars s returned (append_emits out.1 s)) r
    unfolding append_emits
    appends-SameVars s (ok out) = record { vars = λ k. refl }
    appends-SameVars s (err e) = tt

    engine-SameVars :
        (s : State P.Number) (o : Outcome (Failure P.Number)) (g : Engine P.Number)
        → SameVars s o (record s { engine = g })
    engine-SameVars s returned g = record { vars = λ k. refl }
    engine-SameVars s (failed e) g = record { vars = tt }

    invokes-SameVars : InvokesKeep P service SameVars
    unfolding on_engine
    invokes-SameVars name m =
        invoke_service-Keeps P.Number same_vars service name m
          (record { at = λ s. engine-SameVars s _ _ })
          λ s. appends-SameVars (on_engine (service name m) s).1 (service name m s.engine).0

    -- An expression that evaluates to a value leaves every variable as it was, whatever it filters
    -- and whatever the services that it invokes do.
    pub get-eval :
        (e : Expr P.Number) (s : State P.Number) (k : String)
        → OnOk
            (λ v. get k (eval P service e s).1.ctx.vars ≡ get k s.ctx.vars)
            (eval P service e s).0
    get-eval e s k =
        let laws : EvalLaws P service SameVars = record {
          composes = same_vars;
          scoped_keeps = scoped-SameVars;
        } in
        let kept = (eval-Keeps P service SameVars laws e (λ w. invokes-SameVars)).at s in
        same-at k (eval P service e s).0 (eval P service e s).1 kept.vars
      where
        same-at :
            (k : String) (r : Result (Failure P.Number) (Json P)) (t : State P.Number)
            → SameOn (outcome r) s.ctx.vars t.ctx.vars
            → OnOk (λ v. get k t.ctx.vars ≡ get k s.ctx.vars) r
        same-at k (ok v) t h = h k
        same-at k (err e) t h = tt
