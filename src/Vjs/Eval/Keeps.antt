-- ===== src/Vjs/Eval/Keeps.antt =====
-- What holds of every evaluation, by induction on the syntax: a relation between the states that
-- the scope of a filter keeps, and the invokes keep too if the expression has any.
use vejas.Base.{String, List, ◌≡◌, refl, Bool, true, false, ◌||◌, arith, str_eq}
use vejas.Exec.{
  Result, ok, err, Outcome, returned, outcome, OnOk, OnErr, map_err, pure, modify, continue, ◌>>=◌,
  ◌>>◌,
}
use vejas.Vjs.Failure.{Failure, Raised, secret_store}
use vejas.Vjs.Builtin.{builtin}
use vejas.Exec.Keeps.{
  Composes, Keeps, Keeps-pure, Keeps-raise, Keeps-lift, Keeps-gets, Keeps-modify, Keeps-if,
  Keeps-bind, keeps_rules,
}
use vejas.Vjs.Value.{Value, Platform, Json, Map, Items, Entries, array, no_items, item}
use vejas.Vjs.Ast.{
  BinOp, Expr, Exprs, Fields, Parts, and, or, coalesce, lit, f_string, var, doc, field, index,
  projection, filter, call, invoke, unary, bin, no_exprs, expr, no_fields, named, no_parts, text,
  hole,
}
use vejas.Vjs.Static.{expr_writes_bus, exprs_write_bus, fields_write_bus, parts_write_bus}
use vejas.Vjs.Eval.{
  State, Run, Service, set_vars, append_emits, on_engine, eval, eval_exprs, eval_fields, eval_parts,
  invoke_service, scoped, filter_items, filter_value, call_function, read_secret, read_field,
  read_var, bin_eval,
}

pub or_left {ℓ} : {X : Type ℓ} (a b : Bool) → ((a || b) ≡ true → X) → a ≡ true → X
or_left true b h e = h refl
or_left false b h e = absurd (cc)

pub or_right {ℓ} : {X : Type ℓ} (a b : Bool) → ((a || b) ≡ true → X) → b ≡ true → X
or_right true b h e = h refl
or_right false b h e = h e

-- Nothing that the code raises is the model's own failure.
map_secret-Raised :
    (N : Type 0) {A : Type 0} (r : Result String A)
    → OnErr Raised (map_err {F = Failure N} secret_store r)
map_secret-Raised N (ok a) = tt
map_secret-Raised N (err e) = refl

read_field-Raised :
    {N : Type 0} (f : String) (safe : Bool) (v : Value N) → OnErr Raised (read_field f safe v)
unfolding read_field
read_field-Raised f true (Value.object o) = tt
read_field-Raised f true _ = tt
read_field-Raised f false (Value.object o) = tt
read_field-Raised f false (Value.array vs) = tt
read_field-Raised f false Value.null = tt
read_field-Raised f false _ = refl

builtin-Raised :
    (P : Platform) (name : String) (vs : Items P.Number) → OnErr Raised (builtin P name vs)
unfolding builtin
builtin-Raised P name vs = ground arith

module _ (P : Platform) (service : Service P.Number)
    (R : State P.Number → Outcome (Failure P.Number) → State P.Number → Type 0) where
  -- The services keep the relation.
  abbrev pub InvokesKeep : Type 0
  InvokesKeep = (name : String) (m : Map P) → Keeps R (invoke_service service name m)

  -- What an evaluation is built from keeps the relation.
  pub record EvalLaws : Type 0 where
    pub composes : Composes Raised R
    pub scoped_keeps : (v : Json P) (m : Run P.Number (Json P)) → Keeps R m → Keeps R (scoped P v m)

  module _ (laws : EvalLaws) where
    filter_items-Keeps :
        (cond : Run P.Number (Json P)) (vs : Items P.Number)
        → Keeps R cond
        → Keeps R (filter_items P cond vs)
    unfolding filter_items
    filter_items-Keeps cond no_items h = Keeps-pure laws.composes _
    filter_items-Keeps cond (item v vs) h =
        search
          (keeps_rules, laws.composes, laws.scoped_keeps v cond h, filter_items-Keeps cond vs h)

    filter_value-Keeps :
        (cond : Run P.Number (Json P)) (v : Json P) → Keeps R cond → Keeps R (filter_value P cond v)
    unfolding filter_value
    filter_value-Keeps cond (array vs) h =
        search (keeps_rules, laws.composes, filter_items-Keeps cond vs h)
    filter_value-Keeps cond _ h = Keeps-pure laws.composes _

    read_var-Keeps : (name : String) → Keeps R (read_var {N = P.Number} name)
    unfolding read_var
    read_var-Keeps name = search (keeps_rules, laws.composes)

    read_secret-Keeps : (vs : Items P.Number) → Keeps R (read_secret vs)
    unfolding read_secret
    read_secret-Keeps no_items = Keeps-raise laws.composes _ refl
    read_secret-Keeps (item (Value.string s) vs) =
        search (keeps_rules, laws.composes, map_secret-Raised P.Number)
    read_secret-Keeps (item _ vs) = Keeps-raise laws.composes _ refl

    call_function-Keeps : (name : String) (vs : Items P.Number) → Keeps R (call_function P name vs)
    unfolding call_function
    call_function-Keeps name vs =
        Keeps-if (str_eq name "secret") _ _ (read_secret-Keeps vs)
          (Keeps-lift laws.composes _ (builtin-Raised P name vs))

    bin_eval-Keeps :
        (op : BinOp) (l r : Run P.Number (Json P))
        → Keeps R l
        → Keeps R r
        → Keeps R (bin_eval P op l r)
    unfolding bin_eval
    bin_eval-Keeps and l r hl hr = search (keeps_rules, laws.composes)
    bin_eval-Keeps or l r hl hr = search (keeps_rules, laws.composes)
    bin_eval-Keeps coalesce l r hl hr = search (keeps_rules, laws.composes)
    bin_eval-Keeps _ l r hl hr = search (keeps_rules, laws.composes)

    ruleset eval_rules =
        (keeps_rules, read_var-Keeps, filter_value-Keeps, call_function-Keeps, bin_eval-Keeps)

    mutual
      unfolding eval expr_writes_bus

      pub eval-Keeps :
          (e : Expr P.Number)
          → (expr_writes_bus e ≡ true → InvokesKeep)
          → Keeps R (eval P service e)
      eval-Keeps (lit v) h = search (eval_rules, laws.composes)
      eval-Keeps (f_string parts) h = search (eval_rules, laws.composes, eval_parts-Keeps parts h)
      eval-Keeps (var name) h = search eval_rules
      eval-Keeps (doc fields) h = search (eval_rules, laws.composes, eval_fields-Keeps fields h)
      eval-Keeps (Expr.array es) h = search (eval_rules, laws.composes, eval_exprs-Keeps es h)
      eval-Keeps (field b f safe) h =
          search (eval_rules, laws.composes, read_field-Raised f safe, eval-Keeps b h)
      eval-Keeps (index a b) h = search (
        eval_rules,
        laws.composes,
        eval-Keeps a (or_left (expr_writes_bus a) (expr_writes_bus b) h),
        eval-Keeps b (or_right (expr_writes_bus a) (expr_writes_bus b) h),
      )
      eval-Keeps (projection b) h = eval-Keeps b h
      eval-Keeps (filter a b) h = search (
        eval_rules,
        laws.composes,
        eval-Keeps a (or_left (expr_writes_bus a) (expr_writes_bus b) h),
        eval-Keeps b (or_right (expr_writes_bus a) (expr_writes_bus b) h),
      )
      eval-Keeps (call name args) h = search (eval_rules, laws.composes, eval_exprs-Keeps args h)
      eval-Keeps (invoke name args) h =
          search (eval_rules, eval_fields-Keeps args (λ e. h refl), h refl name)
      eval-Keeps (unary op b) h = search (eval_rules, laws.composes, eval-Keeps b h)
      eval-Keeps (bin op a b) h = search (
        eval_rules,
        laws.composes,
        eval-Keeps a (or_left (expr_writes_bus a) (expr_writes_bus b) h),
        eval-Keeps b (or_right (expr_writes_bus a) (expr_writes_bus b) h),
      )

      pub eval_exprs-Keeps :
          (es : Exprs P.Number)
          → (exprs_write_bus es ≡ true → InvokesKeep)
          → Keeps R (eval_exprs P service es)
      eval_exprs-Keeps no_exprs h = search (eval_rules, laws.composes)
      eval_exprs-Keeps (expr e es) h = search (
        eval_rules,
        laws.composes,
        eval-Keeps e (or_left (expr_writes_bus e) (exprs_write_bus es) h),
        eval_exprs-Keeps es (or_right (expr_writes_bus e) (exprs_write_bus es) h),
      )

      pub eval_fields-Keeps :
          (fs : Fields P.Number)
          → (fields_write_bus fs ≡ true → InvokesKeep)
          → (m : Map P) → Keeps R (eval_fields P service fs m)
      eval_fields-Keeps no_fields h m = search (eval_rules, laws.composes)
      eval_fields-Keeps (named k e fs) h m = search (
        eval_rules,
        laws.composes,
        eval-Keeps e (or_left (expr_writes_bus e) (fields_write_bus fs) h),
        eval_fields-Keeps fs (or_right (expr_writes_bus e) (fields_write_bus fs) h),
      )

      pub eval_parts-Keeps :
          (ps : Parts P.Number)
          → (parts_write_bus ps ≡ true → InvokesKeep)
          → (s : String) → Keeps R (eval_parts P service ps s)
      eval_parts-Keeps no_parts h s = search (eval_rules, laws.composes)
      eval_parts-Keeps (text l ps) h s = eval_parts-Keeps ps h _
      eval_parts-Keeps (hole e ps) h s = search (
        eval_rules,
        laws.composes,
        eval-Keeps e (or_left (expr_writes_bus e) (parts_write_bus ps) h),
        eval_parts-Keeps ps (or_right (expr_writes_bus e) (parts_write_bus ps) h),
      )

-- Where every change of the variables keeps the relation, a filter's scope does.
pub scoped-Keeps :
    (P : Platform) {R : State P.Number → Outcome (Failure P.Number) → State P.Number → Type 0}
    → Composes Raised R
    → ((t : State P.Number) (f : Map P → Map P) → R t returned (set_vars f t))
    → (v : Json P) (m : Run P.Number (Json P)) → Keeps R m
    → Keeps R (scoped P v m)
unfolding scoped
scoped-Keeps P c assigns v m h = Keeps-bind c _ _ (Keeps-gets c _) λ vars.
    Keeps-bind c _ _ (Keeps-modify _ (λ t. assigns t _)) λ u.
      Keeps-bind c _ _ h
        λ kept. Keeps-bind c _ _ (Keeps-modify _ (λ t. assigns t _)) (λ w. Keeps-pure c _)

-- An invoke is the service's run on the engine and the append of its emits, from state to state.
module _ (N : Type 0) {R : State N → Outcome (Failure N) → State N → Type 0}
    (c : Composes Raised R) where
  invoked_at :
      (r : Result (Failure N) (Value N × List (String × Value N))) (s t : State N)
      → R s (outcome r) t
      → OnOk (λ out. R t returned (append_emits out.1 t)) r
      → let f =
          λ (out : Value N × List (String × Value N)). modify (append_emits out.1) >> pure out.0 in
        R s (outcome (continue r f t).0) (continue r f t).1
  unfolding ◌>>=◌
  invoked_at (ok out) s t h k = c.chain s t _ returned h k
  invoked_at (err e) s t h k = h

  pub invoke_service-Keeps :
      (service : Service N) (name : String) (m : Entries N)
      → Keeps R (on_engine (service name m))
      → ((s : State N)
          → OnOk
              (λ out.
                R
                  (on_engine (service name m) s).1
                  returned
                  (append_emits out.1 (on_engine (service name m) s).1))
              (service name m s.engine).0)
      → Keeps R (invoke_service service name m)
  unfolding invoke_service
  invoke_service-Keeps service name m h k = record {
    at = λ s.
        unfold ◌>>=◌ on_engine in
        invoked_at (service name m s.engine).0 s (on_engine (service name m) s).1 (h.at s) (k s);
  }
