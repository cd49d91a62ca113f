-- ===== src/Vjs/Rules/Action.antt =====
-- The actions of a rule (core/src/vjs.rs, `render_action`, `resolve_subject`), against the subjects
-- that the panel's graph draws (`collect_static`).
use Prim.Native.String.{◌++◌ as ◌++ₛ◌}
use vejas.Base.{
  ℕ, suc, ◌≤◌, String, ◌≡◌, refl, sym, ◌∙◌, ap, subst, Bool, true, false, ◌⊎◌, inl, inr, Option,
  none, some, List, [], ◌∷◌, contains, lookup, length, str_eq, eq_iff, arith,
}
use vejas.Vjs.Value.{Platform, string, as_str}
use vejas.Vjs.Ast.{
  Expr, Block, SurfaceEntry, lit, var, invoke, assign, if_stmt, for_stmt, emit, respond,
  invoke_merge, end_block, stmt,
}
use vejas.Vjs.Parser.Programs.{consts_of, text_constant}
use vejas.Vjs.Static.Graph.{
  Collected, push_emit, push_invoke, note_value, known_subject, collect_block,
}
use vejas.Vjs.Rules.{
  cons_some, emit_act, visible, surface_text, resolve_subject, actions, render_action,
}
use vejas.Vjs.Rules.Guard.{contains-push}

-- Statements without nested control flow.
unfoldable pub is_flat : {N : Type 0} → Block N → Bool
is_flat end_block = true
is_flat (stmt (if_stmt arms other) b) = false
is_flat (stmt (for_stmt x iter body) b) = false
is_flat (stmt s b) = is_flat b

-- The statements that emit or respond.
unfoldable pub outputs : {N : Type 0} → Block N → ℕ
outputs end_block = 0
outputs (stmt (emit subject payload) b) = suc (outputs b)
outputs (stmt (respond status answer) b) = suc (outputs b)
outputs (stmt s b) = outputs b

emit_act-some :
    (o : Option String) (rest : Option (List String)) (acts : List String)
    → emit_act o rest ≡ some acts
    → (t : String) × (more : List String) × (o ≡ some t)
      × (rest ≡ some more)
      × ((("→ " ++ₛ t) ∷ more) ≡ acts)
emit_act-some none rest acts e = ground (arith, e)
emit_act-some (some t) none acts e = ground (arith, e)
emit_act-some (some t) (some more) acts e = (t, more, refl, refl, ground (arith, e))

cons_some-some :
    (a : String) (rest : Option (List String)) (acts : List String)
    → cons_some a rest ≡ some acts
    → (more : List String) × (rest ≡ some more) × ((a ∷ more) ≡ acts)
cons_some-some a none acts e = ground (arith, e)
cons_some-some a (some more) acts e = (more, refl, ground (arith, e))

suc_le : (n : ℕ) → 1 ≤ suc n
suc_le n = omega arith

visible-some :
    (o : Option (List String)) (acts : List String)
    → visible o ≡ some acts
    → (o ≡ some acts) × (1 ≤ length acts)
visible-some none acts e = ground (arith, e)
visible-some (some []) acts e = ground (arith, e)
visible-some (some (a ∷ more)) acts e =
    (e, subst (λ xs. 1 ≤ length xs) {x = a ∷ more} (ground (arith, e)) (suc_le (length more)))

text_constant-lookup :
    (name k s : String) (o : Option String) (rest : List (String × String))
    → (str_eq k name ≡ true → o ≡ some s)
    → (str_eq k name ≡ false → lookup name rest ≡ some s)
    → lookup name (text_constant k o rest) ≡ some s
text_constant-lookup name k s none rest h h' = ground (arith, h, h')
text_constant-lookup name k s (some t) rest h h' = ground (arith, h, h')

module _ {N : Type 0} where
  -- A subject that the rules view resolves is known to the panel's graph.
  surface_text-lookup :
      (name s : String) (surface : List (SurfaceEntry N))
      → surface_text name surface ≡ some s
      → lookup name (consts_of surface) ≡ some s
  unfolding consts_of
  surface_text-lookup name s [] e = ground (arith, e)
  surface_text-lookup name s (en ∷ surface) e =
      text_constant-lookup name (en.name) s (as_str (en.value)) (consts_of surface)
        (λ h. ground (arith, e, h)) (λ h. surface_text-lookup name s surface (ground (arith, e, h)))

  resolve_subject-known :
      (e : Expr N) (s : String) (surface : List (SurfaceEntry N))
      → resolve_subject e surface ≡ some s
      → known_subject (consts_of surface) e ≡ some s
  unfolding resolve_subject known_subject
  resolve_subject-known (lit (string t)) s surface e = e
  resolve_subject-known (var name) s surface e = surface_text-lookup name s surface e
  resolve_subject-known e s surface h = ground (arith, h)

module _ {N : Type 0} where
  note_value-emits :
      (consts : List (String × String)) (e : Expr N) (c : Collected)
      → (note_value consts e c).emits ≡ c.emits
  unfolding note_value push_invoke
  note_value-emits consts (invoke name args) c = refl
  note_value-emits consts e c = refl

pushed_emit :
    (o : Option String) (t s : String) (c : Collected)
    → o ≡ some t
    → contains (push_emit o c).emits s ≡ true
    → (contains c.emits s ≡ true) ⊎ (t ≡ s)
unfolding push_emit
pushed_emit none t s c e h = ground (arith, e)
pushed_emit (some u) t s c e h = ground (arith, e, h, contains-push c.emits u s, eq_iff u s)

-- The action of a subject stands in the list that is shown.
abbrev pub Shows : List String → String → Type 0
Shows acts s = contains acts ("→ " ++ₛ s) ≡ true

Shows-first : (t s : String) (more : List String) → t ≡ s → Shows (("→ " ++ₛ t) ∷ more) s
Shows-first t s more e = ground (arith, eq_iff ("→ " ++ₛ t) ("→ " ++ₛ s), ap (λ u. "→ " ++ₛ u) e)

Shows-later : (a s : String) (more : List String) → Shows more s → Shows (a ∷ more) s
Shows-later a s more h = ground (arith, h)

not_in_none : (A : Type 0) → (false ≡ true) ⊎ A → A
not_in_none A (inl e) = ground (arith, e)
not_in_none A (inr a) = a

module _ (P : Platform) (surface : List (SurfaceEntry P.Number)) where
  -- An emit adds its subject to the graph's, and its action to those that are shown.
  emit_shown :
      (subject : Expr P.Number) (c : Collected) (s : String) (more acts : List String) (t : String)
      → resolve_subject subject surface ≡ some t
      → (("→ " ++ₛ t) ∷ more) ≡ acts
      → (contains (push_emit (known_subject (consts_of surface) subject) c).emits s ≡ true)
        ⊎ Shows more s
      → (contains c.emits s ≡ true) ⊎ Shows acts s
  emit_shown subject c s more acts t e same (inr h) =
      inr (subst (λ rs. Shows rs s) same (Shows-later _ s more h))
  emit_shown subject c s more acts t e same (inl h) =
      elim (pushed_emit _ t s c (resolve_subject-known subject t surface e) h) [
        | inl k ↦ inl k
        | inr ts ↦ inr (subst (λ rs. Shows rs s) same (Shows-first t s more ts))
      ]

  actions-shown :
      (body : Block P.Number) (c : Collected) (s : String) (acts : List String)
      → actions P surface body ≡ some acts
      → contains (collect_block (consts_of surface) body c).emits s ≡ true
      → (contains c.emits s ≡ true) ⊎ Shows acts s
  unfolding actions collect_block push_invoke
  actions-shown end_block c s acts e h = inl h
  actions-shown (stmt (emit subject payload) body) c s acts e h =
      let (t, more, et, em, ea) = emit_act-some _ _ acts e in
      emit_shown subject c s more acts t et ea (actions-shown body _ s more em h)
  actions-shown (stmt (respond status answer) body) c s acts e h =
      let (more, em, ea) = cons_some-some _ _ acts e in
      elim (actions-shown body c s more em h) [
        | inl k ↦ inl k
        | inr k ↦ inr (subst (λ rs. Shows rs s) ea (Shows-later _ s more k))
      ]
  actions-shown (stmt (assign path v) body) c s acts e h = elim (actions-shown body _ s acts e h) [
    | inl k ↦ inl (subst (λ es. contains es s ≡ true) (note_value-emits (consts_of surface) v c) k)
    | inr k ↦ inr k
  ]
  actions-shown (stmt (invoke_merge name args) body) c s acts e h = actions-shown body _ s acts e h
  actions-shown (stmt (if_stmt arms other) body) c s acts e h = ground (arith, e)
  actions-shown (stmt (for_stmt x iter inner) body) c s acts e h = ground (arith, e)

  actions-outputs :
      (body : Block P.Number) (acts : List String)
      → actions P surface body ≡ some acts
      → (is_flat body ≡ true) × (length acts ≡ outputs body)
  unfolding actions is_flat outputs
  actions-outputs end_block acts e = (refl, ground (arith, e))
  actions-outputs (stmt (emit subject payload) body) acts e =
      let (t, more, et, em, ea) = emit_act-some _ _ acts e in
      let (f, n) = actions-outputs body more em in (f, sym (ap length ea) ∙ ap suc n)
  actions-outputs (stmt (respond status answer) body) acts e =
      let (more, em, ea) = cons_some-some _ _ acts e in
      let (f, n) = actions-outputs body more em in (f, sym (ap length ea) ∙ ap suc n)
  actions-outputs (stmt (assign path v) body) acts e = actions-outputs body acts e
  actions-outputs (stmt (invoke_merge name args) body) acts e = actions-outputs body acts e
  actions-outputs (stmt (if_stmt arms other) body) acts e = ground (arith, e)
  actions-outputs (stmt (for_stmt x iter inner) body) acts e = ground (arith, e)

  -- A body that is rendered has no nested control flow and an action for each of its emits and
  -- responds, one at least, and hides no subject: each that the panel's graph collects from the
  -- body, with the surface's texts for constants, is among the actions.
  pub render_action-shown :
      (body : Block P.Number) (acts : List String)
      → render_action P body surface ≡ some acts
      → (is_flat body ≡ true)
        × (length acts ≡ outputs body)
        × (1 ≤ length acts)
        × ((s : String)
            → contains
                (collect_block (consts_of surface) body (record { emits = []; invokes = [] })).emits
                s
              ≡ true
            → Shows acts s)
  unfolding render_action
  render_action-shown body acts e =
      let (found, some_act) = visible-some _ acts e in
      let (flat, each) = actions-outputs body acts found in
      (flat, each, some_act, λ s h. not_in_none _ (actions-shown body _ s acts found h))
