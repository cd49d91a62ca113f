-- ===== src/Vjs/Rules/Sound.antt =====
-- The rules of a whole flow (core/src/vjs.rs, `flow_rules`).
use vejas.Base.{
  ◌≤◌, String, ◌≡◌, refl, true, Option, none, some, List, All, map, contains, length, arith,
}
use vejas.Vjs.Value.{Platform}
use vejas.Vjs.Ast.{
  Expr, Block, Arms, Otherwise, SurfaceEntry, end_block, stmt, assign, if_stmt, for_stmt, emit,
  respond, invoke_merge, no_arms, arm, absent, otherwise,
}
use vejas.Vjs.Token.{Bytes}
use vejas.Vjs.Rules.{
  Kind, Rule, projected, raw, if_kind, elif_kind, render_guard, render_action, arm_rule, arm_rules,
  else_rule, else_rules, block_rules,
}
use vejas.Vjs.Rules.Guard.{Distinct, render_guard-literals}
use vejas.Vjs.Rules.Action.{render_action-shown}

module _ (names : List String) where
  -- A projected rule shows an action or more, and its literals are names of the surface, each once.
  abbrev pub Sound : Rule → Type 0
  Sound (projected kind when acts literals) =
      (1 ≤ length acts)
      × Distinct literals
      × ((x : String) → contains literals x ≡ true → contains names x ≡ true)
  Sound (raw kind text) = Unit

module _ (P : Platform) (src : Bytes) (surface : List (SurfaceEntry P.Number)) where
  abbrev names : List String
  names = map (λ e. e.name) surface

  shown_some :
      (body : Block P.Number) (acts : List String)
      → render_action P body surface ≡ some acts
      → 1 ≤ length acts
  shown_some body acts e = (render_action-shown P surface body acts e).2

  arm_rule-Sound :
      (kind : Kind) (text : String) (cond : Expr P.Number) (guard : Option (String × List String))
      (acts : Option (List String))
      → render_guard P cond names ≡ guard
      → ((bs : List String) → acts ≡ some bs → 1 ≤ length bs)
      → Sound names (arm_rule P src surface kind text guard acts)
  arm_rule-Sound kind text cond (some (when, literals)) (some acts) eg h =
      let (distinct, exact) = render_guard-literals P cond names when literals eg in
      (h acts refl, distinct, λ x e. ground (arith, e, exact x))
  arm_rule-Sound kind text cond none acts eg h = tt
  arm_rule-Sound kind text cond (some g) none eg h = tt

  arm_rules-Sound :
      (kind : Kind) (arms : Arms P.Number) (more : List Rule)
      → All (Sound names) more
      → All (Sound names) (arm_rules P src surface kind arms more)
  unfolding arm_rules
  arm_rules-Sound kind no_arms more h = h
  arm_rules-Sound kind (arm cond span body rest) more h =
      (arm_rule-Sound kind _ cond _ _ refl (shown_some body), arm_rules-Sound elif_kind rest more h)

  else_rule-Sound :
      (acts : Option (List String))
      → ((bs : List String) → acts ≡ some bs → 1 ≤ length bs)
      → Sound names (else_rule P src surface acts)
  else_rule-Sound none h = tt
  else_rule-Sound (some acts) h = (h acts refl, tt, λ x e. ground (arith, e))

  else_rules-Sound :
      (other : Otherwise P.Number) (more : List Rule)
      → All (Sound names) more
      → All (Sound names) (else_rules P src surface other more)
  else_rules-Sound absent more h = h
  else_rules-Sound (otherwise body) more h = (else_rule-Sound _ (shown_some body), h)

  -- Every projected rule of a flow shows an action or more, and its literals are names of the
  -- surface, each once.
  pub block_rules-Sound :
      (b : Block P.Number) → All (Sound (map (λ e. e.name) surface)) (block_rules P src surface b)
  unfolding block_rules
  block_rules-Sound end_block = tt
  block_rules-Sound (stmt (if_stmt arms other) b) =
      arm_rules-Sound if_kind arms _ (else_rules-Sound other _ (block_rules-Sound b))
  block_rules-Sound (stmt (assign path e) b) = block_rules-Sound b
  block_rules-Sound (stmt (for_stmt x e body) b) = block_rules-Sound b
  block_rules-Sound (stmt (emit s p) b) = block_rules-Sound b
  block_rules-Sound (stmt (respond s p) b) = block_rules-Sound b
  block_rules-Sound (stmt (invoke_merge n args) b) = block_rules-Sound b
