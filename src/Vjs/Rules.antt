-- ===== src/Vjs/Rules.antt =====
-- The rules view of a flow (core/src/vjs.rs, "rules-view projection"): each arm of a conditional on
-- the top level as a sentence, or as its source where it is not one simple comparison.
pub mod Guard
pub mod Action
pub mod Sound
use Prim.Native.String.{◌++◌ as ◌++ₛ◌}
use vejas.Base.{
  ℕ, ◌-◌, ◌+◌, String, Bool, true, false, ◌&&◌, Option, none, some, List, [], ◌∷◌, ◌++◌, map,
  contains, take, drop, length, leb, str_eq, if◌then◌else◌, unwrap_or,
}
use vejas.Vjs.Value.{
  Value, Items, Entries, Platform, Json, null, bool, string, array, object, no_items, item,
  no_entries, as_str,
}
use vejas.Vjs.Text.{trim}
use vejas.Vjs.Ast.{
  Expr, BinOp, Stmt, Block, Arms, Otherwise, Span, SurfaceEntry, Program, lit, var, field, index,
  bin, eq, ne, lt, le, gt, ge, in_op, assign, if_stmt, for_stmt, emit, respond, invoke_merge,
  end_block, stmt, no_arms, arm, absent, otherwise,
}
use vejas.Vjs.Token.{Bytes, is_char_boundary}
use vejas.Vjs.Static.Graph.{push}

-- `cons_some x o` and `map_both f o p` are `Some(…)` of what is in all of them.
abbrev pub cons_some : String → Option (List String) → Option (List String)
cons_some x none = none
cons_some x (some xs) = some (x ∷ xs)

abbrev pub map_some : (String → String) → Option String → Option String
map_some f none = none
map_some f (some a) = some (f a)

abbrev pub map_both : (String → String → String) → Option String → Option String → Option String
map_both f none p = none
map_both f (some a) p = map_some (f a) p

module _ (P : Platform) where
  unfoldable pub render_atom : Expr P.Number → Option String
  render_atom (var n) = some n
  render_atom (lit (string s)) = some ("\"" ++ₛ s ++ₛ "\"")
  render_atom (lit v) = some (P.to_string v)
  render_atom (field b name false) = map_some (λ r. r ++ₛ "." ++ₛ name) (render_atom b)
  render_atom (index b idx) =
      map_both (λ r i. r ++ₛ "[" ++ₛ i ++ₛ "]") (render_atom b) (render_atom idx)
  render_atom _ = none

-- A name that the surface has is collected once.
unfoldable pub collect_surface_refs :
    {N : Type 0} → Expr N → List String → List String → List String
collect_surface_refs (var n) surface out = if contains surface n then push out n else out
collect_surface_refs (field b name safe) surface out = collect_surface_refs b surface out
collect_surface_refs (index b i) surface out =
    collect_surface_refs i surface (collect_surface_refs b surface out)
collect_surface_refs _ surface out = out

unfoldable pub cmp_symbol : BinOp → Option String
cmp_symbol eq = some "="
cmp_symbol ne = some "≠"
cmp_symbol lt = some "<"
cmp_symbol le = some "≤"
cmp_symbol gt = some ">"
cmp_symbol ge = some "≥"
cmp_symbol in_op = some "in"
cmp_symbol _ = none

abbrev pub comparison :
    Option String → Option String → Option String → List String → Option (String × List String)
comparison (some sym) (some la) (some lb) refs = some (la ++ₛ " " ++ₛ sym ++ₛ " " ++ₛ lb, refs)
comparison _ _ _ refs = none

abbrev pub respond_act : (P : Platform) → Expr P.Number → String
respond_act P (lit v) = "respond " ++ₛ P.to_string v
respond_act P e = "respond"

abbrev pub surface_text : {N : Type 0} → String → List (SurfaceEntry N) → Option String
surface_text name [] = none
surface_text name (e ∷ es) = if str_eq (e.name) name then as_str (e.value) else surface_text name es

unfoldable pub resolve_subject : {N : Type 0} → Expr N → List (SurfaceEntry N) → Option String
resolve_subject (lit (string s)) surface = some s
resolve_subject (var name) surface = surface_text name surface
resolve_subject _ surface = none

-- `emit_act o rest`: what is shown of an emit whose subject is `o`, before what the rest shows.
abbrev pub emit_act : Option String → Option (List String) → Option (List String)
emit_act none rest = none
emit_act (some s) rest = cons_some ("→ " ++ₛ s) rest

abbrev pub visible : Option (List String) → Option (List String)
visible (some (a ∷ acts)) = some (a ∷ acts)
visible _ = none

module _ (P : Platform) where
  unfoldable pub render_guard : Expr P.Number → List String → Option (String × List String)
  render_guard (bin op a b) surface =
      comparison (cmp_symbol op) (render_atom P a) (render_atom P b)
        (collect_surface_refs b surface (collect_surface_refs a surface []))
  render_guard _ surface = none

  -- The loop of `render_action`: nested control flow ends it without a result.
  unfoldable pub actions : List (SurfaceEntry P.Number) → Block P.Number → Option (List String)
  actions surface end_block = some []
  actions surface (stmt (emit subject payload) body) =
      emit_act (resolve_subject subject surface) (actions surface body)
  actions surface (stmt (respond status answer) body) =
      cons_some (respond_act P status) (actions surface body)
  actions surface (stmt (assign path e) body) = actions surface body
  actions surface (stmt (invoke_merge name args) body) = actions surface body
  actions surface (stmt (if_stmt arms other) body) = none
  actions surface (stmt (for_stmt x iter inner) body) = none

  unfoldable pub render_action :
      Block P.Number → List (SurfaceEntry P.Number) → Option (List String)
  render_action body surface = visible (actions surface body)

pub data Kind : Type 0 where
  if_kind elif_kind else_kind : Kind

-- A rule as it is shown: projected into a sentence, or raw.
pub data Rule : Type 0 where
  projected : Kind → Option String → List String → List String → Rule
  raw : Kind → String → Rule

-- `src.get(a..b)`
abbrev pub slice : Bytes → Span → Option Bytes
slice src (a, b) =
    if leb a b && leb b (length src) && is_char_boundary src a && is_char_boundary src b
    then some (take (b - a) (drop a src))
    else none

module _ (P : Platform) (src : Bytes) (surface : List (SurfaceEntry P.Number)) where
  abbrev pub raw_text : Option Bytes → String
  raw_text none = ""
  raw_text (some bs) = trim (P.from_utf8_lossy bs)

  abbrev pub arm_rule : Kind → String → Option (String × List String) → Option (List String) → Rule
  arm_rule kind text (some (when, literals)) (some acts) = projected kind (some when) acts literals
  arm_rule kind text _ _ = raw kind text

  unfoldable pub arm_rules : Kind → Arms P.Number → List Rule → List Rule
  arm_rules kind no_arms more = more
  arm_rules kind (arm cond span body rest) more =
      arm_rule kind (raw_text (slice src span)) (render_guard P cond (map (λ e. e.name) surface))
        (render_action P body surface)
      ∷ arm_rules elif_kind rest more

  abbrev pub else_rule : Option (List String) → Rule
  else_rule (some acts) = projected else_kind none acts []
  else_rule none = raw else_kind "…"

  abbrev pub else_rules : Otherwise P.Number → List Rule → List Rule
  else_rules absent more = more
  else_rules (otherwise body) more = else_rule (render_action P body surface) ∷ more

  unfoldable pub block_rules : Block P.Number → List Rule
  block_rules end_block = []
  block_rules (stmt (if_stmt arms other) b) =
      let more = block_rules b in arm_rules if_kind arms (else_rules other more)
  block_rules (stmt s b) = block_rules b

-- The JSON of a rule.
unfoldable pub kind_name : Kind → String
kind_name if_kind = "if"
kind_name elif_kind = "elif"
kind_name else_kind = "else"

module _ (P : Platform) where
  unfoldable pub strings : List String → Items P.Number
  strings [] = no_items
  strings (s ∷ ss) = item (string s) (strings ss)

  abbrev when_value : Option String → Json P
  when_value none = null
  when_value (some s) = string s

  unfoldable pub rule_json : Rule → Json P
  rule_json (projected kind when acts literals) = object (
      P.insert "literals" (array (strings literals)) (
        P.insert "then" (array (strings acts)) (
          P.insert "when" (when_value when) (
            P.insert "projectable" (bool true)
              (P.insert "kind" (string (kind_name kind)) no_entries)))))
  rule_json (raw kind text) = object (
      P.insert "raw" (string text) (
        P.insert "projectable" (bool false) (P.insert "kind" (string (kind_name kind)) no_entries)))

  unfoldable pub flow_rules :
      Program P.Number → Bytes → List (SurfaceEntry P.Number) → List (Json P)
  flow_rules prog src surface = map rule_json (block_rules P src surface (prog.stmts))
