-- ===== src/Tests/Rules.antt =====
-- The rules view of concrete flows.
use vejas.Base.{
  ℕ, ◌≤◌, String, ◌≡◌, refl, true, none, some, List, [], ◌∷◌, All, map, contains, length, false,
  ◌&&◌,
}
use vejas.Vjs.Value.{Value, number, string, as_str}
use vejas.Vjs.Ast.{
  Expr, Block, SurfaceEntry, lit, var, bin, eq, gt, field, assign, if_stmt, emit, respond,
  end_block, stmt, no_arms, arm, absent, otherwise,
}
use vejas.Vjs.Static.Graph.{push, collect_block}
use vejas.Vjs.Parser.Programs.{consts_of}
use vejas.Vjs.Token.{is_char_boundary, slices, is_continuation}
use vejas.Vjs.Text.{trim}
use vejas.Vjs.Run.{assign_path}
use vejas.Vjs.Rules.{
  Rule, projected, raw, if_kind, elif_kind, else_kind, render_atom, collect_surface_refs,
  cmp_symbol, resolve_subject, render_guard, actions, render_action, arm_rules, block_rules,
}
use vejas.Vjs.Rules.Guard.{Distinct, compares, render_guard-literals}
use vejas.Vjs.Rules.Action.{is_flat, outputs, Shows, render_action-shown}
use vejas.Vjs.Rules.Sound.{Sound, block_rules-Sound}
use vejas.Tests.Toy.{toy, ascii_text}
use vejas.Tests.Lexing.{bytes}
use vejas.Tests.Script.{program, live_engine, emits_of}

abbrev constant : String → Value ℕ → SurfaceEntry ℕ
constant name v = record { name = name; value = v; value_span = (0, 0); entry_spans = [] }

-- OUT = "vx.big", LIMIT = 9
abbrev surface : List (SurfaceEntry ℕ)
surface = constant "OUT" (string "vx.big") ∷ constant "LIMIT" (number 9) ∷ []

-- event.total > LIMIT
abbrev above_limit : Expr ℕ
above_limit = bin gt (field (var "event") "total" false) (var "LIMIT")

-- x = 1, emit OUT, x
abbrev send : Block ℕ
send = stmt (assign ("x" ∷ []) (lit (number 1))) (stmt (emit (var "OUT") (var "x")) end_block)

-- if event.total > LIMIT: … elif urgent: … else: respond 200, x
abbrev flow : Block ℕ
flow =
    stmt
      (if_stmt (arm above_limit (3, 22) send (arm (var "urgent") (0, 6) send no_arms))
        (otherwise (stmt (respond (lit (number 200)) (var "x")) end_block)))
      end_block

rules : Block ℕ → List Rule
unfolding block_rules arm_rules render_guard render_action actions render_atom collect_surface_refs
    cmp_symbol resolve_subject push as_str is_char_boundary slices is_continuation ascii_text trim
rules b = block_rules toy (bytes "urgent") surface b

-- The second arm is no comparison, and shows its source.
flow-rules :
    rules flow
    ≡ projected if_kind (some "event.total > LIMIT") ("→ vx.big" ∷ []) ("LIMIT" ∷ [])
      ∷ raw elif_kind "urgent"
      ∷ projected else_kind none ("respond value" ∷ []) []
      ∷ []
unfolding rules
flow-rules = refl

render_guard-literals_example :
    Distinct ("LIMIT" ∷ [])
    × ((x : String)
        → contains ("LIMIT" ∷ []) x ≡ (contains ("OUT" ∷ "LIMIT" ∷ []) x && compares above_limit x))
render_guard-literals_example =
    render_guard-literals toy above_limit ("OUT" ∷ "LIMIT" ∷ []) "event.total > LIMIT"
      ("LIMIT" ∷ []) (unfold render_guard render_atom collect_surface_refs cmp_symbol push in refl)

abbrev shown : List String
shown = "→ vx.big" ∷ []

render_action-shown_example :
    (is_flat send ≡ true)
    × (length shown ≡ outputs send)
    × (1 ≤ length shown)
    × ((s : String)
        → contains
            (collect_block (consts_of surface) send (record { emits = []; invokes = [] })).emits
            s
          ≡ true
        → Shows shown s)
render_action-shown_example =
    render_action-shown toy surface send shown
      (unfold render_action actions resolve_subject as_str in refl)

block_rules-Sound_example :
    All (Sound (map (λ e. e.name) surface)) (block_rules toy (bytes "urgent") surface flow)
block_rules-Sound_example = block_rules-Sound toy (bytes "urgent") surface flow

-- The arm assigns the constant before it emits: the rule names the surface's text, and the run
-- emits on the other subject.
abbrev reassigned : Block ℕ
reassigned = stmt (assign ("OUT" ∷ []) (lit (string "vx.big"))) (
    stmt
      (if_stmt
        (arm (bin eq (var "id") (lit (number 1))) (0, 6)
          (stmt (assign ("OUT" ∷ []) (lit (string "vx.other"))) send) no_arms)
        absent)
      end_block)

reassigned-rules :
    rules reassigned ≡ projected if_kind (some "id = value") ("→ vx.big" ∷ []) [] ∷ []
unfolding rules
reassigned-rules = refl

reassigned-emits : emits_of (program reassigned surface) live_engine ≡ ("vx.other", number 1) ∷ []
unfolding emits_of assign_path
reassigned-emits = refl
