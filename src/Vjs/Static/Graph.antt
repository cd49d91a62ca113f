-- ===== src/Vjs/Static/Graph.antt =====
-- The subjects that a program emits on and the services that it invokes, for the panel's graph
-- (core/src/vjs.rs, `collect_static`).
use vejas.Base.{String, Option, none, some, List, [], ◌∷◌, ◌++◌, contains, lookup, if◌then◌else◌}
use vejas.Vjs.Value.{string}
use vejas.Vjs.Ast.{
  Expr, Stmt, Block, Arms, Otherwise, lit, var, invoke, assign, if_stmt, for_stmt, emit, respond,
  invoke_merge, end_block, stmt, no_arms, arm, absent, otherwise,
}

-- What is collected: the subjects, and the services.
pub record Collected : Type 0 where
  pub emits : List String
  pub invokes : List String

unfoldable pub push : List String → String → List String
push v s = if contains v s then v else v ++ (s ∷ [])

unfoldable pub push_emit : Option String → Collected → Collected
push_emit none c = c
push_emit (some s) c = record c { emits = push c.emits s }

unfoldable pub push_invoke : String → Collected → Collected
push_invoke name c = record c { invokes = push c.invokes name }

module _ {N : Type 0} (consts : List (String × String)) where
  -- A subject that is known statically: a text, or a constant's name.
  unfoldable pub known_subject : Expr N → Option String
  known_subject (lit (string s)) = some s
  known_subject (var name) = lookup name consts
  known_subject _ = none

  -- An invoke that is the whole value of an assignment.
  unfoldable pub note_value : Expr N → Collected → Collected
  unfolding push_invoke
  note_value (invoke name args) c = push_invoke name c
  note_value _ c = c

  unfoldable mutual
    unfolding push_emit push_invoke note_value

    pub collect_block : Block N → Collected → Collected
    collect_block end_block c = c
    collect_block (stmt s b) c = collect_block b (collect_stmt s c)

    pub collect_stmt : Stmt N → Collected → Collected
    collect_stmt (emit subj payload) c = push_emit (known_subject subj) c
    collect_stmt (invoke_merge name args) c = push_invoke name c
    collect_stmt (assign path e) c = note_value e c
    collect_stmt (if_stmt arms other) c = collect_otherwise other (collect_arms arms c)
    collect_stmt (for_stmt x iter body) c = collect_block body c
    collect_stmt (respond status body) c = c

    pub collect_arms : Arms N → Collected → Collected
    collect_arms no_arms c = c
    collect_arms (arm cond span body rest) c = collect_arms rest (collect_block body c)

    pub collect_otherwise : Otherwise N → Collected → Collected
    collect_otherwise absent c = c
    collect_otherwise (otherwise body) c = collect_block body c
