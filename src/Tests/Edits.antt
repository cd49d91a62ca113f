-- ===== src/Tests/Edits.antt =====
-- An edit of a constant of a concrete flow.
use vejas.Base.{ℕ, ◌≡◌, refl, Option, none, some, [], ◌∷◌, ◌++◌, String, length, take, drop}
use vejas.Exec.{ok}
use vejas.Vjs.Value.{Value, number}
use vejas.Vjs.Ast.{Program, SurfaceEntry, lit, assign, end_block, stmt}
use vejas.Vjs.Token.{Bytes, min}
use vejas.Vjs.Parser.Programs.{parse}
use vejas.Vjs.Surface.{
  as_bytes, find_literal, span_of, is_whole, is_blank, trimmed, splice, checked, replace_span,
  get_literal, set_literal,
}
use vejas.Versions.{utf8}
use vejas.Vjs.Static.Secret.{walk_expr}
use vejas.Vjs.Surface.Edits.{Parses, IsTrimmed, set_literal-Parses, set_literal-replaces}
use vejas.Tests.Toy.{toy}
use vejas.Tests.Lexing.{bytes}
use vejas.Tests.Parsing.{parsed}
use vejas.Tests.Script.{program}

abbrev no_json : String → Option (Value ℕ)
no_json s = none

-- X = 5 # fee, y = 1
abbrev flow : Bytes
flow = bytes "X = 5 # fee\ny = 1"

abbrev edited : Bytes
edited = bytes "X = value\ny = 1"

abbrev x : SurfaceEntry ℕ
x = record { name = "X"; value = number 5; value_span = (4, 11); entry_spans = [] }

abbrev flow_program : Program ℕ
flow_program =
    program
      (stmt (assign ("X" ∷ []) (lit (number 5)))
        (stmt (assign ("y" ∷ []) (lit (number 1))) end_block))
      (x ∷ [])

flow-parse : parse toy flow ≡ ok flow_program
unfolding parsed walk_expr
flow-parse = refl

flow-get_literal : get_literal toy flow "X" "" ≡ some (number 5)
unfolding parsed get_literal find_literal is_whole
flow-get_literal = refl

-- The comment behind the value goes with it.
flow-set_literal : set_literal toy no_json flow "X" "" (number 6) ≡ ok edited
unfolding parsed set_literal find_literal is_whole span_of replace_span trimmed is_blank splice
    checked as_bytes utf8
flow-set_literal = refl

set_literal-Parses_example : Parses toy edited
set_literal-Parses_example =
    set_literal-Parses toy no_json flow "X" "" (number 6) edited flow-set_literal

-- A flow with two blanks behind the value, which the edit keeps.
abbrev spaced : Bytes
spaced = bytes "X = 5  \ny = 1"

abbrev spaced_edited : Bytes
spaced_edited = bytes "X = value  \ny = 1"

abbrev spaced_x : SurfaceEntry ℕ
spaced_x = record { name = "X"; value = number 5; value_span = (4, 7); entry_spans = [] }

abbrev spaced_program : Program ℕ
spaced_program = record flow_program { surface = spaced_x ∷ [] }

spaced-parse : parse toy spaced ≡ ok spaced_program
unfolding parsed walk_expr
spaced-parse = refl

spaced-set_literal : set_literal toy no_json spaced "X" "" (number 6) ≡ ok spaced_edited
unfolding parsed set_literal find_literal is_whole span_of replace_span trimmed is_blank splice
    checked as_bytes utf8
spaced-set_literal = refl

set_literal-replaces_example :
    (b : ℕ) × (spaced_edited ≡ take 4 spaced ++ (as_bytes "value" ++ drop b spaced))
    × IsTrimmed spaced 4 (min 7 (length spaced)) b
set_literal-replaces_example =
    set_literal-replaces toy no_json spaced "X" "" (number 6) spaced_edited spaced_program spaced_x
      4 7 spaced-parse (unfold find_literal in refl) (unfold span_of is_whole in refl)
      spaced-set_literal
