-- ===== src/Tests/Parsing.antt =====
-- The parser on concrete sources.
use vejas.Base.{ℕ, true, ◌≡◌, ◌≢◌, refl, Option, none, some, [], ◌∷◌}
use vejas.Exec.{Result, ok, err, ◌>>=◌, pure, raise, gets, lift}
use vejas.Vjs.Value.{number, string, num, as_str}
use vejas.Vjs.Ast.{
  Block, Program, stmt, end_block, assign, if_stmt, invoke, invoke_merge, unary, neg, index, field,
  arm, no_arms, otherwise, emit, lit, var, bin, eq, doc, named, no_fields, respond, f_string, text,
  hole, no_parts, add, mul,
}
use vejas.Vjs.Token.{
  Bytes, SyntaxError, at_line, complaint, err_at, is_char_boundary, slices, is_continuation, min,
  tag, exhausted, toks_size,
}
use vejas.Vjs.Lexer
use vejas.Vjs.Symbols
use vejas.Vjs.Parser
use vejas.Vjs.Parser.Operators
use vejas.Vjs.Parser.Literals
use vejas.Vjs.Parser.Exprs
use vejas.Vjs.Parser.Stmts
use vejas.Vjs.Parser.Programs
use vejas.Vjs.Static.Graph
use vejas.Vjs.Static.Secret
use vejas.Vjs.Parser.Within.Program.{parse-ne-exhausted}
use vejas.Tests.Toy.{toy, ascii_text, decimal, insert_entry}
use vejas.Tests.Lexing.{bytes}

unfoldable pub parsed : Bytes → Result (SyntaxError ℕ) (Program ℕ)
unfolding Lexer.lex Lexer.scan Symbols.run_length Symbols.is_digit Symbols.is_letter Symbols.keyword
    Lexer.piece Lexer.hole_end Lexer.fstring_at Lexer.string_body Lexer.lex_at ascii_text decimal
    Lexer.unescape Symbols.two_symbol Symbols.one_symbol err_at is_char_boundary slices
    is_continuation min Programs.parse toks_size Programs.program Programs.program_from
    Programs.constant Literals.try_literal Literals.literal_value Literals.literal_from
    Literals.literal_items Literals.literal_entries Programs.finished Programs.consts_of
    Programs.constant_name Programs.all_constant Programs.any_upper Programs.is_upper
    Programs.directive_of Stmts.stmt_at Stmts.block Stmts.stmt_with Stmts.stmt_from Stmts.more_arms
    Stmts.condition Stmts.pair_of_exprs Stmts.assigned Stmts.path_rest Stmts.ends_block
    Stmts.arm_head Stmts.stmt_head Exprs.expr_at Exprs.binary Exprs.postfix Exprs.bracketed
    Exprs.head Exprs.parts_of Exprs.hole_expr Exprs.invoke_args Exprs.qualified Exprs.service_ahead
    Exprs.named_args Exprs.doc_fields Exprs.call_args Exprs.items Exprs.optional_comma
    Exprs.separator Operators.is_filter Operators.is_test_op Operators.ident_of Operators.tighter
    Operators.operator Operators.postfix_of Parser.first Parser.second Parser.tail Parser.pos_or
    Parser.last_pos Parser.same Parser.skip Parser.word_of Parser.at_end Parser.peek Parser.pos
    Parser.next Parser.skip_newlines Parser.take_if Parser.only Parser.fail Parser.expect Parser.eat
    Parser.word tag ◌>>=◌ pure raise gets lift num as_str insert_entry Graph.collect_block
    Secret.walk_stmts
parsed s = Programs.parse toy s

abbrev statements : Result (SyntaxError ℕ) (Program ℕ) → Option (Block ℕ)
statements (ok p) = some (p.stmts)
statements (err e) = none

-- Products bind tighter than sums, and sums group to the left.
sums :
    statements (parsed (bytes "x = 1 + 2 * 3 + y"))
    ≡ some (
        stmt
          (assign ("x" ∷ []) (
            bin add
              (bin add (lit (number 1)) (bin mul (lit (number 2)) (lit (number 3))))
              (var "y")))
          end_block)
unfolding parsed
sums = refl

branches :
    statements (parsed (bytes "if x == 1: emit \"s\", {a: x} else: respond 2, f\"{x}!\" end"))
    ≡ some (
        stmt
          (if_stmt
            (arm
              (bin eq (var "x") (lit (number 1)))
              (3, 9)
              (stmt (emit (lit (string "s")) (doc (named "a" (var "x") no_fields))) end_block)
              no_arms)
            (otherwise (
              stmt
                (respond (lit (number 2)) (f_string (hole (var "x") (text "!" no_parts))))
                end_block)))
          end_block)
unfolding parsed
branches = refl

open_if : parsed (bytes "x = 1\nif x: y = 2") ≡ err (at_line 2 (complaint "missing `end`"))
unfolding parsed
open_if = refl

parse-ne-exhausted_example : Programs.parse toy (bytes "x = [1, f\"{y}\"]") ≢ err exhausted
parse-ne-exhausted_example = parse-ne-exhausted toy (bytes "x = [1, f\"{y}\"]")

invoked :
    statements (parsed (bytes "x.y = invoke pkg:svc(a: -1, in: z?.w[i]) invoke go()"))
    ≡ some (
        stmt
          (assign ("x" ∷ "y" ∷ []) (
            invoke "pkg:svc" (
              named "a"
                (unary neg (lit (number 1)))
                (named "in" (index (field (var "z") "w" true) (var "i")) no_fields))))
          (stmt (invoke_merge "go" no_fields) end_block))
unfolding parsed
invoked = refl
