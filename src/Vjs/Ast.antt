-- ===== src/Vjs/Ast.antt =====
-- The syntax tree of a VejasScript program (core/src/vjs.rs, "ast").
use vejas.Base.{ℕ, String, Bool, Option, List}
use vejas.Vjs.Value.{Value}

pub data UnOp : Type 0 where
  not neg : UnOp

pub data BinOp : Type 0 where
  or and coalesce eq ne lt le gt ge in_op add sub mul div : BinOp

-- A list inside a tree is a type of its own: arguments, document fields and the parts of an
-- f-string, whose literal parts stand in the list.
mutual
  pub data Expr (N : Type 0) : Type 0 where
    lit : Value N → Expr N
    f_string : Parts N → Expr N
    var : String → Expr N
    doc : Fields N → Expr N
    array : Exprs N → Expr N
    field : Expr N → String → Bool → Expr N
    index : Expr N → Expr N → Expr N
    projection : Expr N → Expr N
    filter : Expr N → Expr N → Expr N
    call : String → Exprs N → Expr N
    invoke : String → Fields N → Expr N
    unary : UnOp → Expr N → Expr N
    bin : BinOp → Expr N → Expr N → Expr N

  pub data Exprs (N : Type 0) : Type 0 where
    no_exprs : Exprs N
    expr : Expr N → Exprs N → Exprs N

  pub data Fields (N : Type 0) : Type 0 where
    no_fields : Fields N
    named : String → Expr N → Fields N → Fields N

  pub data Parts (N : Type 0) : Type 0 where
    no_parts : Parts N
    text : String → Parts N → Parts N
    hole : Expr N → Parts N → Parts N

-- The source span of an `if` arm's condition.
abbrev pub Span : Type 0
Span = ℕ × ℕ

mutual
  pub data Stmt (N : Type 0) : Type 0 where
    assign : List String → Expr N → Stmt N
    if_stmt : Arms N → Otherwise N → Stmt N
    for_stmt : String → Expr N → Block N → Stmt N
    emit : Expr N → Expr N → Stmt N
    respond : Expr N → Expr N → Stmt N
    invoke_merge : String → Fields N → Stmt N

  pub data Block (N : Type 0) : Type 0 where
    end_block : Block N
    stmt : Stmt N → Block N → Block N

  pub data Arms (N : Type 0) : Type 0 where
    no_arms : Arms N
    arm : Expr N → Span → Block N → Arms N → Arms N

  pub data Otherwise (N : Type 0) : Type 0 where
    absent : Otherwise N
    otherwise : Block N → Otherwise N

pub record SurfaceEntry (N : Type 0) : Type 0 where
  pub name : String
  pub value : Value N
  pub value_span : Span
  pub entry_spans : List (String × Span)

pub record Program (N : Type 0) : Type 0 where
  pub source : Option String
  pub tool : Option String
  pub api : Option String
  pub driver : Option String
  pub stmts : Block N
  pub surface : List (SurfaceEntry N)
  pub emit_subjects : List String
  pub invokes : List String
  pub secret_refs : List (String × String)
