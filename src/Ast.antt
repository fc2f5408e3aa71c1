-- ===== src/Ast.antt =====
-- include/parser/ast.h: the syntax tree that the parser builds. `unique_ptr`s that are never null
-- are the trees themselves; a vector of trees is a type of its own. `D` is the type of doubles.
use aithon.Prelude.{ℕ, Bool, Option, List, Bytes}

pub data BinaryOp : Type 0 where
  add sub mul div mod_op floor_div pow equal not_equal less less_equal greater greater_equal and
        or :
      BinaryOp

pub data UnaryOp : Type 0 where
  neg not_op : UnaryOp

-- The parser makes an integer literal of a token, which is not negative.
mutual
  pub data Expr (D : Type 0) : Type 0 where
    integer_literal : ℕ → Expr D
    float_literal : D → Expr D
    string_literal : Bytes → Expr D
    bool_literal : Bool → Expr D
    none_literal : Expr D
    identifier : Bytes → Expr D
    binary_op : BinaryOp → Expr D → Expr D → Expr D
    unary_op : UnaryOp → Expr D → Expr D
    call_expr : Expr D → Exprs D → Expr D
    index_expr : Expr D → Expr D → Expr D
    member_expr : Expr D → Bytes → Expr D
    list_expr : Exprs D → Expr D
    dict_expr : Pairs D → Expr D
    initializer_expr : Bytes → NamedArgs D → Expr D
    some_expr : Expr D → Expr D
    none_expr : Expr D

  pub data Exprs (D : Type 0) : Type 0 where
    no_exprs : Exprs D
    and_expr : Expr D → Exprs D → Exprs D

  pub data Pairs (D : Type 0) : Type 0 where
    no_pairs : Pairs D
    and_pair : Expr D → Expr D → Pairs D → Pairs D

  pub data NamedArgs (D : Type 0) : Type 0 where
    no_args : NamedArgs D
    and_arg : Bytes → Expr D → NamedArgs D → NamedArgs D

pub record FieldDecl (D : Type 0) : Type 0 where
  pub name : Bytes
  pub type_annotation : Option Bytes
  pub default_value : Option (Expr D)

-- A block is its statements; the else block may be missing.
mutual
  pub data Stmt (D : Type 0) : Type 0 where
    expr_stmt : Expr D → Stmt D
    assignment : Bytes → Expr D → Stmt D
    block : Stmts D → Stmt D
    if_stmt : Expr D → Stmts D → ElseBlock D → Stmt D
    while_stmt : Expr D → Stmts D → Stmt D
    for_stmt : Bytes → Expr D → Stmts D → Stmt D
    return_stmt : Option (Expr D) → Stmt D
    break_stmt : Stmt D
    continue_stmt : Stmt D
    function_decl : Bytes → List Bytes → Stmts D → Bool → Stmt D
    struct_decl : Bytes → List (FieldDecl D) → Stmt D
    class_decl : Bytes → List (FieldDecl D) → Stmts D → Stmt D
    field_assignment : Expr D → Bytes → Expr D → Stmt D
    index_assignment : Expr D → Expr D → Expr D → Stmt D

  pub data Stmts (D : Type 0) : Type 0 where
    no_stmts : Stmts D
    and_stmt : Stmt D → Stmts D → Stmts D

  pub data ElseBlock (D : Type 0) : Type 0 where
    no_else : ElseBlock D
    else_block : Stmts D → ElseBlock D
