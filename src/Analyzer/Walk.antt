-- ===== src/Analyzer/Walk.antt =====
-- src/analyzer/semantic_analyzer.cpp: infer_type, check_function_has_return, analyze_expr,
-- analyze_stmt and analyze.
use aithon.Prelude.{
  ◌==◌, Bool, true, false, ◌&&◌, ◌||◌, not, Option, none, some, List, [], ◌∷◌, ◌++◌, Bytes,
  bytes_eq, if◌then◌else◌,
}
use aithon.Analyzer.Table.{
  DataType, integer, float, string, bool, none_type, list, dict, function, unknown, Symbol,
  Analyzer, Report, undefined_variable, type_mismatch, return_outside_function, break_outside_loop,
  continue_outside_loop, already_declared, does_not_return, declare, lookup, initialize, new_symbol,
  declare_all, report, declared, enter, leave, is_some, Scope,
}
use aithon.Ast.{
  BinaryOp, add, sub, mul, div, equal, not_equal, less, less_equal, greater, greater_equal, and, or,
  Expr, Exprs, Pairs, integer_literal, float_literal, string_literal, bool_literal, none_literal,
  identifier, binary_op, unary_op, call_expr, list_expr, dict_expr, no_exprs, and_expr, no_pairs,
  and_pair, Stmt, Stmts, ElseBlock, expr_stmt, assignment, block, if_stmt, while_stmt, for_stmt,
  return_stmt, break_stmt, continue_stmt, function_decl, class_decl, no_stmts, and_stmt, no_else,
  else_block,
}

abbrev pub type_of : Option Symbol → DataType
type_of none = unknown
type_of (some s) = s.type

abbrev pub either_float : DataType → DataType → DataType
either_float float right = float
either_float left float = float
either_float left right = integer

abbrev pub infer_binary : BinaryOp → DataType → DataType → DataType
infer_binary add left right = either_float left right
infer_binary sub left right = either_float left right
infer_binary mul left right = either_float left right
infer_binary div left right = either_float left right
infer_binary equal left right = bool
infer_binary not_equal left right = bool
infer_binary less left right = bool
infer_binary less_equal left right = bool
infer_binary greater left right = bool
infer_binary greater_equal left right = bool
infer_binary and left right = bool
infer_binary or left right = bool
infer_binary op left right = unknown

unfoldable pub infer_type : {D : Type 0} → List Scope → Expr D → DataType
infer_type scopes (integer_literal n) = integer
infer_type scopes (float_literal x) = float
infer_type scopes (string_literal s) = string
infer_type scopes (bool_literal b) = bool
infer_type scopes none_literal = none_type
infer_type scopes (list_expr es) = list
infer_type scopes (dict_expr ps) = dict
infer_type scopes (identifier name) = type_of (lookup scopes name)
infer_type scopes (binary_op op left right) =
    infer_binary op (infer_type scopes left) (infer_type scopes right)
infer_type scopes e = unknown

-- Returns inside a bare block, a nested function or a class do not count.
unfoldable mutual
  pub has_return : {D : Type 0} → Stmt D → Bool
  has_return (return_stmt (some e)) = true
  has_return (if_stmt c then_block else_part) =
      check_function_has_return then_block || else_has_return else_part
  has_return (while_stmt c body) = check_function_has_return body
  has_return (for_stmt x c body) = check_function_has_return body
  has_return s = false

  pub check_function_has_return : {D : Type 0} → Stmts D → Bool
  check_function_has_return no_stmts = false
  check_function_has_return (and_stmt s ss) = has_return s || check_function_has_return ss

  pub else_has_return : {D : Type 0} → ElseBlock D → Bool
  else_has_return no_else = false
  else_has_return (else_block ss) = check_function_has_return ss

unfoldable pub contains : Bytes → List Bytes → Bool
contains name [] = false
contains name (n ∷ names) = bytes_eq n name || contains name names

abbrev pub use_as_value : {D : Type 0} → Analyzer → Expr D → Analyzer
use_as_value a (identifier name) = record a {
  functions_used_as_values =
      if contains name a.functions_used_as_values
      then a.functions_used_as_values
      else a.functions_used_as_values ++ name ∷ [];
}
use_as_value a e = a

unfoldable mutual
  pub analyze_expr : {D : Type 0} → Analyzer → Expr D → Analyzer
  analyze_expr a (identifier name) =
      if is_some (lookup a.scopes name) then a else report a (undefined_variable name)
  analyze_expr a (binary_op op left right) = analyze_expr (analyze_expr a left) right
  analyze_expr a (unary_op op operand) = analyze_expr a operand
  analyze_expr a (call_expr callee args) =
      use_as_value (analyze_exprs (analyze_expr a callee) args) callee
  analyze_expr a (list_expr es) = analyze_exprs a es
  analyze_expr a (dict_expr ps) = analyze_pairs a ps
  analyze_expr a e = a

  pub analyze_exprs : {D : Type 0} → Analyzer → Exprs D → Analyzer
  analyze_exprs a no_exprs = a
  analyze_exprs a (and_expr e es) = analyze_exprs (analyze_expr a e) es

  pub analyze_pairs : {D : Type 0} → Analyzer → Pairs D → Analyzer
  analyze_pairs a no_pairs = a
  analyze_pairs a (and_pair key value ps) =
      analyze_pairs (analyze_expr (analyze_expr a key) value) ps

-- Neither type is unknown, and they differ.
abbrev pub differ : DataType → DataType → Bool
differ integer integer = false
differ float float = false
differ string string = false
differ bool bool = false
differ none_type none_type = false
differ list list = false
differ dict dict = false
differ function function = false
differ unknown t = false
differ t unknown = false
differ s t = true

-- An assignment to a name that `lookup` finds, or does not.
abbrev pub assign : Analyzer → Bytes → DataType → Option Symbol → Analyzer
assign a name type none = declared a (new_symbol name type false)
assign a name type (some existing) =
    if differ existing.type type
    then report a (type_mismatch type name existing.type)
    else record a { scopes = initialize name a.scopes }

abbrev pub analyze_value : {D : Type 0} → Analyzer → Option (Expr D) → Analyzer
analyze_value a none = a
analyze_value a (some e) = analyze_expr a e

-- A function's name is declared, and its body comes in a scope with the parameters.
abbrev pub enter_function : Analyzer → Bytes → List Bytes → Analyzer
enter_function a name params = record a {
  scopes =
      declare_all params unknown false ([] ∷ (declare a.scopes (new_symbol name function true)).0);
  in_function = true;
}

abbrev pub leave_function : Analyzer → Bytes → Bool → Bool → Analyzer
leave_function a name has_return in_function = record (leave a) {
  in_function = in_function;
  function_has_return = (name, has_return) ∷ a.function_has_return;
}

abbrev pub enter_loop : Analyzer → Analyzer
enter_loop a = record a { in_loop = true }

abbrev pub leave_loop : Bool → Analyzer → Analyzer
leave_loop in_loop a = record a { in_loop = in_loop }

unfoldable mutual
  unfolding declare_all

  pub analyze_stmt : {D : Type 0} → Analyzer → Stmt D → Analyzer
  analyze_stmt a (expr_stmt e) = analyze_expr a e
  analyze_stmt a (assignment name e) =
      let b = analyze_expr a e in assign b name (infer_type b.scopes e) (lookup b.scopes name)
  analyze_stmt a (block ss) = leave (analyze_stmts (enter a) ss)
  analyze_stmt a (if_stmt c then_block else_part) =
      analyze_else (leave (analyze_stmts (enter (analyze_expr a c)) then_block)) else_part
  analyze_stmt a (while_stmt c body) =
      leave_loop a.in_loop (leave (analyze_stmts (enter (analyze_expr (enter_loop a) c)) body))
  analyze_stmt a (for_stmt x e body) =
      let b = analyze_expr (declared (enter (enter_loop a)) (new_symbol x unknown false)) e in
      leave_loop a.in_loop (leave (leave (analyze_stmts (enter b) body)))
  analyze_stmt a (return_stmt e) =
      if a.in_function then analyze_value a e else report a return_outside_function
  analyze_stmt a break_stmt = if a.in_loop then a else report a break_outside_loop
  analyze_stmt a continue_stmt = if a.in_loop then a else report a continue_outside_loop
  analyze_stmt a (function_decl name params body is_async) =
      let b = leave (analyze_stmts (enter (enter_function a name params)) body) in
      if (declare a.scopes (new_symbol name function true)).1
      then leave_function b name (check_function_has_return body) a.in_function
      else report a (already_declared name)
  analyze_stmt a (class_decl name fields methods) =
      leave (analyze_stmts (enter (declared a (new_symbol name unknown false))) methods)
  analyze_stmt a s = a

  pub analyze_stmts : {D : Type 0} → Analyzer → Stmts D → Analyzer
  analyze_stmts a no_stmts = a
  analyze_stmts a (and_stmt s ss) = analyze_stmts (analyze_stmt a s) ss

  pub analyze_else : {D : Type 0} → Analyzer → ElseBlock D → Analyzer
  analyze_else a no_else = a
  analyze_else a (else_block ss) = leave (analyze_stmts (enter a) ss)

-- `function_has_return_.find`: the entry that was written last.
unfoldable pub returns_value : Bytes → List (Bytes × Bool) → Option Bool
returns_value name [] = none
returns_value name ((f, b) ∷ entries) =
    if bytes_eq f name then some b else returns_value name entries

abbrev pub at_line_zero : Option Symbol → Bool
at_line_zero none = false
at_line_zero (some s) = s.declaration_line == 0

abbrev pub never_returns : Option Bool → Bool
never_returns none = false
never_returns (some b) = not b

-- The last loop of `analyze`, over the names that calls use.
unfoldable pub check_used : Analyzer → List Bytes → Analyzer
unfolding returns_value
check_used a [] = a
check_used a (f ∷ fs) =
    if not (at_line_zero (lookup a.scopes f))
      && never_returns (returns_value f a.function_has_return)
    then check_used (report a (does_not_return f)) fs
    else check_used a fs

abbrev pub no_reports : List Report → Bool
no_reports [] = true
no_reports (r ∷ rs) = false

unfoldable pub analyze : {D : Type 0} → Analyzer → Stmts D → Analyzer × Bool
unfolding analyze_stmt check_used
analyze a statements =
    let b = analyze_stmts a statements in
    let c = check_used b b.functions_used_as_values in (c, no_reports c.reports)
