-- ===== src/Analyzer/Tests.antt =====
-- Small modules, and the analyser's theorems at them.
use aithon.Prelude.{◌≡◌, refl, true, false, List, [], ◌∷◌, ◌++◌, Bytes, codes, bytes_eq}
use aithon.Analyzer.Scopes.{Kept, analyze_stmt-Kept}
use aithon.Analyzer.Silent.{gone_without_value, analyze-gone}
use aithon.Analyzer.Table.{undefined_variable, does_not_return, init, find, lookup, initialize}
use aithon.Analyzer.Undefined.{identifiers, undefined, analyze_expr-undefined}
use aithon.Analyzer.Walk.{
  analyze, analyze_stmt, analyze_stmts, analyze_expr, contains, check_function_has_return,
  returns_value,
}
use aithon.Ast.{
  Expr, Stmt, Stmts, add, integer_literal, string_literal, identifier, binary_op, call_expr,
  index_expr, no_exprs, and_expr, assignment, function_decl, no_stmts, and_stmt,
}

abbrev x : Bytes
x = codes "x"

abbrev f : Bytes
f = codes "f"

abbrev g : Bytes
g = codes "g"

-- `y + x[y]`: only the first `y` is seen.
abbrev sum : Expr Bytes
sum = binary_op add (identifier (codes "y")) (index_expr (identifier x) (identifier (codes "y")))

analyze_expr-undefined_example :
    (analyze_expr init sum).reports ≡ undefined init.scopes (identifiers sum)
unfolding init
analyze_expr-undefined_example = analyze_expr-undefined init sum

sum_reports : (analyze_expr init sum).reports ≡ undefined_variable (codes "y") ∷ []
unfolding init analyze_expr lookup find bytes_eq
sum_reports = refl

-- `def f(x): x = "s"`, whose call comes after it.
abbrev no_value : Stmts Bytes
no_value =
    and_stmt (function_decl f (x ∷ []) (and_stmt (assignment x (string_literal f)) no_stmts) false)
      (and_stmt (assignment x (call_expr (identifier f) (and_expr (integer_literal 1) no_exprs)))
        no_stmts)

-- Nothing is reported, though `f` returns no value.
no_value_passes : (analyze init no_value).1 ≡ true
unfolding analyze init lookup analyze_expr bytes_eq initialize contains
no_value_passes = refl

-- The same inside a function `g` is reported.
abbrev local_function : Stmts Bytes
local_function = and_stmt (function_decl g [] no_value false) no_stmts

local_function_reported : (analyze init local_function).0.reports ≡ does_not_return f ∷ []
unfolding analyze init find bytes_eq lookup analyze_expr initialize contains
    check_function_has_return
local_function_reported = refl

analyze-gone_example :
    (analyze init local_function).0.reports
    ≡ (analyze_stmts init local_function).reports
      ++ gone_without_value (analyze_stmts init local_function) (f ∷ [])
unfolding init analyze_stmts gone_without_value find bytes_eq lookup analyze_expr initialize
    returns_value contains
analyze-gone_example = analyze-gone local_function

-- The names in the only scope at the start, the one declared last in front.
abbrev builtin_names : List Bytes
builtin_names =
    codes "type"
    ∷ codes "input"
    ∷ codes "dict"
    ∷ codes "list"
    ∷ codes "bool"
    ∷ codes "float"
    ∷ codes "int"
    ∷ codes "str"
    ∷ codes "range"
    ∷ codes "len"
    ∷ codes "print"
    ∷ []

abbrev declaration : Stmt Bytes
declaration = function_decl g (x ∷ []) no_value false

analyze_stmt-Kept_example : Kept builtin_names [] init (analyze_stmt init declaration)
unfolding init find bytes_eq
analyze_stmt-Kept_example = analyze_stmt-Kept builtin_names [] init declaration refl
