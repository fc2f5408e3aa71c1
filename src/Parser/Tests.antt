-- ===== src/Parser/Tests.antt =====
-- Sources that are lexed and parsed, and the parser's theorems at their tokens.
use aithon.Prelude.{◌≡◌, refl, Option, none, some, [], Bytes, codes}
use aithon.Ast.{
  call_expr, and_expr, add, no_exprs, Stmts, Expr, sub, mul, pow, neg, integer_literal, identifier,
  binary_op, unary_op, initializer_expr, no_args, and_arg, expr_stmt, assignment, if_stmt, no_stmts,
  and_stmt, no_else, else_block,
}
use aithon.Lexer.Cursor.{Lexer}
use aithon.Lexer.Literals.{Outcome, done}
use aithon.Lexer.Scan.{tokenize}
use aithon.Token.{SourceLocation}
use aithon.Parser.{Tokens, Result, ok, and_then}
use aithon.Parser.Block.{parse}
use aithon.Ast.{member_expr}
use aithon.Parser.{match_any}
use aithon.Parser.Expr.{parse_expression}
use aithon.Parser.Print.{print, Parsable}
use aithon.Parser.Reads.{Reads}
use aithon.Parser.RoundTrip.{parse_expression-print}
use aithon.Parser.Total.{Parsed, parse-Parsed}

abbrev tokens_of : Outcome (Option (Tokens Bytes × Lexer)) → Tokens Bytes
tokens_of (done (some (ts, l))) = ts
tokens_of _ = []

abbrev lexed : Bytes → Tokens Bytes
lexed source = tokens_of (tokenize some source)

abbrev module_of : Result Bytes (Stmts Bytes) → Option (Stmts Bytes)
module_of (ok ss ts) = some ss
module_of _ = none

abbrev read : Bytes → Option (Stmts Bytes)
read source = module_of (parse (lexed source))

abbrev a : Expr Bytes
a = identifier (codes "a")

abbrev b : Expr Bytes
b = identifier (codes "b")

abbrev c : Expr Bytes
c = identifier (codes "c")

abbrev single : Expr Bytes → Option (Stmts Bytes)
single e = some (and_stmt (expr_stmt e) no_stmts)

-- Multiplication binds tighter than addition, and subtraction goes from left to right.
precedence :
    read (codes "a - b * c - a") ≡ single (binary_op sub (binary_op sub a (binary_op mul b c)) a)
unfolding tokenize parse and_then
precedence = refl

-- The sign stands outside of a power, and a power goes from right to left.
power : read (codes "-a ** b ** c") ≡ single (unary_op neg (binary_op pow a (binary_op pow b c)))
unfolding tokenize parse and_then
power = refl

-- A field that is named makes an initializer of the call, and no postfix follows it.
initializer :
    read (codes "a(b: 1)")
    ≡ single (initializer_expr (codes "a") (and_arg (codes "b") (integer_literal 1) no_args))
unfolding tokenize parse and_then
initializer = refl

chain :
    read (codes "if a { b } elif b { c }\nx = 1")
    ≡ some (
        and_stmt
          (if_stmt a
            (and_stmt (expr_stmt b) no_stmts)
            (else_block (and_stmt (if_stmt b (and_stmt (expr_stmt c) no_stmts) no_else) no_stmts)))
          (and_stmt (assignment (codes "x") (integer_literal 1)) no_stmts))
unfolding tokenize parse and_then
chain = refl

abbrev unfinished : Bytes
unfinished = codes "func f(a) { a("

parse-Parsed_example : Parsed (parse (lexed unfinished))
parse-Parsed_example = parse-Parsed (lexed unfinished)

abbrev here : SourceLocation
here = record { line = 1; column = 1; offset = 0 }

-- a * (b(a + c)).b
abbrev product : Expr Bytes
product =
    binary_op mul a (member_expr (call_expr b (and_expr (binary_op add a c) no_exprs)) (codes "b"))

parse_expression-print_example : Reads parse_expression (print here product []) product []
unfolding Parsable match_any
parse_expression-print_example =
    parse_expression-print here product [] (tt, (tt, ((tt, tt), tt)))
      (refl, (refl, (refl, (refl, (refl, (refl, (refl, refl)))))))
