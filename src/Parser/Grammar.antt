-- ===== src/Parser/Grammar.antt =====
-- src/parser/parser.cpp: the types that the parsing functions match, in the order of their tests, and
-- the lookahead.
use aithon.Prelude.{Bool, true, false, ◌&&◌, Option, none, some, List, [], ◌∷◌, Bytes}
use aithon.Ast.{
  BinaryOp, add, sub, mul, div, mod_op, floor_div, equal, not_equal, less, less_equal, greater,
  greater_equal, and, or, UnaryOp, neg, not_op, Expr, integer_literal, float_literal,
  string_literal, identifier,
}
use aithon.Parser.{Tokens, ok, bad_variant_access, Parse, check}
use aithon.Token as Token
use aithon.Token.{TokenType, Token, Value, long_long, double, text}

pub data Level : Type 0 where
  logical_or logical_and equality comparison term factor : Level

abbrev pub operators : Level → List (TokenType × BinaryOp)
operators logical_or = (Token.or, or) ∷ []
operators logical_and = (Token.and, and) ∷ []
operators equality = (Token.equal_equal, equal) ∷ (Token.not_equal, not_equal) ∷ []
operators comparison =
    (Token.less, less)
    ∷ (Token.less_equal, less_equal)
    ∷ (Token.greater, greater)
    ∷ (Token.greater_equal, greater_equal)
    ∷ []
operators term = (Token.plus, add) ∷ (Token.minus, sub) ∷ []
operators factor =
    (Token.star, mul)
    ∷ (Token.slash, div)
    ∷ (Token.percent, mod_op)
    ∷ (Token.double_slash, floor_div)
    ∷ []

abbrev pub unary_operators : List (TokenType × UnaryOp)
unary_operators = (Token.minus, neg) ∷ (Token.not, not_op) ∷ []

pub data Postfix : Type 0 where
  call index member : Postfix

abbrev pub postfixes : List (TokenType × Postfix)
postfixes = (Token.lparen, call) ∷ (Token.lbracket, index) ∷ (Token.dot, member) ∷ []

pub data Primary : Type 0 where
  integer float string true_ false_ none_ variable group list dict : Primary

-- The last one is checked for and not consumed.
abbrev pub primaries : List (TokenType × Primary)
primaries =
    (Token.integer, integer)
    ∷ (Token.float, float)
    ∷ (Token.string, string)
    ∷ (Token.true_, true_)
    ∷ (Token.false_, false_)
    ∷ (Token.none_, none_)
    ∷ (Token.identifier, variable)
    ∷ (Token.lparen, group)
    ∷ (Token.lbracket, list)
    ∷ (Token.lbrace, dict)
    ∷ []

-- `std::get` on the value of a token.
abbrev pub integer_value : {D : Type 0} → Value D → Parse D (Expr D)
integer_value (long_long n) ts = ok (integer_literal n) ts
integer_value v ts = bad_variant_access

abbrev pub float_value : {D : Type 0} → Value D → Parse D (Expr D)
float_value (double x) ts = ok (float_literal x) ts
float_value v ts = bad_variant_access

abbrev pub string_value : {D : Type 0} → Value D → Parse D (Expr D)
string_value (text s) ts = ok (string_literal s) ts
string_value v ts = bad_variant_access

-- The lookahead behind an opening parenthesis: an identifier and a colon.
unfoldable pub has_named_args : {D : Type 0} → Tokens D → Bool
unfolding check
has_named_args [] = false
has_named_args (t ∷ ts) = check Token.identifier (t ∷ ts) && check Token.colon ts

abbrev pub name_of : {D : Type 0} → Expr D → Bool → Option Bytes
name_of (identifier name) true = some name
name_of e b = none

-- The type's name, where the parentheses begin an initializer.
abbrev pub initialized_type : {D : Type 0} → Expr D → Tokens D → Option Bytes
initialized_type e ts = name_of e (has_named_args ts)
