-- ===== src/Parser/Print.antt =====
-- Expressions of include/parser/ast.h written as tokens, every operation in parentheses.
use aithon.Prelude.{◌≡◌, refl, Bool, true, false, none, [], ◌∷◌, Bytes}
use aithon.Ast.{
  BinaryOp, add, sub, mul, div, mod_op, floor_div, pow, equal, not_equal, less, less_equal, greater,
  greater_equal, and, or, UnaryOp, neg, not_op, Expr, Exprs, Pairs, NamedArgs, integer_literal,
  float_literal, string_literal, bool_literal, none_literal, identifier, binary_op, unary_op,
  call_expr, index_expr, member_expr, list_expr, dict_expr, initializer_expr, some_expr, none_expr,
  no_exprs, and_expr, no_pairs, and_pair, no_args, and_arg,
}
use aithon.Parser.{Tokens, match_any, check, skip_newlines}
use aithon.Parser.Grammar.{unary_operators}
use aithon.Token as Token
use aithon.Token.{TokenType, Token, Value, SourceLocation, long_long, double, text}

abbrev pub type_of_binary : BinaryOp → TokenType
type_of_binary add = Token.plus
type_of_binary sub = Token.minus
type_of_binary mul = Token.star
type_of_binary div = Token.slash
type_of_binary mod_op = Token.percent
type_of_binary floor_div = Token.double_slash
type_of_binary pow = Token.double_star
type_of_binary equal = Token.equal_equal
type_of_binary not_equal = Token.not_equal
type_of_binary less = Token.less
type_of_binary less_equal = Token.less_equal
type_of_binary greater = Token.greater
type_of_binary greater_equal = Token.greater_equal
type_of_binary and = Token.and
type_of_binary or = Token.or

abbrev pub type_of_unary : UnaryOp → TokenType
type_of_unary neg = Token.minus
type_of_unary not_op = Token.not

abbrev pub truth : Bool → TokenType
truth true = Token.true_
truth false = Token.false_

module _ {D : Type 0} (at : SourceLocation) where
  abbrev pub valued : TokenType → Value D → Token D
  valued type v = record { type = type; lexeme = []; location = at; value = v }

  abbrev pub named : Bytes → Token D
  named name = record { type = Token.identifier; lexeme = name; location = at; value = text name }

  abbrev pub mark : TokenType → Token D
  mark type = valued type (text [])

  -- The expression, and then the tokens.
  unfoldable mutual
    pub print : Expr D → Tokens D → Tokens D
    print (integer_literal n) ts = valued Token.integer (long_long n) ∷ ts
    print (float_literal x) ts = valued Token.float (double x) ∷ ts
    print (string_literal s) ts = valued Token.string (text s) ∷ ts
    print (bool_literal b) ts = mark (truth b) ∷ ts
    print none_literal ts = mark Token.none_ ∷ ts
    print (identifier name) ts = named name ∷ ts
    print (binary_op op l r) ts =
        mark Token.lparen ∷ print l (mark (type_of_binary op) ∷ print r (mark Token.rparen ∷ ts))
    print (unary_op op e) ts =
        mark Token.lparen ∷ mark (type_of_unary op) ∷ print e (mark Token.rparen ∷ ts)
    print (call_expr e args) ts =
        mark Token.lparen
        ∷ print e (mark Token.lparen ∷ print_args args (mark Token.rparen ∷ mark Token.rparen ∷ ts))
    print (index_expr e i) ts =
        mark Token.lparen
        ∷ print e (mark Token.lbracket ∷ print i (mark Token.rbracket ∷ mark Token.rparen ∷ ts))
    print (member_expr e name) ts =
        mark Token.lparen ∷ print e (mark Token.dot ∷ named name ∷ mark Token.rparen ∷ ts)
    print (list_expr es) ts = mark Token.lbracket ∷ print_args es (mark Token.rbracket ∷ ts)
    print (dict_expr ps) ts = mark Token.lbrace ∷ print_pairs ps (mark Token.rbrace ∷ ts)
    print (initializer_expr name args) ts =
        mark Token.lparen
        ∷ named name
        ∷ mark Token.lparen
        ∷ print_named args (mark Token.rparen ∷ mark Token.rparen ∷ ts)
    print (some_expr e) ts = ts
    print none_expr ts = ts

    pub print_args : Exprs D → Tokens D → Tokens D
    print_args no_exprs ts = ts
    print_args (and_expr e no_exprs) ts = print e ts
    print_args (and_expr e (and_expr e' es)) ts =
        print e (mark Token.comma ∷ print_args (and_expr e' es) ts)

    pub print_pairs : Pairs D → Tokens D → Tokens D
    print_pairs no_pairs ts = ts
    print_pairs (and_pair k v no_pairs) ts = print k (mark Token.colon ∷ print v ts)
    print_pairs (and_pair k v (and_pair k' v' ps)) ts =
        print k (mark Token.colon ∷ print v (mark Token.comma ∷ print_pairs (and_pair k' v' ps) ts))

    pub print_named : NamedArgs D → Tokens D → Tokens D
    print_named no_args ts = ts
    print_named (and_arg name e no_args) ts = named name ∷ mark Token.colon ∷ print e ts
    print_named (and_arg name e (and_arg name' e' args)) ts =
        named name
        ∷ mark Token.colon
        ∷ print e (mark Token.comma ∷ print_named (and_arg name' e' args) ts)

-- What the parser makes: no Some and no None of an option, and no initializer without arguments.
unfoldable mutual
  pub Parsable : {D : Type 0} → Expr D → Type 0
  Parsable (binary_op op l r) = Parsable l × Parsable r
  Parsable (unary_op op e) = Parsable e
  Parsable (call_expr e args) = Parsable e × AllParsable args
  Parsable (index_expr e i) = Parsable e × Parsable i
  Parsable (member_expr e name) = Parsable e
  Parsable (list_expr es) = AllParsable es
  Parsable (dict_expr ps) = PairsParsable ps
  Parsable (initializer_expr name args) = NamedParsable args
  Parsable (some_expr e) = ⊥
  Parsable none_expr = ⊥
  Parsable e = Unit

  pub AllParsable : {D : Type 0} → Exprs D → Type 0
  AllParsable no_exprs = Unit
  AllParsable (and_expr e es) = Parsable e × AllParsable es

  pub PairsParsable : {D : Type 0} → Pairs D → Type 0
  PairsParsable no_pairs = Unit
  PairsParsable (and_pair k v ps) = Parsable k × (Parsable v × PairsParsable ps)

  -- At least one.
  pub NamedParsable : {D : Type 0} → NamedArgs D → Type 0
  NamedParsable no_args = ⊥
  NamedParsable (and_arg name e no_args) = Parsable e
  NamedParsable (and_arg name e (and_arg name' e' args)) =
      Parsable e × NamedParsable (and_arg name' e' args)

-- What an expression begins with.
pub record Starts {D : Type 0} (ts : Tokens D) : Type 0 where
  pub no_unary : match_any unary_operators ts ≡ none
  pub no_newline : skip_newlines ts ≡ ts
  pub no_rparen : check Token.rparen ts ≡ false
  pub no_rbracket : check Token.rbracket ts ≡ false
  pub no_rbrace : check Token.rbrace ts ≡ false

pub print-Starts :
    {D : Type 0} (at : SourceLocation) (e : Expr D) (ts : Tokens D)
    → Parsable e
    → Starts (print at e ts)
unfolding print match_any skip_newlines check Parsable
print-Starts at (bool_literal true) ts p = record {
  no_unary = refl;
  no_newline = refl;
  no_rparen = refl;
  no_rbracket = refl;
  no_rbrace = refl;
}
print-Starts at (bool_literal false) ts p = record {
  no_unary = refl;
  no_newline = refl;
  no_rparen = refl;
  no_rbracket = refl;
  no_rbrace = refl;
}
print-Starts at (some_expr e) ts p = absurd p
print-Starts at none_expr ts p = absurd p
print-Starts at e ts p = record {
  no_unary = refl;
  no_newline = refl;
  no_rparen = refl;
  no_rbracket = refl;
  no_rbrace = refl;
}
