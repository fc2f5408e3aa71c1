-- ===== src/Parser/Expr.antt =====
-- src/parser/parser.cpp, the parsing of expressions. The functions recur on fuel, one unit for each
-- call. Where the code goes by a chain of `match`es, a table has its types in their order, and a
-- function by clauses its branches. The six functions from parse_logical_or to parse_factor, which
-- differ only in their operators and in what they call, are `parse_level` at the six levels.
use aithon.Prelude.{ℕ, zero, suc, Bool, true, false, Option, none, some, Bytes}
use aithon.Ast.{
  BinaryOp, pow, UnaryOp, Expr, Exprs, Pairs, NamedArgs, bool_literal, none_literal, identifier,
  binary_op, unary_op, call_expr, index_expr, member_expr, list_expr, dict_expr, initializer_expr,
  no_exprs, and_expr, no_pairs, and_pair, no_args, and_arg,
}
use aithon.Parser.{
  Tokens, ok, error, out_of_fuel, unexpected, Parse, and_then, check, match, match_any, consume,
  skip_newlines,
}
use aithon.Parser.Grammar.{
  Level, logical_or, logical_and, equality, comparison, term, factor, operators, unary_operators,
  Postfix, call, index, member, postfixes, Primary, integer, float, string, true_, false_, none_,
  variable, group, list, dict, primaries, integer_value, float_value, string_value, has_named_args,
  initialized_type,
}
use aithon.Token as Token
use aithon.Token.{Token}

unfoldable mutual
  unfolding check match_any consume skip_newlines has_named_args

  -- `parse_expression` is `parse_logical_or`.
  pub parse_expression : {D : Type 0} → ℕ → Parse D (Expr D)
  parse_expression zero ts = out_of_fuel
  parse_expression (suc f) ts = parse_level f logical_or ts

  pub parse_level : {D : Type 0} → ℕ → Level → Parse D (Expr D)
  parse_level zero level ts = out_of_fuel
  parse_level (suc f) level ts =
      and_then (parse_operand f level ts) λ left rest. level_loop f level left rest

  pub parse_operand : {D : Type 0} → ℕ → Level → Parse D (Expr D)
  parse_operand zero level ts = out_of_fuel
  parse_operand (suc f) logical_or ts = parse_level f logical_and ts
  parse_operand (suc f) logical_and ts = parse_level f equality ts
  parse_operand (suc f) equality ts = parse_level f comparison ts
  parse_operand (suc f) comparison ts = parse_level f term ts
  parse_operand (suc f) term ts = parse_level f factor ts
  parse_operand (suc f) factor ts = parse_unary f ts

  -- The `while` of a level, with what stands left of the next operator.
  pub level_loop : {D : Type 0} → ℕ → Level → Expr D → Parse D (Expr D)
  level_loop zero level left ts = out_of_fuel
  level_loop (suc f) level left ts = level_step f level left (match_any (operators level) ts) ts

  pub level_step :
      {D : Type 0} → ℕ → Level → Expr D → Option (BinaryOp × Token D × Tokens D) → Parse D (Expr D)
  level_step zero level left o ts = out_of_fuel
  level_step (suc f) level left none ts = ok left ts
  level_step (suc f) level left (some (op, t, ts)) _ =
      and_then (parse_operand f level ts)
        λ right rest. level_loop f level (binary_op op left right) rest

  pub parse_unary : {D : Type 0} → ℕ → Parse D (Expr D)
  parse_unary zero ts = out_of_fuel
  parse_unary (suc f) ts = unary_step f (match_any unary_operators ts) ts

  pub unary_step : {D : Type 0} → ℕ → Option (UnaryOp × Token D × Tokens D) → Parse D (Expr D)
  unary_step zero o ts = out_of_fuel
  unary_step (suc f) none ts = parse_power f ts
  unary_step (suc f) (some (op, t, ts)) _ =
      and_then (parse_unary f ts) λ operand rest. ok (unary_op op operand) rest

  pub parse_power : {D : Type 0} → ℕ → Parse D (Expr D)
  parse_power zero ts = out_of_fuel
  parse_power (suc f) ts =
      and_then (parse_postfix f ts)
        λ left rest. power_step f left (match Token.double_star rest) rest

  pub power_step : {D : Type 0} → ℕ → Expr D → Option (Token D × Tokens D) → Parse D (Expr D)
  power_step zero left o ts = out_of_fuel
  power_step (suc f) left none ts = ok left ts
  power_step (suc f) left (some (t, ts)) _ =
      and_then (parse_unary f ts) λ right rest. ok (binary_op pow left right) rest

  pub parse_postfix : {D : Type 0} → ℕ → Parse D (Expr D)
  parse_postfix zero ts = out_of_fuel
  parse_postfix (suc f) ts = and_then (parse_primary f ts) λ e rest. postfix_loop f e rest

  pub postfix_loop : {D : Type 0} → ℕ → Expr D → Parse D (Expr D)
  postfix_loop zero e ts = out_of_fuel
  postfix_loop (suc f) e ts = postfix_step f e (match_any postfixes ts) ts

  pub postfix_step :
      {D : Type 0} → ℕ → Expr D → Option (Postfix × Token D × Tokens D) → Parse D (Expr D)
  postfix_step zero e o ts = out_of_fuel
  postfix_step (suc f) e none ts = ok e ts
  postfix_step (suc f) e (some (call, t, ts)) _ = parse_call f e (initialized_type e ts) ts
  postfix_step (suc f) e (some (index, t, ts)) _ = and_then (parse_expression f ts) λ i rest.
      and_then (consume Token.rbracket rest) λ _ rest'. postfix_loop f (index_expr e i) rest'
  postfix_step (suc f) e (some (member, t, ts)) _ =
      and_then (consume Token.identifier ts)
        λ name rest. postfix_loop f (member_expr e name.lexeme) rest

  -- Behind the opening parenthesis. An initializer ends the loop of parse_postfix.
  pub parse_call : {D : Type 0} → ℕ → Expr D → Option Bytes → Parse D (Expr D)
  parse_call zero e o ts = out_of_fuel
  parse_call (suc f) e (some type_name) ts = and_then (parse_named_args f ts) λ args rest.
      and_then (consume Token.rparen rest) λ _ rest'. ok (initializer_expr type_name args) rest'
  parse_call (suc f) e none ts = and_then (parse_args f (check Token.rparen ts) ts) λ args rest.
      and_then (consume Token.rparen rest) λ _ rest'. postfix_loop f (call_expr e args) rest'

  -- The arguments, none if the parentheses are closed at once.
  pub parse_args : {D : Type 0} → ℕ → Bool → Parse D (Exprs D)
  parse_args zero closed ts = out_of_fuel
  parse_args (suc f) true ts = ok no_exprs ts
  parse_args (suc f) false ts =
      and_then (parse_expression f ts) λ e rest. more_args f e (match Token.comma rest) rest

  pub more_args : {D : Type 0} → ℕ → Expr D → Option (Token D × Tokens D) → Parse D (Exprs D)
  more_args zero e o ts = out_of_fuel
  more_args (suc f) e none ts = ok (and_expr e no_exprs) ts
  more_args (suc f) e (some (t, ts)) _ =
      and_then (parse_args f false ts) λ es rest. ok (and_expr e es) rest

  pub parse_named_args : {D : Type 0} → ℕ → Parse D (NamedArgs D)
  parse_named_args zero ts = out_of_fuel
  parse_named_args (suc f) ts = and_then (consume Token.identifier ts) λ name rest.
      and_then (consume Token.colon rest) λ _ rest'.
        and_then (parse_expression f rest')
          λ e rest''. more_named_args f name.lexeme e (match Token.comma rest'') rest''

  pub more_named_args :
      {D : Type 0} → ℕ → Bytes → Expr D → Option (Token D × Tokens D) → Parse D (NamedArgs D)
  more_named_args zero name e o ts = out_of_fuel
  more_named_args (suc f) name e none ts = ok (and_arg name e no_args) ts
  more_named_args (suc f) name e (some (t, ts)) _ =
      and_then (parse_named_args f ts) λ args rest. ok (and_arg name e args) rest

  pub parse_primary : {D : Type 0} → ℕ → Parse D (Expr D)
  parse_primary zero ts = out_of_fuel
  parse_primary (suc f) ts = primary_step f (match_any primaries ts) ts

  pub primary_step : {D : Type 0} → ℕ → Option (Primary × Token D × Tokens D) → Parse D (Expr D)
  primary_step zero o ts = out_of_fuel
  primary_step (suc f) none ts = error (unexpected ts)
  primary_step (suc f) (some (integer, t, ts)) _ = integer_value t.value ts
  primary_step (suc f) (some (float, t, ts)) _ = float_value t.value ts
  primary_step (suc f) (some (string, t, ts)) _ = string_value t.value ts
  primary_step (suc f) (some (true_, t, ts)) _ = ok (bool_literal true) ts
  primary_step (suc f) (some (false_, t, ts)) _ = ok (bool_literal false) ts
  primary_step (suc f) (some (none_, t, ts)) _ = ok none_literal ts
  primary_step (suc f) (some (variable, t, ts)) _ = ok (identifier t.lexeme) ts
  primary_step (suc f) (some (group, t, ts)) _ =
      and_then (parse_expression f ts)
        λ e rest. and_then (consume Token.rparen rest) λ _ rest'. ok e rest'
  primary_step (suc f) (some (list, t, ts)) _ = parse_list_literal f ts
  primary_step (suc f) (some (dict, t, rest)) ts = parse_dict_literal f ts

  pub parse_list_literal : {D : Type 0} → ℕ → Parse D (Expr D)
  parse_list_literal zero ts = out_of_fuel
  parse_list_literal (suc f) ts =
      and_then (parse_elements f (check Token.rbracket (skip_newlines ts)) (skip_newlines ts))
        λ es rest.
          and_then (consume Token.rbracket (skip_newlines rest)) λ _ rest'. ok (list_expr es) rest'

  pub parse_elements : {D : Type 0} → ℕ → Bool → Parse D (Exprs D)
  parse_elements zero closed ts = out_of_fuel
  parse_elements (suc f) true ts = ok no_exprs ts
  parse_elements (suc f) false ts =
      and_then (parse_expression f (skip_newlines ts))
        λ e rest. more_elements f e (match Token.comma (skip_newlines rest)) (skip_newlines rest)

  pub more_elements : {D : Type 0} → ℕ → Expr D → Option (Token D × Tokens D) → Parse D (Exprs D)
  more_elements zero e o ts = out_of_fuel
  more_elements (suc f) e none ts = ok (and_expr e no_exprs) ts
  more_elements (suc f) e (some (t, ts)) _ =
      and_then (parse_elements f false ts) λ es rest. ok (and_expr e es) rest

  pub parse_dict_literal : {D : Type 0} → ℕ → Parse D (Expr D)
  parse_dict_literal zero ts = out_of_fuel
  parse_dict_literal (suc f) ts = and_then (consume Token.lbrace ts) λ _ rest.
      and_then (parse_pairs f (check Token.rbrace (skip_newlines rest)) (skip_newlines rest))
        λ ps rest'.
          and_then (consume Token.rbrace (skip_newlines rest')) λ _ rest''. ok (dict_expr ps) rest''

  pub parse_pairs : {D : Type 0} → ℕ → Bool → Parse D (Pairs D)
  parse_pairs zero closed ts = out_of_fuel
  parse_pairs (suc f) true ts = ok no_pairs ts
  parse_pairs (suc f) false ts = and_then (parse_expression f (skip_newlines ts)) λ key rest.
      and_then (consume Token.colon rest) λ _ rest'.
        and_then (parse_expression f rest') λ value rest''.
          more_pairs f key value (match Token.comma (skip_newlines rest'')) (skip_newlines rest'')

  pub more_pairs :
      {D : Type 0} → ℕ → Expr D → Expr D → Option (Token D × Tokens D) → Parse D (Pairs D)
  more_pairs zero key value o ts = out_of_fuel
  more_pairs (suc f) key value none ts = ok (and_pair key value no_pairs) ts
  more_pairs (suc f) key value (some (t, ts)) _ =
      and_then (parse_pairs f false ts) λ ps rest. ok (and_pair key value ps) rest
