-- ===== src/Parser/ExprEnds.antt =====
-- How the functions that parse expressions end.
use aithon.Prelude.{
  ℕ, zero, suc, ◌+◌, ◌*◌, ◌≤◌, ◌<◌, Bool, true, false, Option, none, some, Bytes, arith, length,
}
use aithon.Ast.{BinaryOp, UnaryOp, Expr, binary_op, call_expr, index_expr, member_expr}
use aithon.Parser.{Tokens, check, match, match_any, skip_newlines}
use aithon.Parser.Ends.{
  Ends, ends, reported, threw, and_then-Ends, then_consume, Next, NextAny, match-Next,
  match_any-Next, skip_newlines_le,
}
use aithon.Parser.Expr.{
  parse_expression, parse_level, parse_operand, level_loop, level_step, parse_unary, unary_step,
  parse_power, power_step, parse_postfix, postfix_loop, postfix_step, parse_call, parse_args,
  more_args, parse_named_args, more_named_args, parse_primary, primary_step, parse_list_literal,
  parse_elements, more_elements, parse_dict_literal, parse_pairs, more_pairs,
}
use aithon.Parser.Grammar.{
  Level, logical_or, logical_and, equality, comparison, term, factor, operators, unary_operators,
  Postfix, call, index, member, postfixes, Primary, integer, float, string, true_, false_, none_,
  variable, group, list, dict, primaries, integer_value, float_value, string_value,
  initialized_type,
}
use aithon.Token as Token
use aithon.Token.{Token, Value, long_long, double, text}

-- The calls that a function makes before it takes a token, at most.
abbrev operand_rank : Level → ℕ
operand_rank logical_or = 18
operand_rank logical_and = 16
operand_rank equality = 14
operand_rank comparison = 12
operand_rank term = 10
operand_rank factor = 8

operand_rank_small : (level : Level) → operand_rank level ≤ 18
operand_rank_small level = ground arith

integer_value-Ends :
    {D : Type 0} (n : ℕ) (v : Value D) (ts : Tokens D) → length ts < n → Ends n (integer_value v ts)
integer_value-Ends n (long_long k) ts h = ends _ ts h
integer_value-Ends n (double x) ts h = threw
integer_value-Ends n (text s) ts h = threw

float_value-Ends :
    {D : Type 0} (n : ℕ) (v : Value D) (ts : Tokens D) → length ts < n → Ends n (float_value v ts)
float_value-Ends n (long_long k) ts h = threw
float_value-Ends n (double x) ts h = ends _ ts h
float_value-Ends n (text s) ts h = threw

string_value-Ends :
    {D : Type 0} (n : ℕ) (v : Value D) (ts : Tokens D) → length ts < n → Ends n (string_value v ts)
string_value-Ends n (long_long k) ts h = threw
string_value-Ends n (double x) ts h = threw
string_value-Ends n (text s) ts h = ends _ ts h

mutual
  unfolding parse_expression

  expression-Ends :
      {D : Type 0} (n f : ℕ) (ts : Tokens D)
      → 40 * length ts + 20 < f
      → length ts ≤ n
      → Ends n (parse_expression f ts)
  expression-Ends n zero ts b l = absurd (omega arith)
  expression-Ends n (suc f) ts b l = level-Ends n f logical_or ts (omega arith) l

  level-Ends :
      {D : Type 0} (n f : ℕ) (level : Level) (ts : Tokens D)
      → 40 * length ts + operand_rank level + 1 < f
      → length ts ≤ n
      → Ends n (parse_level f level ts)
  level-Ends n zero level ts b l = absurd (omega arith)
  level-Ends n (suc f) level ts b l =
      and_then-Ends n (length ts) _ _
        (operand-Ends (length ts) f level ts (omega arith) (omega arith))
        λ left rest lt. level_loop-Ends n f level left rest (omega arith) (omega arith)

  operand-Ends :
      {D : Type 0} (n f : ℕ) (level : Level) (ts : Tokens D)
      → 40 * length ts + operand_rank level < f
      → length ts ≤ n
      → Ends n (parse_operand f level ts)
  operand-Ends n zero level ts b l = absurd (omega arith)
  operand-Ends n (suc f) logical_or ts b l = level-Ends n f logical_and ts (omega arith) l
  operand-Ends n (suc f) logical_and ts b l = level-Ends n f equality ts (omega arith) l
  operand-Ends n (suc f) equality ts b l = level-Ends n f comparison ts (omega arith) l
  operand-Ends n (suc f) comparison ts b l = level-Ends n f term ts (omega arith) l
  operand-Ends n (suc f) term ts b l = level-Ends n f factor ts (omega arith) l
  operand-Ends n (suc f) factor ts b l = unary-Ends n f ts (omega arith) l

  level_loop-Ends :
      {D : Type 0} (n f : ℕ) (level : Level) (left : Expr D) (ts : Tokens D)
      → 40 * length ts + 2 < f
      → length ts < n
      → Ends n (level_loop f level left ts)
  level_loop-Ends n zero level left ts b l = absurd (omega arith)
  level_loop-Ends n (suc f) level left ts b l =
      level_step-Ends n f level left (match_any (operators level) ts) ts (omega arith) l
        (match_any-Next (operators level) ts)

  level_step-Ends :
      {D : Type 0} (n f : ℕ) (level : Level) (left : Expr D)
      (o : Option (BinaryOp × Token D × Tokens D)) (ts : Tokens D)
      → 40 * length ts + 1 < f
      → length ts < n
      → NextAny (length ts) o
      → Ends n (level_step f level left o ts)
  level_step-Ends n zero level left o ts b l h = absurd (omega arith)
  level_step-Ends n (suc f) level left none ts b l h = ends left ts l
  level_step-Ends n (suc f) level left (some (op, t, rest)) ts b l h =
      and_then-Ends n (length rest) _ _
        (operand-Ends (length rest) f level rest (omega (arith, operand_rank_small level))
          (omega arith))
        λ right rest' lt.
          level_loop-Ends n f level (binary_op op left right) rest' (omega arith) (omega arith)

  unary-Ends :
      {D : Type 0} (n f : ℕ) (ts : Tokens D)
      → 40 * length ts + 7 < f
      → length ts ≤ n
      → Ends n (parse_unary f ts)
  unary-Ends n zero ts b l = absurd (omega arith)
  unary-Ends n (suc f) ts b l =
      unary_step-Ends n f (match_any unary_operators ts) ts (omega arith) l
        (match_any-Next unary_operators ts)

  unary_step-Ends :
      {D : Type 0} (n f : ℕ) (o : Option (UnaryOp × Token D × Tokens D)) (ts : Tokens D)
      → 40 * length ts + 6 < f
      → length ts ≤ n
      → NextAny (length ts) o
      → Ends n (unary_step f o ts)
  unary_step-Ends n zero o ts b l h = absurd (omega arith)
  unary_step-Ends n (suc f) none ts b l h = power-Ends n f ts (omega arith) l
  unary_step-Ends n (suc f) (some (op, t, rest)) ts b l h =
      and_then-Ends n (length rest) _ _
        (unary-Ends (length rest) f rest (omega arith) (omega arith))
        λ e rest' lt. ends _ rest' (omega arith)

  power-Ends :
      {D : Type 0} (n f : ℕ) (ts : Tokens D)
      → 40 * length ts + 5 < f
      → length ts ≤ n
      → Ends n (parse_power f ts)
  power-Ends n zero ts b l = absurd (omega arith)
  power-Ends n (suc f) ts b l =
      and_then-Ends n (length ts) _ _ (postfix-Ends (length ts) f ts (omega arith) (omega arith))
        λ e rest lt.
          power_step-Ends n f e (match Token.double_star rest) rest (omega arith) (omega arith)
            (match-Next Token.double_star rest)

  power_step-Ends :
      {D : Type 0} (n f : ℕ) (e : Expr D) (o : Option (Token D × Tokens D)) (ts : Tokens D)
      → 40 * length ts + 1 < f
      → length ts < n
      → Next (length ts) o
      → Ends n (power_step f e o ts)
  power_step-Ends n zero e o ts b l h = absurd (omega arith)
  power_step-Ends n (suc f) e none ts b l h = ends e ts l
  power_step-Ends n (suc f) e (some (t, rest)) ts b l h =
      and_then-Ends n (length rest) _ _
        (unary-Ends (length rest) f rest (omega arith) (omega arith))
        λ right rest' lt. ends _ rest' (omega arith)

  postfix-Ends :
      {D : Type 0} (n f : ℕ) (ts : Tokens D)
      → 40 * length ts + 4 < f
      → length ts ≤ n
      → Ends n (parse_postfix f ts)
  postfix-Ends n zero ts b l = absurd (omega arith)
  postfix-Ends n (suc f) ts b l =
      and_then-Ends n (length ts) _ _ (primary-Ends (length ts) f ts (omega arith) (omega arith))
        λ e rest lt. postfix_loop-Ends n f e rest (omega arith) (omega arith)

  postfix_loop-Ends :
      {D : Type 0} (n f : ℕ) (e : Expr D) (ts : Tokens D)
      → 40 * length ts + 2 < f
      → length ts < n
      → Ends n (postfix_loop f e ts)
  postfix_loop-Ends n zero e ts b l = absurd (omega arith)
  postfix_loop-Ends n (suc f) e ts b l =
      postfix_step-Ends n f e (match_any postfixes ts) ts (omega arith) l
        (match_any-Next postfixes ts)

  postfix_step-Ends :
      {D : Type 0} (n f : ℕ) (e : Expr D) (o : Option (Postfix × Token D × Tokens D))
      (ts : Tokens D)
      → 40 * length ts + 1 < f
      → length ts < n
      → NextAny (length ts) o
      → Ends n (postfix_step f e o ts)
  postfix_step-Ends n zero e o ts b l h = absurd (omega arith)
  postfix_step-Ends n (suc f) e none ts b l h = ends e ts l
  postfix_step-Ends n (suc f) e (some (call, t, rest)) ts b l h =
      call-Ends n f e (initialized_type e rest) rest (omega arith) (omega arith)
  postfix_step-Ends n (suc f) e (some (index, t, rest)) ts b l h =
      and_then-Ends n (length rest) _ _
        (expression-Ends (length rest) f rest (omega arith) (omega arith))
        λ i rest' lt.
          then_consume n Token.rbracket rest' _ λ _ rest'' lt'.
            postfix_loop-Ends n f (index_expr e i) rest'' (omega arith) (omega arith)
  postfix_step-Ends n (suc f) e (some (member, t, rest)) ts b l h =
      then_consume n Token.identifier rest _ λ name rest' lt.
        postfix_loop-Ends n f (member_expr e name.lexeme) rest' (omega arith) (omega arith)

  call-Ends :
      {D : Type 0} (n f : ℕ) (e : Expr D) (o : Option Bytes) (ts : Tokens D)
      → 40 * length ts + 25 < f
      → length ts < n
      → Ends n (parse_call f e o ts)
  call-Ends n zero e o ts b l = absurd (omega arith)
  call-Ends n (suc f) e (some type_name) ts b l =
      and_then-Ends n (length ts) _ _ (named_args-Ends (length ts) f ts (omega arith) (omega arith))
        λ args rest lt. then_consume n Token.rparen rest _ λ _ rest' lt'. ends _ rest' (omega arith)
  call-Ends n (suc f) e none ts b l =
      and_then-Ends n (suc (length ts)) _ _
        (args-Ends (suc (length ts)) f (check Token.rparen ts) ts (omega arith) (omega arith))
        λ args rest lt.
          then_consume n Token.rparen rest _ λ _ rest' lt'.
            postfix_loop-Ends n f (call_expr e args) rest' (omega arith) (omega arith)

  args-Ends :
      {D : Type 0} (n f : ℕ) (done : Bool) (ts : Tokens D)
      → 40 * length ts + 22 < f
      → length ts < n
      → Ends n (parse_args f done ts)
  args-Ends n zero done ts b l = absurd (omega arith)
  args-Ends n (suc f) true ts b l = ends _ ts l
  args-Ends n (suc f) false ts b l =
      and_then-Ends n (length ts) _ _ (expression-Ends (length ts) f ts (omega arith) (omega arith))
        λ e rest lt.
          more_args-Ends n f e (match Token.comma rest) rest (omega arith) (omega arith)
            (match-Next Token.comma rest)

  more_args-Ends :
      {D : Type 0} (n f : ℕ) (e : Expr D) (o : Option (Token D × Tokens D)) (ts : Tokens D)
      → 40 * length ts + 1 < f
      → length ts < n
      → Next (length ts) o
      → Ends n (more_args f e o ts)
  more_args-Ends n zero e o ts b l h = absurd (omega arith)
  more_args-Ends n (suc f) e none ts b l h = ends _ ts l
  more_args-Ends n (suc f) e (some (t, rest)) ts b l h =
      and_then-Ends n n _ _ (args-Ends n f false rest (omega arith) (omega arith))
        λ es rest' lt. ends _ rest' lt

  named_args-Ends :
      {D : Type 0} (n f : ℕ) (ts : Tokens D)
      → 40 * length ts + 22 < f
      → length ts ≤ n
      → Ends n (parse_named_args f ts)
  named_args-Ends n zero ts b l = absurd (omega arith)
  named_args-Ends n (suc f) ts b l = then_consume n Token.identifier ts _ λ name rest lt.
      then_consume n Token.colon rest _ λ _ rest' lt'.
        and_then-Ends n (length rest') _ _
          (expression-Ends (length rest') f rest' (omega arith) (omega arith))
          λ e rest'' lt''.
            more_named_args-Ends n f name.lexeme e (match Token.comma rest'') rest'' (omega arith)
              (omega arith) (match-Next Token.comma rest'')

  more_named_args-Ends :
      {D : Type 0} (n f : ℕ) (name : Bytes) (e : Expr D) (o : Option (Token D × Tokens D))
      (ts : Tokens D)
      → 40 * length ts + 1 < f
      → length ts < n
      → Next (length ts) o
      → Ends n (more_named_args f name e o ts)
  more_named_args-Ends n zero name e o ts b l h = absurd (omega arith)
  more_named_args-Ends n (suc f) name e none ts b l h = ends _ ts l
  more_named_args-Ends n (suc f) name e (some (t, rest)) ts b l h =
      and_then-Ends n n _ _ (named_args-Ends n f rest (omega arith) (omega arith))
        λ es rest' lt. ends _ rest' lt

  primary-Ends :
      {D : Type 0} (n f : ℕ) (ts : Tokens D)
      → 40 * length ts + 3 < f
      → length ts ≤ n
      → Ends n (parse_primary f ts)
  primary-Ends n zero ts b l = absurd (omega arith)
  primary-Ends n (suc f) ts b l =
      primary_step-Ends n f (match_any primaries ts) ts (omega arith) l
        (match_any-Next primaries ts)

  primary_step-Ends :
      {D : Type 0} (n f : ℕ) (o : Option (Primary × Token D × Tokens D)) (ts : Tokens D)
      → 40 * length ts + 2 < f
      → length ts ≤ n
      → NextAny (length ts) o
      → Ends n (primary_step f o ts)
  primary_step-Ends n zero o ts b l h = absurd (omega arith)
  primary_step-Ends n (suc f) none ts b l h = reported _
  primary_step-Ends n (suc f) (some (integer, t, rest)) ts b l h =
      integer_value-Ends n t.value rest (omega arith)
  primary_step-Ends n (suc f) (some (float, t, rest)) ts b l h =
      float_value-Ends n t.value rest (omega arith)
  primary_step-Ends n (suc f) (some (string, t, rest)) ts b l h =
      string_value-Ends n t.value rest (omega arith)
  primary_step-Ends n (suc f) (some (true_, t, rest)) ts b l h = ends _ rest (omega arith)
  primary_step-Ends n (suc f) (some (false_, t, rest)) ts b l h = ends _ rest (omega arith)
  primary_step-Ends n (suc f) (some (none_, t, rest)) ts b l h = ends _ rest (omega arith)
  primary_step-Ends n (suc f) (some (variable, t, rest)) ts b l h = ends _ rest (omega arith)
  primary_step-Ends n (suc f) (some (group, t, rest)) ts b l h =
      and_then-Ends n (length rest) _ _
        (expression-Ends (length rest) f rest (omega arith) (omega arith))
        λ e rest' lt.
          then_consume n Token.rparen rest' _ λ _ rest'' lt'. ends e rest'' (omega arith)
  primary_step-Ends n (suc f) (some (list, t, rest)) ts b l h =
      list-Ends n f rest (omega arith) (omega arith)
  primary_step-Ends n (suc f) (some (dict, t, rest)) ts b l h = dict-Ends n f ts (omega arith) l

  list-Ends :
      {D : Type 0} (n f : ℕ) (ts : Tokens D)
      → 40 * length ts + 25 < f
      → length ts < n
      → Ends n (parse_list_literal f ts)
  list-Ends n zero ts b l = absurd (omega arith)
  list-Ends n (suc f) ts b l =
      and_then-Ends n n _ _
        (elements-Ends n f (check Token.rbracket (skip_newlines ts)) (skip_newlines ts)
          (omega (arith, skip_newlines_le ts)) (omega (arith, skip_newlines_le ts)))
        λ es rest lt.
          then_consume n Token.rbracket (skip_newlines rest) _
            λ _ rest' lt'. ends _ rest' (omega (arith, skip_newlines_le rest))

  elements-Ends :
      {D : Type 0} (n f : ℕ) (done : Bool) (ts : Tokens D)
      → 40 * length ts + 22 < f
      → length ts < n
      → Ends n (parse_elements f done ts)
  elements-Ends n zero done ts b l = absurd (omega arith)
  elements-Ends n (suc f) true ts b l = ends _ ts l
  elements-Ends n (suc f) false ts b l =
      and_then-Ends n (length ts) _ _
        (expression-Ends (length ts) f (skip_newlines ts) (omega (arith, skip_newlines_le ts))
          (skip_newlines_le ts))
        λ e rest lt.
          more_elements-Ends n f e (match Token.comma (skip_newlines rest)) (skip_newlines rest)
            (omega (arith, skip_newlines_le rest)) (omega (arith, skip_newlines_le rest))
            (match-Next Token.comma (skip_newlines rest))

  more_elements-Ends :
      {D : Type 0} (n f : ℕ) (e : Expr D) (o : Option (Token D × Tokens D)) (ts : Tokens D)
      → 40 * length ts + 1 < f
      → length ts < n
      → Next (length ts) o
      → Ends n (more_elements f e o ts)
  more_elements-Ends n zero e o ts b l h = absurd (omega arith)
  more_elements-Ends n (suc f) e none ts b l h = ends _ ts l
  more_elements-Ends n (suc f) e (some (t, rest)) ts b l h =
      and_then-Ends n n _ _ (elements-Ends n f false rest (omega arith) (omega arith))
        λ es rest' lt. ends _ rest' lt

  dict-Ends :
      {D : Type 0} (n f : ℕ) (ts : Tokens D)
      → 40 * length ts + 1 < f
      → length ts ≤ n
      → Ends n (parse_dict_literal f ts)
  dict-Ends n zero ts b l = absurd (omega arith)
  dict-Ends n (suc f) ts b l = then_consume n Token.lbrace ts _ λ _ rest lt.
      and_then-Ends n n _ _
        (pairs-Ends n f (check Token.rbrace (skip_newlines rest)) (skip_newlines rest)
          (omega (arith, skip_newlines_le rest)) (omega (arith, skip_newlines_le rest)))
        λ ps rest' lt'.
          then_consume n Token.rbrace (skip_newlines rest') _
            λ _ rest'' lt''. ends _ rest'' (omega (arith, skip_newlines_le rest'))

  pairs-Ends :
      {D : Type 0} (n f : ℕ) (done : Bool) (ts : Tokens D)
      → 40 * length ts + 22 < f
      → length ts < n
      → Ends n (parse_pairs f done ts)
  pairs-Ends n zero done ts b l = absurd (omega arith)
  pairs-Ends n (suc f) true ts b l = ends _ ts l
  pairs-Ends n (suc f) false ts b l =
      and_then-Ends n (length ts) _ _
        (expression-Ends (length ts) f (skip_newlines ts) (omega (arith, skip_newlines_le ts))
          (skip_newlines_le ts))
        λ key rest lt. then_consume n Token.colon rest _ λ _ rest' lt'.
          and_then-Ends n (length rest') _ _
            (expression-Ends (length rest') f rest' (omega arith) (omega arith))
            λ value rest'' lt''.
              more_pairs-Ends n f key value (match Token.comma (skip_newlines rest''))
                (skip_newlines rest'') (omega (arith, skip_newlines_le rest''))
                (omega (arith, skip_newlines_le rest''))
                (match-Next Token.comma (skip_newlines rest''))

  more_pairs-Ends :
      {D : Type 0} (n f : ℕ) (key value : Expr D) (o : Option (Token D × Tokens D)) (ts : Tokens D)
      → 40 * length ts + 1 < f
      → length ts < n
      → Next (length ts) o
      → Ends n (more_pairs f key value o ts)
  more_pairs-Ends n zero key value o ts b l h = absurd (omega arith)
  more_pairs-Ends n (suc f) key value none ts b l h = ends _ ts l
  more_pairs-Ends n (suc f) key value (some (t, rest)) ts b l h =
      and_then-Ends n n _ _ (pairs-Ends n f false rest (omega arith) (omega arith))
        λ ps rest' lt. ends _ rest' lt

-- Enough fuel for `n` tokens: an expression takes one of them at least, or is reported.
pub parse_expression-Ends :
    {D : Type 0} (n f : ℕ) (ts : Tokens D)
    → 40 * length ts + 20 < f
    → length ts ≤ n
    → Ends n (parse_expression f ts)
parse_expression-Ends n f ts b l = expression-Ends n f ts b l
