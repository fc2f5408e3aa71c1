-- ===== src/Parser/StmtEnds.antt =====
-- How the functions that parse statements end.
use aithon.Prelude.{
  ℕ, zero, suc, ◌+◌, ◌*◌, ◌≤◌, ◌<◌, Bool, true, false, Option, none, some, arith, length,
}
use aithon.Parser.{Tokens, check, match_any, skip_newlines}
use aithon.Parser.Block.{
  Else, elif, else_, elses, Member, method, field, members, parse_statement, statement_step,
  parse_function_decl, parse_block, block_loop, parse_if_stmt, else_step, parse_while_stmt,
  parse_for_stmt, parse_class_decl, class_loop, class_step, class_member,
}
use aithon.Parser.DeclEnds.{
  parameters-Ends, parse_field-Ends, after_member_le, parse_struct_decl-Ends,
  parse_assignment_or_expr-Ends, parse_return_stmt-Ends,
}
use aithon.Parser.Ends.{
  Ends, ends, reported, and_then-Ends, then_consume, NextAny, match_any-Next, skip_newlines_le,
}
use aithon.Parser.ExprEnds.{parse_expression-Ends}
use aithon.Parser.Stmt.{
  Keyword, func, struct, class, if_, while, for, return, break, continue, keywords, closed,
  after_member,
}
use aithon.Token as Token
use aithon.Token.{Token}

mutual
  unfolding parse_statement

  pub statement-Ends :
      {D : Type 0} (n f : ℕ) (ts : Tokens D)
      → 40 * length ts + 25 < f
      → length ts ≤ n
      → Ends n (parse_statement f ts)
  statement-Ends n zero ts b l = absurd (omega arith)
  statement-Ends n (suc f) ts b l =
      statement_step-Ends n f (match_any keywords (skip_newlines ts)) (skip_newlines ts)
        (omega (arith, skip_newlines_le ts)) (omega (arith, skip_newlines_le ts))
        (match_any-Next keywords (skip_newlines ts))

  statement_step-Ends :
      {D : Type 0} (n f : ℕ) (o : Option (Keyword × Token D × Tokens D)) (ts : Tokens D)
      → 40 * length ts + 24 < f
      → length ts ≤ n
      → NextAny (length ts) o
      → Ends n (statement_step f o ts)
  statement_step-Ends n zero o ts b l h = absurd (omega arith)
  statement_step-Ends n (suc f) none ts b l h = parse_assignment_or_expr-Ends n f ts (omega arith) l
  statement_step-Ends n (suc f) (some (func, t, rest)) ts b l h =
      function_decl-Ends n f rest (omega arith) (omega arith)
  statement_step-Ends n (suc f) (some (struct, t, rest)) ts b l h =
      parse_struct_decl-Ends n f rest (omega arith) (omega arith)
  statement_step-Ends n (suc f) (some (class, t, rest)) ts b l h =
      class_decl-Ends n f rest (omega arith) (omega arith)
  statement_step-Ends n (suc f) (some (if_, t, rest)) ts b l h =
      if_stmt-Ends n f rest (omega arith) (omega arith)
  statement_step-Ends n (suc f) (some (while, t, rest)) ts b l h =
      while_stmt-Ends n f rest (omega arith) (omega arith)
  statement_step-Ends n (suc f) (some (for, t, rest)) ts b l h =
      for_stmt-Ends n f rest (omega arith) (omega arith)
  statement_step-Ends n (suc f) (some (return, t, rest)) ts b l h =
      parse_return_stmt-Ends n f rest (omega arith) (omega arith)
  statement_step-Ends n (suc f) (some (break, t, rest)) ts b l h = ends _ rest (omega arith)
  statement_step-Ends n (suc f) (some (continue, t, rest)) ts b l h = ends _ rest (omega arith)

  function_decl-Ends :
      {D : Type 0} (n f : ℕ) (ts : Tokens D)
      → 40 * length ts + 3 < f
      → length ts ≤ n
      → Ends n (parse_function_decl f ts)
  function_decl-Ends n zero ts b l = absurd (omega arith)
  function_decl-Ends n (suc f) ts b l = then_consume n Token.identifier ts _ λ name rest lt.
      then_consume n Token.lparen rest _ λ _ rest' lt'.
        and_then-Ends n (length ts) _ _
          (parameters-Ends (length ts) f (check Token.rparen rest') rest' (omega arith)
            (omega arith))
          λ params more lt_more. then_consume n Token.rparen more _ λ _ last lt_last.
            and_then-Ends n (length ts) _ _
              (block-Ends (length ts) f (skip_newlines last) (omega (arith, skip_newlines_le last))
                (omega (arith, skip_newlines_le last)))
              λ body end lt_end. ends _ end (omega arith)

  block-Ends :
      {D : Type 0} (n f : ℕ) (ts : Tokens D)
      → 40 * length ts + 2 < f
      → length ts ≤ n
      → Ends n (parse_block f ts)
  block-Ends n zero ts b l = absurd (omega arith)
  block-Ends n (suc f) ts b l = then_consume n Token.lbrace ts _ λ _ rest lt.
      and_then-Ends n (length ts) _ _
        (block_loop-Ends (length ts) f (closed (skip_newlines rest)) (skip_newlines rest)
          (omega (arith, skip_newlines_le rest)) (omega (arith, skip_newlines_le rest)))
        λ ss rest' lt'. then_consume n Token.rbrace rest' _ λ _ end lt_end. ends _ end (omega arith)

  block_loop-Ends :
      {D : Type 0} (n f : ℕ) (done : Bool) (ts : Tokens D)
      → 40 * length ts + 27 < f
      → length ts < n
      → Ends n (block_loop f done ts)
  block_loop-Ends n zero done ts b l = absurd (omega arith)
  block_loop-Ends n (suc f) true ts b l = ends _ ts l
  block_loop-Ends n (suc f) false ts b l =
      and_then-Ends n (length ts) _ _ (statement-Ends (length ts) f ts (omega arith) (omega arith))
        λ s rest lt.
          and_then-Ends n n _ _
            (block_loop-Ends n f (closed (skip_newlines rest)) (skip_newlines rest)
              (omega (arith, skip_newlines_le rest)) (omega (arith, skip_newlines_le rest)))
            λ ss rest' lt'. ends _ rest' lt'

  if_stmt-Ends :
      {D : Type 0} (n f : ℕ) (ts : Tokens D)
      → 40 * length ts + 22 < f
      → length ts ≤ n
      → Ends n (parse_if_stmt f ts)
  if_stmt-Ends n zero ts b l = absurd (omega arith)
  if_stmt-Ends n (suc f) ts b l =
      and_then-Ends n (length ts) _ _
        (parse_expression-Ends (length ts) f ts (omega arith) (omega arith))
        λ condition rest lt.
          and_then-Ends n (length ts) _ _
            (block-Ends (length ts) f (skip_newlines rest) (omega (arith, skip_newlines_le rest))
              (omega (arith, skip_newlines_le rest)))
            λ then_block rest' lt'.
              and_then-Ends n (length ts) _ _
                (else_step-Ends (length ts) f (match_any elses (skip_newlines rest'))
                  (skip_newlines rest') (omega (arith, skip_newlines_le rest'))
                  (omega (arith, skip_newlines_le rest'))
                  (match_any-Next elses (skip_newlines rest')))
                λ else_part end lt_end. ends _ end (omega arith)

  else_step-Ends :
      {D : Type 0} (n f : ℕ) (o : Option (Else × Token D × Tokens D)) (ts : Tokens D)
      → 40 * length ts + 1 < f
      → length ts < n
      → NextAny (length ts) o
      → Ends n (else_step f o ts)
  else_step-Ends n zero o ts b l h = absurd (omega arith)
  else_step-Ends n (suc f) none ts b l h = ends _ ts l
  else_step-Ends n (suc f) (some (elif, t, rest)) ts b l h =
      and_then-Ends n n _ _ (if_stmt-Ends n f rest (omega arith) (omega arith))
        λ s rest' lt. ends _ rest' lt
  else_step-Ends n (suc f) (some (else_, t, rest)) ts b l h =
      and_then-Ends n n _ _
        (block-Ends n f (skip_newlines rest) (omega (arith, skip_newlines_le rest))
          (omega (arith, skip_newlines_le rest)))
        λ ss rest' lt. ends _ rest' lt

  while_stmt-Ends :
      {D : Type 0} (n f : ℕ) (ts : Tokens D)
      → 40 * length ts + 22 < f
      → length ts ≤ n
      → Ends n (parse_while_stmt f ts)
  while_stmt-Ends n zero ts b l = absurd (omega arith)
  while_stmt-Ends n (suc f) ts b l =
      and_then-Ends n (length ts) _ _
        (parse_expression-Ends (length ts) f ts (omega arith) (omega arith))
        λ condition rest lt.
          and_then-Ends n (length ts) _ _
            (block-Ends (length ts) f (skip_newlines rest) (omega (arith, skip_newlines_le rest))
              (omega (arith, skip_newlines_le rest)))
            λ body end lt_end. ends _ end (omega arith)

  for_stmt-Ends :
      {D : Type 0} (n f : ℕ) (ts : Tokens D)
      → 40 * length ts + 3 < f
      → length ts ≤ n
      → Ends n (parse_for_stmt f ts)
  for_stmt-Ends n zero ts b l = absurd (omega arith)
  for_stmt-Ends n (suc f) ts b l = then_consume n Token.identifier ts _ λ variable rest lt.
      then_consume n Token.in_ rest _ λ _ rest' lt'.
        and_then-Ends n (length ts) _ _
          (parse_expression-Ends (length ts) f rest' (omega arith) (omega arith))
          λ iterable last lt_last.
            and_then-Ends n (length ts) _ _
              (block-Ends (length ts) f (skip_newlines last) (omega (arith, skip_newlines_le last))
                (omega (arith, skip_newlines_le last)))
              λ body end lt_end. ends _ end (omega arith)

  class_decl-Ends :
      {D : Type 0} (n f : ℕ) (ts : Tokens D)
      → 40 * length ts + 3 < f
      → length ts ≤ n
      → Ends n (parse_class_decl f ts)
  class_decl-Ends n zero ts b l = absurd (omega arith)
  class_decl-Ends n (suc f) ts b l = then_consume n Token.identifier ts _ λ name rest lt.
      then_consume n Token.lbrace (skip_newlines rest) _ λ _ rest' lt'.
        and_then-Ends n (length ts) _ _
          (class_loop-Ends (length ts) f (closed (skip_newlines rest')) (skip_newlines rest')
            (omega (arith, skip_newlines_le rest, skip_newlines_le rest'))
            (omega (arith, skip_newlines_le rest, skip_newlines_le rest')))
          λ body last lt_last.
            then_consume n Token.rbrace last _ λ _ end lt_end. ends _ end (omega arith)

  class_loop-Ends :
      {D : Type 0} (n f : ℕ) (done : Bool) (ts : Tokens D)
      → 40 * length ts + 7 < f
      → length ts < n
      → Ends n (class_loop f done ts)
  class_loop-Ends n zero done ts b l = absurd (omega arith)
  class_loop-Ends n (suc f) true ts b l = ends _ ts l
  class_loop-Ends n (suc f) false ts b l =
      class_step-Ends n f (check Token.rbrace (skip_newlines ts)) (skip_newlines ts)
        (omega (arith, skip_newlines_le ts)) (omega (arith, skip_newlines_le ts))

  class_step-Ends :
      {D : Type 0} (n f : ℕ) (done : Bool) (ts : Tokens D)
      → 40 * length ts + 6 < f
      → length ts < n
      → Ends n (class_step f done ts)
  class_step-Ends n zero done ts b l = absurd (omega arith)
  class_step-Ends n (suc f) true ts b l = ends _ ts l
  class_step-Ends n (suc f) false ts b l =
      class_member-Ends n f (match_any members ts) ts (omega arith) l (match_any-Next members ts)

  class_member-Ends :
      {D : Type 0} (n f : ℕ) (o : Option (Member × Token D × Tokens D)) (ts : Tokens D)
      → 40 * length ts + 5 < f
      → length ts < n
      → NextAny (length ts) o
      → Ends n (class_member f o ts)
  class_member-Ends n zero o ts b l h = absurd (omega arith)
  class_member-Ends n (suc f) none ts b l h = reported _
  class_member-Ends n (suc f) (some (method, t, rest)) ts b l h =
      and_then-Ends n (length ts) _ _
        (function_decl-Ends (length ts) f rest (omega arith) (omega arith))
        λ m rest' lt.
          and_then-Ends n n _ _
            (class_loop-Ends n f (closed (after_member rest')) (after_member rest')
              (omega (arith, after_member_le rest')) (omega (arith, after_member_le rest')))
            λ body end lt'. ends _ end lt'
  class_member-Ends n (suc f) (some (field, t, rest)) ts b l h =
      and_then-Ends n (length ts) _ _
        (parse_field-Ends (length ts) f ts (omega arith) (omega arith))
        λ m rest' lt.
          and_then-Ends n n _ _
            (class_loop-Ends n f (closed (after_member rest')) (after_member rest')
              (omega (arith, after_member_le rest')) (omega (arith, after_member_le rest')))
            λ body end lt'. ends _ end lt'
