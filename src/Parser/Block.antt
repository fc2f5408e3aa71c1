-- ===== src/Parser/Block.antt =====
-- src/parser/parser.cpp, the functions from parse_statement to parse that call one another.
use aithon.Prelude.{
  ℕ, zero, suc, ◌+◌, ◌*◌, Bool, true, false, Option, none, some, List, [], ◌∷◌, length,
}
use aithon.Ast.{
  Stmt, Stmts, ElseBlock, FieldDecl, if_stmt, while_stmt, for_stmt, break_stmt, continue_stmt,
  function_decl, class_decl, no_stmts, and_stmt, no_else, else_block,
}
use aithon.Parser.{
  Tokens, ok, error, out_of_fuel, expected_member, Parse, and_then, check, match_any, consume,
  skip_newlines, is_at_end,
}
use aithon.Parser.Expr.{parse_expression}
use aithon.Parser.Stmt.{
  Keyword, func, struct, class, if_, while, for, return, break, continue, keywords, closed,
  parse_parameters, parse_field, after_member, parse_struct_decl, parse_assignment_or_expr,
  parse_return_stmt, add_field, add_method,
}
use aithon.Token as Token
use aithon.Token.{Token}

-- What follows the block of an `if`.
pub data Else : Type 0 where
  elif else_ : Else

abbrev pub elses : List (Token.TokenType × Else)
elses = (Token.elif, elif) ∷ (Token.else_, else_) ∷ []

-- What a member of a class begins with.
pub data Member : Type 0 where
  method field : Member

abbrev pub members : List (Token.TokenType × Member)
members = (Token.func, method) ∷ (Token.identifier, field) ∷ []

unfoldable mutual
  unfolding match_any parse_parameters parse_struct_decl parse_assignment_or_expr parse_return_stmt

  pub parse_statement : {D : Type 0} → ℕ → Parse D (Stmt D)
  parse_statement zero ts = out_of_fuel
  parse_statement (suc f) ts =
      statement_step f (match_any keywords (skip_newlines ts)) (skip_newlines ts)

  pub statement_step : {D : Type 0} → ℕ → Option (Keyword × Token D × Tokens D) → Parse D (Stmt D)
  statement_step zero o ts = out_of_fuel
  statement_step (suc f) (some (func, t, ts)) _ = parse_function_decl f ts
  statement_step (suc f) (some (struct, t, ts)) _ = parse_struct_decl f ts
  statement_step (suc f) (some (class, t, ts)) _ = parse_class_decl f ts
  statement_step (suc f) (some (if_, t, ts)) _ = parse_if_stmt f ts
  statement_step (suc f) (some (while, t, ts)) _ = parse_while_stmt f ts
  statement_step (suc f) (some (for, t, ts)) _ = parse_for_stmt f ts
  statement_step (suc f) (some (return, t, ts)) _ = parse_return_stmt f ts
  statement_step (suc f) (some (break, t, ts)) _ = ok break_stmt ts
  statement_step (suc f) (some (continue, t, ts)) _ = ok continue_stmt ts
  statement_step (suc f) none ts = parse_assignment_or_expr f ts

  pub parse_function_decl : {D : Type 0} → ℕ → Parse D (Stmt D)
  parse_function_decl zero ts = out_of_fuel
  parse_function_decl (suc f) ts = and_then (consume Token.identifier ts) λ name rest.
      and_then (consume Token.lparen rest) λ _ rest'.
        and_then (parse_parameters f (check Token.rparen rest') rest') λ params rest''.
          and_then (consume Token.rparen rest'') λ _ last.
            and_then (parse_block f (skip_newlines last))
              λ body end. ok (function_decl name.lexeme params body false) end

  pub parse_block : {D : Type 0} → ℕ → Parse D (Stmts D)
  parse_block zero ts = out_of_fuel
  parse_block (suc f) ts = and_then (consume Token.lbrace ts) λ _ rest.
      and_then (block_loop f (closed (skip_newlines rest)) (skip_newlines rest))
        λ ss rest'. and_then (consume Token.rbrace rest') λ _ end. ok ss end

  pub block_loop : {D : Type 0} → ℕ → Bool → Parse D (Stmts D)
  block_loop zero done ts = out_of_fuel
  block_loop (suc f) true ts = ok no_stmts ts
  block_loop (suc f) false ts = and_then (parse_statement f ts) λ s rest.
      and_then (block_loop f (closed (skip_newlines rest)) (skip_newlines rest))
        λ ss rest'. ok (and_stmt s ss) rest'

  -- The condition, the block, and what follows.
  pub parse_if_stmt : {D : Type 0} → ℕ → Parse D (Stmt D)
  parse_if_stmt zero ts = out_of_fuel
  parse_if_stmt (suc f) ts = and_then (parse_expression f ts) λ condition rest.
      and_then (parse_block f (skip_newlines rest)) λ then_block rest'.
        and_then (else_step f (match_any elses (skip_newlines rest')) (skip_newlines rest'))
          λ else_part end. ok (if_stmt condition then_block else_part) end

  pub else_step : {D : Type 0} → ℕ → Option (Else × Token D × Tokens D) → Parse D (ElseBlock D)
  else_step zero o ts = out_of_fuel
  else_step (suc f) none ts = ok no_else ts
  else_step (suc f) (some (elif, t, ts)) _ =
      and_then (parse_if_stmt f ts) λ s rest. ok (else_block (and_stmt s no_stmts)) rest
  else_step (suc f) (some (else_, t, ts)) _ =
      and_then (parse_block f (skip_newlines ts)) λ ss rest. ok (else_block ss) rest

  pub parse_while_stmt : {D : Type 0} → ℕ → Parse D (Stmt D)
  parse_while_stmt zero ts = out_of_fuel
  parse_while_stmt (suc f) ts = and_then (parse_expression f ts) λ condition rest.
      and_then (parse_block f (skip_newlines rest)) λ body end. ok (while_stmt condition body) end

  pub parse_for_stmt : {D : Type 0} → ℕ → Parse D (Stmt D)
  parse_for_stmt zero ts = out_of_fuel
  parse_for_stmt (suc f) ts = and_then (consume Token.identifier ts) λ variable rest.
      and_then (consume Token.in_ rest) λ _ rest'.
        and_then (parse_expression f rest') λ iterable rest''.
          and_then (parse_block f (skip_newlines rest''))
            λ body end. ok (for_stmt variable.lexeme iterable body) end

  pub parse_class_decl : {D : Type 0} → ℕ → Parse D (Stmt D)
  parse_class_decl zero ts = out_of_fuel
  parse_class_decl (suc f) ts = and_then (consume Token.identifier ts) λ name rest.
      and_then (consume Token.lbrace (skip_newlines rest)) λ _ rest'.
        and_then (class_loop f (closed (skip_newlines rest')) (skip_newlines rest')) λ body rest''.
          and_then (consume Token.rbrace rest'')
            λ _ end. ok (class_decl name.lexeme body.0 body.1) end

  pub class_loop : {D : Type 0} → ℕ → Bool → Parse D (List (FieldDecl D) × Stmts D)
  class_loop zero done ts = out_of_fuel
  class_loop (suc f) true ts = ok ([], no_stmts) ts
  class_loop (suc f) false ts =
      class_step f (check Token.rbrace (skip_newlines ts)) (skip_newlines ts)

  pub class_step : {D : Type 0} → ℕ → Bool → Parse D (List (FieldDecl D) × Stmts D)
  class_step zero done ts = out_of_fuel
  class_step (suc f) true ts = ok ([], no_stmts) ts
  class_step (suc f) false ts = class_member f (match_any members ts) ts

  -- A field is read from its name on.
  pub class_member :
      {D : Type 0}
      → ℕ
      → Option (Member × Token D × Tokens D)
      → Parse D (List (FieldDecl D) × Stmts D)
  class_member zero o ts = out_of_fuel
  class_member (suc f) none ts = error (expected_member ts)
  class_member (suc f) (some (method, t, rest)) ts =
      and_then (parse_function_decl f rest) λ m rest'.
        and_then (class_loop f (closed (after_member rest')) (after_member rest'))
          λ body end. ok (add_method m body) end
  class_member (suc f) (some (field, t, rest)) ts = and_then (parse_field f ts) λ m rest'.
      and_then (class_loop f (closed (after_member rest')) (after_member rest'))
        λ body end. ok (add_field m body) end

-- The loop of `parse`. An error ends it, and `parse` gives no module.
unfoldable pub parse_loop : {D : Type 0} → ℕ → Bool → Parse D (Stmts D)
unfolding parse_statement
parse_loop zero done ts = out_of_fuel
parse_loop (suc f) true ts = ok no_stmts ts
parse_loop (suc f) false ts = and_then (parse_statement f ts) λ s rest.
    and_then (parse_loop f (is_at_end (skip_newlines rest)) (skip_newlines rest))
      λ ss end. ok (and_stmt s ss) end

-- As much fuel as any list of tokens takes.
abbrev pub enough : {D : Type 0} → Tokens D → ℕ
enough ts = 40 * length ts + 40

unfoldable pub parse : {D : Type 0} → Parse D (Stmts D)
unfolding parse_loop
parse ts = parse_loop (enough ts) (is_at_end (skip_newlines ts)) (skip_newlines ts)
