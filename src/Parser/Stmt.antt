-- ===== src/Parser/Stmt.antt =====
-- src/parser/parser.cpp, the parsing of declarations and statements, and `parse`.
use aithon.Prelude.{
  ℕ, zero, suc, Bool, true, false, not, ◌&&◌, ◌||◌, Option, none, some, List, [], ◌∷◌, ◌++◌, Bytes,
  codes,
}
use aithon.Ast.{
  Expr, Stmt, Stmts, FieldDecl, identifier, member_expr, index_expr, expr_stmt, assignment,
  return_stmt, struct_decl, field_assignment, index_assignment, and_stmt,
}
use aithon.Parser.{
  Tokens, ok, error, out_of_fuel, invalid_target, field_needs_type, Parse, and_then, check, match,
  consume, skip_newlines, is_at_end,
}
use aithon.Parser.Expr.{parse_expression}
use aithon.Token as Token
use aithon.Token.{TokenType, Token}

pub data Keyword : Type 0 where
  func struct class if_ while for return break continue : Keyword

abbrev pub keywords : List (TokenType × Keyword)
keywords =
    (Token.func, func)
    ∷ (Token.struct, struct)
    ∷ (Token.class, class)
    ∷ (Token.if_, if_)
    ∷ (Token.while, while)
    ∷ (Token.for, for)
    ∷ (Token.return, return)
    ∷ (Token.break, break)
    ∷ (Token.continue, continue)
    ∷ []

-- The loops over a body end there.
unfoldable pub closed : {D : Type 0} → Tokens D → Bool
unfolding check
closed ts = check Token.rbrace ts || is_at_end ts

unfoldable mutual
  unfolding consume match skip_newlines

  pub parse_parameters : {D : Type 0} → ℕ → Bool → Parse D (List Bytes)
  parse_parameters zero none_given ts = out_of_fuel
  parse_parameters (suc f) true ts = ok [] ts
  parse_parameters (suc f) false ts =
      and_then (consume Token.identifier (skip_newlines ts)) λ name rest.
        more_parameters f name.lexeme (match Token.comma (skip_newlines rest)) (skip_newlines rest)

  pub more_parameters :
      {D : Type 0} → ℕ → Bytes → Option (Token D × Tokens D) → Parse D (List Bytes)
  more_parameters zero name o ts = out_of_fuel
  more_parameters (suc f) name none ts = ok (name ∷ []) ts
  more_parameters (suc f) name (some (t, ts)) _ =
      and_then (parse_parameters f false ts) λ names rest. ok (name ∷ names) rest

-- An inner type in brackets, behind the type's name.
unfoldable pub generic_type :
    {D : Type 0} → Bytes → Option (Token D × Tokens D) → Parse D (Option Bytes)
unfolding consume
generic_type outer none ts = ok (some outer) ts
generic_type outer (some (t, ts)) _ = and_then (consume Token.identifier ts) λ inner rest.
    and_then (consume Token.rbracket rest)
      λ _ rest'. ok (some (outer ++ codes "[" ++ inner.lexeme ++ codes "]")) rest'

unfoldable pub annotation : {D : Type 0} → Option (Token D × Tokens D) → Parse D (Option Bytes)
unfolding generic_type match
annotation none ts = ok none ts
annotation (some (t, ts)) _ =
    and_then (consume Token.identifier ts)
      λ name rest. generic_type name.lexeme (match Token.lbracket rest) rest

unfoldable pub default_value :
    {D : Type 0} → ℕ → Option (Token D × Tokens D) → Parse D (Option (Expr D))
unfolding parse_expression
default_value f none ts = ok none ts
default_value f (some (t, ts)) _ = and_then (parse_expression f ts) λ e rest. ok (some e) rest

-- `name [: type] [= default]`
unfoldable pub parse_field : {D : Type 0} → ℕ → Parse D (FieldDecl D)
unfolding annotation default_value
parse_field f ts = and_then (consume Token.identifier ts) λ name rest.
    and_then (annotation (match Token.colon rest) rest) λ type rest'.
      and_then (default_value f (match Token.equal rest') rest') λ value rest''.
        ok (record { name = name.lexeme; type_annotation = type; default_value = value }) rest''

abbrev pub or_comma :
    {D : Type 0} → Option (Token D × Tokens D) → Option (Token D × Tokens D) → Tokens D → Tokens D
or_comma (some (t, rest)) comma ts = rest
or_comma none (some (t, rest)) ts = rest
or_comma none none ts = ts

-- A newline or a comma behind a member, and the newlines that follow.
unfoldable pub after_member : {D : Type 0} → Tokens D → Tokens D
unfolding skip_newlines match
after_member ts = skip_newlines (or_comma (match Token.newline ts) (match Token.comma ts) ts)

abbrev pub typed_field :
    {D : Type 0} → FieldDecl D → Option Bytes → Option (Expr D) → Parse D (FieldDecl D)
typed_field field none none ts = error (field_needs_type field.name ts)
typed_field field type value ts = ok field ts

unfoldable mutual
  unfolding closed parse_field after_member

  pub struct_fields : {D : Type 0} → ℕ → Bool → Parse D (List (FieldDecl D))
  struct_fields zero done ts = out_of_fuel
  struct_fields (suc f) true ts = ok [] ts
  struct_fields (suc f) false ts =
      struct_field f (check Token.rbrace (skip_newlines ts)) (skip_newlines ts)

  pub struct_field : {D : Type 0} → ℕ → Bool → Parse D (List (FieldDecl D))
  struct_field zero done ts = out_of_fuel
  struct_field (suc f) true ts = ok [] ts
  struct_field (suc f) false ts = and_then (parse_field f ts) λ field rest.
      and_then (typed_field field field.type_annotation field.default_value rest) λ field' rest'.
        and_then (struct_fields f (closed (after_member rest')) (after_member rest'))
          λ fields rest''. ok (field' ∷ fields) rest''

unfoldable pub parse_struct_decl : {D : Type 0} → ℕ → Parse D (Stmt D)
unfolding struct_fields
parse_struct_decl f ts = and_then (consume Token.identifier ts) λ name rest.
    and_then (consume Token.lbrace (skip_newlines rest)) λ _ rest'.
      and_then (struct_fields f (closed (skip_newlines rest')) (skip_newlines rest'))
        λ fields rest''.
          and_then (consume Token.rbrace rest'') λ _ end. ok (struct_decl name.lexeme fields) end

-- What an assignment to an expression is.
unfoldable pub assign_to : {D : Type 0} → Expr D → Expr D → Parse D (Stmt D)
assign_to (identifier name) value ts = ok (assignment name value) ts
assign_to (member_expr object field) value ts = ok (field_assignment object field value) ts
assign_to (index_expr object index) value ts = ok (index_assignment object index value) ts
assign_to e value ts = error (invalid_target ts)

unfoldable pub assignment_step :
    {D : Type 0} → ℕ → Expr D → Option (Token D × Tokens D) → Parse D (Stmt D)
unfolding assign_to parse_expression
assignment_step f e none ts = ok (expr_stmt e) ts
assignment_step f e (some (t, ts)) _ =
    and_then (parse_expression f ts) λ value rest. assign_to e value rest

unfoldable pub parse_assignment_or_expr : {D : Type 0} → ℕ → Parse D (Stmt D)
unfolding assignment_step match
parse_assignment_or_expr f ts =
    and_then (parse_expression f ts) λ e rest. assignment_step f e (match Token.equal rest) rest

-- A return with no value stands before a newline, a closing brace or the end.
unfoldable pub return_value : {D : Type 0} → ℕ → Bool → Parse D (Stmt D)
unfolding parse_expression
return_value f true ts = and_then (parse_expression f ts) λ e rest. ok (return_stmt (some e)) rest
return_value f false ts = ok (return_stmt none) ts

unfoldable pub parse_return_stmt : {D : Type 0} → ℕ → Parse D (Stmt D)
unfolding return_value check
parse_return_stmt f ts =
    return_value f
      (not (check Token.newline ts) && not (check Token.rbrace ts) && not (is_at_end ts)) ts

abbrev pub add_field :
    {D : Type 0} → FieldDecl D → List (FieldDecl D) × Stmts D → List (FieldDecl D) × Stmts D
add_field field (fields, methods) = (field ∷ fields, methods)

abbrev pub add_method :
    {D : Type 0} → Stmt D → List (FieldDecl D) × Stmts D → List (FieldDecl D) × Stmts D
add_method method (fields, methods) = (fields, and_stmt method methods)
