-- ===== src/Parser/DeclEnds.antt =====
-- How the functions that parse declarations end.
use aithon.Prelude.{
  ℕ, zero, suc, ◌+◌, ◌*◌, ◌≤◌, ◌<◌, Bool, true, false, Option, none, some, Bytes, arith, length,
}
use aithon.Ast.{Expr, FieldDecl, identifier, index_expr, member_expr}
use aithon.Parser.{Tokens, check, match, skip_newlines}
use aithon.Parser.Ends.{
  Ends, ends, reported, and_then-Ends, then_consume, Next, match-Next, skip_newlines_le,
}
use aithon.Parser.ExprEnds.{parse_expression-Ends}
use aithon.Parser.Stmt.{
  parse_parameters, more_parameters, generic_type, annotation, default_value, parse_field, or_comma,
  after_member, typed_field, closed, struct_fields, struct_field, parse_struct_decl, assign_to,
  assignment_step, parse_assignment_or_expr, return_value, parse_return_stmt,
}
use aithon.Token as Token
use aithon.Token.{Token}

mutual
  unfolding parse_parameters

  pub parameters-Ends :
      {D : Type 0} (n f : ℕ) (done : Bool) (ts : Tokens D)
      → 40 * length ts + 2 < f
      → length ts < n
      → Ends n (parse_parameters f done ts)
  parameters-Ends n zero done ts b l = absurd (omega arith)
  parameters-Ends n (suc f) true ts b l = ends _ ts l
  parameters-Ends n (suc f) false ts b l =
      then_consume n Token.identifier (skip_newlines ts) _ λ name rest lt.
        more_parameters-Ends n f name.lexeme (match Token.comma (skip_newlines rest))
          (skip_newlines rest) (omega (arith, skip_newlines_le rest, skip_newlines_le ts))
          (omega (arith, skip_newlines_le rest, skip_newlines_le ts))
          (match-Next Token.comma (skip_newlines rest))

  more_parameters-Ends :
      {D : Type 0} (n f : ℕ) (name : Bytes) (o : Option (Token D × Tokens D)) (ts : Tokens D)
      → 40 * length ts + 1 < f
      → length ts < n
      → Next (length ts) o
      → Ends n (more_parameters f name o ts)
  more_parameters-Ends n zero name o ts b l h = absurd (omega arith)
  more_parameters-Ends n (suc f) name none ts b l h = ends _ ts l
  more_parameters-Ends n (suc f) name (some (t, rest)) ts b l h =
      and_then-Ends n n _ _ (parameters-Ends n f false rest (omega arith) (omega arith))
        λ names rest' lt. ends _ rest' lt

generic_type-Ends :
    {D : Type 0} (n : ℕ) (outer : Bytes) (o : Option (Token D × Tokens D)) (ts : Tokens D)
    → length ts < n
    → Next (length ts) o
    → Ends n (generic_type outer o ts)
unfolding generic_type
generic_type-Ends n outer none ts l h = ends _ ts l
generic_type-Ends n outer (some (t, rest)) ts l h =
    then_consume n Token.identifier rest _ λ inner rest' lt.
      then_consume n Token.rbracket rest' _ λ _ last lt'. ends _ last (omega arith)

annotation-Ends :
    {D : Type 0} (n : ℕ) (o : Option (Token D × Tokens D)) (ts : Tokens D)
    → length ts < n
    → Next (length ts) o
    → Ends n (annotation o ts)
unfolding annotation
annotation-Ends n none ts l h = ends _ ts l
annotation-Ends n (some (t, rest)) ts l h = then_consume n Token.identifier rest _ λ name rest' lt.
    generic_type-Ends n name.lexeme (match Token.lbracket rest') rest' (omega arith)
      (match-Next Token.lbracket rest')

default_value-Ends :
    {D : Type 0} (n f : ℕ) (o : Option (Token D × Tokens D)) (ts : Tokens D)
    → 40 * length ts < f
    → length ts < n
    → Next (length ts) o
    → Ends n (default_value f o ts)
unfolding default_value
default_value-Ends n f none ts b l h = ends _ ts l
default_value-Ends n f (some (t, rest)) ts b l h =
    and_then-Ends n (length rest) _ _
      (parse_expression-Ends (length rest) f rest (omega arith) (omega arith))
      λ e rest' lt. ends _ rest' (omega arith)

pub parse_field-Ends :
    {D : Type 0} (n f : ℕ) (ts : Tokens D)
    → 40 * length ts < f
    → length ts ≤ n
    → Ends n (parse_field f ts)
unfolding parse_field
parse_field-Ends n f ts b l = then_consume n Token.identifier ts _ λ name rest lt.
    and_then-Ends n (length ts) _ _
      (annotation-Ends (length ts) (match Token.colon rest) rest lt (match-Next Token.colon rest))
      λ type rest' lt'.
        and_then-Ends n (length ts) _ _
          (default_value-Ends (length ts) f (match Token.equal rest') rest' (omega arith) lt'
            (match-Next Token.equal rest'))
          λ value last lt_last. ends _ last (omega arith)

or_comma_le :
    {D : Type 0} (o p : Option (Token D × Tokens D)) (ts : Tokens D)
    → Next (length ts) o
    → Next (length ts) p
    → length (or_comma o p ts) ≤ length ts
or_comma_le (some (t, rest)) p ts h i = omega arith
or_comma_le none (some (t, rest)) ts h i = omega arith
or_comma_le none none ts h i = omega arith

pub after_member_le : {D : Type 0} (ts : Tokens D) → length (after_member ts) ≤ length ts
unfolding after_member
after_member_le ts = omega (
  arith,
  skip_newlines_le (or_comma (match Token.newline ts) (match Token.comma ts) ts),
  or_comma_le (match Token.newline ts) (match Token.comma ts) ts (match-Next Token.newline ts)
      (match-Next Token.comma ts),
)

typed_field-Ends :
    {D : Type 0} (n : ℕ) (field : FieldDecl D) (type : Option Bytes) (value : Option (Expr D))
    (ts : Tokens D)
    → length ts < n
    → Ends n (typed_field field type value ts)
typed_field-Ends n field none none ts l = reported _
typed_field-Ends n field none (some e) ts l = ends field ts l
typed_field-Ends n field (some t) value ts l = ends field ts l

mutual
  unfolding struct_fields

  struct_fields-Ends :
      {D : Type 0} (n f : ℕ) (done : Bool) (ts : Tokens D)
      → 40 * length ts + 2 < f
      → length ts < n
      → Ends n (struct_fields f done ts)
  struct_fields-Ends n zero done ts b l = absurd (omega arith)
  struct_fields-Ends n (suc f) true ts b l = ends _ ts l
  struct_fields-Ends n (suc f) false ts b l =
      struct_field-Ends n f (check Token.rbrace (skip_newlines ts)) (skip_newlines ts)
        (omega (arith, skip_newlines_le ts)) (omega (arith, skip_newlines_le ts))

  struct_field-Ends :
      {D : Type 0} (n f : ℕ) (done : Bool) (ts : Tokens D)
      → 40 * length ts + 1 < f
      → length ts < n
      → Ends n (struct_field f done ts)
  struct_field-Ends n zero done ts b l = absurd (omega arith)
  struct_field-Ends n (suc f) true ts b l = ends _ ts l
  struct_field-Ends n (suc f) false ts b l =
      and_then-Ends n (length ts) _ _
        (parse_field-Ends (length ts) f ts (omega arith) (omega arith))
        λ field rest lt.
          and_then-Ends n (length ts) _ _
            (typed_field-Ends (length ts) field field.type_annotation field.default_value rest lt)
            λ field' rest' lt'.
              and_then-Ends n n _ _
                (struct_fields-Ends n f (closed (after_member rest')) (after_member rest')
                  (omega (arith, after_member_le rest')) (omega (arith, after_member_le rest')))
                λ fields last lt_last. ends _ last lt_last

pub parse_struct_decl-Ends :
    {D : Type 0} (n f : ℕ) (ts : Tokens D)
    → 40 * length ts < f
    → length ts ≤ n
    → Ends n (parse_struct_decl f ts)
unfolding parse_struct_decl
parse_struct_decl-Ends n f ts b l = then_consume n Token.identifier ts _ λ name rest lt.
    then_consume n Token.lbrace (skip_newlines rest) _ λ _ rest' lt'.
      and_then-Ends n n _ _
        (struct_fields-Ends n f (closed (skip_newlines rest')) (skip_newlines rest')
          (omega (arith, skip_newlines_le rest, skip_newlines_le rest'))
          (omega (arith, skip_newlines_le rest, skip_newlines_le rest')))
        λ fields last lt_last.
          then_consume n Token.rbrace last _ λ _ end lt_end. ends _ end (omega arith)

assign_to-Ends :
    {D : Type 0} (n : ℕ) (e value : Expr D) (ts : Tokens D)
    → length ts < n
    → Ends n (assign_to e value ts)
unfolding assign_to
assign_to-Ends n (identifier name) value ts l = ends _ ts l
assign_to-Ends n (member_expr object field) value ts l = ends _ ts l
assign_to-Ends n (index_expr object index) value ts l = ends _ ts l
assign_to-Ends n e value ts l = reported _

assignment_step-Ends :
    {D : Type 0} (n f : ℕ) (e : Expr D) (o : Option (Token D × Tokens D)) (ts : Tokens D)
    → 40 * length ts < f
    → length ts < n
    → Next (length ts) o
    → Ends n (assignment_step f e o ts)
unfolding assignment_step
assignment_step-Ends n f e none ts b l h = ends _ ts l
assignment_step-Ends n f e (some (t, rest)) ts b l h =
    and_then-Ends n (length rest) _ _
      (parse_expression-Ends (length rest) f rest (omega arith) (omega arith))
      λ value rest' lt. assign_to-Ends n e value rest' (omega arith)

pub parse_assignment_or_expr-Ends :
    {D : Type 0} (n f : ℕ) (ts : Tokens D)
    → 40 * length ts + 20 < f
    → length ts ≤ n
    → Ends n (parse_assignment_or_expr f ts)
unfolding parse_assignment_or_expr
parse_assignment_or_expr-Ends n f ts b l =
    and_then-Ends n (length ts) _ _ (parse_expression-Ends (length ts) f ts b (omega arith))
      λ e rest lt.
        assignment_step-Ends n f e (match Token.equal rest) rest (omega arith) (omega arith)
          (match-Next Token.equal rest)

return_value-Ends :
    {D : Type 0} (n f : ℕ) (given : Bool) (ts : Tokens D)
    → 40 * length ts + 20 < f
    → length ts < n
    → Ends n (return_value f given ts)
unfolding return_value
return_value-Ends n f true ts b l =
    and_then-Ends n (length ts) _ _ (parse_expression-Ends (length ts) f ts b (omega arith))
      λ e rest lt. ends _ rest (omega arith)
return_value-Ends n f false ts b l = ends _ ts l

pub parse_return_stmt-Ends :
    {D : Type 0} (n f : ℕ) (ts : Tokens D)
    → 40 * length ts + 20 < f
    → length ts < n
    → Ends n (parse_return_stmt f ts)
unfolding parse_return_stmt
parse_return_stmt-Ends n f ts b l = return_value-Ends n f _ ts b l
