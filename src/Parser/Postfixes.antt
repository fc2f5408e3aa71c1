-- ===== src/Parser/Postfixes.antt =====
-- How src/parser/parser.cpp reads unary and postfix operations that are printed, as one operand.
use aithon.Prelude.{◌≡◌, refl, true, false, none, some, ◌∷◌, Bytes}
use aithon.Ast.{
  UnaryOp, Expr, Exprs, bool_literal, identifier, unary_op, index_expr, member_expr, some_expr,
  none_expr, no_exprs, and_expr,
}
use aithon.Parser.{Tokens, ok, and_then, match_any, check, consume}
use aithon.Parser.Atoms.{Atom, Atom-ReadsBack, in_parens}
use aithon.Parser.Expr.{parse_expression, parse_primary, parse_args, postfix_loop, postfix_step}
use aithon.Parser.Grammar.{index, member, unary_operators, has_named_args, name_of}
use aithon.Parser.Operations.{atom_unary, postfix_expression, chain_reads, prefix_reads}
use aithon.Parser.Print.{
  type_of_unary, mark, named, print, print_args, Parsable, AllParsable, print-Starts,
}
use aithon.Parser.Levels.{unary-expression_reads}
use aithon.Parser.Reads.{Reads, reads_suc, reads_same, reads_bind, postfix_stops}
use aithon.Parser.Sequences.{AllReadBack, Stops-rparen, Stops-rbracket, args_reads}
use aithon.Token as Token
use aithon.Token.{Token, SourceLocation}

module _ {D : Type 0} (at : SourceLocation) where
  abbrev pub closing : Tokens D → Tokens D
  closing ts = mark at Token.rparen ∷ ts

  pub unary-Atom :
      (op : UnaryOp) (e : Expr D)
      → Parsable e
      → Atom at e
      → (ts : Tokens D)
      → match_any unary_operators (mark at (type_of_unary op) ∷ print at e (closing ts))
        ≡ some (op, mark at (type_of_unary op), print at e (closing ts))
      → Reads parse_primary (print at (unary_op op e) ts) (unary_op op e) ts
  unfolding print match_any
  unary-Atom op e p a ts found =
      let us = print at e (closing ts) in
      in_parens at (mark at (type_of_unary op) ∷ us) ts (unary_op op e) (
        unary-expression_reads (mark at (type_of_unary op) ∷ us) (unary_op op e) (closing ts)
          (prefix_reads op (mark at (type_of_unary op)) us (closing ts) e found (
            atom_unary us e (closing ts) ((print-Starts at e (closing ts) p).no_unary)
              (a (closing ts)) (refl, refl)))
          (Stops-rparen at ts))

  -- One postfix behind an expression, in parentheses.
  pub postfix-Atom :
      (e e' : Expr D) (mid ts : Tokens D)
      → Parsable e
      → Atom at e
      → Reads (λ f. postfix_loop f e) mid e' (closing ts)
      → Reads parse_primary (mark at Token.lparen ∷ print at e mid) e' ts
  postfix-Atom e e' mid ts p a r = in_parens at (print at e mid) ts e' (
      postfix_expression (print at e mid) e' (closing ts) ((print-Starts at e mid p).no_unary)
        (chain_reads (print at e mid) mid (closing ts) e e' (a mid) r) (Stops-rparen at ts))

  -- The loop ends behind the postfix.
  pub loop_ends :
      (e : Expr D) (ts : Tokens D) → Reads (λ f. postfix_loop f e) (closing ts) e (closing ts)
  unfolding match_any
  loop_ends e ts = postfix_stops (closing ts) e refl

  pub member-Atom :
      (e : Expr D) (name : Bytes) → Parsable e → Atom at e → Atom at (member_expr e name)
  unfolding print parse_expression match_any consume and_then
  member-Atom e name p a ts =
      let mid = mark at Token.dot ∷ named at name ∷ closing ts in
      postfix-Atom e (member_expr e name) mid ts p a (
        reads_suc _
          (λ f us.
            postfix_step f e (some (member, mark at Token.dot, named at name ∷ closing ts)) us)
          mid mid (member_expr e name) (closing ts) (λ f. refl)
          (reads_suc _ (λ f. postfix_loop f (member_expr e name)) mid (closing ts)
            (member_expr e name) (closing ts) (λ f. refl) (loop_ends (member_expr e name) ts)))

  pub index-Atom :
      (e i : Expr D) → Parsable e → Parsable i → Atom at e → Atom at i → Atom at (index_expr e i)
  unfolding print parse_expression match_any consume and_then
  index-Atom e i pe pi ae ai ts =
      let us = mark at Token.rbracket ∷ closing ts in
      let mid = mark at Token.lbracket ∷ print at i us in
      postfix-Atom e (index_expr e i) mid ts pe ae (
        reads_suc _
          (λ f vs. postfix_step f e (some (index, mark at Token.lbracket, print at i us)) vs) mid
          mid (index_expr e i) (closing ts) (λ f. refl)
          (reads_suc _
            (λ f vs. and_then (parse_expression f vs) λ i' rest.
              and_then (consume Token.rbracket rest)
                λ _ rest'. postfix_loop f (index_expr e i') rest')
            mid (print at i us) (index_expr e i) (closing ts) (λ f. refl)
            (reads_bind _
              (λ f i' rest.
                and_then (consume Token.rbracket rest)
                  λ _ rest'. postfix_loop f (index_expr e i') rest')
              (print at i us) us i (index_expr e i) (closing ts)
              (Atom-ReadsBack at i pi ai us (Stops-rbracket at (closing ts)))
              (reads_same _ (λ f. postfix_loop f (index_expr e i)) us (closing ts) (index_expr e i)
                (closing ts) (λ f. refl) (loop_ends (index_expr e i) ts)))))

  pub name_of-false : (e : Expr D) → name_of e false ≡ none
  name_of-false (identifier name) = refl
  name_of-false e = refl

  rparen_not_named :
      (e : Expr D) (ts : Tokens D) → Parsable e → has_named_args (print at e (closing ts)) ≡ false
  unfolding print has_named_args check Parsable
  rparen_not_named (bool_literal true) ts p = refl
  rparen_not_named (bool_literal false) ts p = refl
  rparen_not_named (some_expr e) ts p = absurd p
  rparen_not_named none_expr ts p = absurd p
  rparen_not_named e ts p = refl

  comma_not_named :
      (e : Expr D) (ts : Tokens D)
      → Parsable e
      → has_named_args (print at e (mark at Token.comma ∷ ts)) ≡ false
  unfolding print has_named_args check Parsable
  comma_not_named (bool_literal true) ts p = refl
  comma_not_named (bool_literal false) ts p = refl
  comma_not_named (some_expr e) ts p = absurd p
  comma_not_named none_expr ts p = absurd p
  comma_not_named e ts p = refl

  pub args_not_named :
      (args : Exprs D) (ts : Tokens D)
      → AllParsable args
      → has_named_args (print_args at args (closing ts)) ≡ false
  unfolding print has_named_args check Parsable
  args_not_named no_exprs ts p = refl
  args_not_named (and_expr e no_exprs) ts (p, _) = rparen_not_named e ts p
  args_not_named (and_expr e (and_expr e' es)) ts (p, _) = comma_not_named e _ p

  no_rparen :
      (e : Expr D) (es : Exprs D) (ts : Tokens D)
      → Parsable e
      → check Token.rparen (print_args at (and_expr e es) (closing ts)) ≡ false
  unfolding print
  no_rparen e no_exprs ts p = (print-Starts at e (closing ts) p).no_rparen
  no_rparen e (and_expr e' es) ts p = (print-Starts at e _ p).no_rparen

  pub all_args_read :
      (args : Exprs D)
      → AllParsable args
      → AllReadBack at args
      → (ts : Tokens D)
      → Reads
          (λ f us. parse_args f (check Token.rparen us) us)
          (print_args at args (closing ts))
          args
          (closing ts)
  unfolding print parse_expression check Parsable
  all_args_read no_exprs p r ts =
      reads_suc _ (λ f us. ok no_exprs us) (closing ts) (closing ts) no_exprs (closing ts)
        (λ f. refl) (record { fuel = 0; reads = λ f b. refl })
  all_args_read (and_expr e es) (p, ps) r ts =
      let us = print_args at (and_expr e es) (closing ts) in
      reads_same _ (λ f. parse_args f false) us us (and_expr e es) (closing ts)
        (λ f. rw (no_rparen e es ts p) refl) (args_reads at e es r ts)
