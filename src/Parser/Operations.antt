-- ===== src/Parser/Operations.antt =====
-- How the functions of src/parser/parser.cpp read an operation between parentheses.
use aithon.Prelude.{◌≡◌, refl, none, some, ◌∷◌}
use aithon.Ast.{BinaryOp, UnaryOp, pow, Expr, binary_op, unary_op}
use aithon.Parser.{Tokens, ok, and_then, match, match_any, consume}
use aithon.Parser.Expr.{
  parse_expression, parse_operand, level_loop, level_step, parse_unary, unary_step, parse_power,
  power_step, parse_postfix, postfix_loop, parse_primary, primary_step,
}
use aithon.Parser.Grammar.{
  Level, logical_or, logical_and, equality, comparison, term, factor, operators, unary_operators,
  postfixes, primaries, group,
}
use aithon.Parser.Levels.{
  power_reads, unary_reads, postfix_reads, Operand-reads, expression_reads, unary-expression_reads,
}
use aithon.Parser.Reads.{Reads, reads_suc, reads_bind, No, NoPostfix, Stops, Below, loop_stops}
use aithon.Token as Token
use aithon.Token.{Token, SourceLocation}

module _ {D : Type 0} where
  tight : (level : Level) (ts : Tokens D) → Below level ts → NoPostfix ts
  tight factor ts n = n
  tight term ts n = n.1
  tight comparison ts n = n.1.1
  tight equality ts n = n.1.1.1
  tight logical_and ts n = n.1.1.1.1
  tight logical_or ts n = n.1.1.1.1.1

  Below-Stops : (level : Level) (ts : Tokens D) → Stops ts → Below level ts
  Below-Stops logical_or ts n = n.1
  Below-Stops logical_and ts n = n.1.1
  Below-Stops equality ts n = n.1.1.1
  Below-Stops comparison ts n = n.1.1.1.1
  Below-Stops term ts n = n.1.1.1.1.1
  Below-Stops factor ts n = n.1.1.1.1.1.1

  Stops-level : (level : Level) (ts : Tokens D) → Stops ts → No level ts
  Stops-level logical_or ts n = n.0
  Stops-level logical_and ts n = n.1.0
  Stops-level equality ts n = n.1.1.0
  Stops-level comparison ts n = n.1.1.1.0
  Stops-level term ts n = n.1.1.1.1.0
  Stops-level factor ts n = n.1.1.1.1.1.0

  module _ (ts : Tokens D) (e : Expr D) (rest : Tokens D)
      (n : match_any unary_operators ts ≡ none) where
    pub atom_unary : Reads parse_primary ts e rest → NoPostfix rest → Reads parse_unary ts e rest
    atom_unary r s =
        unary_reads ts e rest (power_reads ts e rest (postfix_reads ts e rest r s.0) s.1) n

    pub atom_expression :
        Reads parse_primary ts e rest → Stops rest → Reads parse_expression ts e rest
    atom_expression r s =
        unary-expression_reads ts e rest (atom_unary r (tight logical_or rest s.1)) s

    pub postfix_expression :
        Reads parse_postfix ts e rest → Stops rest → Reads parse_expression ts e rest
    postfix_expression r s =
        unary-expression_reads ts e rest
          (unary_reads ts e rest (power_reads ts e rest r (tight logical_or rest s.1).1) n) s

  -- An operator of a level between two operands.
  pub infix_reads :
      (level : Level) (op : BinaryOp) (t : Token D) (ts us rest : Tokens D) (l r : Expr D)
      → match_any (operators level) (t ∷ us) ≡ some (op, t, us)
      → Below level (t ∷ us)
      → match_any unary_operators ts ≡ none
      → match_any unary_operators us ≡ none
      → Stops rest
      → Reads parse_primary ts l (t ∷ us)
      → Reads parse_primary us r rest
      → Reads parse_expression ts (binary_op op l r) rest
  unfolding parse_expression
  infix_reads level op t ts us rest l r found below n m s x y =
      let left =
        Operand-reads ts l (t ∷ us) level
          (atom_unary ts l (t ∷ us) n x (tight level (t ∷ us) below)) below in
      let right =
        Operand-reads us r rest level (atom_unary us r rest m y (tight logical_or rest s.1))
          (Below-Stops level rest s) in
      let loop =
        reads_suc _ (λ f. level_step f level l (some (op, t, us))) (t ∷ us) (t ∷ us)
          (binary_op op l r) rest (λ f. rw (found, level_loop) refl)
          (reads_suc _
            (λ f vs.
              and_then (parse_operand f level vs) (λ r'. level_loop f level (binary_op op l r')))
            (t ∷ us) us (binary_op op l r) rest (λ f. refl)
            (reads_bind _ (λ f r'. level_loop f level (binary_op op l r')) us rest r
              (binary_op op l r) rest right
              (loop_stops rest (binary_op op l r) level (Stops-level level rest s)))) in
      expression_reads ts (binary_op op l r) rest level
        (reads_suc _ (λ f vs. and_then (parse_operand f level vs) (λ l'. level_loop f level l')) ts
          ts (binary_op op l r) rest (λ f. refl)
          (reads_bind _ (λ f l'. level_loop f level l') ts (t ∷ us) l (binary_op op l r) rest left
            loop))
        s

  pub group_reads :
      (lparen : Token D) (ts rest : Tokens D) (e : Expr D) (close : Token D)
      → match_any primaries (lparen ∷ ts) ≡ some (group, lparen, ts)
      → consume Token.rparen (close ∷ rest) ≡ ok close rest
      → Reads parse_expression ts e (close ∷ rest)
      → Reads parse_primary (lparen ∷ ts) e rest
  unfolding parse_expression and_then
  group_reads lparen ts rest e close found closes r =
      reads_suc _ (λ f. primary_step f (some (group, lparen, ts))) (lparen ∷ ts) (lparen ∷ ts) e
        rest (λ f. rw (found, parse_primary) refl)
        (reads_suc _
          (λ f us.
            and_then (parse_expression f us)
              λ e' rest'. and_then (consume Token.rparen rest') λ _ rest''. ok e' rest'')
          (lparen ∷ ts) ts e rest (λ f. refl)
          (reads_bind _
            (λ f e' rest'. and_then (consume Token.rparen rest') λ _ rest''. ok e' rest'') ts
            (close ∷ rest) e e rest r (record { fuel = 0; reads = λ f b. rw closes refl })))

  -- The tokens behind a first expression, in a chain of postfixes.
  pub chain_reads :
      (ts mid rest : Tokens D) (e e' : Expr D)
      → Reads parse_primary ts e mid
      → Reads (λ f. postfix_loop f e) mid e' rest
      → Reads parse_postfix ts e' rest
  unfolding parse_expression
  chain_reads ts mid rest e e' r s =
      reads_suc _ (λ f us. and_then (parse_primary f us) (λ left. postfix_loop f left)) ts ts e'
        rest (λ f. refl) (reads_bind _ (λ f left. postfix_loop f left) ts mid e e' rest r s)

  -- A unary operator before its operand.
  pub prefix_reads :
      (op : UnaryOp) (t : Token D) (ts rest : Tokens D) (e : Expr D)
      → match_any unary_operators (t ∷ ts) ≡ some (op, t, ts)
      → Reads parse_unary ts e rest
      → Reads parse_unary (t ∷ ts) (unary_op op e) rest
  unfolding parse_expression and_then
  prefix_reads op t ts rest e found r =
      reads_suc _ (λ f. unary_step f (some (op, t, ts))) (t ∷ ts) (t ∷ ts) (unary_op op e) rest
        (λ f. rw (found, parse_unary) refl)
        (reads_suc _ (λ f us. and_then (parse_unary f us) λ e' rest'. ok (unary_op op e') rest')
          (t ∷ ts) ts (unary_op op e) rest (λ f. refl)
          (reads_bind _ (λ f e' rest'. ok (unary_op op e') rest') ts rest e (unary_op op e) rest r
            (record { fuel = 0; reads = λ f b. refl })))

  pub power_of_reads :
      (t : Token D) (ts us rest : Tokens D) (l r : Expr D)
      → match Token.double_star (t ∷ us) ≡ some (t, us)
      → match_any postfixes (t ∷ us) ≡ none
      → Reads parse_primary ts l (t ∷ us)
      → Reads parse_unary us r rest
      → Reads parse_power ts (binary_op pow l r) rest
  unfolding parse_expression and_then
  power_of_reads t ts us rest l r found n x y =
      reads_suc _
        (λ f vs.
          and_then (parse_postfix f vs)
            (λ left mid. power_step f left (match Token.double_star mid) mid))
        ts ts (binary_op pow l r) rest (λ f. refl)
        (reads_bind _ (λ f left mid. power_step f left (match Token.double_star mid) mid) ts
          (t ∷ us) l (binary_op pow l r) rest (postfix_reads ts l (t ∷ us) x n)
          (reads_suc _
            (λ f vs. and_then (parse_unary f vs) λ r' rest'. ok (binary_op pow l r') rest') (t ∷ us)
            us (binary_op pow l r) rest (λ f. rw (found, power_step) refl)
            (reads_bind _ (λ f r' rest'. ok (binary_op pow l r') rest') us rest r
              (binary_op pow l r) rest y (record { fuel = 0; reads = λ f b. refl }))))
