-- ===== src/Parser/Atoms.antt =====
-- How src/parser/parser.cpp reads an infix operation that is printed, as one operand.
use aithon.Prelude.{ℕ, zero, suc, ◌≤◌, ◌≡◌, refl, some, ◌∷◌, arith}
use aithon.Ast.{
  BinaryOp, add, sub, mul, div, mod_op, floor_div, pow, equal, not_equal, less, less_equal, greater,
  greater_equal, and, or, Expr, binary_op,
}
use aithon.Parser.{Tokens, ok, match_any, consume}
use aithon.Parser.Expr.{parse_expression, parse_primary}
use aithon.Parser.Grammar.{
  Level, logical_or, logical_and, equality, comparison, term, factor, operators,
}
use aithon.Parser.Operations.{atom_unary, atom_expression, infix_reads, group_reads, power_of_reads}
use aithon.Parser.Print.{type_of_binary, mark, print, Parsable, print-Starts}
use aithon.Parser.Levels.{unary_reads, unary-expression_reads}
use aithon.Parser.Reads.{Reads, Below}
use aithon.Parser.Sequences.{ReadsBack, Stops-rparen}
use aithon.Token as Token
use aithon.Token.{Token, SourceLocation}

module _ {D : Type 0} (at : SourceLocation) where
  -- The expression is read where it is printed, whatever follows.
  abbrev pub Atom : Expr D → Type 0
  Atom e = (ts : Tokens D) → Reads parse_primary (print at e ts) e ts

  pub Atom-ReadsBack : (e : Expr D) → Parsable e → Atom e → ReadsBack at e
  Atom-ReadsBack e p a ts stops =
      atom_expression (print at e ts) e ts ((print-Starts at e ts p).no_unary) (a ts) stops

  pub literal_reads :
      (ts : Tokens D) (e : Expr D) (rest : Tokens D)
      → ((f : ℕ) → parse_primary (suc (suc f)) ts ≡ ok e rest)
      → Reads parse_primary ts e rest
  literal_reads ts e rest h = record { fuel = 2; reads = two }
    where
      two : (f : ℕ) → 2 ≤ f → parse_primary f ts ≡ ok e rest
      two zero b = absurd (omega arith)
      two (suc zero) b = absurd (omega arith)
      two (suc (suc f)) b = h f

  pub in_parens :
      (ts rest : Tokens D) (e : Expr D)
      → Reads parse_expression ts e (mark at Token.rparen ∷ rest)
      → Reads parse_primary (mark at Token.lparen ∷ ts) e rest
  unfolding match_any consume
  in_parens ts rest e r =
      group_reads (mark at Token.lparen) ts rest e (mark at Token.rparen) refl refl r

  module _ (l r : Expr D) (pl : Parsable l) (pr : Parsable r) (al : Atom l) (ar : Atom r)
      (ts : Tokens D) where
    abbrev pub right : Tokens D
    right = print at r (mark at Token.rparen ∷ ts)

    infix-Atom :
        (level : Level) (op : BinaryOp)
        → match_any (operators level) (mark at (type_of_binary op) ∷ right)
          ≡ some (op, mark at (type_of_binary op), right)
        → Below level (mark at (type_of_binary op) ∷ right)
        → Reads parse_primary (print at (binary_op op l r) ts) (binary_op op l r) ts
    unfolding print
    infix-Atom level op found below =
        let t = mark at (type_of_binary op) in
        in_parens (print at l (t ∷ right)) ts (binary_op op l r) (
          infix_reads level op t (print at l (t ∷ right)) right (mark at Token.rparen ∷ ts) l r
            found below ((print-Starts at l (t ∷ right) pl).no_unary)
            ((print-Starts at r (mark at Token.rparen ∷ ts) pr).no_unary) (Stops-rparen at ts)
            (al (t ∷ right)) (ar (mark at Token.rparen ∷ ts)))

    power-Atom : Reads parse_primary (print at (binary_op pow l r) ts) (binary_op pow l r) ts
    unfolding print match_any
    power-Atom =
        let t = mark at Token.double_star in
        let left = print at l (t ∷ right) in
        in_parens left ts (binary_op pow l r) (
          unary-expression_reads left (binary_op pow l r) (mark at Token.rparen ∷ ts)
            (unary_reads left (binary_op pow l r) (mark at Token.rparen ∷ ts)
              (power_of_reads t left right (mark at Token.rparen ∷ ts) l r refl refl
                (al (t ∷ right))
                (atom_unary right r (mark at Token.rparen ∷ ts)
                  ((print-Starts at r (mark at Token.rparen ∷ ts) pr).no_unary)
                  (ar (mark at Token.rparen ∷ ts)) (refl, refl)))
              ((print-Starts at l (t ∷ right) pl).no_unary))
            (Stops-rparen at ts))

    pub binary-Atom :
        (op : BinaryOp) → Reads parse_primary (print at (binary_op op l r) ts) (binary_op op l r) ts
    unfolding match_any
    binary-Atom add = infix-Atom term add refl (refl, (refl, refl))
    binary-Atom sub = infix-Atom term sub refl (refl, (refl, refl))
    binary-Atom mul = infix-Atom factor mul refl (refl, refl)
    binary-Atom div = infix-Atom factor div refl (refl, refl)
    binary-Atom mod_op = infix-Atom factor mod_op refl (refl, refl)
    binary-Atom floor_div = infix-Atom factor floor_div refl (refl, refl)
    binary-Atom pow = power-Atom
    binary-Atom equal = infix-Atom equality equal refl (refl, (refl, (refl, (refl, refl))))
    binary-Atom not_equal = infix-Atom equality not_equal refl (refl, (refl, (refl, (refl, refl))))
    binary-Atom less = infix-Atom comparison less refl (refl, (refl, (refl, refl)))
    binary-Atom less_equal = infix-Atom comparison less_equal refl (refl, (refl, (refl, refl)))
    binary-Atom greater = infix-Atom comparison greater refl (refl, (refl, (refl, refl)))
    binary-Atom greater_equal =
        infix-Atom comparison greater_equal refl (refl, (refl, (refl, refl)))
    binary-Atom and = infix-Atom logical_and and refl (refl, (refl, (refl, (refl, (refl, refl)))))
    binary-Atom or =
        infix-Atom logical_or or refl (refl, (refl, (refl, (refl, (refl, (refl, refl))))))
