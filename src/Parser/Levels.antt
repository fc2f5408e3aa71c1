-- ===== src/Parser/Levels.antt =====
-- How the levels of expressions in src/parser/parser.cpp pass on what they read.
use aithon.Prelude.{ℕ, suc, ◌≡◌, refl, none}
use aithon.Ast.{Expr}
use aithon.Parser.{Tokens, Parse, and_then, match, match_any}
use aithon.Parser.Expr.{
  parse_expression, parse_level, parse_operand, level_loop, parse_unary, unary_step, parse_power,
  power_step, parse_postfix, postfix_loop, parse_primary,
}
use aithon.Parser.Grammar.{
  Level, logical_or, logical_and, equality, comparison, term, factor, unary_operators, postfixes,
}
use aithon.Token as Token
use aithon.Token.{Token}
use aithon.Parser.Reads.{
  Reads, reads_suc, reads_bind, No, NoFactor, NoTerm, NoComparison, NoEquality, NoAnd, Stops, Below,
  loop_stops, postfix_stops, power_stops,
}

module _ {D : Type 0} where
  module _ (ts : Tokens D) (e : Expr D) (rest : Tokens D) where
    pub level_reads :
        (level : Level)
        → Reads (λ f. parse_operand f level) ts e rest
        → No level rest
        → Reads (λ f. parse_level f level) ts e rest
    unfolding parse_expression
    level_reads level r n =
        reads_suc _ (λ f us. and_then (parse_operand f level us) (λ left. level_loop f level left))
          ts ts e rest (λ f. refl)
          (reads_bind _ (λ f left. level_loop f level left) ts rest e e rest r
            (loop_stops rest e level n))

    pub power_reads :
        Reads parse_postfix ts e rest
        → match Token.double_star rest ≡ none
        → Reads parse_power ts e rest
    unfolding parse_expression
    power_reads r n =
        reads_suc _
          (λ f us.
            and_then (parse_postfix f us)
              (λ left mid. power_step f left (match Token.double_star mid) mid))
          ts ts e rest (λ f. refl)
          (reads_bind _ (λ f left mid. power_step f left (match Token.double_star mid) mid) ts rest
            e e rest r (power_stops rest e n))

    pub unary_reads :
        Reads parse_power ts e rest
        → match_any unary_operators ts ≡ none
        → Reads parse_unary ts e rest
    unfolding parse_expression
    unary_reads r n =
        reads_suc _ (λ f us. unary_step f (match_any unary_operators us) us) ts ts e rest
          (λ f. refl) (reads_suc _ parse_power ts ts e rest (λ f. rw (n, unary_step) refl) r)

    pub postfix_reads :
        Reads parse_primary ts e rest
        → match_any postfixes rest ≡ none
        → Reads parse_postfix ts e rest
    unfolding parse_expression
    postfix_reads r n =
        reads_suc _ (λ f us. and_then (parse_primary f us) (λ left. postfix_loop f left)) ts ts e
          rest (λ f. refl)
          (reads_bind _ (λ f left. postfix_loop f left) ts rest e e rest r (postfix_stops rest e n))

    abbrev pub Operand : Level → Type 0
    Operand level = Reads (λ f. parse_operand f level) ts e rest

    factor-Operand : Reads parse_unary ts e rest → Operand factor
    unfolding parse_expression
    factor-Operand r = reads_suc _ parse_unary ts ts e rest (λ f. refl) r

    term-Operand : Reads parse_unary ts e rest → NoFactor rest → Operand term
    unfolding parse_expression
    term-Operand r n =
        reads_suc _ (λ f. parse_level f factor) ts ts e rest (λ f. refl)
          (level_reads factor (factor-Operand r) n.0)

    comparison-Operand : Reads parse_unary ts e rest → NoTerm rest → Operand comparison
    unfolding parse_expression
    comparison-Operand r n =
        reads_suc _ (λ f. parse_level f term) ts ts e rest (λ f. refl)
          (level_reads term (term-Operand r n.1) n.0)

    equality-Operand : Reads parse_unary ts e rest → NoComparison rest → Operand equality
    unfolding parse_expression
    equality-Operand r n =
        reads_suc _ (λ f. parse_level f comparison) ts ts e rest (λ f. refl)
          (level_reads comparison (comparison-Operand r n.1) n.0)

    and_Operand : Reads parse_unary ts e rest → NoEquality rest → Operand logical_and
    unfolding parse_expression
    and_Operand r n =
        reads_suc _ (λ f. parse_level f equality) ts ts e rest (λ f. refl)
          (level_reads equality (equality-Operand r n.1) n.0)

    or_Operand : Reads parse_unary ts e rest → NoAnd rest → Operand logical_or
    unfolding parse_expression
    or_Operand r n =
        reads_suc _ (λ f. parse_level f logical_and) ts ts e rest (λ f. refl)
          (level_reads logical_and (and_Operand r n.1) n.0)

    -- What parse_unary reads is an operand of a level, when no tighter operator comes next.
    pub Operand-reads :
        (level : Level) → Reads parse_unary ts e rest → Below level rest → Operand level
    Operand-reads factor r n = factor-Operand r
    Operand-reads term r n = term-Operand r n
    Operand-reads comparison r n = comparison-Operand r n
    Operand-reads equality r n = equality-Operand r n
    Operand-reads logical_and r n = and_Operand r n
    Operand-reads logical_or r n = or_Operand r n

    above_or : Reads (λ f. parse_level f logical_or) ts e rest → Reads parse_expression ts e rest
    unfolding parse_expression
    above_or r = reads_suc _ (λ f. parse_level f logical_or) ts ts e rest (λ f. refl) r

    raise :
        (level : Level) (p : ℕ → Parse D (Expr D))
        → ((f : ℕ) → parse_operand (suc f) level ts ≡ p f ts)
        → Reads p ts e rest
        → No level rest
        → Reads (λ f. parse_level f level) ts e rest
    raise level p step r n = level_reads level (reads_suc _ p ts ts e rest step r) n

    above_and :
        Reads (λ f. parse_level f logical_and) ts e rest
        → Stops rest
        → Reads parse_expression ts e rest
    unfolding parse_expression
    above_and r n = above_or (raise logical_or (λ f. parse_level f logical_and) (λ f. refl) r n.0)

    above_equality :
        Reads (λ f. parse_level f equality) ts e rest
        → Stops rest
        → Reads parse_expression ts e rest
    unfolding parse_expression
    above_equality r n =
        above_and (raise logical_and (λ f. parse_level f equality) (λ f. refl) r n.1.0) n

    above_comparison :
        Reads (λ f. parse_level f comparison) ts e rest
        → Stops rest
        → Reads parse_expression ts e rest
    unfolding parse_expression
    above_comparison r n =
        above_equality (raise equality (λ f. parse_level f comparison) (λ f. refl) r n.1.1.0) n

    above_term :
        Reads (λ f. parse_level f term) ts e rest → Stops rest → Reads parse_expression ts e rest
    unfolding parse_expression
    above_term r n =
        above_comparison (raise comparison (λ f. parse_level f term) (λ f. refl) r n.1.1.1.0) n

    above_factor :
        Reads (λ f. parse_level f factor) ts e rest → Stops rest → Reads parse_expression ts e rest
    unfolding parse_expression
    above_factor r n =
        above_term (raise term (λ f. parse_level f factor) (λ f. refl) r n.1.1.1.1.0) n

    -- What a level reads is an expression, when no operator comes next.
    pub expression_reads :
        (level : Level)
        → Reads (λ f. parse_level f level) ts e rest
        → Stops rest
        → Reads parse_expression ts e rest
    expression_reads logical_or r n = above_or r
    expression_reads logical_and r n = above_and r n
    expression_reads equality r n = above_equality r n
    expression_reads comparison r n = above_comparison r n
    expression_reads term r n = above_term r n
    expression_reads factor r n = above_factor r n

    pub unary-expression_reads :
        Reads parse_unary ts e rest → Stops rest → Reads parse_expression ts e rest
    unary-expression_reads r n = above_or (level_reads logical_or (or_Operand r n.1) n.0)
