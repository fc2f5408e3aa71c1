-- ===== src/Parser/Reads.antt =====
-- What it is for a function of src/parser/parser.cpp to read a value off the tokens, and how the levels
-- of expressions pass it on.
use aithon.Prelude.{ℕ, zero, suc, ◌+◌, ◌≤◌, ◌≡◌, refl, ◌∙◌, none, arith}
use aithon.Ast.{Expr}
use aithon.Parser.{Tokens, ok, Parse, and_then, match, match_any}
use aithon.Parser.Expr.{parse_expression, level_loop, power_step, postfix_loop}
use aithon.Parser.Grammar.{
  Level, logical_or, logical_and, equality, comparison, term, factor, operators, postfixes,
}
use aithon.Token as Token
use aithon.Token.{Token}

-- With enough fuel the value is read, and these tokens are left.
pub record Reads {D A : Type 0} (p : ℕ → Parse D A) (ts : Tokens D) (a : A) (rest : Tokens D)
    : Type 0 where
  pub fuel : ℕ
  pub reads : (f : ℕ) → fuel ≤ f → p f ts ≡ ok a rest

module _ {D : Type 0} where
  pub reads_suc :
      {A : Type 0} (p q : ℕ → Parse D A) (ts us : Tokens D) (a : A) (rest : Tokens D)
      → ((f : ℕ) → p (suc f) ts ≡ q f us)
      → Reads q us a rest
      → Reads p ts a rest
  reads_suc p q ts us a rest e r = record { fuel = suc r.fuel; reads = fueled }
    where
      fueled : (f : ℕ) → suc r.fuel ≤ f → p f ts ≡ ok a rest
      fueled zero b = absurd (omega arith)
      fueled (suc f) b = e f ∙ r.reads f (omega arith)

  pub reads_same :
      {A : Type 0} (p q : ℕ → Parse D A) (ts us : Tokens D) (a : A) (rest : Tokens D)
      → ((f : ℕ) → p f ts ≡ q f us)
      → Reads q us a rest
      → Reads p ts a rest
  reads_same p q ts us a rest e r = record { fuel = r.fuel; reads = λ f b. e f ∙ r.reads f b }

  pub reads_bind :
      {A B : Type 0} (p : ℕ → Parse D A) (k : ℕ → A → Parse D B) (ts mid : Tokens D) (a : A) (b : B)
      (rest : Tokens D)
      → Reads p ts a mid
      → Reads (λ f. k f a) mid b rest
      → Reads (λ f us. and_then (p f us) (k f)) ts b rest
  unfolding and_then
  reads_bind p k ts mid a b rest r s = record {
    fuel = r.fuel + s.fuel;
    reads = λ f le. rw (r.reads f (omega arith)) (s.reads f (omega arith));
  }

  abbrev pub NoPostfix : Tokens D → Type 0
  NoPostfix ts = (match_any postfixes ts ≡ none) × (match Token.double_star ts ≡ none)

  -- No operator of the level or of a tighter one comes next.
  abbrev pub No : Level → Tokens D → Type 0
  No level ts = match_any (operators level) ts ≡ none

  abbrev pub NoFactor : Tokens D → Type 0
  NoFactor ts = No factor ts × NoPostfix ts

  abbrev pub NoTerm : Tokens D → Type 0
  NoTerm ts = No term ts × NoFactor ts

  abbrev pub NoComparison : Tokens D → Type 0
  NoComparison ts = No comparison ts × NoTerm ts

  abbrev pub NoEquality : Tokens D → Type 0
  NoEquality ts = No equality ts × NoComparison ts

  abbrev pub NoAnd : Tokens D → Type 0
  NoAnd ts = No logical_and ts × NoEquality ts

  -- No operator comes next.
  abbrev pub Stops : Tokens D → Type 0
  Stops ts = No logical_or ts × NoAnd ts

  -- No operator tighter than those of the level comes next.
  abbrev pub Below : Level → Tokens D → Type 0
  Below factor = NoPostfix
  Below term = NoFactor
  Below comparison = NoTerm
  Below equality = NoComparison
  Below logical_and = NoEquality
  Below logical_or = NoAnd

  module _ (ts : Tokens D) (e : Expr D) where
    pub loop_stops : (level : Level) → No level ts → Reads (λ f. level_loop f level e) ts e ts
    unfolding parse_expression
    loop_stops level n = record { fuel = 2; reads = two }
      where
        two : (f : ℕ) → 2 ≤ f → level_loop f level e ts ≡ ok e ts
        two zero b = absurd (omega arith)
        two (suc zero) b = absurd (omega arith)
        two (suc (suc f)) b = rw (n, level_loop) refl

    pub postfix_stops : match_any postfixes ts ≡ none → Reads (λ f. postfix_loop f e) ts e ts
    unfolding parse_expression
    postfix_stops n = record { fuel = 2; reads = two }
      where
        two : (f : ℕ) → 2 ≤ f → postfix_loop f e ts ≡ ok e ts
        two zero b = absurd (omega arith)
        two (suc zero) b = absurd (omega arith)
        two (suc (suc f)) b = rw (n, postfix_loop) refl

    pub power_stops :
        match Token.double_star ts ≡ none
        → Reads (λ f mid. power_step f e (match Token.double_star mid) mid) ts e ts
    unfolding parse_expression
    power_stops n = record { fuel = 1; reads = one }
      where
        one : (f : ℕ) → 1 ≤ f → power_step f e (match Token.double_star ts) ts ≡ ok e ts
        one zero b = absurd (omega arith)
        one (suc f) b = rw (n, power_step) refl
