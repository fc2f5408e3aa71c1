-- ===== src/Analyzer/Undefined.antt =====
-- What `analyze_expr` reports.
use aithon.Prelude.{
  ◌≡◌, refl, ap, sym, ◌∙◌, Bool-cases, List, [], ◌∷◌, ◌++◌, append-nil, append_assoc, Bytes,
  if◌then◌else◌, inl, inr,
}
use aithon.Analyzer.Scopes.{expr-Same}
use aithon.Analyzer.Table.{Analyzer, Scope, Report, undefined_variable, lookup, is_some}
use aithon.Analyzer.Walk.{analyze_expr, analyze_exprs, analyze_pairs, use_as_value}
use aithon.Ast.{
  Expr, Exprs, Pairs, identifier, binary_op, unary_op, call_expr, list_expr, dict_expr, no_exprs,
  and_expr, no_pairs, and_pair,
}

-- The identifiers of an expression from left to right, without those under an index, a member
-- access, an initializer or `Some`.
unfoldable mutual
  pub identifiers : {D : Type 0} → Expr D → List Bytes
  identifiers (identifier name) = name ∷ []
  identifiers (binary_op op left right) = identifiers left ++ identifiers right
  identifiers (unary_op op operand) = identifiers operand
  identifiers (call_expr callee args) = identifiers callee ++ identifiers_all args
  identifiers (list_expr es) = identifiers_all es
  identifiers (dict_expr ps) = identifiers_pairs ps
  identifiers e = []

  pub identifiers_all : {D : Type 0} → Exprs D → List Bytes
  identifiers_all no_exprs = []
  identifiers_all (and_expr e es) = identifiers e ++ identifiers_all es

  pub identifiers_pairs : {D : Type 0} → Pairs D → List Bytes
  identifiers_pairs no_pairs = []
  identifiers_pairs (and_pair key value ps) =
      identifiers key ++ (identifiers value ++ identifiers_pairs ps)

-- The reports on the names that are in no scope.
unfoldable pub undefined : List Scope → List Bytes → List Report
undefined scopes [] = []
undefined scopes (name ∷ names) =
    if is_some (lookup scopes name)
    then undefined scopes names
    else undefined_variable name ∷ undefined scopes names

undefined-append :
    (scopes : List Scope) (xs ys : List Bytes)
    → undefined scopes (xs ++ ys) ≡ undefined scopes xs ++ undefined scopes ys
unfolding undefined
undefined-append scopes [] ys = refl
undefined-append scopes (x ∷ xs) ys = elim (Bool-cases (is_some (lookup scopes x))) [
  | inl e ↦ rw e (undefined-append scopes xs ys)
  | inr e ↦ rw e (ap (λ r. undefined_variable x ∷ r) (undefined-append scopes xs ys))
]

abbrev Reports : Analyzer → Analyzer → List Bytes → Type 0
Reports a b names = b.reports ≡ a.reports ++ undefined a.scopes names

-- One part after another.
Reports-trans :
    (a b c : Analyzer) (xs ys : List Bytes)
    → b.scopes ≡ a.scopes
    → Reports a b xs
    → Reports b c ys
    → Reports a c (xs ++ ys)
Reports-trans a b c xs ys s h k =
    k
    ∙ (ap (λ r. r ++ undefined b.scopes ys) h
        ∙ (ap (λ r. (a.reports ++ undefined a.scopes xs) ++ undefined r ys) s
            ∙ (append_assoc a.reports (undefined a.scopes xs) (undefined a.scopes ys)
                ∙ ap (λ r. a.reports ++ r) (sym (undefined-append a.scopes xs ys)))))

use_as_value-reports :
    {D : Type 0} (a : Analyzer) (e : Expr D) → (use_as_value a e).reports ≡ a.reports
use_as_value-reports a (identifier name) = refl
use_as_value-reports a e = refl

mutual
  unfolding analyze_expr identifiers undefined

  expr-Reports :
      {D : Type 0} (a : Analyzer) (e : Expr D) → Reports a (analyze_expr a e) (identifiers e)
  expr-Reports a (identifier name) = elim (Bool-cases (is_some (lookup a.scopes name))) [
    | inl e ↦ rw e (sym (append-nil a.reports))
    | inr e ↦ rw e refl
  ]
  expr-Reports a (binary_op op left right) =
      Reports-trans a (analyze_expr a left) (analyze_expr (analyze_expr a left) right) _ _
        (expr-Same a left).same_scopes (expr-Reports a left)
        (expr-Reports (analyze_expr a left) right)
  expr-Reports a (unary_op op operand) = expr-Reports a operand
  expr-Reports a (call_expr callee args) =
      use_as_value-reports _ callee
      ∙ Reports-trans a (analyze_expr a callee) (analyze_exprs (analyze_expr a callee) args) _ _
          (expr-Same a callee).same_scopes (expr-Reports a callee)
          (exprs-Reports (analyze_expr a callee) args)
  expr-Reports a (list_expr es) = exprs-Reports a es
  expr-Reports a (dict_expr ps) = pairs-Reports a ps
  expr-Reports a e = sym (append-nil a.reports)

  exprs-Reports :
      {D : Type 0} (a : Analyzer) (es : Exprs D)
      → Reports a (analyze_exprs a es) (identifiers_all es)
  exprs-Reports a no_exprs = sym (append-nil a.reports)
  exprs-Reports a (and_expr e es) =
      Reports-trans a (analyze_expr a e) (analyze_exprs (analyze_expr a e) es) _ _
        (expr-Same a e).same_scopes (expr-Reports a e) (exprs-Reports (analyze_expr a e) es)

  pairs-Reports :
      {D : Type 0} (a : Analyzer) (ps : Pairs D)
      → Reports a (analyze_pairs a ps) (identifiers_pairs ps)
  pairs-Reports a no_pairs = sym (append-nil a.reports)
  pairs-Reports a (and_pair key value ps) =
      let b = analyze_expr a key in
      let c = analyze_expr b value in
      let d = analyze_pairs c ps in
      Reports-trans a b d _ _ (expr-Same a key).same_scopes (expr-Reports a key) (
        Reports-trans b c d _ _ (expr-Same b value).same_scopes (expr-Reports b value)
          (pairs-Reports c ps))

-- Analysing an expression reports each of these identifiers that is in no scope, from left to
-- right and as often as it occurs, and nothing else.
pub analyze_expr-undefined :
    {D : Type 0} (a : Analyzer) (e : Expr D)
    → (analyze_expr a e).reports ≡ a.reports ++ undefined a.scopes (identifiers e)
analyze_expr-undefined a e = expr-Reports a e
