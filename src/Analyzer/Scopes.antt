-- ===== src/Analyzer/Scopes.antt =====
-- What analysing a tree leaves of the scopes and of the analyser's two flags.
use aithon.Prelude.{
  ◌≡◌, refl, ap, ◌∙◌, Bool, true, false, Bool-cases, Option, none, some, List, [], ◌∷◌, ◌++◌, Bytes,
  if◌then◌else◌, inl, inr,
}
use aithon.Analyzer.Names.{
  shape, Grown, Grown-trans, pop_scope-shape, declare-Grown, declare_all-Grown, initialize-shape,
}
use aithon.Analyzer.Table.{
  Analyzer, Symbol, DataType, unknown, function, lookup, is_some, declare, declared, new_symbol,
  enter, leave, push_scope, report, already_declared,
}
use aithon.Analyzer.Walk.{
  analyze_expr, analyze_exprs, analyze_pairs, use_as_value, analyze_stmt, analyze_stmts,
  analyze_else, analyze_value, assign, differ, enter_function, leave_function, enter_loop,
  leave_loop, check_function_has_return,
}
use aithon.Ast.{
  Expr, Exprs, Pairs, identifier, binary_op, unary_op, call_expr, list_expr, dict_expr, no_exprs,
  and_expr, no_pairs, and_pair, Stmt, Stmts, ElseBlock, expr_stmt, assignment, block, if_stmt,
  while_stmt, for_stmt, return_stmt, break_stmt, continue_stmt, function_decl, class_decl, no_stmts,
  and_stmt, no_else, else_block,
}

-- Scopes and flags are the same.
pub record Same (a b : Analyzer) : Type 0 where
  pub same_scopes : b.scopes ≡ a.scopes
  pub same_function : b.in_function ≡ a.in_function
  pub same_loop : b.in_loop ≡ a.in_loop

pub same : (a : Analyzer) → Same a a
same a = record { same_scopes = refl; same_function = refl; same_loop = refl }

Same-trans : (a b c : Analyzer) → Same a b → Same b c → Same a c
Same-trans a b c s t = record {
  same_scopes = t.same_scopes ∙ s.same_scopes;
  same_function = t.same_function ∙ s.same_function;
  same_loop = t.same_loop ∙ s.same_loop;
}

use_as_value-Same : {D : Type 0} (a : Analyzer) (e : Expr D) → Same a (use_as_value a e)
use_as_value-Same a (identifier name) = record {
  same_scopes = refl;
  same_function = refl;
  same_loop = refl;
}
use_as_value-Same a e = same a

mutual
  unfolding analyze_expr

  pub expr-Same : {D : Type 0} (a : Analyzer) (e : Expr D) → Same a (analyze_expr a e)
  expr-Same a (identifier name) = elim (Bool-cases (is_some (lookup a.scopes name))) [
    | inl e ↦ rw e (same a)
    | inr e ↦ rw e (record { same_scopes = refl; same_function = refl; same_loop = refl })
  ]
  expr-Same a (binary_op op left right) =
      Same-trans a _ _ (expr-Same a left) (expr-Same (analyze_expr a left) right)
  expr-Same a (unary_op op operand) = expr-Same a operand
  expr-Same a (call_expr callee args) =
      Same-trans a _ _
        (Same-trans a _ _ (expr-Same a callee) (exprs-Same (analyze_expr a callee) args))
        (use_as_value-Same _ callee)
  expr-Same a (list_expr es) = exprs-Same a es
  expr-Same a (dict_expr ps) = pairs-Same a ps
  expr-Same a e = same a

  exprs-Same : {D : Type 0} (a : Analyzer) (es : Exprs D) → Same a (analyze_exprs a es)
  exprs-Same a no_exprs = same a
  exprs-Same a (and_expr e es) = Same-trans a _ _ (expr-Same a e) (exprs-Same (analyze_expr a e) es)

  pairs-Same : {D : Type 0} (a : Analyzer) (ps : Pairs D) → Same a (analyze_pairs a ps)
  pairs-Same a no_pairs = same a
  pairs-Same a (and_pair key value ps) =
      Same-trans a _ _ (Same-trans a _ _ (expr-Same a key) (expr-Same (analyze_expr a key) value))
        (pairs-Same (analyze_expr (analyze_expr a key) value) ps)

-- The flags are the same, and of the scopes only the innermost has got names more.
pub record Kept (inner : List Bytes) (outer : List (List Bytes)) (a b : Analyzer) : Type 0 where
  pub grown : Grown inner outer b.scopes
  pub kept_function : b.in_function ≡ a.in_function
  pub kept_loop : b.in_loop ≡ a.in_loop

Kept-trans :
    (inner : List Bytes) (outer : List (List Bytes)) (a b c : Analyzer) (k : Kept inner outer a b)
    → Kept (k.grown.0 ++ inner) outer b c
    → Kept inner outer a c
Kept-trans inner outer a b c k l = record {
  grown = Grown-trans inner outer b.scopes c.scopes k.grown l.grown;
  kept_function = l.kept_function ∙ k.kept_function;
  kept_loop = l.kept_loop ∙ k.kept_loop;
}

Same-Kept :
    (inner : List Bytes) (outer : List (List Bytes)) (a b : Analyzer)
    → shape a.scopes ≡ inner ∷ outer
    → Same a b
    → Kept inner outer a b
Same-Kept inner outer a b e s = record {
  grown = ([], ap shape s.same_scopes ∙ e);
  kept_function = s.same_function;
  kept_loop = s.same_loop;
}

-- The scope that was entered is gone again, with whatever was declared in it.
leave-Kept :
    (inner locals : List Bytes) (outer : List (List Bytes)) (a b : Analyzer)
    → Kept locals (inner ∷ outer) (enter a) b
    → Kept inner outer a (leave b)
leave-Kept inner locals outer a b k = record {
  grown = ([], pop_scope-shape _ inner outer b.scopes k.grown.1);
  kept_function = k.kept_function;
  kept_loop = k.kept_loop;
}

block-Kept :
    (inner : List Bytes) (outer : List (List Bytes)) (a b : Analyzer)
    → shape a.scopes ≡ inner ∷ outer
    → (shape (push_scope a.scopes) ≡ [] ∷ inner ∷ outer → Kept [] (inner ∷ outer) (enter a) b)
    → Kept inner outer a (leave b)
block-Kept inner outer a b h k = leave-Kept inner [] outer a b (k (ap (λ r. [] ∷ r) h))

leave_loop-Kept :
    (inner : List Bytes) (outer : List (List Bytes)) (a b : Analyzer)
    → Kept inner outer (enter_loop a) b
    → Kept inner outer a (leave_loop a.in_loop b)
leave_loop-Kept inner outer a b k = record {
  grown = k.grown;
  kept_function = k.kept_function;
  kept_loop = refl;
}

declared-Kept :
    (inner : List Bytes) (outer : List (List Bytes)) (a : Analyzer) (symbol : Symbol)
    → shape a.scopes ≡ inner ∷ outer
    → Kept inner outer a (declared a symbol)
declared-Kept inner outer a symbol e = record {
  grown = declare-Grown inner outer a.scopes symbol e;
  kept_function = refl;
  kept_loop = refl;
}

assign-Kept :
    (inner : List Bytes) (outer : List (List Bytes)) (a : Analyzer) (name : Bytes) (type : DataType)
    (o : Option Symbol)
    → shape a.scopes ≡ inner ∷ outer
    → Kept inner outer a (assign a name type o)
assign-Kept inner outer a name type none e = declared-Kept inner outer a _ e
assign-Kept inner outer a name type (some existing) e =
    elim (Bool-cases (differ existing.type type)) [
      | inl d ↦ rw (d, assign) (record { grown = ([], e); kept_function = refl; kept_loop = refl })
      | inr d ↦
          rw (d, assign)
            (record {
              grown = ([], initialize-shape name a.scopes ∙ e);
              kept_function = refl;
              kept_loop = refl;
            })
    ]

leave_function-Kept :
    (inner locals : List Bytes) (outer : List (List Bytes)) (a b : Analyzer) (name : Bytes)
    (params : List Bytes) (has_return : Bool)
    → (g : Grown inner outer (declare a.scopes (new_symbol name function true)).0)
    → Kept locals ((g.0 ++ inner) ∷ outer) (enter_function a name params) b
    → Kept inner outer a (leave_function b name has_return a.in_function)
leave_function-Kept inner locals outer a b name params has_return g k = record {
  grown = (g.0, pop_scope-shape _ (g.0 ++ inner) outer b.scopes k.grown.1);
  kept_function = refl;
  kept_loop = k.kept_loop;
}

report_if-Kept :
    (inner : List Bytes) (outer : List (List Bytes)) (a b c : Analyzer) (test : Bool)
    → Kept inner outer a b
    → Kept inner outer a c
    → Kept inner outer a (if test then b else c)
report_if-Kept inner outer a b c true k l = k
report_if-Kept inner outer a b c false k l = l

pub value-Same : {D : Type 0} (a : Analyzer) (e : Option (Expr D)) → Same a (analyze_value a e)
value-Same a none = same a
value-Same a (some e) = expr-Same a e

mutual
  unfolding analyze_stmt

  stmt-Kept :
      {D : Type 0} (inner : List Bytes) (outer : List (List Bytes)) (a : Analyzer) (s : Stmt D)
      → shape a.scopes ≡ inner ∷ outer
      → Kept inner outer a (analyze_stmt a s)
  stmt-Kept inner outer a (expr_stmt e) h = Same-Kept inner outer a _ h (expr-Same a e)
  stmt-Kept inner outer a (assignment name e) h =
      let k = Same-Kept inner outer a _ h (expr-Same a e) in
      Kept-trans inner outer a _ _ k
        (assign-Kept (k.grown.0 ++ inner) outer (analyze_expr a e) name _ _ k.grown.1)
  stmt-Kept inner outer a (block ss) h =
      block-Kept inner outer a _ h (stmts-Kept [] (inner ∷ outer) _ ss)
  stmt-Kept inner outer a (if_stmt c then_block else_part) h =
      let k = Same-Kept inner outer a _ h (expr-Same a c) in
      let l =
        block-Kept (k.grown.0 ++ inner) outer (analyze_expr a c) _ k.grown.1
          (stmts-Kept [] ((k.grown.0 ++ inner) ∷ outer) _ then_block) in
      let m = Kept-trans inner outer a _ _ k l in
      Kept-trans inner outer a _ _ m (else-Kept (m.grown.0 ++ inner) outer _ else_part m.grown.1)
  stmt-Kept inner outer a (while_stmt c body) h =
      let k = Same-Kept inner outer (enter_loop a) _ h (expr-Same (enter_loop a) c) in
      leave_loop-Kept inner outer a _ (
        Kept-trans inner outer (enter_loop a) _ _ k (
          block-Kept (k.grown.0 ++ inner) outer (analyze_expr (enter_loop a) c) _ k.grown.1
            (stmts-Kept [] ((k.grown.0 ++ inner) ∷ outer) _ body)))
  stmt-Kept inner outer a (for_stmt x e body) h =
      let d =
        declared-Kept [] (inner ∷ outer) (enter (enter_loop a)) (new_symbol x unknown false)
          (ap (λ r. [] ∷ r) h) in
      let k = Kept-trans [] (inner ∷ outer) _ _ _ d (Same-Kept _ _ _ _ d.grown.1 (expr-Same _ e)) in
      leave_loop-Kept inner outer a _ (
        leave-Kept inner [] outer (enter_loop a) _ (
          Kept-trans [] (inner ∷ outer) _ _ _ k (
            block-Kept (k.grown.0 ++ []) (inner ∷ outer) _ _ k.grown.1
              (stmts-Kept [] ((k.grown.0 ++ []) ∷ (inner ∷ outer)) _ body))))
  stmt-Kept inner outer a (return_stmt e) h =
      report_if-Kept inner outer a _ _ a.in_function (Same-Kept inner outer a _ h (value-Same a e))
        (record { grown = ([], h); kept_function = refl; kept_loop = refl })
  stmt-Kept inner outer a break_stmt h =
      report_if-Kept inner outer a _ _ a.in_loop (Same-Kept inner outer a a h (same a))
        (record { grown = ([], h); kept_function = refl; kept_loop = refl })
  stmt-Kept inner outer a continue_stmt h =
      report_if-Kept inner outer a _ _ a.in_loop (Same-Kept inner outer a a h (same a))
        (record { grown = ([], h); kept_function = refl; kept_loop = refl })
  stmt-Kept inner outer a (function_decl name params body is_async) h =
      let g = declare-Grown inner outer a.scopes (new_symbol name function true) h in
      let p =
        declare_all-Grown [] ((g.0 ++ inner) ∷ outer) params unknown false
          ([] ∷ (declare a.scopes (new_symbol name function true)).0) (ap (λ r. [] ∷ r) g.1) in
      report_if-Kept inner outer a _ (report a (already_declared name))
        (declare a.scopes (new_symbol name function true)).1
        (leave_function-Kept inner _ outer a _ name params (check_function_has_return body) g (
          block-Kept (p.0 ++ []) ((g.0 ++ inner) ∷ outer) (enter_function a name params) _ p.1
            (stmts-Kept [] ((p.0 ++ []) ∷ ((g.0 ++ inner) ∷ outer)) _ body)))
        (record { grown = ([], h); kept_function = refl; kept_loop = refl })
  stmt-Kept inner outer a (class_decl name fields methods) h =
      let d = declared-Kept inner outer a (new_symbol name unknown false) h in
      Kept-trans inner outer a _ _ d (
        block-Kept (d.grown.0 ++ inner) outer _ _ d.grown.1
          (stmts-Kept [] ((d.grown.0 ++ inner) ∷ outer) _ methods))
  stmt-Kept inner outer a s h = Same-Kept inner outer a a h (same a)

  stmts-Kept :
      {D : Type 0} (inner : List Bytes) (outer : List (List Bytes)) (a : Analyzer) (ss : Stmts D)
      → shape a.scopes ≡ inner ∷ outer
      → Kept inner outer a (analyze_stmts a ss)
  stmts-Kept inner outer a no_stmts h = Same-Kept inner outer a a h (same a)
  stmts-Kept inner outer a (and_stmt s ss) h =
      let k = stmt-Kept inner outer a s h in
      Kept-trans inner outer a _ _ k
        (stmts-Kept (k.grown.0 ++ inner) outer (analyze_stmt a s) ss k.grown.1)

  else-Kept :
      {D : Type 0} (inner : List Bytes) (outer : List (List Bytes)) (a : Analyzer) (e : ElseBlock D)
      → shape a.scopes ≡ inner ∷ outer
      → Kept inner outer a (analyze_else a e)
  else-Kept inner outer a no_else h = Same-Kept inner outer a a h (same a)
  else-Kept inner outer a (else_block ss) h =
      block-Kept inner outer a _ h (stmts-Kept [] (inner ∷ outer) _ ss)

-- Whatever a statement is, and whatever is wrong with it, analysing it leaves as many scopes as
-- before, with the same names in all but the innermost, where names may have come in front; and the
-- flags that say whether `return`, `break` and `continue` are allowed are as before.
pub analyze_stmt-Kept :
    {D : Type 0} (inner : List Bytes) (outer : List (List Bytes)) (a : Analyzer) (s : Stmt D)
    → shape a.scopes ≡ inner ∷ outer
    → Kept inner outer a (analyze_stmt a s)
analyze_stmt-Kept inner outer a s h = stmt-Kept inner outer a s h
