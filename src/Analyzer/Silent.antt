-- ===== src/Analyzer/Silent.antt =====
-- The lines of the symbols, and the last check of `analyze`.
use aithon.Prelude.{
  ◌≡◌, refl, sym, ◌∙◌, subst, Bool, true, false, ◌&&◌, not, Bool-cases, Option, none, some, List,
  [], ◌∷◌, ◌++◌, All, append-nil, append_assoc, Bytes, bytes_eq, if◌then◌else◌, inl, inr,
}
use aithon.Analyzer.Scopes.{Same, expr-Same, value-Same}
use aithon.Analyzer.Table.{
  Analyzer, Symbol, Scope, Report, DataType, unknown, function, lookup, find, or_else, is_some,
  insert_new, declare, declared, new_symbol, enter, pop_scope, initialize, initialize_in, report,
  declare_all, already_declared, does_not_return, init, builtins,
}
use aithon.Analyzer.Walk.{
  analyze_expr, analyze_stmt, analyze_stmts, analyze_else, assign, differ, enter_function,
  enter_loop, check_used, at_line_zero, never_returns, returns_value, analyze,
}
use aithon.Ast.{
  Stmt, Stmts, ElseBlock, expr_stmt, assignment, block, if_stmt, while_stmt, for_stmt, return_stmt,
  break_stmt, continue_stmt, function_decl, class_decl, no_stmts, and_stmt, no_else, else_block,
}

-- All symbols stand at line 0.
abbrev pub AllZero : List Scope → Type 0
AllZero scopes = All (λ scope. All (λ (s : Symbol). s.declaration_line ≡ 0) scope) scopes

insert_new-zero :
    (symbol : Symbol) (scope : Scope) (o : Option Symbol)
    → symbol.declaration_line ≡ 0
    → All (λ (s : Symbol). s.declaration_line ≡ 0) scope
    → All (λ (s : Symbol). s.declaration_line ≡ 0) (insert_new symbol scope o).0
insert_new-zero symbol scope none z h = (z, h)
insert_new-zero symbol scope (some s) z h = h

declare-AllZero :
    (scopes : List Scope) (symbol : Symbol)
    → symbol.declaration_line ≡ 0
    → AllZero scopes
    → AllZero (declare scopes symbol).0
unfolding declare
declare-AllZero [] symbol z h = h
declare-AllZero (scope ∷ scopes) symbol z h =
    (insert_new-zero symbol scope (find symbol.name scope) z h.0, h.1)

declare_all-AllZero :
    (names : List Bytes) (type : DataType) (is_function : Bool) (scopes : List Scope)
    → AllZero scopes
    → AllZero (declare_all names type is_function scopes)
unfolding declare_all
declare_all-AllZero [] type is_function scopes h = h
declare_all-AllZero (name ∷ names) type is_function scopes h =
    declare_all-AllZero names type is_function _
      (declare-AllZero scopes (new_symbol name type is_function) refl h)

initialize_in-zero :
    (name : Bytes) (scope : Scope)
    → All (λ (s : Symbol). s.declaration_line ≡ 0) scope
    → All (λ (s : Symbol). s.declaration_line ≡ 0) (initialize_in name scope)
unfolding initialize_in
initialize_in-zero name [] h = h
initialize_in-zero name (s ∷ scope) h = elim (Bool-cases (bytes_eq s.name name)) [
  | inl e ↦ rw e h
  | inr e ↦ rw e (h.0, initialize_in-zero name scope h.1)
]

initialize-AllZero :
    (name : Bytes) (scopes : List Scope) → AllZero scopes → AllZero (initialize name scopes)
unfolding initialize
initialize-AllZero name [] h = h
initialize-AllZero name (scope ∷ scopes) h = elim (Bool-cases (is_some (find name scope))) [
  | inl e ↦ rw e (initialize_in-zero name scope h.0, h.1)
  | inr e ↦ rw e (h.0, initialize-AllZero name scopes h.1)
]

pop_scope-AllZero : (scopes : List Scope) → AllZero scopes → AllZero (pop_scope scopes)
pop_scope-AllZero [] h = h
pop_scope-AllZero (s ∷ []) h = h
pop_scope-AllZero (s ∷ t ∷ scopes) h = h.1

assign-AllZero :
    (a : Analyzer) (name : Bytes) (type : DataType) (o : Option Symbol)
    → AllZero a.scopes
    → AllZero (assign a name type o).scopes
assign-AllZero a name type none h = declare-AllZero a.scopes (new_symbol name type false) refl h
assign-AllZero a name type (some s) h = elim (Bool-cases (differ s.type type)) [
  | inl e ↦ rw (e, assign) h
  | inr e ↦ rw (e, assign) (initialize-AllZero name a.scopes h)
]

same-AllZero : (a b : Analyzer) → Same a b → AllZero a.scopes → AllZero b.scopes
same-AllZero a b s h = subst AllZero (sym s.same_scopes) h

if-AllZero :
    (test : Bool) (a b : Analyzer)
    → AllZero a.scopes
    → AllZero b.scopes
    → AllZero (if test then a else b).scopes
if-AllZero true a b h k = h
if-AllZero false a b h k = k

mutual
  unfolding analyze_stmt

  stmt-AllZero :
      {D : Type 0} (a : Analyzer) (s : Stmt D)
      → AllZero a.scopes
      → AllZero (analyze_stmt a s).scopes
  stmt-AllZero a (expr_stmt e) h = same-AllZero a _ (expr-Same a e) h
  stmt-AllZero a (assignment name e) h =
      assign-AllZero (analyze_expr a e) name _ _ (same-AllZero a _ (expr-Same a e) h)
  stmt-AllZero a (block ss) h = pop_scope-AllZero _ (stmts-AllZero (enter a) ss (tt, h))
  stmt-AllZero a (if_stmt c then_block else_part) h = else-AllZero _ else_part (
      pop_scope-AllZero _ (
        stmts-AllZero (enter (analyze_expr a c)) then_block
          (tt, same-AllZero a _ (expr-Same a c) h)))
  stmt-AllZero a (while_stmt c body) h = pop_scope-AllZero _ (
      stmts-AllZero (enter (analyze_expr (enter_loop a) c)) body
        (tt, same-AllZero (enter_loop a) _ (expr-Same (enter_loop a) c) h))
  stmt-AllZero a (for_stmt x e body) h = pop_scope-AllZero _ (
      pop_scope-AllZero _ (
        stmts-AllZero (enter _) body (
          tt,
          same-AllZero _ _ (expr-Same _ e)
              (declare-AllZero ([] ∷ a.scopes) (new_symbol x unknown false) refl (tt, h)),
        )))
  stmt-AllZero a (return_stmt e) h =
      if-AllZero a.in_function _ _ (same-AllZero a _ (value-Same a e) h) h
  stmt-AllZero a break_stmt h = if-AllZero a.in_loop _ _ h h
  stmt-AllZero a continue_stmt h = if-AllZero a.in_loop _ _ h h
  stmt-AllZero a (function_decl name params body is_async) h =
      if-AllZero (declare a.scopes (new_symbol name function true)).1 _
        (report a (already_declared name))
        (pop_scope-AllZero _ (
          pop_scope-AllZero _ (
            stmts-AllZero (enter (enter_function a name params)) body (
              tt,
              declare_all-AllZero params unknown false
                  ([] ∷ (declare a.scopes (new_symbol name function true)).0)
                  (tt, declare-AllZero a.scopes (new_symbol name function true) refl h),
            ))))
        h
  stmt-AllZero a (class_decl name fields methods) h = pop_scope-AllZero _ (
      stmts-AllZero (enter (declared a (new_symbol name unknown false))) methods
        (tt, declare-AllZero a.scopes (new_symbol name unknown false) refl h))
  stmt-AllZero a s h = h

  stmts-AllZero :
      {D : Type 0} (a : Analyzer) (ss : Stmts D)
      → AllZero a.scopes
      → AllZero (analyze_stmts a ss).scopes
  stmts-AllZero a no_stmts h = h
  stmts-AllZero a (and_stmt s ss) h = stmts-AllZero (analyze_stmt a s) ss (stmt-AllZero a s h)

  else-AllZero :
      {D : Type 0} (a : Analyzer) (e : ElseBlock D)
      → AllZero a.scopes
      → AllZero (analyze_else a e).scopes
  else-AllZero a no_else h = h
  else-AllZero a (else_block ss) h = pop_scope-AllZero _ (stmts-AllZero (enter a) ss (tt, h))

find-zero :
    (name : Bytes) (scope : Scope)
    → All (λ (s : Symbol). s.declaration_line ≡ 0) scope
    → at_line_zero (find name scope) ≡ is_some (find name scope)
unfolding find
find-zero name [] h = refl
find-zero name (s ∷ scope) h = elim (Bool-cases (bytes_eq s.name name)) [
  | inl e ↦ rw e (rw h.0 refl)
  | inr e ↦ rw e (find-zero name scope h.1)
]

or_else-zero :
    (o p : Option Symbol)
    → at_line_zero o ≡ is_some o
    → at_line_zero p ≡ is_some p
    → at_line_zero (or_else o p) ≡ is_some (or_else o p)
or_else-zero none p h k = k
or_else-zero (some s) p h k = h

lookup-zero :
    (name : Bytes) (scopes : List Scope)
    → AllZero scopes
    → at_line_zero (lookup scopes name) ≡ is_some (lookup scopes name)
unfolding lookup
lookup-zero name [] h = refl
lookup-zero name (scope ∷ scopes) h =
    or_else-zero (find name scope) (lookup scopes name) (find-zero name scope h.0)
      (lookup-zero name scopes h.1)

-- Reports on the names that are in no scope any more and whose last declaration returns no value.
unfoldable pub gone_without_value : Analyzer → List Bytes → List Report
gone_without_value a [] = []
gone_without_value a (f ∷ fs) =
    if not (is_some (lookup a.scopes f)) && never_returns (returns_value f a.function_has_return)
    then does_not_return f ∷ gone_without_value a fs
    else gone_without_value a fs

check_used-gone :
    (a b : Analyzer) (fs : List Bytes)
    → AllZero a.scopes
    → b.scopes ≡ a.scopes
    → b.function_has_return ≡ a.function_has_return
    → (check_used b fs).reports ≡ b.reports ++ gone_without_value a fs
unfolding check_used gone_without_value
check_used-gone a b [] z s r = sym (append-nil b.reports)
check_used-gone a b (f ∷ fs) z s r = rw same_test (elim (Bool-cases test) [
  | inl e ↦ rw e (
      check_used-gone a (report b (does_not_return f)) fs z s r
      ∙ append_assoc b.reports (does_not_return f ∷ []) (gone_without_value a fs))
  | inr e ↦ rw e (check_used-gone a b fs z s r)
])
  where
    test : Bool
    test =
        not (is_some (lookup a.scopes f)) && never_returns (returns_value f a.function_has_return)

    same_test :
        (not (at_line_zero (lookup b.scopes f))
          && never_returns (returns_value f b.function_has_return))
        ≡ test
    same_test = rw (s, r, lookup-zero f a.scopes z) refl

init-AllZero : AllZero init.scopes
unfolding init
init-AllZero = declare_all-AllZero builtins function true ([] ∷ []) (tt, tt)

-- The last check of `analyze`, that a function whose call is used returns a value, reports on names
-- that are in no scope at the end of the module, and on no others: a function that the module
-- declares at its top level is never reported, with a return or without.
pub analyze-gone :
    {D : Type 0} (statements : Stmts D)
    → (analyze init statements).0.reports
      ≡ (analyze_stmts init statements).reports
        ++ gone_without_value
            (analyze_stmts init statements)
            (analyze_stmts init statements).functions_used_as_values
unfolding analyze
analyze-gone statements =
    check_used-gone _ (analyze_stmts init statements) _ (stmts-AllZero init statements init-AllZero)
      refl refl
