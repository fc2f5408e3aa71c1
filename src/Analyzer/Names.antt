-- ===== src/Analyzer/Names.antt =====
-- The names in the scopes, and what the symbol table's operations do to them.
use aithon.Prelude.{
  ◌≡◌, refl, ap, Bool, Bool-cases, Option, none, some, List, [], ◌∷◌, ◌++◌, append_assoc, Bytes,
  bytes_eq, inl, inr,
}
use aithon.Analyzer.Table.{
  DataType, Symbol, Scope, find, pop_scope, insert_new, declare, initialize_in, initialize, is_some,
  new_symbol, declare_all,
}

abbrev pub names_in : Scope → List Bytes
names_in [] = []
names_in (s ∷ scope) = s.name ∷ names_in scope

-- The names of each scope, the innermost scope first.
abbrev pub shape : List Scope → List (List Bytes)
shape [] = []
shape (scope ∷ scopes) = names_in scope ∷ shape scopes

-- From scopes with the names `inner ∷ outer`, only the innermost has got names more.
abbrev pub Grown : List Bytes → List (List Bytes) → List Scope → Type 0
Grown inner outer scopes = (new : List Bytes) × (shape scopes ≡ (new ++ inner) ∷ outer)

pub Grown-trans :
    (inner : List Bytes) (outer : List (List Bytes)) (scopes scopes' : List Scope)
    → (g : Grown inner outer scopes) → Grown (g.0 ++ inner) outer scopes'
    → Grown inner outer scopes'
Grown-trans inner outer scopes scopes' (new, e) (newer, e') =
    (newer ++ new, rw (append_assoc newer new inner) e')

pub pop_scope-shape :
    (inner next : List Bytes) (outer : List (List Bytes)) (scopes : List Scope)
    → shape scopes ≡ inner ∷ next ∷ outer
    → shape (pop_scope scopes) ≡ next ∷ outer
pop_scope-shape inner next outer [] e = absurd (cc)
pop_scope-shape inner next outer (s ∷ []) e = absurd (cc)
pop_scope-shape inner next outer (s ∷ t ∷ scopes) e = cc

insert_new-names :
    (symbol : Symbol) (scope : Scope) (o : Option Symbol)
    → (new : List Bytes) × (names_in (insert_new symbol scope o).0 ≡ new ++ names_in scope)
insert_new-names symbol scope none = (symbol.name ∷ [], refl)
insert_new-names symbol scope (some s) = ([], refl)

pub declare-Grown :
    (inner : List Bytes) (outer : List (List Bytes)) (scopes : List Scope) (symbol : Symbol)
    → shape scopes ≡ inner ∷ outer
    → Grown inner outer (declare scopes symbol).0
unfolding declare
declare-Grown inner outer [] symbol e = absurd (cc)
declare-Grown inner outer (scope ∷ scopes) symbol e =
    let (new, f) = insert_new-names symbol scope (find symbol.name scope) in
    let first : names_in scope ≡ inner = cc in
    let rest : shape scopes ≡ outer = cc in (new, rw (f, first, rest) refl)

pub declare_all-Grown :
    (inner : List Bytes) (outer : List (List Bytes)) (names : List Bytes) (type : DataType)
    (is_function : Bool) (scopes : List Scope)
    → shape scopes ≡ inner ∷ outer
    → Grown inner outer (declare_all names type is_function scopes)
unfolding declare_all
declare_all-Grown inner outer [] type is_function scopes e = ([], e)
declare_all-Grown inner outer (name ∷ names) type is_function scopes e =
    let g = declare-Grown inner outer scopes (new_symbol name type is_function) e in
    Grown-trans inner outer _ _ g
      (declare_all-Grown (g.0 ++ inner) outer names type is_function _ g.1)

initialize_in-names :
    (name : Bytes) (scope : Scope) → names_in (initialize_in name scope) ≡ names_in scope
unfolding initialize_in
initialize_in-names name [] = refl
initialize_in-names name (s ∷ scope) = elim (Bool-cases (bytes_eq s.name name)) [
  | inl e ↦ rw e refl
  | inr e ↦ rw e (ap (λ r. s.name ∷ r) (initialize_in-names name scope))
]

pub initialize-shape :
    (name : Bytes) (scopes : List Scope) → shape (initialize name scopes) ≡ shape scopes
unfolding initialize
initialize-shape name [] = refl
initialize-shape name (scope ∷ scopes) = elim (Bool-cases (is_some (find name scope))) [
  | inl e ↦ rw e (ap (λ r. r ∷ shape scopes) (initialize_in-names name scope))
  | inr e ↦ rw e (ap (λ r. names_in scope ∷ r) (initialize-shape name scopes))
]
