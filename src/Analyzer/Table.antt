-- ===== src/Analyzer/Table.antt =====
-- src/analyzer/semantic_analyzer.cpp: symbols, the symbol table and the analyser's state. The scopes
-- are a list, the innermost first; a hash map or set is the list of what was put in it. A report to
-- the error reporter is the message, as a value.
use aithon.Prelude.{
  ℕ, Bool, true, false, Option, none, some, List, [], ◌∷◌, ◌++◌, Bytes, codes, bytes_eq,
  if◌then◌else◌,
}

pub data DataType : Type 0 where
  integer float string bool none_type list dict function unknown : DataType

pub record Symbol : Type 0 where
  pub name : Bytes
  pub type : DataType
  pub is_initialized : Bool
  pub is_function : Bool
  pub declaration_line : ℕ

abbrev pub Scope : Type 0
Scope = List Symbol

pub data Report : Type 0 where
  undefined_variable : Bytes → Report
  type_mismatch : DataType → Bytes → DataType → Report
  return_outside_function break_outside_loop continue_outside_loop : Report
  already_declared : Bytes → Report
  does_not_return : Bytes → Report

pub record Analyzer : Type 0 where
  pub reports : List Report
  pub scopes : List Scope
  pub in_function : Bool
  pub in_loop : Bool
  pub functions_used_as_values : List Bytes
  pub function_has_return : List (Bytes × Bool)

unfoldable pub find : Bytes → Scope → Option Symbol
find name [] = none
find name (s ∷ scope) = if bytes_eq s.name name then some s else find name scope

abbrev pub push_scope : List Scope → List Scope
push_scope scopes = [] ∷ scopes

-- The outermost scope stays.
abbrev pub pop_scope : List Scope → List Scope
pop_scope (inner ∷ outer ∷ scopes) = outer ∷ scopes
pop_scope scopes = scopes

abbrev pub insert_new : Symbol → Scope → Option Symbol → Scope × Bool
insert_new symbol scope none = (symbol ∷ scope, true)
insert_new symbol scope (some other) = (scope, false)

-- A symbol goes into the innermost scope, unless one of its name is there. There is always a scope.
unfoldable pub declare : List Scope → Symbol → List Scope × Bool
declare [] symbol = ([], false)
declare (scope ∷ scopes) symbol =
    let (scope', new) = insert_new symbol scope (find symbol.name scope) in (scope' ∷ scopes, new)

abbrev pub or_else : Option Symbol → Option Symbol → Option Symbol
or_else none o = o
or_else (some s) o = some s

unfoldable pub lookup : List Scope → Bytes → Option Symbol
unfolding find
lookup [] name = none
lookup (scope ∷ scopes) name = or_else (find name scope) (lookup scopes name)

-- `existing->is_initialized = true` on the symbol that `lookup` finds.
unfoldable pub initialize_in : Bytes → Scope → Scope
initialize_in name [] = []
initialize_in name (s ∷ scope) =
    if bytes_eq s.name name
    then record s { is_initialized = true } ∷ scope
    else s ∷ initialize_in name scope

abbrev pub is_some : Option Symbol → Bool
is_some none = false
is_some (some s) = true

unfoldable pub initialize : Bytes → List Scope → List Scope
unfolding find initialize_in
initialize name [] = []
initialize name (scope ∷ scopes) =
    if is_some (find name scope)
    then initialize_in name scope ∷ scopes
    else scope ∷ initialize name scopes

-- A symbol as the analyser declares them, at line 0 and initialized.
abbrev pub new_symbol : Bytes → DataType → Bool → Symbol
new_symbol name type is_function = record {
  name = name;
  type = type;
  is_initialized = true;
  is_function = is_function;
  declaration_line = 0;
}

abbrev pub builtins : List Bytes
builtins =
    codes "print"
    ∷ codes "len"
    ∷ codes "range"
    ∷ codes "str"
    ∷ codes "int"
    ∷ codes "float"
    ∷ codes "bool"
    ∷ codes "list"
    ∷ codes "dict"
    ∷ codes "input"
    ∷ codes "type"
    ∷ []

unfoldable pub declare_all : List Bytes → DataType → Bool → List Scope → List Scope
unfolding declare
declare_all [] type is_function scopes = scopes
declare_all (name ∷ names) type is_function scopes =
    declare_all names type is_function (declare scopes (new_symbol name type is_function)).0

unfoldable pub init : Analyzer
unfolding declare_all
init = record {
  reports = [];
  scopes = declare_all builtins function true ([] ∷ []);
  in_function = false;
  in_loop = false;
  functions_used_as_values = [];
  function_has_return = [];
}

abbrev pub report : Analyzer → Report → Analyzer
report a r = record a { reports = a.reports ++ r ∷ [] }

-- The analyser after `declare`, and whether the symbol is new.
abbrev pub declared : Analyzer → Symbol → Analyzer
declared a symbol = record a { scopes = (declare a.scopes symbol).0 }

abbrev pub enter : Analyzer → Analyzer
enter a = record a { scopes = push_scope a.scopes }

abbrev pub leave : Analyzer → Analyzer
leave a = record a { scopes = pop_scope a.scopes }
