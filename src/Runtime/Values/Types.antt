-- ===== src/Runtime/Values/Types.antt =====
-- The types of src/analyzer/semantic_analyzer.cpp and the values of src/runtime/pyobject.cpp.
use aithon.Analyzer.Table.{DataType, integer, float, string, bool, none_type, list, dict}
use aithon.Analyzer.Walk.{infer_binary}
use aithon.Ast.{BinaryOp}
use aithon.Prelude.{Bool, ℕ, ◌≡◌, ◌⊎◌, inl, inr, refl, arith, Bool-cases, ℤ, pos, ◌+ℤ◌, ◌-ℤ◌, eqb_ℤ}
use aithon.Runtime.Values.{
  Outcome, returns, throws, undefined, PyError, zero_division, not_supported_between, Value,
  none_value, bool_value, int_value, float_value, string_value, list_value, dict_value, Floats,
  fits, ◌*ℤ◌,
}
use aithon.Runtime.Values.Compare.{lt, le, gt, ge}
use aithon.Runtime.Values.Operators.{add, sub, mul, div, new_int, divide_by, divide_ints}

-- The analyzer's type of a value.
abbrev pub value_type : {D : Type 0} → Value D → DataType
value_type none_value = none_type
value_type (bool_value b) = bool
value_type (int_value z) = integer
value_type (float_value x) = float
value_type (string_value s) = string
value_type (list_value items) = list
value_type (dict_value entries) = dict

abbrev pub Numeric : {D : Type 0} → Value D → Type 0
Numeric v = (value_type v ≡ integer) ⊎ (value_type v ≡ float)

-- Two integers, whose result is undefined if it is out of range.
abbrev pub Typed : {D : Type 0} → DataType → Outcome (Value D) PyError → Type 0
Typed t (returns v) = value_type v ≡ t
Typed t (throws e) = ⊥
Typed t undefined = t ≡ integer

abbrev pub Divides : {D : Type 0} → Outcome (Value D) PyError → Type 0
Divides (returns v) = value_type v ≡ float
Divides (throws e) = e ≡ zero_division
Divides undefined = ⊥

-- What a comparison does that only integers have a method for.
abbrev pub OrderedBy : DataType → Outcome Bool PyError → Type 0
OrderedBy integer (returns t) = Unit
OrderedBy float (throws e) = e ≡ not_supported_between
OrderedBy t o = ⊥

module _ {D : Type 0} (f : Floats D) (max_size : ℕ) where
  new_int-Typed : (z : ℤ) → Typed integer (new_int f max_size z)
  new_int-Typed z = elim (Bool-cases (fits z)) [ inl e ↦ rw e refl | inr e ↦ rw e refl ]

  divide_by-Divides : (a b : D) → Divides (divide_by f max_size a b)
  divide_by-Divides a b = elim (Bool-cases (f.eq b (f.of_int (pos 0)))) [
    | inl e ↦ rw e refl
    | inr e ↦ rw e refl
  ]

  divide_ints-Divides : (a b : ℤ) → Divides (divide_ints f max_size a b)
  divide_ints-Divides a b = elim (Bool-cases (eqb_ℤ b (pos 0))) [
    | inl e ↦ rw e refl
    | inr e ↦ rw e refl
  ]

  -- The type that the analyzer infers, and what the program computes.
  abbrev pub Agree : Value D → Value D → Type 0
  Agree a b =
      Typed (infer_binary BinaryOp.add (value_type a) (value_type b)) (add f max_size a b)
      × (Typed (infer_binary BinaryOp.sub (value_type a) (value_type b)) (sub f max_size a b)
          × (Typed (infer_binary BinaryOp.mul (value_type a) (value_type b)) (mul f max_size a b)
              × (Divides (div f max_size a b)
                  × (((t : Bool) × (lt f a b ≡ returns t))
                      × (OrderedBy (value_type a) (le f a b)
                          × (OrderedBy (value_type a) (gt f a b)
                              × OrderedBy (value_type a) (ge f a b)))))))

  -- For any two numbers: `+`, `-` and `*` return a value of the type that the analyzer infers, but that on
  -- two integers they may overflow, and `/` returns a float, or throws that the divisor is 0. `<` returns a
  -- Boolean. `<=`, `>` and `>=` do so if the first number is an integer, and throw if it is a float.
  pub Numeric-Agree : (a b : Value D) → Numeric a → Numeric b → Agree a b
  unfolding add sub mul div lt le gt ge
  Numeric-Agree (int_value a) (int_value b) na nb = (
    new_int-Typed (a +ℤ b),
    (
      new_int-Typed (a -ℤ b),
      (new_int-Typed (a *ℤ b), (divide_ints-Divides a b, ((_, refl), (tt, (tt, tt))))),
    ),
  )
  Numeric-Agree (int_value a) (float_value b) na nb =
      (refl, (refl, (refl, (divide_by-Divides _ b, ((_, refl), (tt, (tt, tt)))))))
  Numeric-Agree (float_value a) (int_value b) na nb =
      (refl, (refl, (refl, (divide_by-Divides a _, ((_, refl), (refl, (refl, refl)))))))
  Numeric-Agree (float_value a) (float_value b) na nb =
      (refl, (refl, (refl, (divide_by-Divides a b, ((_, refl), (refl, (refl, refl)))))))
  Numeric-Agree none_value b na nb = ground (arith, na)
  Numeric-Agree (bool_value a) b na nb = ground (arith, na)
  Numeric-Agree (string_value a) b na nb = ground (arith, na)
  Numeric-Agree (list_value a) b na nb = ground (arith, na)
  Numeric-Agree (dict_value a) b na nb = ground (arith, na)
  Numeric-Agree a none_value na nb = ground (arith, nb)
  Numeric-Agree a (bool_value b) na nb = ground (arith, nb)
  Numeric-Agree a (string_value b) na nb = ground (arith, nb)
  Numeric-Agree a (list_value b) na nb = ground (arith, nb)
  Numeric-Agree a (dict_value b) na nb = ground (arith, nb)
