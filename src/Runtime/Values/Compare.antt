-- ===== src/Runtime/Values/Compare.antt =====
-- The comparisons of src/runtime/pyobject.cpp.
use aithon.Prelude.{Bool, true, false, not, Bytes, bytes_eq, ℤ, eqb_ℤ, ltb_ℤ, leb_ℤ}
use aithon.Runtime.Values.{
  Outcome, returns, throws, PyError, not_supported_between, Value, bool_value, int_value,
  float_value, string_value, Floats,
}

abbrev pub bool_eq : Bool → Bool → Bool
bool_eq true b = b
bool_eq false b = not b

module _ {D : Type 0} (f : Floats D) where
  abbrev pub Test : Type 0
  Test = Outcome Bool PyError

  abbrev pub eq_bool : Bool → Value D → Bool
  eq_bool a (bool_value b) = bool_eq a b
  eq_bool a b = false

  abbrev pub eq_int : ℤ → Value D → Bool
  eq_int a (int_value b) = eqb_ℤ a b
  eq_int a (float_value b) = f.eq (f.of_int a) b
  eq_int a b = false

  abbrev pub eq_float : D → Value D → Bool
  eq_float a (float_value b) = f.eq a b
  eq_float a (int_value b) = f.eq a (f.of_int b)
  eq_float a b = false

  abbrev pub eq_string : Bytes → Value D → Bool
  eq_string a (string_value b) = bytes_eq a b
  eq_string a b = false

  -- `same` says if the two are one object. It is what PyObject compares, for the classes with no method.
  unfoldable pub eq : Bool → Value D → Value D → Bool
  eq same (bool_value a) b = eq_bool a b
  eq same (int_value a) b = eq_int a b
  eq same (float_value a) b = eq_float a b
  eq same (string_value a) b = eq_string a b
  eq same a b = same

  abbrev pub ne_int : ℤ → Value D → Bool
  ne_int a (int_value b) = not (eqb_ℤ a b)
  ne_int a (float_value b) = not (f.eq (f.of_int a) b)
  ne_int a b = true

  -- Only integers have a method of their own.
  unfoldable pub ne : Bool → Value D → Value D → Bool
  ne same (int_value a) b = ne_int a b
  ne same a b = not same

  abbrev pub lt_int : ℤ → Value D → Test
  lt_int a (int_value b) = returns (ltb_ℤ a b)
  lt_int a (float_value b) = returns (f.lt (f.of_int a) b)
  lt_int a b = throws not_supported_between

  abbrev pub lt_float : D → Value D → Test
  lt_float a (float_value b) = returns (f.lt a b)
  lt_float a (int_value b) = returns (f.lt a (f.of_int b))
  lt_float a b = throws not_supported_between

  unfoldable pub lt : Value D → Value D → Test
  lt (int_value a) b = lt_int a b
  lt (float_value a) b = lt_float a b
  lt a b = throws not_supported_between

  abbrev pub le_int : ℤ → Value D → Test
  le_int a (int_value b) = returns (leb_ℤ a b)
  le_int a (float_value b) = returns (f.le (f.of_int a) b)
  le_int a b = throws not_supported_between

  unfoldable pub le : Value D → Value D → Test
  le (int_value a) b = le_int a b
  le a b = throws not_supported_between

  abbrev pub gt_int : ℤ → Value D → Test
  gt_int a (int_value b) = returns (ltb_ℤ b a)
  gt_int a (float_value b) = returns (f.lt b (f.of_int a))
  gt_int a b = throws not_supported_between

  unfoldable pub gt : Value D → Value D → Test
  gt (int_value a) b = gt_int a b
  gt a b = throws not_supported_between

  abbrev pub ge_int : ℤ → Value D → Test
  ge_int a (int_value b) = returns (leb_ℤ b a)
  ge_int a (float_value b) = returns (f.le b (f.of_int a))
  ge_int a b = throws not_supported_between

  unfoldable pub ge : Value D → Value D → Test
  ge (int_value a) b = ge_int a b
  ge a b = throws not_supported_between
