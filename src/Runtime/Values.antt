-- ===== src/Runtime/Values.antt =====
-- include/runtime/pyobject.h and src/runtime/pyobject.cpp: the values of a running program. An object is
-- its value; a list and a dictionary have the addresses of objects in them, 0 for a null pointer.
pub mod Operators
pub mod Compare
pub mod Containers
pub mod Types
pub mod Numbers
pub mod Repeat
pub mod Items
mod Tests
use aithon.Prelude.{
  ℕ, zero, suc, ◌+◌, ◌-◌, ◌*◌, ◌%◌, ◌/◌, ◌^◌, Bool, true, false, ◌&&◌, Option, none, some, List, [],
  ◌∷◌, Bytes, ltb, leb, ◌==◌, if◌then◌else◌, ℤ, pos, negsuc, pos_part, neg_part, sub_ℕ, eqb_ℤ,
}

-- A call that is undefined in C++ may do anything.
pub data Outcome {ℓ} (A : Type ℓ) (E : Type 0) : Type ℓ where
  returns : A → Outcome A E
  throws : E → Outcome A E
  undefined : Outcome A E

-- The kinds of the exceptions that are thrown. Their texts tell the operator, and whether an index was that
-- of a list or a string, which is left out.
pub data PyError : Type 0 where
  unsupported_operand : PyError
  not_supported_between : PyError
  bad_operand_type : PyError
  zero_division : PyError
  can_only_concatenate : PyError
  cannot_multiply_sequence : PyError
  length_error : PyError
  not_subscriptable : PyError
  no_item_assignment : PyError
  indices_must_be_integers : PyError
  index_out_of_range : PyError
  key_error : PyError

pub data Value (D : Type 0) : Type 0 where
  none_value : Value D
  bool_value : Bool → Value D
  int_value : ℤ → Value D
  float_value : D → Value D
  string_value : Bytes → Value D
  list_value : List ℕ → Value D
  dict_value : List (Bytes × ℕ) → Value D

-- The arithmetic of doubles, which is a parameter. `to_int` is `none` where the conversion is undefined.
pub record Floats (D : Type 0) : Type 0 where
  pub of_int : ℤ → D
  pub to_int : D → Option ℤ
  pub add : D → D → D
  pub sub : D → D → D
  pub mul : D → D → D
  pub div : D → D → D
  pub pow : D → D → D
  pub neg : D → D
  pub eq : D → D → Bool
  pub lt : D → D → Bool
  pub le : D → D → Bool

-- If the value is one of an `int64_t`.
abbrev pub fits : ℤ → Bool
fits (pos n) = ltb n (2 ^ 63)
fits (negsuc n) = ltb n (2 ^ 63)

infixl 70 ◌*ℤ◌ ◌%ℤ◌
unfoldable pub ◌*ℤ◌ : ℤ → ℤ → ℤ
a *ℤ b =
    sub_ℕ (pos_part a * pos_part b + neg_part a * neg_part b)
      (pos_part a * neg_part b + neg_part a * pos_part b)

-- The number without its sign.
abbrev pub size : ℤ → ℕ
size a = pos_part a + neg_part a

abbrev pub signed : ℤ → ℕ → ℤ
signed (pos a) n = pos n
signed (negsuc a) n = sub_ℕ 0 n

-- `%` of C++, which takes the sign of the first number.
unfoldable pub ◌%ℤ◌ : ℤ → ℤ → ℤ
a %ℤ b = signed a (size a % size b)

-- `%` of the least number by -1 overflows.
abbrev pub quotient_overflows : ℤ → ℤ → Bool
quotient_overflows a b = eqb_ℤ a (negsuc (2 ^ 63 - 1)) && eqb_ℤ b (negsuc 0)
