-- ===== src/Runtime/Values/Operators.antt =====
-- The arithmetic operators of src/runtime/pyobject.cpp: the methods of each class, and those of PyObject
-- where a class has none of its own.
use aithon.Prelude.{
  ℕ, zero, suc, ◌*◌, ◌%◌, ◌^◌, Option, none, some, List, [], ◌++◌, Bytes, ltb, if◌then◌else◌,
  length, ℤ, pos, pos_part, ◌+ℤ◌, ◌-ℤ◌, eqb_ℤ,
}
use aithon.Runtime.Objects.{to_word}
use aithon.Runtime.Values.{
  Outcome, returns, throws, undefined, PyError, unsupported_operand, bad_operand_type,
  zero_division, can_only_concatenate, cannot_multiply_sequence, length_error, Value, int_value,
  float_value, string_value, list_value, Floats, fits, ◌*ℤ◌, ◌%ℤ◌, quotient_overflows,
}

-- So many copies, one after the other.
abbrev pub copies {ℓ} : {A : Type ℓ} → ℕ → List A → List A
copies zero xs = []
copies (suc n) xs = xs ++ copies n xs

module _ {D : Type 0} (f : Floats D) (max_size : ℕ) where
  abbrev pub Result : Type 0
  Result = Outcome (Value D) PyError

  -- The overflow of an `int64_t` is undefined.
  abbrev pub new_int : ℤ → Result
  new_int z = if fits z then returns (int_value z) else undefined

  abbrev pub new_float : D → Result
  new_float x = returns (float_value x)

  abbrev pub add_int : ℤ → Value D → Result
  add_int a (int_value b) = new_int (a +ℤ b)
  add_int a (float_value b) = new_float (f.add (f.of_int a) b)
  add_int a b = throws unsupported_operand

  abbrev pub add_float : D → Value D → Result
  add_float a (float_value b) = new_float (f.add a b)
  add_float a (int_value b) = new_float (f.add a (f.of_int b))
  add_float a b = throws unsupported_operand

  abbrev pub add_string : Bytes → Value D → Result
  add_string a (string_value b) = returns (string_value (a ++ b))
  add_string a b = throws can_only_concatenate

  -- The method of the object's class.
  unfoldable pub add : Value D → Value D → Result
  add (int_value a) b = add_int a b
  add (float_value a) b = add_float a b
  add (string_value a) b = add_string a b
  add a b = throws unsupported_operand

  abbrev pub sub_int : ℤ → Value D → Result
  sub_int a (int_value b) = new_int (a -ℤ b)
  sub_int a (float_value b) = new_float (f.sub (f.of_int a) b)
  sub_int a b = throws unsupported_operand

  abbrev pub sub_float : D → Value D → Result
  sub_float a (float_value b) = new_float (f.sub a b)
  sub_float a (int_value b) = new_float (f.sub a (f.of_int b))
  sub_float a b = throws unsupported_operand

  unfoldable pub sub : Value D → Value D → Result
  sub (int_value a) b = sub_int a b
  sub (float_value a) b = sub_float a b
  sub a b = throws unsupported_operand

  -- A loop up to a number below 0 makes no round.
  abbrev pub mul_int : ℤ → Value D → Result
  mul_int a (int_value b) = new_int (a *ℤ b)
  mul_int a (float_value b) = new_float (f.mul (f.of_int a) b)
  mul_int a (string_value s) = returns (string_value (copies (pos_part a) s))
  mul_int a (list_value items) = returns (list_value (copies (pos_part a) items))
  mul_int a b = throws unsupported_operand

  abbrev pub mul_float : D → Value D → Result
  mul_float a (float_value b) = new_float (f.mul a b)
  mul_float a (int_value b) = new_float (f.mul a (f.of_int b))
  mul_float a b = throws unsupported_operand

  -- The string reserves its room first: the product is one of `size_t`. `max_size` is the longest string.
  abbrev pub mul_string : Bytes → Value D → Result
  mul_string s (int_value count) =
      if ltb max_size (length s * to_word count % 2 ^ 64)
      then throws length_error
      else returns (string_value (copies (pos_part count) s))
  mul_string s b = throws cannot_multiply_sequence

  unfoldable pub mul : Value D → Value D → Result
  mul (int_value a) b = mul_int a b
  mul (float_value a) b = mul_float a b
  mul (string_value s) b = mul_string s b
  mul a b = throws unsupported_operand

  abbrev pub divide_by : D → D → Result
  divide_by a divisor =
      if f.eq divisor (f.of_int (pos 0)) then throws zero_division else new_float (f.div a divisor)

  abbrev pub divide_ints : ℤ → ℤ → Result
  divide_ints a divisor =
      if eqb_ℤ divisor (pos 0)
      then throws zero_division
      else new_float (f.div (f.of_int a) (f.of_int divisor))

  abbrev pub div_int : ℤ → Value D → Result
  div_int a (int_value b) = divide_ints a b
  div_int a (float_value b) = divide_by (f.of_int a) b
  div_int a b = throws unsupported_operand

  abbrev pub div_float : D → Value D → Result
  div_float a (float_value b) = divide_by a b
  div_float a (int_value b) = divide_by a (f.of_int b)
  div_float a b = throws unsupported_operand

  unfoldable pub div : Value D → Value D → Result
  div (int_value a) b = div_int a b
  div (float_value a) b = div_float a b
  div a b = throws unsupported_operand

  abbrev pub remainder : ℤ → ℤ → Result
  remainder a divisor =
      if eqb_ℤ divisor (pos 0)
      then throws zero_division
      else if quotient_overflows a divisor
      then undefined
      else returns (int_value (a %ℤ divisor))

  abbrev pub mod_int : ℤ → Value D → Result
  mod_int a (int_value b) = remainder a b
  mod_int a b = throws unsupported_operand

  unfoldable pub mod_ : Value D → Value D → Result
  mod_ (int_value a) b = mod_int a b
  mod_ a b = throws unsupported_operand

  -- The power of two integers is a double, made an integer.
  abbrev pub power_int : Option ℤ → Result
  power_int none = undefined
  power_int (some z) = returns (int_value z)

  abbrev pub pow_int : ℤ → Value D → Result
  pow_int a (int_value b) = power_int (f.to_int (f.pow (f.of_int a) (f.of_int b)))
  pow_int a (float_value b) = new_float (f.pow (f.of_int a) b)
  pow_int a b = throws unsupported_operand

  unfoldable pub pow : Value D → Value D → Result
  pow (int_value a) b = pow_int a b
  pow a b = throws unsupported_operand

  abbrev pub neg_int : ℤ → Result
  neg_int a = new_int (pos 0 -ℤ a)

  abbrev pub neg_float : D → Result
  neg_float a = new_float (f.neg a)

  unfoldable pub neg : Value D → Result
  neg (int_value a) = neg_int a
  neg (float_value a) = neg_float a
  neg a = throws bad_operand_type
