-- ===== src/Runtime/Values/Tests.antt =====
-- The operators of src/runtime/pyobject.cpp on concrete values, and the theorems at them. Doubles that are
-- whole numbers stand for the doubles.
use aithon.Prelude.{
  ℕ, suc, ◌+◌, ◌*◌, ◌^◌, ◌<◌, ◌≡◌, ◌⊎◌, inl, inr, refl, true, false, ◌||◌, some, List, [], ◌∷◌,
  Bytes, bytes_eq, codes, if◌then◌else◌, length, arith, ℤ, pos, negsuc, ◌+ℤ◌, ◌-ℤ◌, eqb_ℤ, ltb_ℤ,
  leb_ℤ,
}
use aithon.Runtime.Values.{
  returns, throws, length_error, index_out_of_range, zero_division, unsupported_operand,
  not_supported_between, Value, int_value, float_value, string_value, list_value, Floats, size,
  signed, ◌*ℤ◌, ◌%ℤ◌,
}
use aithon.Runtime.Values.Compare.{eq, ne, le}
use aithon.Runtime.Values.Containers.{
  from_end, list_get_item, list_set_item, string_get_item, contains, value_found, dict_get_item,
  dict_set_item,
}
use aithon.Runtime.Values.Items.{Inside, Outside, get_item-set_item, get_item-set_item_entry}
use aithon.Runtime.Values.Numbers.{mod-remainder}
use aithon.Runtime.Values.Operators.{add, mul, div, mod_}
use aithon.Runtime.Values.Repeat.{Repeats, mul_copies}
use aithon.Runtime.Values.Types.{Agree, Numeric-Agree}

abbrev doubles : Floats ℤ
doubles = record {
  of_int = λ z. z;
  to_int = λ z. some z;
  add = λ a b. a +ℤ b;
  sub = λ a b. a -ℤ b;
  mul = λ a b. a *ℤ b;
  div = λ a b. a;
  pow = λ a b. a;
  neg = λ a. pos 0 -ℤ a;
  eq = eqb_ℤ;
  lt = ltb_ℤ;
  le = leb_ℤ;
}

abbrev max_size : ℕ
max_size = 2 ^ 62

abbrev int : ℤ → Value ℤ
int z = int_value z

add_mixed :
    add doubles max_size (int (pos 2)) (float_value (negsuc 4)) ≡ returns (float_value (negsuc 2))
unfolding add ◌+ℤ◌
add_mixed = refl

div_zero : div doubles max_size (int (pos 2)) (int (pos 0)) ≡ throws zero_division
unfolding div
div_zero = refl

add_list : add doubles max_size (list_value []) (list_value []) ≡ throws unsupported_operand
unfolding add
add_list = refl

-- -7 % 3
mod_negative : mod_ doubles max_size (int (negsuc 6)) (int (pos 3)) ≡ returns (int (negsuc 0))
unfolding mod_ ◌%ℤ◌
mod_negative = refl

-- Two strings with the same text are both equal and not equal.
eq_text : eq doubles false (string_value (codes "a")) (string_value (codes "a")) ≡ true
unfolding eq bytes_eq
eq_text = refl

ne_text : ne doubles false (string_value (codes "a")) (string_value (codes "a")) ≡ true
unfolding ne
ne_text = refl

le_floats : le doubles (float_value (pos 1)) (float_value (pos 2)) ≡ throws not_supported_between
unfolding le
le_floats = refl

last_byte : string_get_item (codes "abc") (int (negsuc 0)) ≡ returns (string_value (codes "c"))
last_byte = refl

Numeric-Agree_example : Agree doubles max_size (int (pos 3)) (float_value (pos 4))
Numeric-Agree_example =
    Numeric-Agree doubles max_size (int (pos 3)) (float_value (pos 4)) (inl refl) (inr refl)

mod-remainder_example :
    (q : ℕ) × ((r : ℤ) × ((mod_ doubles max_size (int (negsuc 6)) (int (pos 3)) ≡ returns (int r))
        × ((size (negsuc 6) ≡ q * size (pos 3) + size r)
            × ((size r < size (pos 3)) × (r ≡ signed (negsuc 6) (size r))))))
mod-remainder_example = mod-remainder doubles max_size (negsuc 6) (pos 3) (ground arith) refl

mul_copies_example :
    (t : Bytes) × (Repeats (codes "ab") 3 t)
    × ((length t ≡ length (codes "ab") * 3)
        × ((mul doubles max_size (string_value (codes "ab")) (int (pos 3))
              ≡ returns (string_value t))
            × ((mul doubles max_size (int (pos 3)) (string_value (codes "ab"))
                  ≡ returns (string_value t))
                × ((mul doubles max_size (int (negsuc 2)) (string_value (codes "ab"))
                      ≡ returns (string_value []))
                    × (mul doubles max_size (string_value (codes "ab")) (int (negsuc 2))
                        ≡ throws length_error)))))
mul_copies_example =
    mul_copies doubles max_size (codes "ab") 2 (omega arith) (omega arith) (omega arith)

abbrev items : List ℕ
items = 7 ∷ 8 ∷ 9 ∷ []

get_item-set_item_example :
    (Outside (negsuc 0) (length items)
      × ((list_get_item items (int (negsuc 0)) ≡ throws index_out_of_range)
          × (list_set_item items (int (negsuc 0)) 5 ≡ throws index_out_of_range)))
    ⊎ (Inside (negsuc 0) (length items)
        × ((l : List ℕ) × ((list_set_item items (int (negsuc 0)) 5 ≡ returns l)
              × ((length l ≡ length items)
                  × (list_get_item l (int (pos 2)) ≡ (
                      if eqb_ℤ
                        (from_end (pos 2) (length items))
                        (from_end (negsuc 0) (length items))
                      then returns 5
                      else list_get_item items (int (pos 2))))))))
get_item-set_item_example = get_item-set_item ℤ items (negsuc 0) (pos 2) 5 (omega arith) refl

abbrev entries : List (Bytes × ℕ)
entries = (codes "a", 1) ∷ (codes "b", 2) ∷ []

get_item-set_item_entry_example :
    (dict_get_item (dict_set_item entries (codes "b") 3) (codes "a") ≡ (
      if bytes_eq (codes "a") (codes "b")
      then value_found 3
      else dict_get_item entries (codes "a")))
    × ((contains (codes "a") (dict_set_item entries (codes "b") 3)
          ≡ (bytes_eq (codes "a") (codes "b") || contains (codes "a") entries))
        × (length (dict_set_item entries (codes "b") 3)
            ≡ (if contains (codes "b") entries then length entries else suc (length entries))))
get_item-set_item_entry_example = get_item-set_item_entry (codes "b") (codes "a") 3 entries
