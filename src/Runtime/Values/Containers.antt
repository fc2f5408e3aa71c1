-- ===== src/Runtime/Values/Containers.antt =====
-- Strings, lists and dictionaries of src/runtime/pyobject.cpp. An item is the address of an object. The
-- reference counts of the items are left out.
use aithon.Prelude.{
  ℕ, suc, Bool, false, ◌||◌, Option, none, some, List, [], ◌∷◌, ◌++◌, Bytes, bytes_eq, leb, ◌==◌,
  if◌then◌else◌, length, get_elem?, set, ℤ, pos, negsuc, sub_ℕ,
}
use aithon.Runtime.Objects.{to_word}
use aithon.Runtime.Values.{
  Outcome, returns, throws, undefined, PyError, indices_must_be_integers, index_out_of_range,
  key_error, Value, int_value, string_value,
}

-- An index below 0 counts from the end.
abbrev pub from_end : ℤ → ℕ → ℤ
from_end (pos i) n = pos i
from_end (negsuc i) n = sub_ℕ n (suc i)

abbrev pub item {ℓ} : {A : Type ℓ} → Option A → Outcome A PyError
item none = throws index_out_of_range
item (some x) = returns x

-- The tests are those of the source: below 0, or past the end.
abbrev pub item_at {ℓ} : {A : Type ℓ} → List A → ℤ → Outcome A PyError
item_at items (negsuc i) = throws index_out_of_range
item_at items (pos i) = item (get_elem? items i)

-- PyList::append, PyList::get and PyList::set, by an index that is a `size_t`.
abbrev pub append : List ℕ → ℕ → List ℕ
append items x = items ++ (x ∷ [])

abbrev pub get : List ℕ → ℕ → Outcome ℕ PyError
get items i = if leb (length items) i then throws index_out_of_range else item (get_elem? items i)

abbrev pub set_at : List ℕ → ℕ → ℕ → Outcome (List ℕ) PyError
set_at items i x =
    if leb (length items) i then throws index_out_of_range else returns (set items i x)

-- The list before, at a key that is an integer. The index becomes a `size_t`.
abbrev pub list_set_item : {D : Type 0} → List ℕ → Value D → ℕ → Outcome (List ℕ) PyError
list_set_item items (int_value z) x = set_at items (to_word (from_end z (length items))) x
list_set_item items key x = throws indices_must_be_integers

abbrev pub list_get_item : {D : Type 0} → List ℕ → Value D → Outcome ℕ PyError
list_get_item items (int_value z) = item_at items (from_end z (length items))
list_get_item items key = throws indices_must_be_integers

-- A new string of the one byte.
abbrev pub one_byte : {D : Type 0} → Outcome ℕ PyError → Outcome (Value D) PyError
one_byte (returns c) = returns (string_value (c ∷ []))
one_byte (throws e) = throws e
one_byte undefined = undefined

abbrev pub string_get_item : {D : Type 0} → Bytes → Value D → Outcome (Value D) PyError
string_get_item s (int_value z) = one_byte (item_at s (from_end z (length s)))
string_get_item s key = throws indices_must_be_integers

-- PyDict::get: the address of the value, or null.
unfoldable pub dict_get : Bytes → List (Bytes × ℕ) → ℕ
unfolding bytes_eq
dict_get key [] = 0
dict_get key ((k, x) ∷ entries) = if bytes_eq key k then x else dict_get key entries

-- PyDict::contains
unfoldable pub contains : Bytes → List (Bytes × ℕ) → Bool
unfolding bytes_eq
contains key [] = false
contains key ((k, x) ∷ entries) = bytes_eq key k || contains key entries

-- PyDict::set: no order of the entries is promised, and a new one stands last here.
unfoldable pub dict_set : Bytes → ℕ → List (Bytes × ℕ) → List (Bytes × ℕ)
unfolding bytes_eq
dict_set key x [] = (key, x) ∷ []
dict_set key x ((k, y) ∷ entries) =
    if bytes_eq key k then (k, x) ∷ entries else (k, y) ∷ dict_set key x entries

abbrev pub value_found : ℕ → Outcome ℕ PyError
value_found x = if x == 0 then throws key_error else returns x

-- The rest of `get_item` and `set_item` of a dictionary, after the key has become a string.
abbrev pub dict_get_item : List (Bytes × ℕ) → Bytes → Outcome ℕ PyError
dict_get_item entries key_str = value_found (dict_get key_str entries)

abbrev pub dict_set_item : List (Bytes × ℕ) → Bytes → ℕ → List (Bytes × ℕ)
dict_set_item entries key_str x = dict_set key_str x entries
