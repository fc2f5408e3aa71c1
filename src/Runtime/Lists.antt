-- ===== src/Runtime/Lists.antt =====
-- src/runtime/runtime.cpp, the lists and dictionaries of compiled code. A pointer to one is the list or
-- dictionary itself, or null (`none`). A string stands at an address; an access to one that is deleted is
-- a fault.
pub mod Memory
mod Tests
use aithon.Prelude.{
  ℕ, zero, suc, ◌+◌, Bool, true, false, Option, none, some, List, [], ◌∷◌, ◌++◌, Bytes, bytes_eq,
  leb, ◌==◌, if◌then◌else◌, length, get_elem?, ℤ, pos,
}
use aithon.Runtime.Objects.{to_word}

-- The tags that the functions set. A string is the address of its copy.
pub data RuntimeValue : Type 0 where
  int_val : ℤ → RuntimeValue
  string_ptr : ℕ → RuntimeValue
  none_val : RuntimeValue

abbrev pub RuntimeList : Type 0
RuntimeList = List RuntimeValue

abbrev pub RuntimeDict : Type 0
RuntimeDict = List (Bytes × RuntimeValue)

abbrev pub Strings : Type 0
Strings = List (ℕ × Bytes)

unfoldable pub string_at : ℕ → Strings → Option Bytes
string_at p [] = none
string_at p ((a, text) ∷ strings) = if p == a then some text else string_at p strings

unfoldable pub without : ℕ → Strings → Strings
without p [] = []
without p ((a, text) ∷ strings) =
    let rest = without p strings in if p == a then rest else (a, text) ∷ rest

abbrev pub delete_found : ℕ → Option Bytes → Strings → Option Strings
delete_found p none strings = none
delete_found p (some text) strings = some (without p strings)

-- `delete[]`
unfoldable pub delete_string : ℕ → Strings → Option Strings
unfolding string_at without
delete_string p strings = delete_found p (string_at p strings) strings

abbrev pub or_none : Option RuntimeValue → RuntimeValue
or_none none = none_val
or_none (some v) = v

-- RuntimeList::get and RuntimeDict::get, which report an error.
abbrev pub get_value : RuntimeList → ℕ → RuntimeValue
get_value items index =
    if leb (length items) index then none_val else or_none (get_elem? items index)

unfoldable pub find_value : Bytes → RuntimeDict → Option RuntimeValue
unfolding bytes_eq
find_value key [] = none
find_value key ((k, v) ∷ items) = if bytes_eq key k then some v else find_value key items

abbrev pub get_entry : RuntimeDict → Bytes → RuntimeValue
get_entry items key = or_none (find_value key items)

-- RuntimeDict::set. The order of the entries is not promised.
unfoldable pub set_entry : Bytes → RuntimeValue → RuntimeDict → RuntimeDict
unfolding bytes_eq
set_entry key v [] = (key, v) ∷ []
set_entry key v ((k, w) ∷ items) =
    if bytes_eq key k then (k, v) ∷ items else (k, w) ∷ set_entry key v items

abbrev pub runtime_list_create : Option RuntimeList
runtime_list_create = some []

abbrev pub runtime_list_append_int : Option RuntimeList → ℤ → Option RuntimeList
runtime_list_append_int none value = none
runtime_list_append_int (some items) value = some (items ++ (int_val value ∷ []))

-- The copy is at the address that `new` gives.
abbrev pub runtime_list_append_string :
    Option RuntimeList → Bytes → ℕ → Strings → Option RuntimeList × Strings
runtime_list_append_string none text a strings = (none, strings)
runtime_list_append_string (some items) text a strings =
    (some (items ++ (string_ptr a ∷ [])), (a, text) ∷ strings)

-- The pointer, null if the value is no string.
abbrev pub as_string : RuntimeValue → ℕ
as_string (string_ptr p) = p
as_string v = 0

abbrev pub as_int : RuntimeValue → ℤ
as_int (int_val z) = z
as_int v = pos 0

abbrev pub runtime_list_get_string : Option RuntimeList → ℤ → ℕ
runtime_list_get_string none index = 0
runtime_list_get_string (some items) index = as_string (get_value items (to_word index))

abbrev pub runtime_list_get_int : Option RuntimeList → ℤ → ℤ
runtime_list_get_int none index = pos 0
runtime_list_get_int (some items) index = as_int (get_value items (to_word index))

abbrev pub runtime_list_size : Option RuntimeList → ℕ
runtime_list_size none = 0
runtime_list_size (some items) = length items

abbrev pub bind {ℓ κ} : {A : Type ℓ} {B : Type κ} → Option A → (A → Option B) → Option B
bind none k = none
bind (some a) k = k a

-- The strings among the values are deleted.
unfoldable pub free_values : RuntimeList → Strings → Option Strings
unfolding delete_string
free_values [] strings = some strings
free_values (string_ptr p ∷ items) strings =
    bind (if p == 0 then some strings else delete_string p strings) (free_values items)
free_values (int_val z ∷ items) strings = free_values items strings
free_values (none_val ∷ items) strings = free_values items strings

unfoldable pub runtime_list_free : Option RuntimeList → Strings → Option Strings
unfolding free_values
runtime_list_free none strings = some strings
runtime_list_free (some items) strings = free_values items strings

abbrev pub runtime_dict_create : Option RuntimeDict
runtime_dict_create = some []

abbrev pub runtime_dict_set_string :
    Option RuntimeDict → Option Bytes → Option Bytes → ℕ → Strings → Option RuntimeDict × Strings
runtime_dict_set_string (some items) (some key) (some value) a strings =
    (some (set_entry key (string_ptr a) items), (a, value) ∷ strings)
runtime_dict_set_string dict key value a strings = (dict, strings)

abbrev pub runtime_dict_set_int : Option RuntimeDict → Option Bytes → ℤ → Option RuntimeDict
runtime_dict_set_int (some items) (some key) value = some (set_entry key (int_val value) items)
runtime_dict_set_int dict key value = dict

abbrev pub runtime_dict_get_string : Option RuntimeDict → Option Bytes → ℕ
runtime_dict_get_string (some items) (some key) = as_string (get_entry items key)
runtime_dict_get_string dict key = 0

abbrev pub runtime_dict_get_int : Option RuntimeDict → Option Bytes → ℤ
runtime_dict_get_int (some items) (some key) = as_int (get_entry items key)
runtime_dict_get_int dict key = pos 0

abbrev pub is_found : Option RuntimeValue → Bool
is_found none = false
is_found (some v) = true

abbrev pub runtime_dict_has_key : Option RuntimeDict → Option Bytes → Bool
runtime_dict_has_key (some items) (some key) = is_found (find_value key items)
runtime_dict_has_key dict key = false

abbrev pub values : RuntimeDict → RuntimeList
values [] = []
values ((k, v) ∷ items) = v ∷ values items

unfoldable pub runtime_dict_free : Option RuntimeDict → Strings → Option Strings
unfolding free_values
runtime_dict_free none strings = some strings
runtime_dict_free (some items) strings = free_values (values items) strings
