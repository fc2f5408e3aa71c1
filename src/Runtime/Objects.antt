-- ===== src/Runtime/Objects.antt =====
-- src/runtime/runtime.cpp, the class objects of compiled code, with their reference counts. An object
-- stands at an address; one that is freed is gone, and an access to it is a fault (`none`). A field is
-- a word of 64 bits, and `num_fields` the length of the fields.
pub mod Store
pub mod Counts
pub mod Changes
pub mod Writes
pub mod Pointers
pub mod Calls
pub mod Accesses
pub mod Fields
pub mod Client
mod Tests
use aithon.Prelude.{
  ℕ, zero, suc, ◌+◌, ◌-◌, ◌^◌, Bool, true, false, Option, none, some, List, [], ◌∷◌, Bytes, ltb,
  ◌==◌, if◌then◌else◌, length, get_elem?, set, ℤ, pos, negsuc,
}

abbrev pub null : ℕ
null = 0

-- `ref_count` is an `int64_t`, of which no run comes near the ends.
pub record HeapObject : Type 0 where
  pub ref_count : ℤ
  pub class_name : Bytes
  pub fields : List ℕ

abbrev pub Objects : Type 0
Objects = List (ℕ × HeapObject)

unfoldable pub find : ℕ → Objects → Option HeapObject
find x [] = none
find x ((a, o) ∷ objects) = if x == a then some o else find x objects

-- A write to the object at an address.
unfoldable pub update : ℕ → HeapObject → Objects → Objects
update x o [] = []
update x o ((a, o') ∷ objects) = if x == a then (a, o) ∷ objects else (a, o') ∷ update x o objects

-- `free`
unfoldable pub remove : ℕ → Objects → Objects
remove x [] = []
remove x ((a, o) ∷ objects) = if x == a then objects else (a, o) ∷ remove x objects

abbrev pub zeros : ℕ → List ℕ
zeros zero = []
zeros (suc n) = 0 ∷ zeros n

-- At the address that `malloc` has given. It is taken not to fail, and the number not to be below 0.
unfoldable pub runtime_class_create : Bytes → ℕ → ℕ → Objects → Objects
runtime_class_create class_name num_fields a objects =
    (a, record { ref_count = pos 1; class_name = class_name; fields = zeros num_fields }) ∷ objects

abbrev pub increment : ℤ → ℤ
increment (pos n) = pos (suc n)
increment (negsuc zero) = pos zero
increment (negsuc (suc n)) = negsuc n

abbrev pub retain_step : ℕ → Option HeapObject → Objects → Option Objects
retain_step p none objects = none
retain_step p (some o) objects =
    some (update p (record o { ref_count = increment o.ref_count }) objects)

unfoldable pub runtime_retain : ℕ → Objects → Option Objects
unfolding find update
runtime_retain p objects =
    if p == null then some objects else retain_step p (find p objects) objects

abbrev pub decrement : ℤ → ℤ
decrement (pos zero) = negsuc zero
decrement (pos (suc n)) = pos n
decrement (negsuc n) = negsuc (suc n)

-- By the count before: the last reference frees the object, whose fields are not released.
abbrev pub release_count : ℕ → HeapObject → ℤ → Objects → Objects
release_count p o (pos (suc zero)) objects = remove p objects
release_count p o count objects = update p (record o { ref_count = decrement count }) objects

abbrev pub release_step : ℕ → Option HeapObject → Objects → Option Objects
release_step p none objects = none
release_step p (some o) objects = some (release_count p o o.ref_count objects)

unfoldable pub runtime_release : ℕ → Objects → Option Objects
unfolding find update remove
runtime_release p objects =
    if p == null then some objects else release_step p (find p objects) objects

-- The index, if it is in range.
abbrev pub checked_index : ℤ → List ℕ → Option ℕ
checked_index (negsuc i) fields = none
checked_index (pos i) fields = if ltb i (length fields) then some i else none

abbrev pub set_word : ℕ → HeapObject → Option ℕ → ℕ → Objects → Objects
set_word p o none word objects = objects
set_word p o (some i) word objects = update p (record o { fields = set o.fields i word }) objects

abbrev pub set_step : ℕ → ℤ → ℕ → Option HeapObject → Objects → Option Objects
set_step p field_idx word none objects = none
set_step p field_idx word (some o) objects =
    some (set_word p o (checked_index field_idx o.fields) word objects)

-- What the setters of numbers have in common: the value is a word by then.
unfoldable pub set_field : ℕ → ℤ → ℕ → Objects → Option Objects
unfolding find update
set_field p field_idx word objects =
    if p == null then some objects else set_step p field_idx word (find p objects) objects

abbrev pub or_zero : Option ℕ → ℕ
or_zero none = 0
or_zero (some w) = w

abbrev pub word_at : List ℕ → Option ℕ → ℕ
word_at fields none = 0
word_at fields (some i) = or_zero (get_elem? fields i)

abbrev pub get_step : ℤ → Option HeapObject → Option ℕ
get_step field_idx none = none
get_step field_idx (some o) = some (word_at o.fields (checked_index field_idx o.fields))

-- What the getters have in common: the word, 0 where there is no such field.
unfoldable pub get_field : ℕ → ℤ → Objects → Option ℕ
unfolding find
get_field p field_idx objects = if p == null then some 0 else get_step field_idx (find p objects)

abbrev pub bind {ℓ κ} : {A : Type ℓ} {B : Type κ} → Option A → (A → Option B) → Option B
bind none k = none
bind (some a) k = k a

abbrev pub store_word : ℕ → ℕ → ℕ → Option HeapObject → Objects → Option Objects
store_word p i word none objects = none
store_word p i word (some o) objects =
    some (update p (record o { fields = set o.fields i word }) objects)

-- The new value is retained, then the old one released, then the field written.
abbrev pub set_ptr_at : ℕ → Option ℕ → ℕ → Objects → Option Objects
set_ptr_at p none value objects = some objects
set_ptr_at p (some i) value objects = bind (runtime_retain value objects) λ retained.
    bind (find p retained) λ o.
      bind (runtime_release (or_zero (get_elem? o.fields i)) retained)
        λ released. store_word p i value (find p released) released

abbrev pub set_ptr_step : ℕ → ℤ → ℕ → Option HeapObject → Objects → Option Objects
set_ptr_step p field_idx value none objects = none
set_ptr_step p field_idx value (some o) objects =
    set_ptr_at p (checked_index field_idx o.fields) value objects

unfoldable pub runtime_class_set_field_ptr : ℕ → ℤ → ℕ → Objects → Option Objects
unfolding runtime_retain runtime_release
runtime_class_set_field_ptr p field_idx value objects =
    if p == null then some objects else set_ptr_step p field_idx value (find p objects) objects

abbrev pub runtime_class_get_field_ptr : ℕ → ℤ → Objects → Option ℕ
runtime_class_get_field_ptr = get_field

-- An `int64_t` as the word with the same bits.
abbrev pub to_word : ℤ → ℕ
to_word (pos n) = n
to_word (negsuc n) = 2 ^ 64 - 1 - n

abbrev pub of_word : ℕ → ℤ
of_word w = if ltb w (2 ^ 63) then pos w else negsuc (2 ^ 64 - 1 - w)

abbrev pub runtime_class_set_field_int : ℕ → ℤ → ℤ → Objects → Option Objects
runtime_class_set_field_int p field_idx value = set_field p field_idx (to_word value)

abbrev pub runtime_class_get_field_int : ℕ → ℤ → Objects → Option ℤ
runtime_class_get_field_int p field_idx objects =
    bind (get_field p field_idx objects) λ w. some (of_word w)

abbrev pub bool_word : Bool → ℕ
bool_word false = 0
bool_word true = 1

abbrev pub runtime_class_set_field_bool : ℕ → ℤ → Bool → Objects → Option Objects
runtime_class_set_field_bool p field_idx value = set_field p field_idx (bool_word value)

abbrev pub runtime_class_get_field_bool : ℕ → ℤ → Objects → Option Bool
runtime_class_get_field_bool p field_idx objects =
    bind (get_field p field_idx objects) λ w. some (if w == 0 then false else true)

-- The bits of a double are a parameter, and so are the double of a word, and 0.0.
module _ {D : Type 0} (bits : D → ℕ) (of_bits : ℕ → D) where
  abbrev pub runtime_class_set_field_float : ℕ → ℤ → D → Objects → Option Objects
  runtime_class_set_field_float p field_idx value = set_field p field_idx (bits value)

  -- 0.0 is the double of the word 0.
  abbrev pub runtime_class_get_field_float : ℕ → ℤ → Objects → Option D
  runtime_class_get_field_float p field_idx objects =
      bind (get_field p field_idx objects) λ w. some (of_bits w)
