-- ===== src/Runtime/Objects/Tests.antt =====
-- Calls of src/runtime/runtime.cpp on class objects, and the theorem on integer fields at one of them.
use aithon.Prelude.{
  ◌≡◌, refl, true, ◌&&◌, none, some, [], ◌∷◌, ◌==◌, if◌then◌else◌, arith, pos, negsuc, eqb_ℤ,
}
use aithon.Runtime.Objects.{
  HeapObject, Objects, find, update, remove, get_field, runtime_class_create, runtime_release,
  runtime_class_set_field_int, runtime_class_get_field_int, runtime_class_get_field_bool,
}
use aithon.Runtime.Objects.Fields.{get_field_int-set_field_int}

abbrev object : HeapObject
object = record { ref_count = pos 1; class_name = []; fields = 4 ∷ 5 ∷ [] }

abbrev objects : Objects
objects = (9, object) ∷ []

created :
    runtime_class_create [] 1 3 objects
    ≡ (3, record { ref_count = pos 1; class_name = []; fields = 0 ∷ [] }) ∷ objects
unfolding runtime_class_create
created = refl

-- A freed object is not there.
freed : runtime_release 9 objects ≡ some []
unfolding runtime_release find update remove
freed = refl

dangling : runtime_release 9 [] ≡ none
unfolding runtime_release find update remove
dangling = refl

-- An index out of range is not an error.
past_the_end : runtime_class_get_field_int 9 (pos 2) objects ≡ some (pos 0)
unfolding get_field find
past_the_end = refl

any_word_is_true : runtime_class_get_field_bool 9 (pos 1) objects ≡ some true
unfolding get_field find
any_word_is_true = refl

get_field_int-set_field_int_example :
    (os : Objects) × ((runtime_class_set_field_int 9 (pos 1) (negsuc 0) objects ≡ some os)
      × (runtime_class_get_field_int 9 (pos 1) os ≡ (
          if 9 == 9 && eqb_ℤ (pos 1) (pos 1)
          then some (negsuc 0)
          else runtime_class_get_field_int 9 (pos 1) objects)))
unfolding find
get_field_int-set_field_int_example =
    get_field_int-set_field_int 9 1 (negsuc 0) object objects 9 (pos 1) (omega arith) refl refl
      (omega arith)
