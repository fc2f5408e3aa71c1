-- ===== src/Runtime/Lists/Tests.antt =====
-- Lists and dictionaries of src/runtime/runtime.cpp in use, and the theorem on a list at one use.
use aithon.Prelude.{
  ◌≡◌, refl, true, Option, some, List, [], ◌∷◌, bytes_eq, codes, arith, pos, negsuc,
}
use aithon.Runtime.Lists.{
  int_val, string_ptr, RuntimeList, RuntimeDict, Strings, string_at, without, delete_string,
  free_values, runtime_list_create, runtime_list_get_string, runtime_list_get_int, find_value,
  set_entry, runtime_dict_set_int, runtime_dict_has_key, runtime_dict_free,
}
use aithon.Runtime.Lists.Memory.{
  Append, int_item, string_item, appended, Fresh, Restored, appended-Restored,
}

abbrev list : Option RuntimeList
list = some (int_val (pos 4) ∷ string_ptr 9 ∷ [])

-- An index below 0 is a number past the end.
below_zero : runtime_list_get_int list (negsuc 0) ≡ pos 0
below_zero = refl

a_string : runtime_list_get_string list (pos 1) ≡ 9
a_string = refl

not_a_string : runtime_list_get_string list (pos 0) ≡ 0
not_a_string = refl

abbrev dict : Option RuntimeDict
dict = some ((codes "a", string_ptr 9) ∷ [])

abbrev strings : Strings
strings = (9, codes "x") ∷ []

-- A string that is written over is not deleted with the dictionary.
written_over :
    runtime_dict_free (runtime_dict_set_int dict (some (codes "a")) (pos 5)) strings ≡ some strings
unfolding set_entry bytes_eq free_values runtime_dict_free
written_over = refl

freed : runtime_dict_free dict strings ≡ some []
unfolding free_values runtime_dict_free delete_string string_at without
freed = refl

has_key : runtime_dict_has_key dict (some (codes "a")) ≡ true
unfolding find_value bytes_eq
has_key = refl

abbrev calls : List Append
calls = int_item (pos 4) ∷ string_item (codes "x") 9 ∷ string_item (codes "y") 3 ∷ []

abbrev before : Strings
before = (7, codes "z") ∷ []

calls-Fresh : Fresh calls before
unfolding string_at
calls-Fresh = (omega arith, (refl, (omega arith, (refl, tt))))

appended-Restored_example : Restored (appended calls (runtime_list_create, before)) before
appended-Restored_example = appended-Restored calls before calls-Fresh
