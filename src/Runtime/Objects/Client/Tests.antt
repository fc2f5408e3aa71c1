-- ===== src/Runtime/Objects/Client/Tests.antt =====
-- Runs of compiled code on class objects, and the theorems at them.
use aithon.Prelude.{
  ℕ, ◌+◌, ◌-◌, ◌≡◌, inr, refl, Bool, true, false, some, List, [], ◌∷◌, Bytes, ◌==◌, arith, ℤ, pos,
}
use aithon.Runtime.Objects.{
  HeapObject, Objects, find, update, remove, runtime_class_create, runtime_retain, runtime_release,
  set_field, runtime_class_set_field_ptr, runtime_class_get_field_ptr,
}
use aithon.Runtime.Objects.Client.{
  Client, start, losing, creates, releases, sets_pointer, Steps, here, more,
}
use aithon.Runtime.Objects.Client.Safety.{Steps-Agrees, Steps-returns, lost-find}
use aithon.Runtime.Objects.Accesses.{old_word}
use aithon.Runtime.Objects.Calls.{Kind}
use aithon.Runtime.Objects.Counts.{Agrees}
use aithon.Runtime.Objects.Store.{one, total}

-- Only field 0 is a reference.
abbrev layout : Bytes → ℕ → Bool
layout name i = i == 0

abbrev object : ℤ → List ℕ → HeapObject
object n fields = record { ref_count = n; class_name = []; fields = fields }

-- Two objects at 1 and 2.
abbrev two : Client
two = record {
  objects = (2, object (pos 1) []) ∷ (1, object (pos 1) (0 ∷ 0 ∷ [])) ∷ [];
  handles = λ x. 0 + one 1 x + one 2 x;
  lost = λ x. 0;
}

two_made : Steps layout start two
unfolding runtime_class_create find
two_made =
    more _ _ (more _ _ here (creates [] 2 1 (omega arith) refl)) (creates [] 0 2 (omega arith) refl)

-- The field of the first refers to the second.
abbrev linked_objects : Objects
linked_objects = (2, object (pos 2) []) ∷ (1, object (pos 1) (2 ∷ 0 ∷ [])) ∷ []

abbrev linked : Client
linked = record two {
  objects = linked_objects;
  lost = losing layout (old_word layout 1 (pos 0) two.objects) two linked_objects;
}

two-Kind : Kind layout two.objects 1 (pos 0) true
unfolding find
two-Kind o e i f = ground arith

linked_made : Steps layout start linked
unfolding find update runtime_retain runtime_release runtime_class_set_field_ptr
linked_made = more two _ two_made (
    sets_pointer 1 (pos 0) 2 linked_objects (inr (omega arith, omega arith))
      (inr (omega arith, omega arith)) two-Kind refl)

linked-Kind : Kind layout linked.objects 1 (pos 0) true
unfolding find
linked-Kind o e i f = ground arith

linked_number : Kind layout linked.objects 1 (pos 1) false
unfolding find
linked_number o e i f = ground arith

-- The code lets the second go, then the first.
abbrev alone_objects : Objects
alone_objects = (2, object (pos 1) []) ∷ (1, object (pos 1) (2 ∷ 0 ∷ [])) ∷ []

abbrev alone : Client
alone = record {
  objects = alone_objects;
  handles = λ x. linked.handles x - one 2 x;
  lost = losing layout 2 linked alone_objects;
}

alone_made : Steps layout start alone
unfolding find update remove runtime_release
alone_made =
    more linked _ linked_made (releases 2 alone_objects (inr (omega arith, omega arith)) refl)

abbrev leaked_objects : Objects
leaked_objects = (2, object (pos 1) []) ∷ []

abbrev leaked : Client
leaked = record {
  objects = leaked_objects;
  handles = λ x. alone.handles x - one 1 x;
  lost = losing layout 1 alone leaked_objects;
}

leaked_made : Steps layout start leaked
unfolding find update remove runtime_release
leaked_made =
    more alone _ alone_made (releases 1 leaked_objects (inr (omega arith, omega arith)) refl)

Steps-Agrees_example :
    Agrees
      (find 2 linked.objects)
      (total layout linked.objects 2 + (linked.handles 2 + linked.lost 2))
      0
Steps-Agrees_example = Steps-Agrees layout linked 2 linked_made (omega arith)

Steps-returns_example :
    ((os : Objects) × (runtime_retain 1 linked.objects ≡ some os))
    × (((os : Objects) × (runtime_release 1 linked.objects ≡ some os))
        × (((os : Objects) × (runtime_class_set_field_ptr 1 (pos 0) 2 linked.objects ≡ some os))
            × (((os : Objects) × (set_field 1 (pos 1) 5 linked.objects ≡ some os))
                × ((x : ℕ) × ((runtime_class_get_field_ptr 1 (pos 0) linked.objects ≡ some x)
                      × ((os : Objects) × (runtime_retain x linked.objects ≡ some os)))))))
Steps-returns_example =
    Steps-returns layout linked 1 2 5 (pos 0) (pos 1) linked_made (inr (omega arith, omega arith))
      (inr (omega arith, omega arith)) linked-Kind linked_number

lost-find_example : (o : HeapObject) × (find 2 leaked.objects ≡ some o)
unfolding find
lost-find_example = lost-find layout leaked leaked 2 leaked_made here (omega arith) (omega arith)
