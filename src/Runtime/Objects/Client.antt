-- ===== src/Runtime/Objects/Client.antt =====
-- Compiled code as a client of the class objects of src/runtime/runtime.cpp. It passes only pointers that
-- it has a reference to, retains what it keeps, and releases what it has retained or created.
pub mod Safety
mod Tests
use aithon.Prelude.{ℕ, ◌+◌, ◌-◌, ◌<◌, ◌≡◌, ◌≢◌, Bool, true, false, Option, none, some, [], Bytes, ℤ}
use aithon.Runtime.Objects.{
  null, Objects, find, runtime_class_create, runtime_retain, runtime_release, set_field,
  runtime_class_set_field_ptr, runtime_class_get_field_ptr,
}
use aithon.Runtime.Objects.Accesses.{old_word}
use aithon.Runtime.Objects.Calls.{Kind}
use aithon.Runtime.Objects.Pointers.{lost_by, Usable}
use aithon.Runtime.Objects.Store.{one}

-- `handles` has the references that the code has to an object. `lost` is not state of the program: it has
-- the references that were in the fields of an object when that was freed.
pub record Client : Type 0 where
  pub objects : Objects
  pub handles : ℕ → ℕ
  pub lost : ℕ → ℕ

abbrev pub start : Client
start = record { objects = []; handles = λ x. 0; lost = λ x. 0 }

module _ (layout : Bytes → ℕ → Bool) where
  -- The references lost by an object that the call has freed.
  abbrev pub losing : ℕ → Client → Objects → ℕ → ℕ
  losing w c os x = c.lost x + lost_by layout (find w c.objects) (find w os) x

  pub data Step (c : Client) : Client → Type 0 where
    -- `a` is what `malloc` gives.
    creates :
        (class_name : Bytes) (num_fields a : ℕ)
        → a ≢ null
        → find a c.objects ≡ none
        → Step c (record c {
          objects = runtime_class_create class_name num_fields a c.objects;
          handles = λ x. c.handles x + one a x;
        })
    retains :
        (p : ℕ) (os : Objects)
        → Usable layout c.handles p
        → runtime_retain p c.objects ≡ some os
        → Step c (record c { objects = os; handles = λ x. c.handles x + one p x })
    releases :
        (p : ℕ) (os : Objects)
        → Usable layout c.handles p
        → runtime_release p c.objects ≡ some os
        → Step c
            (record { objects = os; handles = λ x. c.handles x - one p x; lost = losing p c os })
    sets_pointer :
        (p : ℕ) (field_idx : ℤ) (value : ℕ) (os : Objects)
        → Usable layout c.handles p
        → Usable layout c.handles value
        → Kind layout c.objects p field_idx true
        → runtime_class_set_field_ptr p field_idx value c.objects ≡ some os
        → Step c
            (record c { objects = os; lost = losing (old_word layout p field_idx c.objects) c os })
    sets_number :
        (p : ℕ) (field_idx : ℤ) (word : ℕ) (os : Objects)
        → Usable layout c.handles p
        → Kind layout c.objects p field_idx false
        → set_field p field_idx word c.objects ≡ some os
        → Step c (record c { objects = os })
    -- The code keeps what it reads.
    keeps :
        (p : ℕ) (field_idx : ℤ) (value : ℕ) (os : Objects)
        → Usable layout c.handles p
        → Kind layout c.objects p field_idx true
        → runtime_class_get_field_ptr p field_idx c.objects ≡ some value
        → runtime_retain value c.objects ≡ some os
        → Step c (record c { objects = os; handles = λ x. c.handles x + one value x })

  -- Newest step outermost.
  pub data Steps (c : Client) : Client → Type 0 where
    here : Steps c c
    more : (d e : Client) → Steps c d → Step d e → Steps c e
