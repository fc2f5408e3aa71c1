-- ===== src/Runtime/Objects/Fields.antt =====
-- Number fields of the class objects of src/runtime/runtime.cpp.
use native.Mathlib.Decide.{ℕ_discrete}
use aithon.Prelude.{
  ℕ, ◌^◌, ◌<◌, ◌≡◌, ◌≢◌, refl, ap, ◌∙◌, Bool, true, false, ◌&&◌, some, List, ltb, ◌==◌,
  if◌then◌else◌, length, set, length-set, get_elem?-set, arith, ℤ, pos, negsuc, eqb_ℤ,
}
use aithon.Runtime.Objects.{
  null, HeapObject, Objects, find, update, checked_index, word_at, set_field, get_field, to_word,
  of_word, runtime_class_set_field_int, runtime_class_get_field_int,
}
use aithon.Runtime.Objects.Store.{find-update_same, find-update_other}

-- The values of an `int64_t`.
abbrev pub Int64 : ℤ → Type 0
Int64 (pos n) = n < 2 ^ 63
Int64 (negsuc n) = n < 2 ^ 63

of_word-to_word : (z : ℤ) → Int64 z → of_word (to_word z) ≡ z
of_word-to_word (pos n) h = ground arith
of_word-to_word (negsuc n) h = ground arith

checked_index-set : (j : ℤ) (l : List ℕ) (i w : ℕ) → checked_index j (set l i w) ≡ checked_index j l
checked_index-set (pos j) l i w = rw (length-set l i w) refl
checked_index-set (negsuc j) l i w = refl

word_at-set :
    (l : List ℕ) (i w : ℕ) (j : ℤ)
    → ltb i (length l) ≡ true
    → word_at (set l i w) (checked_index j (set l i w))
      ≡ (if eqb_ℤ j (pos i) then w else word_at l (checked_index j l))
word_at-set l i w (pos j) h =
    rw (checked_index-set (pos j) l i w) (ground (arith, get_elem?-set l i j w h))
word_at-set l i w (negsuc j) h = ground arith

int_at :
    (c : Bool) (value : ℤ) (w : ℕ)
    → Int64 value
    → some (of_word (if c then to_word value else w)) ≡ (if c then some value else some (of_word w))
int_at true value w h = ap (λ z. some z) (of_word-to_word value h)
int_at false value w h = refl

-- To an object at an address that is not null, with the field in range, and for a value of 64 bits: the
-- setter of integers returns, and then the getter gives that value for the field, and for any other
-- index of the object and any other pointer what it gave before.
pub get_field_int-set_field_int :
    (p i : ℕ) (value : ℤ) (o : HeapObject) (objects : Objects) (q : ℕ) (j : ℤ)
    → p ≢ null
    → find p objects ≡ some o
    → ltb i (length o.fields) ≡ true
    → Int64 value
    → (os : Objects) × ((runtime_class_set_field_int p (pos i) value objects ≡ some os)
        × (runtime_class_get_field_int q j os ≡ (
            if q == p && eqb_ℤ j (pos i)
            then some value
            else runtime_class_get_field_int q j objects)))
unfolding set_field get_field
get_field_int-set_field_int p i value o objects q j ne e lt h =
    let o' : HeapObject = record o { fields = set o.fields i (to_word value) } in
    let proper : (p == null) ≡ false = ground arith in
    (
      update p o' objects,
      (
        rw (proper, e, lt) refl,
        elim (ℕ_discrete q p) [
          | yes same ↦
              let here : (q == p) ≡ true = ground arith in
              let q_proper : (q == null) ≡ false = ground arith in
              let before : find q objects ≡ some o = ap (λ x. find x objects) same ∙ e in
              let after : find q (update p o' objects) ≡ some o' =
                ap (λ x. find x (update p o' objects)) same ∙ find-update_same p o o' objects e in
              rw (here, q_proper, before, after, word_at-set o.fields i (to_word value) j lt)
                (int_at (eqb_ℤ j (pos i)) value (word_at o.fields (checked_index j o.fields)) h)
          | no other ↦
              let apart : (q == p) ≡ false = ground arith in
              rw (apart, find-update_other q p o' objects other) refl
        ],
      ),
    )
