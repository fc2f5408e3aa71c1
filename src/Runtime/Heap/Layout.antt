-- ===== src/Runtime/Heap/Layout.antt =====
-- The layout of a heap: its objects and its allocation pointer.
use aithon.Prelude.{
  ℕ, ◌+◌, ◌^◌, ◌<◌, ◌≤◌, ◌≡◌, refl, false, List, [], ◌∷◌, ◌++◌, arith, Bool-cases, ap, inl, inr,
  if◌then◌else◌,
}
use aithon.Runtime.Heap.{
  Object, Heap, align, obj_size, keep_marked, compact_heap, place, overflows, allocate,
}

abbrev pub extent : List Object → ℕ
extent [] = 0
extent (o ∷ os) = obj_size o + extent os

pub record IsLaidOut (h : Heap) : Type 0 where
  pub filled : h.allocation_ptr ≡ extent h.objects
  pub counted : h.used_size ≡ h.allocation_ptr
  pub bounded : h.allocation_ptr ≤ h.total_size

extent-append : (xs ys : List Object) → extent (xs ++ ys) ≡ extent xs + extent ys
extent-append [] ys = omega arith
extent-append (x ∷ xs) ys = omega (arith, extent-append xs ys)

keep_marked_end :
    (os : List Object) (ptr : ℕ) → (keep_marked os ptr).1 ≡ ptr + extent (keep_marked os ptr).0
unfolding keep_marked
keep_marked_end [] ptr = omega arith
keep_marked_end (o ∷ os) ptr = elim (Bool-cases o.marked) [
  | inl live ↦ rw live (omega (arith, keep_marked_end os (ptr + obj_size o)))
  | inr dead ↦ rw dead (keep_marked_end os ptr)
]

keep_marked_le : (os : List Object) (ptr : ℕ) → extent (keep_marked os ptr).0 ≤ extent os
unfolding keep_marked
keep_marked_le [] ptr = omega arith
keep_marked_le (o ∷ os) ptr = elim (Bool-cases o.marked) [
  | inl live ↦ rw live (omega (arith, keep_marked_le os (ptr + obj_size o)))
  | inr dead ↦ rw dead (omega (arith, keep_marked_le os ptr))
]

-- The objects that a collection keeps, unmarked again.
abbrev pub survivors : List Object → List Object
survivors [] = []
survivors (o ∷ os) = if o.marked then record o { marked = false } ∷ survivors os else survivors os

keep_marked-survivors : (os : List Object) (ptr : ℕ) → (keep_marked os ptr).0 ≡ survivors os
unfolding keep_marked
keep_marked-survivors [] ptr = refl
keep_marked-survivors (o ∷ os) ptr = elim (Bool-cases o.marked) [
  | inl live ↦
      rw live (ap (◌∷◌ (record o { marked = false })) (keep_marked-survivors os (ptr + obj_size o)))
  | inr dead ↦ rw dead (keep_marked-survivors os ptr)
]

-- A collection keeps the marked objects, in order and with their marks reset, and nothing else; the
-- heap stays laid out and does not grow.
pub compact_heap_lem :
    (h : Heap)
    → IsLaidOut h
    → ((compact_heap h).objects ≡ survivors h.objects)
      × IsLaidOut (compact_heap h)
      × ((compact_heap h).used_size ≤ h.used_size)
unfolding compact_heap
compact_heap_lem h v = (
  keep_marked-survivors h.objects 0,
  record {
    filled = omega (arith, keep_marked_end h.objects 0);
    counted = refl;
    bounded = omega (arith, v, keep_marked_end h.objects 0, keep_marked_le h.objects 0);
  },
  omega (arith, v, keep_marked_end h.objects 0, keep_marked_le h.objects 0),
)

pub place-IsLaidOut :
    (h : Heap) (size : ℕ) → overflows h size ≡ false → IsLaidOut h → IsLaidOut (place h size)
place-IsLaidOut h size e v = record {
  filled = omega (arith, v, extent-append h.objects (record { size = size; marked = false } ∷ []));
  counted = ground arith;
  bounded = ground arith;
}

-- An allocation of less than 2^63 bytes keeps the heap laid out, whether it fits at once, after a
-- collection or not at all.
pub allocate-IsLaidOut :
    (h : Heap) (request : ℕ) → request < 2 ^ 63 → IsLaidOut h → IsLaidOut (allocate h request).0
unfolding allocate
allocate-IsLaidOut h request small v = elim (Bool-cases (overflows h (align request))) [
  | inl full ↦ elim (Bool-cases (overflows (compact_heap h) (align request))) [
    | inl out ↦ rw full (rw out (compact_heap_lem h v).1)
    | inr room ↦
        rw full
          (rw room (place-IsLaidOut (compact_heap h) (align request) room (compact_heap_lem h v).1))
  ]
  | inr fits ↦ rw fits (place-IsLaidOut h (align request) fits v)
]
