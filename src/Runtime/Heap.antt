-- ===== src/Runtime/Heap.antt =====
-- src/runtime/heap.cpp and include/runtime/heap.h: the bump-pointer heap of one actor. Addresses
-- are offsets from `heap_start_`; the bytes up to `allocation_ptr_` are a sequence of objects.
pub mod Layout
pub mod Full
pub mod Given
pub mod Pointers
use aithon.Prelude.{
  ℕ, ◌+◌, ◌-◌, ◌*◌, ◌/◌, ◌%◌, ◌^◌, Bool, true, false, Option, none, some, List, [], ◌∷◌, ◌++◌, ltb,
  if◌then◌else◌,
}

-- `sizeof(ObjectHeader)`, and the range of `size_t`.
abbrev pub header_size : ℕ
header_size = 16

abbrev pub word : ℕ
word = 2 ^ 64

pub record Object : Type 0 where
  pub size : ℕ
  pub marked : Bool

pub record Heap : Type 0 where
  pub objects : List Object
  pub allocation_ptr : ℕ
  pub total_size : ℕ
  pub used_size : ℕ

-- The constructor, where `aligned_alloc` gives the memory.
abbrev pub empty : ℕ → Heap
empty size = record { objects = []; allocation_ptr = 0; total_size = size; used_size = 0 }

-- `(size + 7) & ~7` on a `size_t`.
abbrev pub align : ℕ → ℕ
align size = ((size + 7) % word) / 8 * 8

-- `sizeof(ObjectHeader) + size`, a `size_t`
abbrev pub footprint : ℕ → ℕ
footprint size = (header_size + size) % word

abbrev pub obj_size : Object → ℕ
obj_size o = footprint o.size

-- The walk of `compact_heap`: the objects kept, and how far they reach from `ptr`.
unfoldable pub keep_marked : List Object → ℕ → List Object × ℕ
keep_marked [] ptr = ([], ptr)
keep_marked (o ∷ os) ptr =
    let (kept, end) = keep_marked os (if o.marked then ptr + obj_size o else ptr) in
    (if o.marked then record o { marked = false } ∷ kept else kept, end)

-- `new_used_size` grows in step with the pointer, from 0 as the pointer does from the start.
unfoldable pub compact_heap : Heap → Heap
unfolding keep_marked
compact_heap h =
    let (kept, end) = keep_marked h.objects 0 in
    record h { objects = kept; allocation_ptr = end; used_size = end }

abbrev pub collect_garbage : Heap → Heap
collect_garbage = compact_heap

abbrev pub place : Heap → ℕ → Heap
place h size = record h {
  objects = h.objects ++ record { size = size; marked = false } ∷ [];
  allocation_ptr = h.allocation_ptr + footprint size;
  used_size = h.used_size + footprint size;
}

abbrev pub overflows : Heap → ℕ → Bool
overflows h size = ltb h.total_size (h.allocation_ptr + footprint size)

-- The new heap, and the payload's address unless the memory is out. The sums are those of the code for a
-- request of less than 2 ^ 63 bytes, and for one that is rounded to 0. With any other the sum of pointers
-- in the test, or the size with the header, may pass the end of the address space, which C++ leaves
-- undefined: what is said here of such a request is not what the code does.
unfoldable pub allocate : Heap → ℕ → Heap × Option ℕ
allocate h request =
    let size = align request in
    if overflows h size
    then (let h' = collect_garbage h in
        if overflows h' size
        then (h', none)
        else (place h' size, some (h'.allocation_ptr + header_size)))
    else (place h size, some (h.allocation_ptr + header_size))

abbrev pub available : Heap → ℕ
available h = h.total_size - h.used_size
