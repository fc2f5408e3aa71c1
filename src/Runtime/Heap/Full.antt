-- ===== src/Runtime/Heap/Full.antt =====
-- What an allocation gives, where it fails, and what a full heap does to the objects in it.
use aithon.Prelude.{
  ℕ, ◌+◌, ◌≤◌, ◌<◌, ◌≡◌, inl, inr, refl, false, none, some, List, [], ◌∷◌, arith, Bool-cases,
  if◌then◌else◌, All, All-append, ltb, lt→ltb,
}
use native.Mathlib.Nat.{zero-add}
use aithon.Runtime.Heap.{
  Object, Heap, empty, align, footprint, compact_heap, keep_marked, place, overflows, allocate,
  header_size, word,
}
use aithon.Runtime.Heap.Layout.{IsLaidOut}

-- No object carries a mark. Nothing in the runtime sets one.
abbrev pub Unmarked : Heap → Type 0
Unmarked h = All (λ (o : Object). o.marked ≡ false) h.objects

keep_marked_unmarked :
    (os : List Object) (ptr : ℕ)
    → All (λ (o : Object). o.marked ≡ false) os
    → keep_marked os ptr ≡ ([], ptr)
unfolding keep_marked
keep_marked_unmarked [] ptr u = refl
keep_marked_unmarked (o ∷ os) ptr u = rw u.0 (keep_marked_unmarked os ptr u.1)

pub compact_heap-Unmarked : (h : Heap) → Unmarked h → compact_heap h ≡ empty h.total_size
unfolding compact_heap
compact_heap-Unmarked h u = rw (keep_marked_unmarked h.objects 0 u) refl

allocate-Unmarked : (h : Heap) (request : ℕ) → Unmarked h → Unmarked (allocate h request).0
unfolding allocate
allocate-Unmarked h request u = elim (Bool-cases (overflows h (align request))) [
  | inl full ↦ rw full (rw (compact_heap-Unmarked h u) (ground arith))
  | inr fits ↦ rw fits (
      All-append (λ (o : Object). o.marked ≡ false) h.objects
        (record { size = align request; marked = false } ∷ []) u (refl, tt))
]

-- On a laid-out heap, a request that with its header and its bytes rounded up to a multiple of 8 fits in
-- the free space, and that these do not take past 2^64, gets a block behind all the objects, which stay
-- as they are: its end is within the heap, and it holds as many bytes as were asked for.
pub allocate_fits :
    (h : Heap) (request : ℕ)
    → IsLaidOut h
    → request + 7 + header_size < word
    → h.allocation_ptr + header_size + align request ≤ h.total_size
    → (allocate h request ≡ (place h (align request), some (h.allocation_ptr + header_size)))
      × (request ≤ align request)
      × (h.allocation_ptr + header_size + align request ≡ (place h (align request)).allocation_ptr)
      × ((place h (align request)).allocation_ptr ≤ h.total_size)
unfolding allocate
allocate_fits h request v small room = (rw fits, omega arith, omega arith, omega arith)
  where
    fits : overflows h (align request) ≡ false
    fits = ground arith

-- On a full heap the collection discards every object: the new one, if an empty heap has room for
-- it, is then the only one, and lies at the start of the heap, over what was there.
pub allocate_full :
    (h : Heap) (request : ℕ)
    → Unmarked h
    → h.total_size < h.allocation_ptr + footprint (align request)
    → allocate h request ≡ (
        if ltb h.total_size (footprint (align request))
        then (empty h.total_size, none)
        else (place (empty h.total_size) (align request), some header_size))
unfolding allocate
allocate_full h request u full =
    rw (lt→ltb h.total_size _ full) (rw (compact_heap-Unmarked h u) (rw zero-add refl))

-- The largest requests wrap round: where there is room for a header, a request of up to seven bytes below
-- 2 ^ 64 is rounded to no byte at all, and an object with no payload is handed out for it.
pub allocate_wraps :
    (h : Heap) (request : ℕ)
    → request < word
    → word ≤ request + 7
    → h.allocation_ptr + header_size ≤ h.total_size
    → allocate h request ≡ (place h 0, some (h.allocation_ptr + header_size))
unfolding allocate
allocate_wraps h request range large room =
    let none_left : align request ≡ 0 = omega arith in
    let fits : overflows h 0 ≡ false = ground arith in rw none_left (rw fits refl)
