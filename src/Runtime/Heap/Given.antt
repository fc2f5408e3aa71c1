-- ===== src/Runtime/Heap/Given.antt =====
-- Two attempts to allocate, with a collection between them, as src/runtime/actor_process.cpp and
-- src/runtime/green_threads.cpp make them.
use aithon.Prelude.{
  ℕ, ◌+◌, ◌^◌, ◌≤◌, ◌<◌, ◌≡◌, refl, false, Option, none, some, List, [], ◌∷◌, ◌++◌, arith,
  Bool-cases, inl, inr, All,
}
use aithon.Runtime.Heap.{
  Object, Heap, empty, align, keep_marked, compact_heap, collect_garbage, place, overflows,
  allocate, header_size,
}
use aithon.Runtime.Heap.Full.{compact_heap-Unmarked}
use aithon.Runtime.Heap.Layout.{IsLaidOut, extent, survivors, compact_heap_lem, place-IsLaidOut}

-- A heap of a size whose last object is that of a request, with its payload at the address.
pub record Placed (h : Heap) (total request address : ℕ) : Type 0 where
  pub laid_out : IsLaidOut h
  pub same_total : h.total_size ≡ total
  pub others : List Object
  pub last : h.objects ≡ others ++ record { size = align request; marked = false } ∷ []
  pub behind : address ≡ extent others + header_size
  pub ends : address + align request ≡ h.allocation_ptr
  pub large : request ≤ align request

place-Placed :
    (h : Heap) (request : ℕ)
    → request < 2 ^ 63
    → overflows h (align request) ≡ false
    → IsLaidOut h
    → Placed (place h (align request)) h.total_size request (h.allocation_ptr + header_size)
place-Placed h request small fits v = record {
  laid_out = place-IsLaidOut h (align request) fits v;
  same_total = refl;
  others = h.objects;
  last = refl;
  behind = omega (arith, v);
  ends = omega arith;
  large = omega arith;
}

-- What one attempt gives.
pub data Tried (h : Heap) (request : ℕ) (r : Heap × Option ℕ) : Type 0 where
  given :
      (h' : Heap) (address : ℕ)
      → Placed h' h.total_size request address
      → r ≡ (h', some address)
      → Tried h request r
  full :
      h.total_size < (compact_heap h).allocation_ptr + header_size + align request
      → r ≡ (compact_heap h, none)
      → Tried h request r

pub allocate-Tried :
    (h : Heap) (request : ℕ) → request < 2 ^ 63 → IsLaidOut h → Tried h request (allocate h request)
unfolding allocate compact_heap
allocate-Tried h request small v = elim (Bool-cases (overflows h (align request))) [
  | inl over ↦ elim (Bool-cases (overflows (compact_heap h) (align request))) [
    | inl out ↦ full (ground arith) (rw (over, out) refl)
    | inr room ↦
        given _ _ (place-Placed (compact_heap h) request small room (compact_heap_lem h v).1)
          (rw (over, room) refl)
  ]
  | inr fits ↦ given _ _ (place-Placed h request small fits v) (rw fits refl)
]

survivors-unmarked : (os : List Object) → All (λ (o : Object). o.marked ≡ false) (survivors os)
survivors-unmarked [] = tt
survivors-unmarked (o ∷ os) = elim (Bool-cases o.marked) [
  | inl live ↦ rw live (refl, survivors-unmarked os)
  | inr dead ↦ rw dead (survivors-unmarked os)
]

-- A second collection discards all that the first one has kept, since that has lost its marks.
pub collected_twice :
    (h : Heap) → IsLaidOut h → collect_garbage (compact_heap h) ≡ empty h.total_size
unfolding compact_heap
collected_twice h v =
    compact_heap-Unmarked (compact_heap h)
      (rw ((compact_heap_lem h v).0) (survivors-unmarked h.objects))

empty-IsLaidOut : (total : ℕ) → IsLaidOut (empty total)
empty-IsLaidOut total = record { filled = refl; counted = refl; bounded = omega arith }

-- What the attempt after the second collection gives.
pub data Retried (total request : ℕ) (r : Heap × Option ℕ) : Type 0 where
  given :
      (h : Heap) (address : ℕ)
      → Placed h total request address
      → r ≡ (h, some address)
      → Retried total request r
  full : total < header_size + align request → r ≡ (empty total, none) → Retried total request r

pub allocate-Retried :
    (total request : ℕ) → request < 2 ^ 63 → Retried total request (allocate (empty total) request)
unfolding compact_heap keep_marked
allocate-Retried total request small =
    retried (allocate-Tried (empty total) request small (empty-IsLaidOut total))
  where
    retried :
        Tried (empty total) request (allocate (empty total) request)
        → Retried total request (allocate (empty total) request)
    retried (given h address p e) = given h address p e
    retried (full out e) = full (omega arith) e
