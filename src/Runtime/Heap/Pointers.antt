-- ===== src/Runtime/Heap/Pointers.antt =====
-- The test for room in src/runtime/heap.cpp, `allocate`, on the pointers themselves, modulo 2 ^ 64.
use aithon.Prelude.{ℕ, ◌+◌, ◌%◌, ◌^◌, ◌<◌, ◌≡◌, Bool, ltb, arith}
use aithon.Runtime.Heap.{Heap, align, footprint, overflows, word, header_size}
use aithon.Runtime.Heap.Layout.{IsLaidOut}

-- `allocation_ptr_ + total > heap_end_`, where `heap_start_` is at an address.
abbrev passes_end : ℕ → Heap → ℕ → Bool
passes_end start h size =
    ltb ((start + h.total_size) % word) ((start + h.allocation_ptr + footprint size) % word)

-- With a laid-out heap that ends with room for a header below 2 ^ 63, and a request of less than 2 ^ 63
-- bytes, the pointers do not wrap round, and the test is the one on offsets.
passes_end-overflows :
    (start : ℕ) (h : Heap) (request : ℕ)
    → IsLaidOut h
    → start + h.total_size + header_size < 2 ^ 63
    → request < 2 ^ 63
    → passes_end start h (align request) ≡ overflows h (align request)
passes_end-overflows start h request v below small =
    let inside = v.bounded in
    let end : (start + h.total_size) % word ≡ start + h.total_size = omega arith in
    let behind : (start + h.allocation_ptr + footprint (align request)) % word
        ≡ start + h.allocation_ptr + footprint (align request) =
      omega arith in
    rw (end, behind) (ground arith)
