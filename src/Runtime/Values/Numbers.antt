-- ===== src/Runtime/Values/Numbers.antt =====
-- The remainder of integers of src/runtime/pyobject.cpp.
use native.Mathlib.Nat.{div-add-mod, mod-lt, mul_comm}
use aithon.Prelude.{
  ℕ, zero, suc, ◌+◌, ◌*◌, ◌/◌, ◌%◌, ◌<◌, ◌≡◌, ◌≢◌, refl, sym, ap, ◌∙◌, false, arith, ℤ, pos, negsuc,
  eqb_ℤ,
}
use aithon.Runtime.Values.{returns, int_value, Floats, size, signed, ◌%ℤ◌, quotient_overflows}
use aithon.Runtime.Values.Compare.{ne}
use aithon.Runtime.Values.Operators.{mod_}

size-signed : (a : ℤ) (n : ℕ) → size (signed a n) ≡ n
size-signed (pos a) n = omega arith
size-signed (negsuc a) n = ground arith

divisor_size : (b : ℤ) → b ≢ pos 0 → 0 < size b
divisor_size (pos zero) ne = absurd (ne refl)
divisor_size (pos (suc n)) ne = omega arith
divisor_size (negsuc n) ne = omega arith

divisor_test : (b : ℤ) → b ≢ pos 0 → eqb_ℤ b (pos 0) ≡ false
divisor_test (pos zero) ne = absurd (ne refl)
divisor_test (pos (suc n)) ne = ground arith
divisor_test (negsuc n) ne = ground arith

module _ {D : Type 0} (f : Floats D) (max_size : ℕ) where
  -- For integers, a divisor that is not 0 and a quotient that does not overflow: `%` returns an integer
  -- that with a multiple of the divisor makes up the first number, without their signs, is less than the
  -- divisor, without its sign, and has the sign of the first number, or is 0.
  pub mod-remainder :
      (a b : ℤ)
      → b ≢ pos 0
      → quotient_overflows a b ≡ false
      → (q : ℕ) × ((r : ℤ) × ((mod_ f max_size (int_value a) (int_value b) ≡ returns (int_value r))
            × ((size a ≡ q * size b + size r) × ((size r < size b) × (r ≡ signed a (size r))))))
  unfolding mod_ ◌%ℤ◌
  mod-remainder a b ne no_overflow =
      let n : ℕ = size a % size b in
      let same : size (signed a n) ≡ n = size-signed a n in
      (
        size a / size b,
        (
          signed a n,
          (
            rw (divisor_test b ne, no_overflow) refl,
            (
              rw same (
                  sym (div-add-mod (size a) (size b))
                  ∙ ap (λ t. t + n) (mul_comm (size b) (size a / size b))),
              (rw same (mod-lt (size a) (divisor_size b ne)), sym (ap (signed a) same)),
            ),
          ),
        ),
      )
