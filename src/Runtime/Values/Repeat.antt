-- ===== src/Runtime/Values/Repeat.antt =====
-- The products of strings and integers of src/runtime/pyobject.cpp.
use native.Mathlib.Nat.{mul-add, suc-mul}
use aithon.Prelude.{
  ℕ, zero, suc, ◌+◌, ◌-◌, ◌*◌, ◌%◌, ◌^◌, ◌≤◌, ◌<◌, ◌≡◌, refl, ap, true, false, List, [], ◌∷◌, ◌++◌,
  Bytes, ltb, length, length-append, arith, pos, negsuc,
}
use aithon.Runtime.Values.{returns, throws, length_error, int_value, string_value, Floats}
use aithon.Runtime.Values.Operators.{copies, mul}

length-copies {ℓ} : {A : Type ℓ} (n : ℕ) (xs : List A) → length (copies n xs) ≡ length xs * n
length-copies zero xs = omega arith
length-copies (suc n) xs =
    omega (arith, length-append xs (copies n xs), length-copies n xs, mul-add (length xs) n 1)

-- The room for so many characters, as an unsigned number.
reserved : (l c k : ℕ) → 0 < l → c + suc k ≡ 2 ^ 64 → l * suc k < 2 ^ 63 → 2 ^ 63 < l * c % 2 ^ 64
reserved zero c k lt e small = absurd (omega arith)
reserved (suc l) c k lt e small =
    let whole : suc l * (c + suc k) ≡ suc l * 2 ^ 64 = ap (λ x. suc l * x) e in
    omega (arith, mul-add (suc l) c (suc k), whole)

-- So many copies of a string, one behind the other.
pub data Repeats (s : Bytes) : ℕ → Bytes → Type 0 where
  no_copy : Repeats s zero []
  copy : (n : ℕ) (t : Bytes) → Repeats s n t → Repeats s (suc n) (s ++ t)

copies-Repeats : (s : Bytes) (n : ℕ) → Repeats s n (copies n s)
copies-Repeats s zero = no_copy
copies-Repeats s (suc n) = copy n (copies n s) (copies-Repeats s n)

module _ {D : Type 0} (f : Floats D) (max_size : ℕ) where
  -- For a string that is not empty, and a positive number of copies that fit: string times number and
  -- number times string are one string, which is so many copies of the first, one behind the other, and
  -- has the product as its length. With the number negated, number times string is the empty string and
  -- string times number throws.
  pub mul_copies :
      (s : Bytes) (n : ℕ)
      → 0 < length s
      → length s * suc n ≤ max_size
      → max_size < 2 ^ 63
      → (t : Bytes) × (Repeats s (suc n) t)
        × ((length t ≡ length s * suc n)
            × ((mul f max_size (string_value s) (int_value (pos (suc n)))
                  ≡ returns (string_value t))
                × ((mul f max_size (int_value (pos (suc n))) (string_value s)
                      ≡ returns (string_value t))
                    × ((mul f max_size (int_value (negsuc n)) (string_value s)
                          ≡ returns (string_value []))
                        × (mul f max_size (string_value s) (int_value (negsuc n))
                            ≡ throws length_error)))))
  unfolding mul
  mul_copies s n some_left fit room =
      let up : ltb max_size (length s * suc n % 2 ^ 64) ≡ false = ground arith in
      let down : ltb max_size (length s * (2 ^ 64 - 1 - n) % 2 ^ 64) ≡ true = ground (
        arith,
        reserved (length s) (2 ^ 64 - 1 - n) n some_left (small_count s n some_left fit room)
            (omega arith),
      ) in
      (
        copies (suc n) s,
        copies-Repeats s (suc n),
        (length-copies (suc n) s, (rw up refl, (refl, (refl, rw down refl)))),
      )
    where
      small_count :
          (s : Bytes) (n : ℕ)
          → 0 < length s
          → length s * suc n ≤ max_size
          → max_size < 2 ^ 63
          → (2 ^ 64 - 1 - n) + suc n ≡ 2 ^ 64
      small_count [] n a b c = absurd (omega arith)
      small_count (x ∷ s) n a b c = omega (arith, suc-mul (length s) (suc n))
