-- ===== src/Word/Bit/Digits.antt =====
-- Digit i of a number, and that a number is given by its digits.
use pennylane_lightning.Prelude.{
  ℕ, zero, suc, ◌+◌, ◌/◌, ◌%◌, ◌≤◌, ◌≡◌, refl, Bool, false, arith, ◌==◌,
}

unfoldable pub bit : ℕ → ℕ → Bool
bit x zero = x % 2 == 1
bit x (suc i) = bit (x / 2) i

bit_ext_below : (n x y : ℕ) → x + y ≤ n → ((i : ℕ) → bit x i ≡ bit y i) → x ≡ y
unfolding bit
bit_ext_below zero x y h e = omega arith
bit_ext_below (suc n) x y h e =
    ground (arith, e 0, bit_ext_below n (x / 2) (y / 2) (omega arith) (λ i. e (suc i)))

-- Numbers with the same digits are equal.
pub bit_ext : (x y : ℕ) → ((i : ℕ) → bit x i ≡ bit y i) → x ≡ y
bit_ext x y e = bit_ext_below (x + y) x y (omega arith) e

pub bit-zero : (i : ℕ) → bit 0 i ≡ false
unfolding bit
bit-zero zero = refl
bit-zero (suc i) = bit-zero i
