-- ===== src/Word/Bit/Laws.antt =====
-- The bitwise operations, shifts and powers of two, digit by digit.
use Prim.Native.Nat.{digits, differ, bit_and-bitwise, bit_or-bitwise, bit_xor-bitwise}
use pennylane_lightning.Prelude.{
  ℕ, zero, suc, ◌+◌, ◌*◌, ◌/◌, ◌%◌, ◌≤◌, ◌<◌, min, max, bit_and, bit_or, bit_xor, ◌≡◌, refl, ap,
  sym, ◌∙◌, Bool, false, ◌&&◌, ◌||◌, arith, ◌==◌, xor,
}
use pennylane_lightning.Word.Bit.Digits.{bit, bit-zero}

-- One digit of an operation that works digit by digit.
module _ (z : ℕ → ℕ) (f : ℕ → ℕ → ℕ) (g : Bool → Bool → Bool)
    (z_digits : (b i : ℕ) → bit (z b) i ≡ g false (bit b i))
    (f-lt-two : (x y : ℕ) → x < 2 → y < 2 → f x y < 2)
    (f_digit : (x y : ℕ) → x < 2 → y < 2 → (f x y == 1) ≡ g (x == 1) (y == 1)) where
  double-bit : (d c i : ℕ) → c < 2 → bit (d * 2 + c) (suc i) ≡ bit d i
  unfolding bit
  double-bit d c i h = ap (λ t. bit t i) {x = (d * 2 + c) / 2} (omega arith)

  bit-digits : (n a b i : ℕ) → a ≤ n → bit (digits z f n a b) i ≡ g (bit a i) (bit b i)
  unfolding bit
  bit-digits zero zero b i h = z_digits b i ∙ ap (λ t. g t (bit b i)) (sym (bit-zero i))
  bit-digits zero (suc a) b i h = absurd (omega arith)
  bit-digits (suc n) zero b i h = z_digits b i ∙ ap (λ t. g t (bit b i)) (sym (bit-zero i))
  bit-digits (suc n) (suc a) b zero h =
      ap (λ t. t == 1)
        (last (digits z f n (suc a / 2) (b / 2)) _
          (f-lt-two (suc a % 2) (b % 2) (omega arith) (omega arith)))
      ∙ f_digit (suc a % 2) (b % 2) (omega arith) (omega arith)
    where
      last : (d c : ℕ) → c < 2 → (d * 2 + c) % 2 ≡ c
      last d c h = omega arith
  bit-digits (suc n) (suc a) b (suc i) h =
      double-bit (digits z f n (suc a / 2) (b / 2)) _ i
        (f-lt-two (suc a % 2) (b % 2) (omega arith) (omega arith))
      ∙ bit-digits n (suc a / 2) (b / 2) i (omega arith)

pub bit-bit_or : (a b i : ℕ) → bit (bit_or a b) i ≡ (bit a i || bit b i)
bit-bit_or a b i = rw (bit_or-bitwise a b) (
    bit-digits (λ b. b) max ◌||◌ (λ b i. refl) (λ x y p q. omega arith) (λ x y p q. ground arith) a
      a b i (omega arith))

pub bit-bit_and : (a b i : ℕ) → bit (bit_and a b) i ≡ (bit a i && bit b i)
bit-bit_and a b i = rw (bit_and-bitwise a b) (
    bit-digits (λ b. 0) min ◌&&◌ (λ b i. bit-zero i) (λ x y p q. omega arith)
      (λ x y p q. ground arith) a a b i (omega arith))

pub bit-bit_xor : (a b i : ℕ) → bit (bit_xor a b) i ≡ xor (bit a i) (bit b i)
bit-bit_xor a b i =
    rw (bit_xor-bitwise a b)
      (bit-digits (λ b. b) differ xor (λ b i. refl) differ-lt differ_digit a a b i (omega arith))
  where
    differ-lt : (x y : ℕ) → x < 2 → y < 2 → differ x y < 2
    differ-lt zero y p q = q
    differ-lt (suc x) zero p q = p
    differ-lt (suc x) (suc y) p q = ground arith

    differ_digit : (x y : ℕ) → x < 2 → y < 2 → (differ x y == 1) ≡ xor (x == 1) (y == 1)
    differ_digit zero zero p q = refl
    differ_digit zero (suc zero) p q = refl
    differ_digit zero (suc (suc y)) p q = absurd (omega arith)
    differ_digit (suc zero) zero p q = refl
    differ_digit (suc zero) (suc zero) p q = refl
    differ_digit (suc zero) (suc (suc y)) p q = absurd (omega arith)
    differ_digit (suc (suc x)) y p q = absurd (omega arith)
