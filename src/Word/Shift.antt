-- ===== src/Word/Shift.antt =====
-- The shifts and the complement of std::size_t, digit by digit.
use pennylane_lightning.Prelude.{
  ℕ, ◌+◌, ◌-◌, ◌*◌, ◌%◌, ◌^◌, ◌<◌, ◌≡◌, ap, ◌∙◌, ◌&&◌, not, arith, ◌==◌, ltb,
}
use pennylane_lightning.Word.{shl, shr, complement}
use pennylane_lightning.Word.Bit.{bit, bit-mod_pow, bit-mul_pow, bit-div_pow, bit-flip, bit-pow}

pub bit-shl : (a k i : ℕ) → bit (shl a k) i ≡ (ltb i 64 && (not (ltb i k) && bit a (i - k)))
unfolding shl
bit-shl a k i = bit-mod_pow 64 _ i ∙ ap (λ t. ltb i 64 && t) (bit-mul_pow k a i)

pub bit-shr : (a k i : ℕ) → bit (shr a k) i ≡ bit a (i + k)
unfolding shr
bit-shr a k i = bit-div_pow k a i

pub bit-complement : (a i : ℕ) → a < 2 ^ 64 → bit (complement a) i ≡ (ltb i 64 && not (bit a i))
unfolding complement
bit-complement a i h = bit-flip 64 a i h

-- 1 << k has one digit.
pub bit-shl_one : (k i : ℕ) → bit (shl 1 k) i ≡ (ltb i 64 && (i == k))
unfolding shl
bit-shl_one k i =
    ap (λ t. bit (t % 2 ^ 64) i) {x = 1 * 2 ^ k} {y = 2 ^ k} (omega arith)
    ∙ bit-mod_pow 64 _ i
    ∙ ap (λ t. ltb i 64 && t) (bit-pow k i)

pub shl-lt : (a k : ℕ) → shl a k < 2 ^ 64
unfolding shl
shl-lt a k = omega arith
