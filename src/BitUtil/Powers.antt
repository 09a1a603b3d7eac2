-- ===== src/BitUtil/Powers.antt =====
-- Powers of two: the test for them and the logarithm agree.
use native.Mathlib.Nat.{pow-suc}
use pennylane_lightning.Prelude.{
  ℕ, zero, suc, ◌+◌, ◌/◌, ◌%◌, ◌^◌, ◌<◌, ◌≡◌, refl, ap, ◌∙◌, true, arith, ◌==◌, if◌then◌else◌, ==→≡,
  ≡→==,
}
use pennylane_lightning.BitUtil.{
  popcount_from, countr_zero_from, log2_perfect_power, is_perfect_power_of2,
}

popcount_from-zero : (f x : ℕ) → x < 2 ^ f → popcount_from f x ≡ 0 → x ≡ 0
unfolding popcount_from
popcount_from-zero zero x h e = omega arith
popcount_from-zero (suc f) x h e =
    omega
      (arith, pow-suc 2 f, popcount_from-zero f (x / 2) (omega (arith, pow-suc 2 f)) (omega arith))

pow-countr_zero_from :
    (f x : ℕ)
    → x < 2 ^ f
    → popcount_from f x ≡ 1
    → (2 ^ countr_zero_from f x ≡ x) × (countr_zero_from f x < f)
unfolding popcount_from countr_zero_from
pow-countr_zero_from zero x h e = absurd (omega arith)
pow-countr_zero_from (suc f) x h e = ground (
  arith,
  pow-suc 2 f,
  popcount_from-zero f (x / 2),
  pow-countr_zero_from f (x / 2),
  pow-suc 2 (countr_zero_from f (x / 2)),
)

popcount_from-zero_word : (f : ℕ) → popcount_from f 0 ≡ 0
unfolding popcount_from
popcount_from-zero_word zero = refl
popcount_from-zero_word (suc f) = omega (arith, popcount_from-zero_word f)

countr_zero_from-pow :
    (f n : ℕ) → n < f → (countr_zero_from f (2 ^ n) ≡ n) × (popcount_from f (2 ^ n) ≡ 1)
unfolding popcount_from countr_zero_from
countr_zero_from-pow zero n h = absurd (omega arith)
countr_zero_from-pow (suc f) zero h = ground (arith, popcount_from-zero_word f)
countr_zero_from-pow (suc f) (suc n) h =
    let half : 2 ^ suc n / 2 ≡ 2 ^ n = omega (arith, pow-suc 2 n) in
    let rest = countr_zero_from-pow f n (omega arith) in
    (
      ap (λ t. if 2 ^ suc n % 2 == 1 then 0 else suc (countr_zero_from f t)) half
          ∙ ground (arith, pow-suc 2 n),
      ap (λ t. 2 ^ suc n % 2 + popcount_from f t) half ∙ omega (arith, pow-suc 2 n),
    )

-- On a 64-bit word: when is_perfect_power_of2 holds, the word is 2 to its log2_perfect_power,
-- which is below 64.
pub pow-log2_perfect_power :
    (value : ℕ)
    → value < 2 ^ 64
    → is_perfect_power_of2 value ≡ true
    → (2 ^ log2_perfect_power value ≡ value) × (log2_perfect_power value < 64)
unfolding is_perfect_power_of2 log2_perfect_power
pow-log2_perfect_power value h p = pow-countr_zero_from 64 value h (==→≡ _ _ p)

-- For n below 64, 2 to the n passes the test, and its logarithm is n.
pub log2_perfect_power-pow :
    (n : ℕ) → n < 64 → (log2_perfect_power (2 ^ n) ≡ n) × (is_perfect_power_of2 (2 ^ n) ≡ true)
unfolding is_perfect_power_of2 log2_perfect_power
log2_perfect_power-pow n h = let both = countr_zero_from-pow 64 n h in (both.0, ≡→== _ _ both.1)
