-- ===== src/Word/Bit/Shifts.antt =====
-- Powers of two, products with them and remainders by them, digit by digit.
use native.Mathlib.Nat.{pow-suc, one-le-pow, mod-mod_of_dvd, dvd-mul_right, div-div-eq-div-mul}
use pennylane_lightning.Prelude.{
  ℕ, zero, suc, ◌+◌, ◌-◌, ◌*◌, ◌/◌, ◌%◌, ◌^◌, ◌≤◌, ◌<◌, ◌≡◌, refl, ap, sym, ◌∙◌, false, ◌&&◌, not,
  arith, ◌==◌, ltb,
}
use pennylane_lightning.Word.Bit.Digits.{bit, bit-zero, bit_ext}

mod-double : (x p : ℕ) → 0 < p → x % (2 * p) / 2 ≡ x / 2 % p
mod-double x p h = grind arith

mod-double_low : (x p : ℕ) → x % (2 * p) % 2 ≡ x % 2
mod-double_low x p = mod-mod_of_dvd 2 x (dvd-mul_right 2 p)

pub pow_pos : (k : ℕ) → 0 < 2 ^ k
pow_pos k = omega (arith, one-le-pow k 2)

pow-suc' : (k : ℕ) → 2 ^ suc k ≡ 2 * 2 ^ k
pow-suc' k = omega (arith, pow-suc 2 k)

-- The remainder by 2 ^ k keeps the k lowest digits.
pub bit-mod_pow : (k x i : ℕ) → bit (x % 2 ^ k) i ≡ (ltb i k && bit x i)
unfolding bit
bit-mod_pow zero x i =
    ap (λ t. bit t i) {x = x % 1} {y = 0} (omega arith) ∙ ground (arith, bit-zero i)
bit-mod_pow (suc k) x zero =
    ap (λ t. t == 1) {x = x % 2 ^ suc k % 2} {y = x % 2}
      (rw (pow-suc' k) (mod-double_low x (2 ^ k)))
    ∙ ground arith
bit-mod_pow (suc k) x (suc i) =
    ap (λ t. bit t i) {x = x % 2 ^ suc k / 2} {y = x / 2 % 2 ^ k}
      (rw (pow-suc' k) (mod-double x (2 ^ k) (pow_pos k)))
    ∙ ground (arith, bit-mod_pow k (x / 2) i)

-- Multiplying by 2 ^ k moves every digit up by k.
pub bit-mul_pow : (k x i : ℕ) → bit (x * 2 ^ k) i ≡ (not (ltb i k) && bit x (i - k))
unfolding bit
bit-mul_pow zero x i =
    ap (λ t. bit t i) {x = x * 1} {y = x} (omega arith)
    ∙ ap (bit x) {x = i} {y = i - 0} (omega arith)
    ∙ ground arith
bit-mul_pow (suc k) x zero =
    ap (λ t. t == 1) {x = x * 2 ^ suc k % 2} {y = 0} (rw (pow-suc' k) (omega arith)) ∙ ground arith
bit-mul_pow (suc k) x (suc i) =
    ap (λ t. bit t i) {x = x * 2 ^ suc k / 2} {y = x * 2 ^ k} (grind (arith, pow-suc 2 k))
    ∙ bit-mul_pow k x i
    ∙ ap (λ t. not (ltb i k) && bit x t) {x = i - k} {y = suc i - suc k} (omega arith)
    ∙ ground arith

-- A number below 2 ^ k has no digit from k on.
pub bit_above : (k x i : ℕ) → x < 2 ^ k → k ≤ i → bit x i ≡ false
unfolding bit
bit_above zero x i h le = ap (λ t. bit t i) {x = x} {y = 0} (omega arith) ∙ bit-zero i
bit_above (suc k) x zero h le = absurd (omega arith)
bit_above (suc k) x (suc i) h le = bit_above k (x / 2) i (omega (arith, pow-suc 2 k)) (omega arith)

-- And a number with no digit from k on is below 2 ^ k.
pub lt-pow_of_bits : (k x : ℕ) → ((i : ℕ) → k ≤ i → bit x i ≡ false) → x < 2 ^ k
unfolding bit
lt-pow_of_bits zero x h =
    let e : x ≡ 0 = bit_ext x 0 (λ i. h i (omega arith) ∙ sym (bit-zero i)) in omega arith
lt-pow_of_bits (suc k) x h =
    omega (arith, pow-suc 2 k, lt-pow_of_bits k (x / 2) (λ i p. h (suc i) (omega arith)))

-- Dividing by 2 ^ k moves every digit down by k.
pub bit-div_pow : (k x i : ℕ) → bit (x / 2 ^ k) i ≡ bit x (i + k)
unfolding bit
bit-div_pow zero x i =
    ap (λ t. bit t i) {x = x / 1} {y = x} (omega arith)
    ∙ ap (bit x) {x = i} {y = i + 0} (omega arith)
bit-div_pow (suc k) x i =
    ap (λ t. bit t i) {x = x / 2 ^ suc k} {y = x / 2 / 2 ^ k}
      (rw (pow-suc' k) (sym (div-div-eq-div-mul x 2 (2 ^ k))))
    ∙ bit-div_pow k (x / 2) i
    ∙ ap (bit x) {x = suc (i + k)} {y = i + suc k} (omega arith)

-- Subtracting from 2 ^ k - 1 flips the k lowest digits.
pub bit-flip : (k x i : ℕ) → x < 2 ^ k → bit (2 ^ k - 1 - x) i ≡ (ltb i k && not (bit x i))
unfolding bit
bit-flip zero x i h =
    ap (λ t. bit t i) {x = 1 - 1 - x} {y = 0} (omega arith) ∙ bit-zero i ∙ ground arith
bit-flip (suc k) x zero h = ground (arith, pow-suc' k, pow_pos k)
bit-flip (suc k) x (suc i) h =
    ap (λ t. bit t i) {x = (2 ^ suc k - 1 - x) / 2} {y = 2 ^ k - 1 - x / 2}
      (omega (arith, pow-suc' k))
    ∙ bit-flip k (x / 2) i (omega (arith, pow-suc' k))
    ∙ ground arith

bit-one : (i : ℕ) → bit 1 i ≡ (i == 0)
unfolding bit
bit-one zero = refl
bit-one (suc i) = bit-zero i ∙ ground arith

pub bit-pow : (k i : ℕ) → bit (2 ^ k) i ≡ (i == k)
bit-pow k i =
    ap (λ t. bit t i) {x = 2 ^ k} {y = 1 * 2 ^ k} (omega arith)
    ∙ bit-mul_pow k 1 i
    ∙ ground (arith, bit-one (i - k))
