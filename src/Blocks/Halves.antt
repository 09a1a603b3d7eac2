-- ===== src/Blocks/Halves.antt =====
-- A number with its low and its high digits: c + 2 ^ m * x for c below 2 ^ m.
use native.Mathlib.Nat.{
  div-eq_of_lt-le, mod-add-div, mod-lt, mul_comm, mul-le-mul_left, pow-suc, mul_assoc,
}
use pennylane_lightning.Prelude.{
  ℕ, zero, suc, ◌+◌, ◌*◌, ◌/◌, ◌%◌, ◌^◌, ◌<◌, ◌≡◌, ap, sym, ◌∙◌, arith,
}
use pennylane_lightning.Word.Bit.{pow_pos}

pow_add : (m l : ℕ) → 2 ^ (m + l) ≡ 2 ^ m * 2 ^ l
pow_add zero l = ap (λ t. 2 ^ t) {x = 0 + l} {y = l} (omega arith) ∙ omega arith
pow_add (suc m) l =
    ap (λ t. 2 ^ t) {x = suc m + l} {y = suc (m + l)} (omega arith)
    ∙ omega (
      arith,
      pow-suc 2 (m + l),
      pow_add m l,
      mul_assoc 2 (2 ^ m) (2 ^ l),
      ap (λ t. t * 2 ^ l) {x = 2 ^ suc m} {y = 2 * 2 ^ m} (omega (arith, pow-suc 2 m)),
    )

module _ (m c x : ℕ) (h : c < 2 ^ m) where
  pub halves-div : (c + 2 ^ m * x) / 2 ^ m ≡ x
  halves-div =
      div-eq_of_lt-le {k = x} (2 ^ m) (omega (arith, mul_comm x (2 ^ m)))
        (omega (arith, mul_comm (x + 1) (2 ^ m)))

  pub halves-mod : (c + 2 ^ m * x) % 2 ^ m ≡ c
  halves-mod = omega (arith, mod-add-div (c + 2 ^ m * x) (2 ^ m), ap (λ t. 2 ^ m * t) halves-div)

  pub halves-lt : (l : ℕ) → x < 2 ^ l → c + 2 ^ m * x < 2 ^ (m + l)
  halves-lt l hx =
      omega (arith, pow_add m l, mul-le-mul_left {m = x + 1} {n = 2 ^ l} (2 ^ m) (omega arith))

pub halves : (m i x : ℕ) → i / 2 ^ m ≡ x → i % 2 ^ m + 2 ^ m * x ≡ i
halves m i x e = ap (λ t. i % 2 ^ m + 2 ^ m * t) (sym e) ∙ mod-add-div i (2 ^ m)

pub low-lt : (m i : ℕ) → i % 2 ^ m < 2 ^ m
low-lt m i = mod-lt i (pow_pos m)
