-- ===== src/Word/Popcount.antt =====
-- std::popcount of a std::size_t: how many of the 64 digits are ones.
use native.Mathlib.Nat.{pow-suc}
use pennylane_lightning.Prelude.{
  ℕ, zero, suc, ◌+◌, ◌/◌, ◌%◌, ◌^◌, ◌<◌, ◌≡◌, refl, ap, ◌∙◌, false, arith,
}
use pennylane_lightning.Word.Bit.{bit}

-- The ones among the lowest m digits.
abbrev pub ones : ℕ → ℕ → ℕ
ones zero x = 0
ones (suc m) x = x % 2 + ones m (x / 2)

abbrev pub popcount : ℕ → ℕ
popcount x = ones 64 x

pub ones-zero : (m : ℕ) → ones m 0 ≡ 0
ones-zero zero = refl
ones-zero (suc m) = omega (arith, ones-zero m)

-- One more digit set.
pub ones-add_pow : (m t x : ℕ) → t < m → bit x t ≡ false → ones m (x + 2 ^ t) ≡ ones m x + 1
unfolding bit
ones-add_pow zero t x h off = absurd (omega arith)
ones-add_pow (suc m) zero x h off =
    ap (λ y. (x + 2 ^ 0) % 2 + ones m y) {x = (x + 2 ^ 0) / 2} {y = x / 2} (ground arith)
    ∙ ground arith
ones-add_pow (suc m) (suc t) x h off =
    ap (λ y. (x + 2 ^ suc t) % 2 + ones m y) {x = (x + 2 ^ suc t) / 2} {y = x / 2 + 2 ^ t}
      (omega (arith, pow-suc 2 t))
    ∙ omega (arith, pow-suc 2 t, ones-add_pow m t (x / 2) (omega arith) off)
