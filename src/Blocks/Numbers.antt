-- ===== src/Blocks/Numbers.antt =====
-- The digits at a list of wires as one number, the first wire the lowest digit.
use pennylane_lightning.Prelude.{
  ℕ, zero, suc, ◌+◌, ◌*◌, ◌/◌, ◌%◌, ◌^◌, ◌<◌, ◌≡◌, refl, ap, ◌∙◌, Bool, true, false, List, [], ◌∷◌,
  arith, ◌==◌, if◌then◌else◌, elem, length, Bool-cases, inl, inr,
}
use mathlib.Core.Path.{ap₂}
use native.Mathlib.Nat.{pow-suc}
use pennylane_lightning.Word.Bit.{bit}
use pennylane_lightning.BitUtil.Sort.{IsDistinct}
use pennylane_lightning.Blocks.Address.{placed, bits_at}

-- The lowest m digits of a number.
abbrev pub digits : ℕ → ℕ → List Bool
digits zero i = []
digits (suc m) i = (i % 2 == 1) ∷ digits m (i / 2)

-- The number that the digits of x at the wires spell.
abbrev pub number_at : List ℕ → ℕ → ℕ
number_at [] x = 0
number_at (w ∷ ws) x = (if bit x w then 1 else 0) + 2 * number_at ws x

pub length-digits : (m i : ℕ) → length (digits m i) ≡ m
length-digits zero i = refl
length-digits (suc m) i = ap suc (length-digits m (i / 2))

pub number_at-lt : (ws : List ℕ) (x : ℕ) → number_at ws x < 2 ^ length ws
number_at-lt [] x = omega arith
number_at-lt (w ∷ ws) x = ground (arith, number_at-lt ws x, pow-suc 2 (length ws))

pub digits-number_at : (ws : List ℕ) (x : ℕ) → digits (length ws) (number_at ws x) ≡ bits_at ws x
digits-number_at [] x = refl
digits-number_at (w ∷ ws) x =
    ap₂ (λ b bs. b ∷ bs) (low (bit x w) (number_at ws x))
      (ap (digits (length ws)) (high (bit x w) (number_at ws x)) ∙ digits-number_at ws x)
  where
    low : (b : Bool) (d : ℕ) → (((if b then 1 else 0) + 2 * d) % 2 == 1) ≡ b
    low true d = ground arith
    low false d = ground arith

    high : (b : Bool) (d : ℕ) → ((if b then 1 else 0) + 2 * d) / 2 ≡ d
    high true d = omega arith
    high false d = omega arith

-- An address with the digits of i at distinct wires has the number i there.
pub number_at-digits :
    (n : ℕ) (ws : List ℕ) (i x : ℕ)
    → IsDistinct n ws
    → i < 2 ^ length ws
    → ((q : ℕ) → elem q ws ≡ true → bit x q ≡ placed ws (digits (length ws) i) q false)
    → number_at ws x ≡ i
number_at-digits n [] i x d h at = omega arith
number_at-digits n (w ∷ ws) i x d h at =
    let rest = number_at-digits n ws (i / 2) x d.2 (omega (arith, pow-suc 2 (length ws))) λ q on.
      elim (Bool-cases (q == w)) [
        | inl same ↦
            absurd (ground (arith, d.1, ap (λ t. elem t ws) {x = q} {y = w} (ground arith)))
        | inr other ↦ at q (ground arith) ∙ ground arith
      ] in
    let first : bit x w ≡ (i % 2 == 1) = at w (ground arith) ∙ ground arith in
    ground (arith, first, rest)
