-- ===== src/Lm/GeneratorFacts.antt =====
-- The words that the generators compute before their loops: positions, mask, number of rounds and the
-- indices of the entries whose controls match.
use mathlib.Core.Path.{subst}
use native.Mathlib.Nat.{pow-le-pow_right}
use pennylane_lightning.Prelude.{
  ℕ, zero, suc, ◌+◌, ◌-◌, ◌*◌, ◌^◌, ◌<◌, ◌≤◌, ◌≡◌, refl, ap, sym, ◌∙◌, Bool, List, [], ◌∷◌, ◌++◌,
  map, arith, length, range, reversed, bit_or, length-append,
}
use pennylane_lightning.Word.{shl}
use pennylane_lightning.Word.Bit.{bit}
use pennylane_lightning.BitUtil.Sort.{IsDistinct}
use pennylane_lightning.Blocks.{IsSchedule, range-IsSchedule, spelled, spelled-lt, length_wires-le}
use pennylane_lightning.Gate.{targets}
use pennylane_lightning.Lm.Index.{wire_shifts, reverse_wires}
use pennylane_lightning.Lm.Wires.{shl_one, reverse_wires_lem, length-reversed}
use pennylane_lightning.Lm.AllWires.{all_positions}
use pennylane_lightning.Lm.PatternCells.{length-targets}
use pennylane_lightning.Lm.Generate.{control_mask, reverse_all}
use pennylane_lightning.Lm.ControlMask.{control_mask-spelled, bit_or-pow}

ones : (rs : List ℕ) → map (shl 1) rs ≡ wire_shifts [] rs
ones [] = refl
ones (r ∷ rs) = ap (λ t. shl 1 r ∷ t) (ones rs)

pub reverse_all_lem :
    (n : ℕ) (cs ws : List ℕ)
    → n < 64
    → IsDistinct n (cs ++ ws)
    → reverse_all n (cs ++ ws)
      ≡ (targets n ws ++ targets n cs, wire_shifts [] (targets n ws ++ targets n cs))
unfolding reverse_all reverse_wires
reverse_all_lem n cs ws hn d =
    let same = ap (λ r. r.0) (reverse_wires_lem n (cs ++ ws) [] hn d) ∙ all_positions n cs ws in
    ap (λ t. (t, map (shl 1) t)) same
    ∙ ap (λ t. (targets n ws ++ targets n cs, t)) (ones (targets n ws ++ targets n cs))

pub mask_lem :
    (cs : List ℕ) (vs : List Bool)
    → length vs ≡ length cs
    → length cs < 64
    → control_mask (length cs) vs ≡ spelled (reversed vs)
mask_lem cs vs e h = ap (λ t. control_mask t vs) (sym e) ∙ control_mask-spelled vs (omega arith)

pub mask-lt : (vs : List Bool) → length vs ≤ 62 → spelled (reversed vs) < 2 ^ 62
mask-lt vs h =
    let few : length (reversed vs) ≤ 62 = omega (arith, length-reversed {0} vs) in
    omega (arith, spelled-lt (reversed vs), pow-le-pow_right {n = 2} (omega arith) few)

-- The indices of the first entries whose controls match.
pub first_index : (mask m : ℕ) → mask < 2 ^ 62 → m < 3 → shl mask m ≡ 2 ^ m * mask
unfolding shl
first_index mask zero h hm = omega arith
first_index mask (suc zero) h hm = omega arith
first_index mask (suc (suc zero)) h hm = omega arith
first_index mask (suc (suc (suc m))) h hm = absurd (omega arith)

pub or_one : (x : ℕ) → bit_or (2 * x) 1 ≡ 1 + 2 * x
unfolding bit
or_one x = bit_or-pow 0 (2 * x) (ground arith) ∙ omega arith

pub or_four :
    (x : ℕ)
    → (bit_or (4 * x) 1 ≡ 1 + 4 * x)
      × (bit_or (4 * x) 2 ≡ 2 + 4 * x)
      × (bit_or (bit_or (4 * x) 2) 1 ≡ 3 + 4 * x)
unfolding bit
or_four x =
    let second : bit_or (4 * x) 2 ≡ 2 + 4 * x = bit_or-pow 1 (4 * x) (ground arith) ∙ omega arith in
    (
      bit_or-pow 0 (4 * x) (ground arith) ∙ omega arith,
      second,
      ap (λ t. bit_or t 1) second ∙ bit_or-pow 0 (2 + 4 * x) (ground arith) ∙ omega arith,
    )

pub dim_lem :
    (n m : ℕ) (ws cs : List ℕ)
    → n < 64
    → IsDistinct n (cs ++ ws)
    → length ws ≡ m
    → shl 1 (length cs + m) ≡ 2 ^ (m + length (targets n cs))
dim_lem n m ws cs hn d e =
    shl_one (length cs + m) (omega (arith, length_wires-le n (cs ++ ws) d, length-append cs ws))
    ∙ ap (λ t. 2 ^ t) {x = length cs + m} {y = m + length (targets n cs)}
        (omega (arith, length-targets n cs))

pub rounds_lem :
    (n m : ℕ) (ws cs : List ℕ)
    → n < 64
    → length ws ≡ m
    → 0 < m
    → IsSchedule
        (2 ^ (n - length (targets n ws ++ targets n cs)))
        (range (shl 1 (n - (length cs + m))))
rounds_lem n m ws cs hn e pos =
    subst (λ c. IsSchedule c (range (shl 1 (n - (length cs + m)))))
      (shl_one (n - (length cs + m)) (omega arith)
        ∙ ap (λ t. 2 ^ (n - t)) {x = length cs + m} {y = length (targets n ws ++ targets n cs)}
            (omega (
              arith,
              length-append (targets n ws) (targets n cs),
              length-targets n ws,
              length-targets n cs,
            )))
      (range-IsSchedule (shl 1 (n - (length cs + m))))
