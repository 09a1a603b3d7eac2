-- ===== src/Lm/Parities.antt =====
-- The masks of MultiRZ: which digits they have, the parity that they measure and the controls they test.
use pennylane_lightning.Prelude.{
  ℕ, suc, ◌+◌, ◌*◌, ◌/◌, ◌%◌, ◌^◌, ◌<◌, ◌≡◌, refl, ap, sym, ◌∙◌, Bool, true, false, ◌&&◌, ◌||◌,
  List, [], ◌∷◌, arith, ◌==◌, if◌then◌else◌, elem, length, bit_and, bit_or, Bool-cases, inl, inr,
  ==→≡, ≡→==, reversed, length-map,
}
use pennylane_lightning.Word.{shl, sub}
use pennylane_lightning.Word.Bit.{bit, bit_ext, bit-zero, bit-bit_or, bit-bit_and}
use pennylane_lightning.Word.Shift.{bit-shl_one}
use pennylane_lightning.Word.Popcount.{ones, popcount, ones-zero, ones-add_pow}
use pennylane_lightning.BitUtil.Sort.{IsDistinct}
use pennylane_lightning.Memory.{for_each}
use pennylane_lightning.Blocks.{
  of_bits, bit-of_bits, controls_match, number_at, IsDistinct-below, placed, placed_miss,
  placed-match, match-placed,
}
use pennylane_lightning.Gate.{position, positions, targets}
use pennylane_lightning.Lm.Index.{to_word}
use pennylane_lightning.Lm.Wires.{rev_position', positions-IsDistinct, reversed-IsDistinct}
use pennylane_lightning.Lm.Spread.{IsDistinct-weaken}
use pennylane_lightning.Lm.PatternCells.{bit-add_pow, elem-all_positions}
use pennylane_lightning.Lm.Presets.{bit-shifted_value}
use pennylane_lightning.Lm.MultiRz.{parity_mask, values_mask}

-- How many digits of x at the positions are ones.
abbrev pub ones_at : List ℕ → ℕ → ℕ
ones_at [] x = 0
ones_at (t ∷ ts) x = (if bit x t then 1 else 0) + ones_at ts x

bit-parity_loop :
    (n : ℕ) (ws : List ℕ) (x q : ℕ)
    → n < 64
    → IsDistinct n ws
    → bit (for_each ws (λ w mask. bit_or mask (shl 1 (sub (sub n w) 1))) x) q
      ≡ (bit x q || elem q (positions n ws))
unfolding for_each
bit-parity_loop n [] x q hn d = ground arith
bit-parity_loop n (w ∷ ws) x q hn d =
    bit-parity_loop n ws (bit_or x (shl 1 (sub (sub n w) 1))) q hn d.2
    ∙ ground (
      arith,
      bit-bit_or x (shl 1 (sub (sub n w) 1)) q,
      bit-shl_one (sub (sub n w) 1) q,
      rev_position' n w hn d.0,
      d.0,
    )

pub bit-parity_mask :
    (n : ℕ) (ws : List ℕ) (q : ℕ)
    → n < 64
    → IsDistinct n ws
    → bit (parity_mask n ws) q ≡ elem q (positions n ws)
unfolding parity_mask
bit-parity_mask n ws q hn d = bit-parity_loop n ws 0 q hn d ∙ ground (arith, bit-zero q)

-- A word whose ones are those of x at distinct positions.
ones-ones_at :
    (ts : List ℕ) (x y : ℕ)
    → IsDistinct 64 ts
    → ((q : ℕ) → bit y q ≡ (bit x q && elem q ts))
    → popcount y ≡ ones_at ts x
ones-ones_at [] x y d at =
    ap popcount {x = y} {y = 0} (bit_ext _ _ λ q. ground (arith, at q, bit-zero q)) ∙ ones-zero 64
ones-ones_at (t ∷ ts) x y d at =
    let rest = of_bits 64 (λ q. bit x q && elem q ts) in
    let bits : (q : ℕ) → bit rest q ≡ (bit x q && elem q ts) = λ q.
      bit-of_bits 64 (λ r. bit x r && elem r ts) q ∙ elim (Bool-cases (elem q ts)) [
        | inl on ↦ ground (arith, IsDistinct-below 64 q ts d.2 on)
        | inr off ↦ ground arith
      ] in
    let free : bit rest t ≡ false = ground (arith, bits t, d.1) in
    elim (Bool-cases (bit x t)) [
      | inl one ↦
          ap popcount {x = y} {y = rest + 2 ^ t} (
            bit_ext _ _ λ q.
              at q
              ∙ ground (arith, bit-add_pow t rest q free, bits q, ap (bit x) {x = q} {y = t}, one))
          ∙ ones-add_pow 64 t rest d.0 free
          ∙ ground (arith, ones-ones_at ts x rest d.2 bits, one)
      | inr none ↦
          ap popcount {x = y} {y = rest}
            (bit_ext _ _ λ q. at q ∙ ground (arith, bits q, ap (bit x) {x = q} {y = t}, none))
          ∙ ground (arith, ones-ones_at ts x rest d.2 bits, none)
    ]

-- The parity that the mask measures.
pub popcount-parity_mask :
    (n : ℕ) (ws : List ℕ) (k : ℕ)
    → n < 64
    → IsDistinct n ws
    → popcount (bit_and k (parity_mask n ws)) ≡ ones_at (positions n ws) k
popcount-parity_mask n ws k hn d =
    ones-ones_at (positions n ws) k _
      (IsDistinct-weaken n 64 (positions n ws) (omega arith) (positions-IsDistinct n ws d))
      (λ q.
        bit-bit_and k (parity_mask n ws) q ∙ ap (λ b. bit k q && b) (bit-parity_mask n ws q hn d))

-- It may list the positions in the order of the targets too.
pub ones_at-targets :
    (n : ℕ) (ws : List ℕ) (k : ℕ)
    → n < 64
    → IsDistinct n ws
    → ones_at (targets n ws) k ≡ ones_at (positions n ws) k
ones_at-targets n ws k hn d =
    sym (
      ones-ones_at (targets n ws) k (bit_and k (parity_mask n ws))
        (IsDistinct-weaken n 64 (targets n ws) (omega arith)
          (positions-IsDistinct n (reversed ws) (reversed-IsDistinct n ws d)))
        (λ q.
          bit-bit_and k (parity_mask n ws) q
          ∙ ap (λ b. bit k q && b) (bit-parity_mask n ws q hn d ∙ sym (elem-all_positions n q ws))))
    ∙ popcount-parity_mask n ws k hn d

-- The ones of a number at the positions.
pub ones-number_at : (ts : List ℕ) (x : ℕ) → ones (length ts) (number_at ts x) ≡ ones_at ts x
ones-number_at [] x = refl
ones-number_at (t ∷ ts) x = step (bit x t) (ones-number_at ts x)
  where
    step :
        (b : Bool)
        → ones (length ts) (number_at ts x) ≡ ones_at ts x
        → ones (suc (length ts)) ((if b then 1 else 0) + 2 * number_at ts x)
          ≡ (if b then 1 else 0) + ones_at ts x
    step true rest =
        ap (λ y. (1 + 2 * number_at ts x) % 2 + ones (length ts) y)
          {x = (1 + 2 * number_at ts x) / 2} {y = number_at ts x} (omega arith)
        ∙ omega (arith, rest)
    step false rest =
        ap (λ y. (0 + 2 * number_at ts x) % 2 + ones (length ts) y)
          {x = (0 + 2 * number_at ts x) / 2} {y = number_at ts x} (omega arith)
        ∙ omega (arith, rest)

bit-values_mask :
    (n : ℕ) (cs : List ℕ) (vs : List Bool) (x q : ℕ)
    → n < 64
    → IsDistinct n cs
    → length vs ≡ length cs
    → bit (values_mask n cs vs x) q ≡ (bit x q || placed (positions n cs) vs q false)
unfolding values_mask
bit-values_mask n [] vs x q hn d e = ground arith
bit-values_mask n (c ∷ cs) [] x q hn d e = absurd (omega arith)
bit-values_mask n (c ∷ cs) (v ∷ vs) x q hn d e =
    bit-values_mask n cs vs (bit_or x (shl (to_word v) (sub (sub n c) 1))) q hn d.2 (omega arith)
    ∙ ground (
      arith,
      bit-bit_or x (shl (to_word v) (sub (sub n c) 1)) q,
      rev_position' n c hn d.0,
      bit-shifted_value v (position n c) q,
      placed_miss (positions n cs) vs q false,
      ap (λ t. elem t (positions n cs)) {x = q} {y = position n c},
      (positions-IsDistinct n (c ∷ cs) d).1,
      d.0,
    )

-- The test of the generator is whether the controls match.
pub values_mask-controls_match :
    (n : ℕ) (cs : List ℕ) (vs : List Bool) (k : ℕ)
    → n < 64
    → IsDistinct n cs
    → length vs ≡ length cs
    → (values_mask n cs vs 0 == bit_and (parity_mask n cs) k) ≡ controls_match (positions n cs) vs k
values_mask-controls_match n cs vs k hn d e =
    let rs = positions n cs in
    let dr = positions-IsDistinct n cs d in
    let pair : length vs ≡ length rs = omega (arith, length-map cs (position n)) in
    let left : (q : ℕ) → bit (values_mask n cs vs 0) q ≡ placed rs vs q false =
      λ q. bit-values_mask n cs vs 0 q hn d e ∙ ground (arith, bit-zero q) in
    let right : (q : ℕ) → bit (bit_and (parity_mask n cs) k) q ≡ (elem q rs && bit k q) = λ q.
      bit-bit_and (parity_mask n cs) k q ∙ ap (λ b. b && bit k q) (bit-parity_mask n cs q hn d) in
    elim (Bool-cases (controls_match rs vs k)) [
      | inl on ↦
          ≡→== _ _ (
            bit_ext _ _ λ q. left q ∙ elim (Bool-cases (elem q rs)) [
              | inl at ↦ ground (arith, right q, placed-match rs vs k q false pair on at)
              | inr off ↦ ground (arith, right q, placed_miss rs vs q false off)
            ])
          ∙ sym on
      | inr differ ↦ elim (Bool-cases (values_mask n cs vs 0 == bit_and (parity_mask n cs) k)) [
        | inl same ↦ absurd (
            ground (
              arith,
              differ,
              match-placed n rs vs k dr
                  (λ q at. ground (arith, left q, right q, ap (λ t. bit t q) (==→≡ _ _ same))),
            ))
        | inr other ↦ other ∙ sym differ
      ]
    ]
