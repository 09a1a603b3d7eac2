-- ===== src/Lm/Cells.antt =====
-- Each round of applyNC1 and applyNC2 addresses the cells of one block.
use pennylane_lightning.Prelude.{
  ℕ, suc, ◌+◌, ◌-◌, ◌^◌, ◌<◌, ◌≡◌, refl, ap, ◌∙◌, Bool, true, false, ◌&&◌, List, [], ◌∷◌, ◌++◌,
  bit_and, bit_or, arith, ltb, ◌==◌, if◌then◌else◌, elem, length, get_or, lt_or_le, inl, inr,
  Bool-cases,
}
use pennylane_lightning.Word.{shl, complement}
use pennylane_lightning.Word.Bit.{bit, bit-zero, bit_above, bit-bit_and, bit-bit_or, lt-pow_of_bits}
use pennylane_lightning.Word.Shift.{bit-shl_one, bit-shl, bit-complement, shl-lt}
use pennylane_lightning.BitUtil.Sort.{IsDistinct, rank}
use pennylane_lightning.Blocks.{
  IsAddress, placed, placed_miss, placed_hit, IsDistinct-below, above_wires, length_wires-le,
}
use pennylane_lightning.Lm.Index.{set_controls, wire_shifts, to_word}
use pennylane_lightning.Lm.Spread.{spread}

-- The values of the wires written over a spread block number.
abbrev pub filled : List ℕ → List Bool → ℕ → ℕ → Bool
filled wires values k q = ltb q 64 && placed wires values q (spread wires k q)

-- A word with these digits is the address of the block.
pub filled-IsAddress :
    (n : ℕ) (wires : List ℕ) (values : List Bool) (k x : ℕ)
    → n < 64
    → IsDistinct n wires
    → length values ≡ length wires
    → k < 2 ^ (n - length wires)
    → ((q : ℕ) → bit x q ≡ filled wires values k q)
    → IsAddress wires values k x
filled-IsAddress n wires values k x hn d e hk h = record {
  on_wires = λ q on. ground (
    arith,
    h q,
    IsDistinct-below n q wires d on,
    placed_hit wires values q (spread wires k q) false e on,
  );
  off_wires = λ q off. elim (lt_or_le q 64) [
    | inl inside ↦ ground (arith, h q, placed_miss wires values q (spread wires k q) off)
    | inr outside ↦
        let above = above_wires n wires d q (omega arith) in
        ground (
          arith,
          h q,
          bit_above (n - length wires) k (q - rank wires q) hk
              (omega (arith, above.0, length_wires-le n wires d)),
        )
  ];
}

bit-set_control :
    (r : ℕ) (v : Bool) (idx q : ℕ)
    → r < 64
    → bit (bit_or (bit_and idx (complement (shl 1 r))) (shl (to_word v) r)) q
      ≡ (if q == r then v else bit idx q && ltb q 64)
bit-set_control r true idx q h = ground (
  arith,
  bit-bit_or (bit_and idx (complement (shl 1 r))) (shl 1 r) q,
  bit-bit_and idx (complement (shl 1 r)) q,
  bit-complement (shl 1 r) q (shl-lt 1 r),
  bit-shl_one r q,
)
bit-set_control r false idx q h = ground (
  arith,
  bit-bit_or (bit_and idx (complement (shl 1 r))) (shl 0 r) q,
  bit-bit_and idx (complement (shl 1 r)) q,
  bit-complement (shl 1 r) q (shl-lt 1 r),
  bit-shl_one r q,
  bit-shl 0 r q,
  bit-zero (q - r),
)

set_control-lt :
    (r : ℕ) (v : Bool) (idx : ℕ)
    → r < 64
    → bit_or (bit_and idx (complement (shl 1 r))) (shl (to_word v) r) < 2 ^ 64
set_control-lt r v idx h =
    lt-pow_of_bits 64 _ λ q above. ground (arith, bit-set_control r v idx q h)

-- The control step writes the control values at the controls and keeps the other digits.
pub bit-set_controls :
    (rs ts : List ℕ) (vs : List Bool) (idx q : ℕ)
    → length vs ≡ length rs
    → IsDistinct 64 rs
    → idx < 2 ^ 64
    → bit (set_controls (length rs) (rs ++ ts) (wire_shifts vs (rs ++ ts)) idx) q
      ≡ placed rs vs q (bit idx q)
unfolding set_controls
bit-set_controls [] ts vs idx q e d h = refl
bit-set_controls (r ∷ rs) ts [] idx q e d h = absurd (omega arith)
bit-set_controls (r ∷ rs) ts (v ∷ vs) idx q e d h =
    bit-set_controls rs ts vs _ q (omega arith) d.2 (set_control-lt r v idx d.0)
    ∙ ap (placed rs vs q) (bit-set_control r v idx q d.0)
    ∙ elim (Bool-cases (q == r)) [
      | inl same ↦
          let fresh : elem q rs ≡ false =
            ap (λ t. elem t rs) {x = q} {y = r} (ground arith) ∙ d.1 in
          ground (arith, placed_miss rs vs q v fresh)
      | inr other ↦ elim (lt_or_le q 64) [
        | inl inside ↦
            ap (placed rs vs q) {x = if q == r then v else bit idx q && ltb q 64} {y = bit idx q}
              (ground arith)
            ∙ ground arith
        | inr outside ↦
            ap (placed rs vs q) {x = if q == r then v else bit idx q && ltb q 64} {y = bit idx q}
              (ground (arith, bit_above 64 idx q h outside))
            ∙ ground arith
      ]
    ]

-- The shift of a target stands behind those of the controls.
pub get_or-wire_shifts :
    (rs ts : List ℕ) (vs : List Bool) (i : ℕ)
    → length vs ≡ length rs
    → get_or (wire_shifts vs (rs ++ ts)) (length rs + i) 0 ≡ get_or (wire_shifts [] ts) i 0
get_or-wire_shifts [] ts [] i e = ap (λ t. get_or (wire_shifts [] ts) t 0) (omega arith)
get_or-wire_shifts [] ts (v ∷ vs) i e = absurd (omega arith)
get_or-wire_shifts (r ∷ rs) ts [] i e = absurd (omega arith)
get_or-wire_shifts (r ∷ rs) ts (v ∷ vs) i e =
    ap (λ t. get_or (wire_shifts (v ∷ vs) (r ∷ rs ++ ts)) t 0) {x = suc (length rs) + i}
      {y = suc (length rs + i)} (omega arith)
    ∙ get_or-wire_shifts rs ts vs i (omega arith)
