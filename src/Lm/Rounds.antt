-- ===== src/Lm/Rounds.antt =====
-- The addresses of round k of applyNC1 and applyNC2 are the cells of block k, in the order in
-- which the core functions take them.
use pennylane_lightning.Prelude.{
  ℕ, ◌-◌, ◌^◌, ◌<◌, ◌≡◌, ap, ◌∙◌, Bool, false, ◌&&◌, ◌||◌, List, ◌∷◌, ◌++◌, arith, ltb, elem,
  length, inl, inr, length-append, elem-append, Bool-cases,
}
use native.Mathlib.Nat.{pow-le-pow_right}
use pennylane_lightning.Word.Bit.{bit, lt-pow_of_bits}
use pennylane_lightning.BitUtil.{rev_wire_parity}
use pennylane_lightning.BitUtil.Sort.{IsDistinct}
use pennylane_lightning.Blocks.{
  IsAddress, placed, placed_miss, placed_hit, placed-append, IsDistinct-apart, IsDistinct-below,
  IsDistinct-left,
}
use pennylane_lightning.Lm.Index.{masked, set_controls, wire_shifts}
use pennylane_lightning.Lm.Spread.{spread, bit-masked, IsDistinct-weaken}
use pennylane_lightning.Lm.Cells.{filled-IsAddress, bit-set_controls}

-- A word whose digits at the controls are the control values, and elsewhere those of the spread
-- block number: the address with zeros at the targets.
abbrev pub IsBase : List ℕ → List Bool → List ℕ → ℕ → ℕ → Type 0
IsBase rs vs ts k x = (q : ℕ) → bit x q ≡ placed rs vs q (spread (rs ++ ts) k q)

module _ (n : ℕ) (rs : List ℕ) (vs : List Bool) (ts : List ℕ) (hn : n < 64)
    (distinct : IsDistinct n (rs ++ ts)) (paired : length vs ≡ length rs) (k x : ℕ)
    (hk : k < 2 ^ (n - length (rs ++ ts))) (base : IsBase rs vs ts k x) where
  -- Or-ing digits at the targets into the base gives the address with those digits there.
  pub base_or-IsAddress :
      (bs : List Bool) (y : ℕ)
      → length bs ≡ length ts
      → ((q : ℕ) → bit y q ≡ (bit x q || (ltb q 64 && placed ts bs q false)))
      → IsAddress (rs ++ ts) (vs ++ bs) k y
  base_or-IsAddress bs y e h =
      filled-IsAddress n (rs ++ ts) (vs ++ bs) k y hn distinct
        (omega (arith, length-append rs ts, length-append vs bs)) hk
        λ q. h q ∙ elim (Bool-cases (elem q rs)) [
          | inl control ↦
              let apart = IsDistinct-apart n rs ts q distinct control in
              let below = IsDistinct-below n q rs (IsDistinct-left n rs ts distinct) control in
              ground (
                arith,
                base q,
                placed_miss ts bs q false apart,
                placed_miss ts bs q (spread (rs ++ ts) k q) apart,
                placed-append rs ts vs bs q (spread (rs ++ ts) k q) paired,
              )
          | inr free ↦ elim (Bool-cases (elem q ts)) [
            | inl target ↦ ground (
              arith,
              base q,
              placed_miss rs vs q (spread (rs ++ ts) k q) free,
              placed_miss rs vs q (placed ts bs q (spread (rs ++ ts) k q)) free,
              placed_hit ts bs q (spread (rs ++ ts) k q) false e target,
              placed-append rs ts vs bs q (spread (rs ++ ts) k q) paired,
              elem-append q rs ts,
            )
            | inr other ↦ ground (
              arith,
              base q,
              placed_miss rs vs q (spread (rs ++ ts) k q) free,
              placed_miss rs vs q (placed ts bs q (spread (rs ++ ts) k q)) free,
              placed_miss ts bs q (spread (rs ++ ts) k q) other,
              placed_miss ts bs q false other,
              placed-append rs ts vs bs q (spread (rs ++ ts) k q) paired,
            )
          ]
        ]

-- The base of a kernel with controls, and of one without.
module _ (n : ℕ) (hn : n < 64) (k : ℕ) where
  pub word_of_block : (m : ℕ) → k < 2 ^ (n - m) → k < 2 ^ 64
  word_of_block m hk =
      omega (arith, pow-le-pow_right {n = 2} (omega arith) {i = n - m} {j = 64} (omega arith))

  pub controls-IsBase :
      (rs : List ℕ) (vs : List Bool) (t : ℕ) (ts : List ℕ)
      → IsDistinct n (rs ++ t ∷ ts)
      → length vs ≡ length rs
      → k < 2 ^ (n - length (rs ++ t ∷ ts))
      → IsBase rs vs (t ∷ ts) k (
          set_controls
            (length rs)
            (rs ++ t ∷ ts)
            (wire_shifts vs (rs ++ t ∷ ts))
            (masked k (rev_wire_parity (rs ++ t ∷ ts))))
  controls-IsBase rs vs t ts d e hk q =
      let all = rs ++ t ∷ ts in
      let d63 : IsDistinct 63 all = IsDistinct-weaken n 63 all (omega arith) d in
      let pos : 0 < length all = omega (arith, length-append rs (t ∷ ts)) in
      let low = bit-masked all d63 k in
      let hk64 = word_of_block (length all) hk in
      bit-set_controls rs (t ∷ ts) vs (masked k (rev_wire_parity all)) q e
        (IsDistinct-left 64 rs (t ∷ ts) (IsDistinct-weaken n 64 all (omega arith) d))
        (lt-pow_of_bits 64 _ λ r above. low r pos hk64 ∙ ground arith)
      ∙ ap (placed rs vs q) (low q pos hk64)
