-- ===== src/Lm/Presets.antt =====
-- The first entry of parity2indices: the base of a block, with the control values in it.
use pennylane_lightning.Prelude.{
  ℕ, zero, suc, ◌-◌, ◌^◌, ◌<◌, ◌≡◌, refl, ap, sym, ◌∙◌, Bool, true, false, ◌&&◌, ◌||◌, List, [],
  ◌∷◌, ◌++◌, bit_or, arith, ltb, ◌==◌, elem, length, get_or, inl, inr, length-append, length-map,
  range_from, elem-append, Bool-cases,
}
use mathlib.Core.Path.{subst}
use pennylane_lightning.Word.{shl}
use pennylane_lightning.Lm.Wires.{shl_one}
use pennylane_lightning.Word.Bit.{bit, bit-zero, bit-bit_or, pow_pos}
use pennylane_lightning.Word.Shift.{bit-shl_one, bit-shl}
use pennylane_lightning.BitUtil.{rev_wire_parity}
use pennylane_lightning.BitUtil.Sort.{IsDistinct}
use pennylane_lightning.Blocks.{
  placed, placed_miss, placed_hit, IsDistinct-left, IsDistinct-below, IsAddress, digits,
  length_wires-le,
}
use pennylane_lightning.Lm.Index.{
  or_masks, set_controls, wire_shifts, to_word, or_all, preset, parity2indices, inner_index, drop,
}
use pennylane_lightning.Lm.Spread.{spread, IsDistinct-weaken, masked-or_masks, bit-or_masks_all}
use pennylane_lightning.Lm.Rounds.{IsBase, controls-IsBase, word_of_block}
use pennylane_lightning.Lm.Entries.{entry-AreCells, get_or-parity2indices, length-wire_shifts}
use pennylane_lightning.Lm.CorrectN.{AreCells}

pub bit-shifted_value :
    (v : Bool) (r q : ℕ) → bit (shl (to_word v) r) q ≡ (v && (ltb q 64 && (q == r)))
bit-shifted_value true r q = ground (arith, bit-shl_one r q)
bit-shifted_value false r q = ground (arith, bit-shl 0 r q, bit-zero (q - r))

bit-or_all :
    (rs ts : List ℕ) (vs : List Bool) (x q : ℕ)
    → length vs ≡ length rs
    → IsDistinct 64 rs
    → bit (or_all (length rs) (wire_shifts vs (rs ++ ts)) x) q
      ≡ (bit x q || (ltb q 64 && placed rs vs q false))
unfolding or_all
bit-or_all [] ts vs x q e d = ground arith
bit-or_all (r ∷ rs) ts [] x q e d = absurd (omega arith)
bit-or_all (r ∷ rs) ts (v ∷ vs) x q e d =
    bit-or_all rs ts vs (bit_or x (shl (to_word v) r)) q (omega arith) d.2
    ∙ ground (
      arith,
      bit-bit_or x (shl (to_word v) r) q,
      bit-shifted_value v r q,
      placed_miss rs vs q false,
      ap (λ t. elem t rs) {x = q} {y = r},
      d.1,
    )

module _ (n : ℕ) (hn : n < 64) (k : ℕ) (rs : List ℕ) (vs : List Bool) (t : ℕ) (ts : List ℕ)
    (distinct : IsDistinct n (rs ++ t ∷ ts)) (paired : length vs ≡ length rs)
    (hk : k < 2 ^ (n - length (rs ++ t ∷ ts))) where
  distinct64 : IsDistinct 64 (rs ++ t ∷ ts)
  distinct64 = IsDistinct-weaken n 64 (rs ++ t ∷ ts) (omega arith) distinct

  distinct63 : IsDistinct 63 (rs ++ t ∷ ts)
  distinct63 = IsDistinct-weaken n 63 (rs ++ t ∷ ts) (omega arith) distinct

  low :
      (q : ℕ) → bit (or_masks k 0 0 (rev_wire_parity (rs ++ t ∷ ts))) q ≡ spread (rs ++ t ∷ ts) k q
  low q = bit-or_masks_all (rs ++ t ∷ ts) distinct63 k q (omega (arith, length-append rs (t ∷ ts)))

  -- The base when the positions of the wires are passed.
  cleared-IsBase : IsBase rs vs (t ∷ ts) k (
      preset
        (length rs)
        (rs ++ t ∷ ts)
        (wire_shifts vs (rs ++ t ∷ ts))
        (or_masks k 0 0 (rev_wire_parity (rs ++ t ∷ ts))))
  unfolding preset
  cleared-IsBase =
      subst (IsBase rs vs (t ∷ ts) k)
        (ap (set_controls (length rs) (rs ++ t ∷ ts) (wire_shifts vs (rs ++ t ∷ ts))) (
            masked-or_masks k (rev_wire_parity (rs ++ t ∷ ts))
              (word_of_block n hn k (length (rs ++ t ∷ ts)) hk))
          ∙ sym (set_positions rs))
        (controls-IsBase n hn k rs vs t ts distinct paired hk)
    where
      set_positions :
          (cs : List ℕ)
          → preset
              (length rs)
              (cs ++ t ∷ ts)
              (wire_shifts vs (rs ++ t ∷ ts))
              (or_masks k 0 0 (rev_wire_parity (rs ++ t ∷ ts)))
            ≡ set_controls
                (length rs)
                (cs ++ t ∷ ts)
                (wire_shifts vs (rs ++ t ∷ ts))
                (or_masks k 0 0 (rev_wire_parity (rs ++ t ∷ ts)))
      set_positions [] = refl
      set_positions (c ∷ cs) = refl

  -- The base when they are not: the control values are or-ed in, where the base has zeros.
  ored-IsBase : IsBase rs vs (t ∷ ts) k (
      preset
        (length rs)
        []
        (wire_shifts vs (rs ++ t ∷ ts))
        (or_masks k 0 0 (rev_wire_parity (rs ++ t ∷ ts))))
  unfolding preset
  ored-IsBase q =
      bit-or_all rs (t ∷ ts) vs (or_masks k 0 0 (rev_wire_parity (rs ++ t ∷ ts))) q paired
        (IsDistinct-left 64 rs (t ∷ ts) distinct64)
      ∙ elim (Bool-cases (elem q rs)) [
        | inl on ↦ ground (
          arith,
          low q,
          elem-append q rs (t ∷ ts),
          IsDistinct-below 64 q rs (IsDistinct-left 64 rs (t ∷ ts) distinct64) on,
          placed_hit rs vs q (spread (rs ++ t ∷ ts) k q) false paired on,
        )
        | inr off ↦ ground (
          arith,
          low q,
          placed_miss rs vs q false off,
          placed_miss rs vs q (spread (rs ++ t ∷ ts) k q) off,
        )
      ]

  few : length (t ∷ ts) < 64
  few = omega (arith, length_wires-le n (rs ++ t ∷ ts) distinct, length-append rs (t ∷ ts))

  -- The entries of parity2indices are the cells of block k, whether the positions of the wires are
  -- passed or not.
  pub parity2indices-AreCells : AreCells rs vs (t ∷ ts) k (λ i.
      get_or
        (parity2indices k
          (rev_wire_parity (rs ++ t ∷ ts))
          (wire_shifts vs (rs ++ t ∷ ts))
          (length rs)
          (rs ++ t ∷ ts))
        i
        0)
  parity2indices-AreCells i h =
      subst (IsAddress (rs ++ t ∷ ts) (vs ++ digits (length (t ∷ ts)) i) k)
        (sym (
          get_or-parity2indices k (rev_wire_parity (rs ++ t ∷ ts)) rs (t ∷ ts) vs (rs ++ t ∷ ts) i
            paired few h))
        (entry-AreCells n hn rs vs (t ∷ ts) distinct paired k _ hk cleared-IsBase i h)

  pub parity2indices-AreCells' : AreCells rs vs (t ∷ ts) k (λ i.
      get_or
        (parity2indices k
          (rev_wire_parity (rs ++ t ∷ ts))
          (wire_shifts vs (rs ++ t ∷ ts))
          (length rs)
          [])
        i
        0)
  parity2indices-AreCells' i h =
      subst (IsAddress (rs ++ t ∷ ts) (vs ++ digits (length (t ∷ ts)) i) k)
        (sym (
          get_or-parity2indices k (rev_wire_parity (rs ++ t ∷ ts)) rs (t ∷ ts) vs [] i paired few
            h))
        (entry-AreCells n hn rs vs (t ∷ ts) distinct paired k _ hk ored-IsBase i h)

length-range_from : (i m : ℕ) → length (range_from i m) ≡ m
length-range_from i zero = refl
length-range_from i (suc m) = ap suc (length-range_from (suc i) m)

pub length-parity2indices :
    (k : ℕ) (parity rs ts : List ℕ) (vs : List Bool) (rev_wires : List ℕ)
    → length ts < 64
    → length (parity2indices k parity (wire_shifts vs (rs ++ ts)) (length rs) rev_wires)
      ≡ 2 ^ length ts
unfolding parity2indices
length-parity2indices k parity rs ts vs rev_wires h =
    let shifts = wire_shifts vs (rs ++ ts) in
    let dim : shl 1 (length shifts - length rs) ≡ 2 ^ length ts =
      ap (shl 1) {x = length shifts - length rs} {y = length ts}
        (omega (arith, length-wire_shifts vs (rs ++ ts), length-append rs ts))
      ∙ shl_one (length ts) h in
    omega (
      arith,
      length-map (range_from 1 (shl 1 (length shifts - length rs) - 1)) (λ inner.
          inner_index inner 0 (preset (length rs) rev_wires shifts (or_masks k 0 0 parity))
            (drop (length rs) shifts)),
      length-range_from 1 (shl 1 (length shifts - length rs) - 1),
      dim,
      pow_pos (length ts),
    )
