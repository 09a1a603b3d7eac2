-- ===== src/BitUtil/Parity.antt =====
-- The parity masks of a list of wires share the positions of a word out: a wire lies in none of
-- them, and any other position in the one whose number is the count of wires below it.
use pennylane_lightning.Prelude.{
  ℕ, zero, suc, ◌+◌, ◌<◌, ◌≡◌, refl, ap, ◌∙◌, false, ◌&&◌, not, List, [], ◌∷◌, arith, ltb, ◌==◌,
  elem, get_or, length,
}
use pennylane_lightning.Word.Bit.{bit, bit-zero, bit-bit_and}
use pennylane_lightning.BitUtil.{parity_above, parity_of_sorted, rev_wire_parity}
use pennylane_lightning.BitUtil.{fill_trailing_ones, fill_leading_ones}
use pennylane_lightning.BitUtil.Sort.{
  sort, Ascends, IsDistinct, rank, elem-sort, rank-sort, length-sort, sort-Ascends,
}
use pennylane_lightning.BitUtil.Masks.{bit-fill_trailing_ones, bit-fill_leading_ones}

-- Below the first of ascending wires there is no wire.
pub below_all :
    (q lo hi : ℕ) (rs : List ℕ) → Ascends lo hi rs → q < lo → (elem q rs ≡ false) × (rank rs q ≡ 0)
below_all q lo hi [] a h = (refl, refl)
below_all q lo hi (r ∷ rs) a h =
    let rest = below_all q (suc r) hi rs a.2 (omega arith) in (ground arith, ground arith)

bit-parity_above :
    (p : ℕ) (rs : List ℕ) (i q : ℕ)
    → Ascends (suc p) 63 rs
    → bit (get_or (parity_above p rs) i 0) q
      ≡ (ltb p q && (ltb q 64 && (not (elem q rs) && (rank rs q == i))))
unfolding parity_above
bit-parity_above p [] zero q a = ground (arith, bit-fill_leading_ones (p + 1) q)
bit-parity_above p [] (suc i) q a = ground (arith, bit-zero q)
bit-parity_above p (r ∷ rs) zero q a = ground (
  arith,
  bit-bit_and (fill_leading_ones (p + 1)) (fill_trailing_ones r) q,
  bit-fill_leading_ones (p + 1) q,
  bit-fill_trailing_ones r q,
  below_all q (suc r) 63 rs a.2,
)
bit-parity_above p (r ∷ rs) (suc i) q a =
    ground (arith, bit-parity_above r rs i q a.2, below_all q (suc r) 63 rs a.2)

bit-parity_of_sorted :
    (rs : List ℕ) (i q : ℕ)
    → 0 < length rs
    → Ascends 0 63 rs
    → bit (get_or (parity_of_sorted rs) i 0) q ≡ (ltb q 64 && (not (elem q rs) && (rank rs q == i)))
unfolding parity_of_sorted
bit-parity_of_sorted [] i q pos a = absurd (omega arith)
bit-parity_of_sorted (r ∷ rs) zero q pos a =
    ground (arith, bit-fill_trailing_ones r q, below_all q (suc r) 63 rs a.2)
bit-parity_of_sorted (r ∷ rs) (suc i) q pos a =
    ground (arith, bit-parity_above r rs i q a.2, below_all q (suc r) 63 rs a.2)

-- For distinct wires below 63, at least one: position q of a word is in mask i of
-- rev_wire_parity exactly when q is below 64 and no wire, and i wires lie below q.
pub bit-rev_wire_parity :
    (wires : List ℕ) (i q : ℕ)
    → 0 < length wires
    → IsDistinct 63 wires
    → bit (get_or (rev_wire_parity wires) i 0) q
      ≡ (ltb q 64 && (not (elem q wires) && (rank wires q == i)))
unfolding rev_wire_parity
bit-rev_wire_parity wires i q pos d =
    bit-parity_of_sorted (sort wires) i q (omega (arith, length-sort wires))
      (sort-Ascends 63 wires d)
    ∙ ap (λ t. ltb q 64 && (not t && (rank (sort wires) q == i))) (elem-sort q wires)
    ∙ ap (λ t. ltb q 64 && (not (elem q wires) && (t == i))) (rank-sort q wires)

-- There is one mask more than wires.
length-parity_above : (r : ℕ) (ws : List ℕ) → length (parity_above r ws) ≡ length ws + 1
unfolding parity_above
length-parity_above r [] = omega arith
length-parity_above r (w ∷ ws) = omega (arith, length-parity_above w ws)

pub length-rev_wire_parity :
    (ws : List ℕ) → 0 < length ws → length (rev_wire_parity ws) ≡ length ws + 1
unfolding rev_wire_parity
length-rev_wire_parity ws h = go (sort ws) (length-sort ws)
  where
    go : (rs : List ℕ) → length rs ≡ length ws → length (parity_of_sorted rs) ≡ length ws + 1
    go [] e = absurd (omega arith)
    go (r ∷ rs) e = omega (arith, length-parity_above r rs)
