-- ===== src/Lm/Spread.antt =====
-- The masked shifts of a block number put its digits at the positions that are no wires.
use pennylane_lightning.Prelude.{
  ℕ, suc, ◌+◌, ◌-◌, ◌^◌, ◌≤◌, ◌<◌, ◌≡◌, refl, ap, sym, ◌∙◌, Bool, ◌&&◌, ◌||◌, not, List, [], ◌∷◌,
  bit_and, bit_or, arith, ltb, leb, ◌==◌, elem, length, get_or, eq_or_ne, inl, inr,
}
use pennylane_lightning.Word.{shl}
use pennylane_lightning.Word.Bit.{bit, bit-zero, bit_ext, bit-bit_and, bit-bit_or}
use pennylane_lightning.Word.Shift.{bit-shl}
use pennylane_lightning.BitUtil.{rev_wire_parity}
use pennylane_lightning.BitUtil.Sort.{IsDistinct, rank, sort, rank-sort, sort-Ascends}
use pennylane_lightning.BitUtil.Parity.{bit-rev_wire_parity}
use pennylane_lightning.Blocks.{rank-le}
use pennylane_lightning.Lm.Index.{or_masks, masked}

pub IsDistinct-weaken : (n m : ℕ) (ws : List ℕ) → n ≤ m → IsDistinct n ws → IsDistinct m ws
IsDistinct-weaken n m [] h d = tt
IsDistinct-weaken n m (w ∷ ws) h d = (omega arith, d.1, IsDistinct-weaken n m ws h d.2)

pub rank_bound : (n q : ℕ) (ws : List ℕ) → IsDistinct n ws → rank ws q ≤ q
rank_bound n q ws d =
    omega (arith, rank-le 0 n (sort ws) q (sort-Ascends n ws d) (omega arith), rank-sort q ws)

-- The digit at q of a block number spread over the positions that are no wires.
abbrev pub spread : List ℕ → ℕ → ℕ → Bool
spread wires k q = ltb q 64 && (not (elem q wires) && bit k (q - rank wires q))

-- The masks `ps`, from number i on, are those of the wires.
abbrev AreMasks : List ℕ → ℕ → List ℕ → Type 0
AreMasks wires i ps =
    (t q : ℕ)
    → bit (get_or ps t 0) q ≡ (ltb q 64 && (not (elem q wires) && (rank wires q == i + t)))

zero-bit_or : (x : ℕ) → bit_or 0 x ≡ x
zero-bit_or x = bit_ext _ _ λ q. ground (arith, bit-bit_or 0 x q, bit-zero q)

pub masked-or_masks : (k : ℕ) (ps : List ℕ) → k < 2 ^ 64 → masked k ps ≡ or_masks k 0 0 ps
unfolding masked or_masks
masked-or_masks k [] h = refl
masked-or_masks k (p ∷ ps) h =
    ap (λ t. or_masks k 1 (bit_and t p) ps) {x = k} {y = shl k 0} (unfold shl in omega arith)
    ∙ ap (λ t. or_masks k 1 t ps) (sym (zero-bit_or (bit_and (shl k 0) p)))

module _ (wires : List ℕ) (distinct : IsDistinct 63 wires) where
  -- The digit of one masked shift.
  pub bit-masked_shift :
      (k i m q : ℕ)
      → bit m q ≡ (ltb q 64 && (not (elem q wires) && (rank wires q == i)))
      → bit (bit_and (shl k i) m) q ≡ (rank wires q == i && spread wires k q)
  bit-masked_shift k i m q e = elim (eq_or_ne (rank wires q) i) [
    | inl same ↦ ground (
      arith,
      bit-bit_and (shl k i) m q,
      bit-shl k i q,
      rank_bound 63 q wires distinct,
      ap (λ t. bit k (q - t)) same,
    )
    | inr other ↦ ground (arith, bit-bit_and (shl k i) m q)
  ]

  bit-or_masks :
      (k i idx : ℕ) (ps : List ℕ) (q : ℕ)
      → AreMasks wires i ps
      → bit (or_masks k i idx ps) q ≡ (bit idx q || (leb i (rank wires q) && spread wires k q))
  unfolding or_masks
  bit-or_masks k i idx [] q m = ground (arith, m (rank wires q - i) q, bit-zero q)
  bit-or_masks k i idx (p ∷ ps) q m = ground (
    arith,
    bit-or_masks k (i + 1) (bit_or idx (bit_and (shl k i) p)) ps q (λ t r.
        m (suc t) r
        ∙ ap (λ s. ltb r 64 && (not (elem r wires) && (rank wires r == s))) (omega arith)),
    bit-bit_or idx (bit_and (shl k i) p) q,
    bit-masked_shift k i p q
        (m 0 q ∙ ap (λ s. ltb q 64 && (not (elem q wires) && (rank wires q == s))) (omega arith)),
  )

  pub bit-or_masks_all :
      (k q : ℕ)
      → 0 < length wires
      → bit (or_masks k 0 0 (rev_wire_parity wires)) q ≡ spread wires k q
  bit-or_masks_all k q pos = ground (
    arith,
    bit-or_masks k 0 0 (rev_wire_parity wires) q (λ t r.
        bit-rev_wire_parity wires t r pos distinct
        ∙ ap (λ s. ltb r 64 && (not (elem r wires) && (rank wires r == s))) (omega arith)),
    bit-zero q,
  )

  pub bit-masked :
      (k q : ℕ)
      → 0 < length wires
      → k < 2 ^ 64
      → bit (masked k (rev_wire_parity wires)) q ≡ spread wires k q
  bit-masked k q pos h =
      ap (λ t. bit t q) (masked-or_masks k (rev_wire_parity wires) h) ∙ bit-or_masks_all k q pos
