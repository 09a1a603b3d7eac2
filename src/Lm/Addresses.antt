-- ===== src/Lm/Addresses.antt =====
-- The addresses of each round of applyNC1 and applyNC2 are the cells of one block.
use pennylane_lightning.Prelude.{
  ℕ, ◌+◌, ◌-◌, ◌^◌, ◌<◌, ◌≡◌, refl, ap, ◌∙◌, Bool, true, false, ◌&&◌, ◌||◌, List, [], ◌∷◌, ◌++◌,
  bit_and, bit_or, arith, ltb, ◌==◌, elem, length, get_or, inl, inr, eq_or_ne,
}
use pennylane_lightning.Word.{shl}
use pennylane_lightning.Word.Bit.{bit, bit_ext, bit-bit_or, bit-bit_and}
use pennylane_lightning.Word.Shift.{bit-shl_one}
use pennylane_lightning.BitUtil.{rev_wire_parity}
use pennylane_lightning.BitUtil.Sort.{IsDistinct, rank}
use pennylane_lightning.BitUtil.Parity.{bit-rev_wire_parity}
use pennylane_lightning.Blocks.{IsAddress, placed, IsDistinct-right}
use pennylane_lightning.Lm.Index.{
  wire_shifts, nc1_plain, nc1_controlled, nc2_plain, nc2_controlled, Quad,
}
use pennylane_lightning.Lm.Spread.{spread, bit-masked_shift, IsDistinct-weaken}
use pennylane_lightning.Lm.Cells.{get_or-wire_shifts}
use pennylane_lightning.Lm.Rounds.{IsBase, base_or-IsAddress, controls-IsBase}

-- A pair of addresses: those of block k with a zero and with a one at the target.
abbrev pub ArePair : List ℕ → List Bool → ℕ → ℕ → ℕ × ℕ → Type 0
ArePair rs vs t k p =
    IsAddress (rs ++ t ∷ []) (vs ++ false ∷ []) k p.0
    × IsAddress (rs ++ t ∷ []) (vs ++ true ∷ []) k p.1

-- Four addresses: those of block k with the four pairs of digits at the targets t1 and t0.
pub record AreQuad (rs : List ℕ) (vs : List Bool) (t0 t1 k : ℕ) (p : Quad) : Type 0 where
  pub at_00 : IsAddress (rs ++ t0 ∷ t1 ∷ []) (vs ++ false ∷ false ∷ []) k p.i00
  pub at_01 : IsAddress (rs ++ t0 ∷ t1 ∷ []) (vs ++ true ∷ false ∷ []) k p.i01
  pub at_10 : IsAddress (rs ++ t0 ∷ t1 ∷ []) (vs ++ false ∷ true ∷ []) k p.i10
  pub at_11 : IsAddress (rs ++ t0 ∷ t1 ∷ []) (vs ++ true ∷ true ∷ []) k p.i11

module _ (n : ℕ) (rs : List ℕ) (vs : List Bool) (hn : n < 64) (paired : length vs ≡ length rs)
    (k x : ℕ) where
  pair-ArePair :
      (t : ℕ)
      → IsDistinct n (rs ++ t ∷ [])
      → k < 2 ^ (n - length (rs ++ t ∷ []))
      → IsBase rs vs (t ∷ []) k x
      → ArePair rs vs t k (x, bit_or x (shl 1 t))
  pair-ArePair t d hk base = (
    base_or-IsAddress n rs vs (t ∷ []) hn d paired k x hk base (false ∷ []) x refl
        (λ q. ground arith),
    base_or-IsAddress n rs vs (t ∷ []) hn d paired k x hk base (true ∷ []) _ refl
        (λ q. ground (arith, bit-bit_or x (shl 1 t) q, bit-shl_one t q)),
  )

  quad-AreQuad :
      (t0 t1 : ℕ)
      → IsDistinct n (rs ++ t0 ∷ t1 ∷ [])
      → k < 2 ^ (n - length (rs ++ t0 ∷ t1 ∷ []))
      → IsBase rs vs (t0 ∷ t1 ∷ []) k x
      → AreQuad rs vs t0 t1 k (record {
        i00 = x;
        i01 = bit_or x (shl 1 t0);
        i10 = bit_or x (shl 1 t1);
        i11 = bit_or (bit_or x (shl 1 t0)) (shl 1 t1);
      })
  quad-AreQuad t0 t1 d hk base = record {
    at_00 = at (false ∷ false ∷ []) x refl (λ q. ground arith);
    at_01 =
        at (true ∷ false ∷ []) _ refl
          (λ q. ground (arith, apart, bit-bit_or x (shl 1 t0) q, bit-shl_one t0 q));
    at_10 =
        at (false ∷ true ∷ []) _ refl
          (λ q. ground (arith, apart, bit-bit_or x (shl 1 t1) q, bit-shl_one t1 q));
    at_11 = at (true ∷ true ∷ []) _ refl (λ q. ground (
      arith,
      bit-bit_or (bit_or x (shl 1 t0)) (shl 1 t1) q,
      bit-bit_or x (shl 1 t0) q,
      bit-shl_one t0 q,
      bit-shl_one t1 q,
    ));
  }
    where
      apart : elem t0 (t1 ∷ []) ≡ false
      apart = (IsDistinct-right n rs (t0 ∷ t1 ∷ []) d).1

      at :
          (bs : List Bool) (y : ℕ)
          → length bs ≡ 2
          → ((q : ℕ) → bit y q ≡ (bit x q || (ltb q 64 && placed (t0 ∷ t1 ∷ []) bs q false)))
          → IsAddress (rs ++ t0 ∷ t1 ∷ []) (vs ++ bs) k y
      at bs y e h = base_or-IsAddress n rs vs (t0 ∷ t1 ∷ []) hn d paired k x hk base bs y e h

-- One of the masks of a kernel without controls, and the first, which is taken of k unshifted.
module _ (wires : List ℕ) (d : IsDistinct 63 wires) (pos : 0 < length wires) (k q : ℕ) where
  shifted :
      (i : ℕ)
      → bit (bit_and (shl k i) (get_or (rev_wire_parity wires) i 0)) q
        ≡ (rank wires q == i && spread wires k q)
  shifted i = bit-masked_shift wires d k i _ q (bit-rev_wire_parity wires i q pos d)

  unshifted :
      bit (bit_and k (get_or (rev_wire_parity wires) 0 0)) q
      ≡ (rank wires q == 0 && spread wires k q)
  unshifted = elim (eq_or_ne (rank wires q) 0) [
    | inl none_below ↦ ground (
      arith,
      bit-bit_and k (get_or (rev_wire_parity wires) 0 0) q,
      bit-rev_wire_parity wires 0 q pos d,
      ap (bit k) {x = q} {y = q - rank wires q} (omega arith),
    )
    | inr some_below ↦ ground (
      arith,
      bit-bit_and k (get_or (rev_wire_parity wires) 0 0) q,
      bit-rev_wire_parity wires 0 q pos d,
    )
  ]

bit_and_comm : (a b : ℕ) → bit_and a b ≡ bit_and b a
bit_and_comm a b = bit_ext _ _ λ q. ground (arith, bit-bit_and a b q, bit-bit_and b a q)

-- Round k of applyNC1 without controls, for a wire at position t of n < 64 qubits, addresses the
-- two cells of block k.
pub nc1_plain-ArePair :
    (n t k : ℕ) → n < 64 → t < n → k < 2 ^ (n - 1) → ArePair [] [] t k (nc1_plain t k)
unfolding nc1_plain
nc1_plain-ArePair n t k hn ht hk =
    let d : IsDistinct n (t ∷ []) = (ht, refl, tt) in
    let d63 : IsDistinct 63 (t ∷ []) = IsDistinct-weaken n 63 (t ∷ []) (omega arith) d in
    let high = bit_and (shl k 1) (get_or (rev_wire_parity (t ∷ [])) 1 0) in
    let low = bit_and (get_or (rev_wire_parity (t ∷ [])) 0 0) k in
    pair-ArePair n [] [] hn refl k _ t d hk λ q. ground (
      arith,
      bit-bit_or high low q,
      shifted (t ∷ []) d63 (omega arith) k q 1,
      unshifted (t ∷ []) d63 (omega arith) k q,
      ap (λ w. bit w q) (bit_and_comm (get_or (rev_wire_parity (t ∷ [])) 0 0) k),
    )

shift_of :
    (rs : List ℕ) (vs : List Bool) (t : ℕ) (ts : List ℕ)
    → length vs ≡ length rs
    → get_or (wire_shifts vs (rs ++ t ∷ ts)) (length rs) 0 ≡ shl 1 t
shift_of rs vs t ts e =
    ap (λ i. get_or (wire_shifts vs (rs ++ t ∷ ts)) i 0) {x = length rs} {y = length rs + 0}
      (omega arith)
    ∙ get_or-wire_shifts rs (t ∷ ts) vs 0 e

-- And with controls, for control values of the same number.
pub nc1_controlled-ArePair :
    (n : ℕ) (rs : List ℕ) (vs : List Bool) (t k : ℕ)
    → n < 64
    → IsDistinct n (rs ++ t ∷ [])
    → length vs ≡ length rs
    → k < 2 ^ (n - length (rs ++ t ∷ []))
    → ArePair rs vs t k (
        nc1_controlled
          (rev_wire_parity (rs ++ t ∷ []))
          (rs ++ t ∷ [])
          (wire_shifts vs (rs ++ t ∷ []))
          (length rs)
          k)
unfolding nc1_controlled
nc1_controlled-ArePair n rs vs t k hn d e hk =
    let both = pair-ArePair n rs vs hn e k _ t d hk (controls-IsBase n hn k rs vs t [] d e hk) in
    (both.0, rw (shift_of rs vs t [] e) both.1)

-- The four addresses of round k of applyNC2 without controls.
pub nc2_plain-AreQuad :
    (n t0 t1 k : ℕ)
    → n < 64
    → IsDistinct n (t0 ∷ t1 ∷ [])
    → k < 2 ^ (n - 2)
    → AreQuad [] [] t0 t1 k (nc2_plain t0 t1 k)
unfolding nc2_plain
nc2_plain-AreQuad n t0 t1 k hn d hk =
    let ts : List ℕ = t0 ∷ t1 ∷ [] in
    let d63 : IsDistinct 63 ts = IsDistinct-weaken n 63 ts (omega arith) d in
    let high = bit_and (shl k 2) (get_or (rev_wire_parity ts) 2 0) in
    let middle = bit_and (shl k 1) (get_or (rev_wire_parity ts) 1 0) in
    let low = bit_and k (get_or (rev_wire_parity ts) 0 0) in
    quad-AreQuad n [] [] hn refl k _ t0 t1 d hk λ q. ground (
      arith,
      bit-bit_or (bit_or high middle) low q,
      bit-bit_or high middle q,
      shifted ts d63 (omega arith) k q 2,
      shifted ts d63 (omega arith) k q 1,
      unshifted ts d63 (omega arith) k q,
    )

-- And with controls.
pub nc2_controlled-AreQuad :
    (n : ℕ) (rs : List ℕ) (vs : List Bool) (t0 t1 k : ℕ)
    → n < 64
    → IsDistinct n (rs ++ t0 ∷ t1 ∷ [])
    → length vs ≡ length rs
    → k < 2 ^ (n - length (rs ++ t0 ∷ t1 ∷ []))
    → AreQuad rs vs t0 t1 k (
        nc2_controlled
          (rev_wire_parity (rs ++ t0 ∷ t1 ∷ []))
          (rs ++ t0 ∷ t1 ∷ [])
          (wire_shifts vs (rs ++ t0 ∷ t1 ∷ []))
          (length rs)
          k)
unfolding nc2_controlled
nc2_controlled-AreQuad n rs vs t0 t1 k hn d e hk =
    let all =
      quad-AreQuad n rs vs hn e k _ t0 t1 d hk (controls-IsBase n hn k rs vs t0 (t1 ∷ []) d e hk) in
    let s0 = shift_of rs vs t0 (t1 ∷ []) e in
    let s1 = get_or-wire_shifts rs (t0 ∷ t1 ∷ []) vs 1 e in
    record {
      at_00 = all.at_00;
      at_01 = rw s0 all.at_01;
      at_10 = rw s1 all.at_10;
      at_11 = rw (s0, s1) all.at_11;
    }
