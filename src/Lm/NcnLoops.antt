-- ===== src/Lm/NcnLoops.antt =====
-- The loops of applyNCN: each round calls the core function on the cells of one block.
use mathlib.Core.Path.{subst}
use pennylane_lightning.Prelude.{
  ℕ, ◌+◌, ◌-◌, ◌^◌, ◌<◌, ◌≡◌, refl, ap, sym, ◌∙◌, fun_ext, Bool, false, ◌&&◌, List, [], ◌∷◌, ◌++◌,
  arith, ltb, if◌then◌else◌, elem, length, get_or, range, reversed, length-append, Bool-cases, inl,
  inr, ◌||◌,
}
use pennylane_lightning.Word.{shl}
use pennylane_lightning.Word.Bit.{bit}
use pennylane_lightning.BitUtil.{rev_wire_parity}
use pennylane_lightning.BitUtil.Sort.{IsDistinct}
use pennylane_lightning.Memory.{Arr, for_each}
use pennylane_lightning.Memory.Cells.{IsApart}
use pennylane_lightning.Blocks.{
  IsSchedule, range-IsSchedule, length_wires-le, IsDistinct-below, placed, placed_miss, digits,
  length-digits, number_at,
}
use pennylane_lightning.Gate.{UpdateN, gate_n, positions, targets, with_number}
use pennylane_lightning.Util.Patterns.{patterns, length-patterns}
use pennylane_lightning.Lm.Index.{reverse_wires, wire_shifts, or_masks, parity2indices}
use pennylane_lightning.Lm.Wires.{
  shl_one, positions-IsDistinct, reversed-IsDistinct, reverse_wires_lem, length-reversed_pair,
  controls_match-reversed,
}
use pennylane_lightning.Lm.Spread.{IsDistinct-weaken, bit-or_masks_all}
use pennylane_lightning.Lm.Rounds.{IsBase, base_or-IsAddress}
use pennylane_lightning.Lm.CorrectN.{IsRound, IsLocal, AreCells, number_at-cell, loop_n}
use pennylane_lightning.Lm.Presets.{parity2indices-AreCells, length-parity2indices}
use pennylane_lightning.Lm.PatternCells.{bit-pattern, elem-all_positions, length-targets}
use pennylane_lightning.Lm.AllWires.{all_positions, all-IsDistinct, length-all}
use pennylane_lightning.Lm.Many.{CoreN, ncn_plain_round, ncn_controlled_round}

-- On addresses that have the numbers 0, 1, ... at the positions ts, the core function replaces the
-- amplitudes as `update` says and no other.
abbrev pub IsCoreN : {A : Type 0} → ℕ → List ℕ → CoreN A → UpdateN A → Type 0
IsCoreN {A} dim ts core update =
    (indices : List ℕ) (offset : ℕ)
    → length indices ≡ dim
    → ((i : ℕ) → i < dim → number_at ts (get_or indices i 0 + offset) ≡ i)
    → IsRound dim update (λ i. get_or indices i 0 + offset) (λ arr. core arr indices offset)

-- Such addresses are different.
pub numbered-IsApart :
    (dim : ℕ) (ts : List ℕ) (addr : ℕ → ℕ)
    → ((i : ℕ) → i < dim → number_at ts (addr i) ≡ i)
    → IsApart dim addr
numbered-IsApart dim ts addr numbered i j hi hj e =
    sym (numbered i hi) ∙ ap (number_at ts) e ∙ numbered j hj

nonempty :
    (n : ℕ)
    → n < 64
    → (k : ℕ) (rs : List ℕ) (vs : List Bool) (ts : List ℕ) → IsDistinct n (rs ++ ts)
    → length vs ≡ length rs
    → k < 2 ^ (n - length (rs ++ ts))
    → 0 < length ts
    → AreCells rs vs ts k (λ i.
      get_or
        (parity2indices k
          (rev_wire_parity (rs ++ ts))
          (wire_shifts vs (rs ++ ts))
          (length rs)
          (rs ++ ts))
        i
        0
      + 0)
nonempty n hn k rs vs [] d e hk pos = absurd (omega arith)
nonempty n hn k rs vs (t ∷ ts) d e hk pos =
    subst (AreCells rs vs (t ∷ ts) k) (fun_ext λ i. omega arith)
      (parity2indices-AreCells n hn k rs vs t ts d e hk)

-- The cells of a round without controls.
plain-AreCells :
    (n : ℕ)
    → n < 64
    → (k : ℕ) (ws : List ℕ) → IsDistinct n ws
    → 0 < length ws
    → k < 2 ^ (n - length ws)
    → AreCells [] []
        (targets n ws)
        k
        (λ i. get_or (patterns n ws) i 0 + or_masks k 0 0 (rev_wire_parity (targets n ws)))
plain-AreCells n hn k ws d pos hk i h =
    let ts = targets n ws in
    let dt : IsDistinct n ts = positions-IsDistinct n (reversed ws) (reversed-IsDistinct n ws d) in
    let same : length ts ≡ length ws = length-targets n ws in
    let x = or_masks k 0 0 (rev_wire_parity ts) in
    let base : IsBase [] [] ts k x = λ q.
      bit-or_masks_all ts (IsDistinct-weaken n 63 ts (omega arith) dt) k q (omega (arith, same)) in
    base_or-IsAddress n [] [] ts hn dt refl k x (subst (λ m. k < 2 ^ (n - m)) (sym same) hk) base
      (digits (length ts) i) _ (length-digits (length ts) i)
      λ q.
        bit-pattern n ws i x q d (subst (λ m. i < 2 ^ m) same h)
          (λ p on. base p ∙ ground (arith, elem-all_positions n p ws))
        ∙ ap (λ m. bit x q || placed ts (digits m i) q false) (sym same)
        ∙ elim (Bool-cases (elem q ts)) [
          | inl on ↦ ground (arith, IsDistinct-below n q ts dt on)
          | inr off ↦ ground (arith, placed_miss ts (digits (length ts) i) q false off)
        ]

pub all_rounds : (n m : ℕ) → n < 64 → 0 < m → IsSchedule (2 ^ (n - m)) (range (shl 1 (n - m)))
all_rounds n m hn hm =
    subst (λ c. IsSchedule c (range (shl 1 (n - m)))) (shl_one (n - m) (omega arith))
      (range-IsSchedule (shl 1 (n - m)))

module _ {A : Type 0} (core : CoreN A) (update : UpdateN A) (n : ℕ) (ws : List ℕ)
    (is_core : IsCoreN (2 ^ length ws) (targets n ws) core update)
    (local : IsLocal (2 ^ length ws) update) (hn : n < 64) (pos : 0 < length ws) where
  pos_targets : 0 < length (targets n ws)
  pos_targets = omega (arith, length-targets n ws)

  core_targets : IsCoreN (2 ^ length (targets n ws)) (targets n ws) core update
  core_targets =
      subst (λ m. IsCoreN (2 ^ m) (targets n ws) core update) (sym (length-targets n ws)) is_core

  targets-IsLocal : IsLocal (2 ^ length (targets n ws)) update
  targets-IsLocal = subst (λ m. IsLocal (2 ^ m) update) (sym (length-targets n ws)) local

  -- The loop of applyNCN without controls, for distinct wires below n < 64, at least one, computes the
  -- gate of its core function whatever the order of its rounds.
  pub ncn_plain-any_order :
      (vs : List Bool) (ks : List ℕ) (arr : Arr A)
      → IsDistinct n ws
      → IsSchedule (2 ^ (n - length ws)) ks
      → for_each ks (ncn_plain_round core (rev_wire_parity (targets n ws)) (patterns n ws)) arr
        ≡ gate_n n [] vs ws update arr
  unfolding ncn_plain_round gate_n
  ncn_plain-any_order vs ks arr d schedule = fun_ext λ j.
      let ts = targets n ws in
      let dt : IsDistinct n ts =
        positions-IsDistinct n (reversed ws) (reversed-IsDistinct n ws d) in
      let same = length-targets n ws in
      let addr : ℕ → ℕ → ℕ =
        λ k i. get_or (patterns n ws) i 0 + or_masks k 0 0 (rev_wire_parity ts) in
      let cells : (k : ℕ) → k < 2 ^ (n - length ts) → AreCells [] [] ts k (addr k) =
        λ k hk. plain-AreCells n hn k ws d pos (subst (λ m. k < 2 ^ (n - m)) same hk) in
      loop_n n [] [] ts dt refl update targets-IsLocal addr
        (λ k arr'. core arr' (patterns n ws) (or_masks k 0 0 (rev_wire_parity ts))) cells
        (λ k hk.
          core_targets (patterns n ws) (or_masks k 0 0 (rev_wire_parity ts))
            (length-patterns n ws ∙ ap (λ m. 2 ^ m) (sym same))
            (number_at-cell n [] [] ts dt refl k (addr k) (cells k hk)))
        ks arr j (subst (λ m. IsSchedule (2 ^ (n - m)) ks) (sym same) schedule)

  -- And with controls, all wires distinct, and a value for each control wire.
  pub ncn_controlled-any_order :
      (cs : List ℕ) (vs : List Bool) (ks : List ℕ) (arr : Arr A)
      → IsDistinct n (ws ++ cs)
      → length vs ≡ length cs
      → IsSchedule (2 ^ (n - (length cs + length ws))) ks
      → for_each ks
          (ncn_controlled_round core
            (rev_wire_parity (reverse_wires n (ws ++ cs) vs).0)
            (reverse_wires n (ws ++ cs) vs).0
            (reverse_wires n (ws ++ cs) vs).1
            (length cs))
          arr
        ≡ gate_n n cs vs ws update arr
  unfolding ncn_controlled_round gate_n
  ncn_controlled-any_order cs vs ks arr d e schedule = fun_ext λ j.
      let ts = targets n ws in
      let rs = positions n (reversed cs) in
      let dt = all-IsDistinct n ws cs d in
      let paired = length-reversed_pair n cs vs e in
      let revs = reverse_wires n (ws ++ cs) vs in
      let is_revs : revs ≡ (rs ++ ts, wire_shifts (reversed vs) (rs ++ ts)) =
        reverse_wires_lem n (ws ++ cs) vs hn d
        ∙ ap (λ p. (p, wire_shifts (reversed vs) p)) (all_positions n ws cs) in
      let few : length ts < 64 =
        omega (arith, length_wires-le n (rs ++ ts) dt, length-append rs ts) in
      let list : ℕ → List ℕ = λ k.
        parity2indices k (rev_wire_parity (rs ++ ts)) (wire_shifts (reversed vs) (rs ++ ts))
          (length rs) (rs ++ ts) in
      let cells : (k : ℕ)
          → k < 2 ^ (n - length (rs ++ ts))
          → AreCells rs (reversed vs) ts k (λ i. get_or (list k) i 0 + 0) =
        λ k hk. nonempty n hn k rs (reversed vs) ts dt paired hk pos_targets in
      let counted : length rs ≡ length cs = length-targets n cs in
      ap
        (λ r.
          for_each ks
            (λ k arr'. core arr' (parity2indices k (rev_wire_parity r.0) r.1 (length cs) r.0) 0) arr
            j)
        is_revs
      ∙ ap
          (λ c.
            for_each ks
              (λ k arr'.
                core arr'
                  (parity2indices k (rev_wire_parity (rs ++ ts))
                    (wire_shifts (reversed vs) (rs ++ ts)) c (rs ++ ts))
                  0)
              arr j)
          (sym counted)
      ∙ loop_n n rs (reversed vs) ts dt paired update targets-IsLocal
          (λ k i. get_or (list k) i 0 + 0) (λ k arr'. core arr' (list k) 0) cells
          (λ k hk.
            core_targets (list k) 0
              (length-parity2indices k (rev_wire_parity (rs ++ ts)) rs ts (reversed vs) (rs ++ ts)
                few)
              (number_at-cell n rs (reversed vs) ts dt paired k (λ i. get_or (list k) i 0 + 0)
                (cells k hk)))
          ks arr j (subst (λ m. IsSchedule (2 ^ (n - m)) ks) (sym (length-all n ws cs)) schedule)
      ∙ ap
          (λ b.
            if ltb j (2 ^ n) && b
            then update (number_at ts j) (λ i. arr (with_number n ts i j))
            else arr j)
          (controls_match-reversed n cs vs j e)
