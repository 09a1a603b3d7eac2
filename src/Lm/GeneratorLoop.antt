-- ===== src/Lm/GeneratorLoop.antt =====
-- The loops of the generators, whose rounds are those of GeneratorRound.
use mathlib.Core.Path.{subst, ap₂}
use pennylane_lightning.Prelude.{
  ℕ, ◌+◌, ◌-◌, ◌*◌, ◌/◌, ◌%◌, ◌^◌, ◌<◌, ◌≡◌, refl, ap, sym, ◌∙◌, fun_ext, Bool, true, ◌&&◌, List,
  [], ◌∷◌, ◌++◌, arith, ltb, ◌==◌, if◌then◌else◌, length, get_or, range, reversed, Bool-cases, inl,
  inr, length-append,
}
use pennylane_lightning.BitUtil.{rev_wire_parity}
use pennylane_lightning.BitUtil.Sort.{IsDistinct}
use pennylane_lightning.Memory.{Arr, for_each}
use pennylane_lightning.Memory.Cells.{IsApart}
use pennylane_lightning.Blocks.{
  IsSchedule, controls_match, spelled, spelled-lt, number_at, number_at-append, number_at-lt,
  number_at-match, with_bits-join, halves-div, halves-mod,
}
use pennylane_lightning.Gate.{UpdateN, gate_n, only_active, targets, with_number}
use pennylane_lightning.Lm.Index.{wire_shifts, parity2indices}
use pennylane_lightning.Lm.Wires.{length-reversed_pair, controls_match-reversed}
use pennylane_lightning.Lm.CorrectN.{IsRound, IsLocal, AreCells, cells_apart, loop_n}
use pennylane_lightning.Lm.Presets.{parity2indices-AreCells'}
use pennylane_lightning.Lm.AllWires.{all-IsDistinct}
use pennylane_lightning.Lm.GeneratorRound.{
  IsSmallCore, clear, masked_update, masked_update-IsLocal, generator-IsRound,
}

-- The address of entry i of block k.
abbrev pub entry_at : List ℕ → ℕ → ℕ → ℕ
entry_at all k i = get_or (parity2indices k (rev_wire_parity all) (wire_shifts [] all) 0 []) i 0

-- The entries of all wires of a generator are the cells of its block.
entries-AreCells :
    (n : ℕ)
    → n < 64
    → (k : ℕ) (all : List ℕ) → IsDistinct n all
    → 0 < length all
    → k < 2 ^ (n - length all)
    → AreCells [] [] all k (entry_at all k)
entries-AreCells n hn k [] d pos hk = absurd (omega arith)
entries-AreCells n hn k (t ∷ ts) d pos hk = parity2indices-AreCells' n hn k [] [] t ts d refl hk

module _ {A : Type 0} (nought : A) (n : ℕ) (hn : n < 64) (cs ws : List ℕ) (vs : List Bool)
    (distinct : IsDistinct n (cs ++ ws)) (paired : length vs ≡ length cs)
    (some_wire : 0 < length (targets n ws)) (update : UpdateN A)
    (local : IsLocal (2 ^ length (targets n ws)) update) (core : Arr A → (ℕ → ℕ) → Arr A)
    (is_core : IsSmallCore (2 ^ length (targets n ws)) core update) where
  mask_lt : spelled (reversed vs) < 2 ^ length (targets n cs)
  mask_lt =
      subst (λ t. spelled (reversed vs) < 2 ^ t) (length-reversed_pair n cs vs paired)
        (spelled-lt (reversed vs))

  all_wires-IsDistinct : IsDistinct n (targets n ws ++ targets n cs)
  all_wires-IsDistinct = all-IsDistinct n cs ws distinct

  -- The number of all digits splits in that of the targets and that of the controls.
  split_update :
      (arr : Arr A) (j : ℕ)
      → masked_update nought
          (length (targets n ws))
          (length (targets n cs))
          (spelled (reversed vs))
          mask_lt
          update
          local
          core
          is_core
          (number_at (targets n ws ++ targets n cs) j)
          (λ i. arr (with_number n (targets n ws ++ targets n cs) i j))
        ≡ (if controls_match (targets n cs) (reversed vs) j
            then update (number_at (targets n ws) j) (λ c. arr (with_number n (targets n ws) c j))
            else nought)
  split_update arr j =
      let ts = targets n ws in
      let rs = targets n cs in
      let mask = spelled (reversed vs) in
      let m = length ts in
      let low = number_at-lt ts j in
      let pair = length-reversed_pair n cs vs paired in
      let f : ℕ → A = λ c. arr (with_number n (ts ++ rs) (c + 2 ^ m * mask) j) in
      ap (λ t. if t / 2 ^ m == mask then update (t % 2 ^ m) f else nought)
        (number_at-append ts rs j)
      ∙ ap₂ (λ x y. if x == mask then update y f else nought)
          (halves-div m (number_at ts j) (number_at rs j) low)
          (halves-mod m (number_at ts j) (number_at rs j) low)
      ∙ ap (λ b. if b then update (number_at ts j) f else nought)
          (number_at-match rs (reversed vs) j pair)
      ∙ elim (Bool-cases (controls_match rs (reversed vs) j)) [
        | inl on ↦
            ap (λ b. if b then update (number_at ts j) f else nought) on
            ∙ local (number_at ts j) _ _ low
                (λ c hc. ap arr (with_bits-join n ts rs (reversed vs) c j pair on hc))
            ∙ sym (
                ap
                  (λ b.
                    if b then update (number_at ts j) (λ c. arr (with_number n ts c j)) else nought)
                  on)
        | inr off ↦
            ap (λ b. if b then update (number_at ts j) f else nought) off
            ∙ sym (
                ap
                  (λ b.
                    if b then update (number_at ts j) (λ c. arr (with_number n ts c j)) else nought)
                  off)
      ]

  -- A loop that zeroes the inactive entries of each block and gives the active ones to the core function
  -- applies the gate and keeps the active basis states only, in whatever order its rounds run.
  pub generator_loop :
      (ks : List ℕ) (arr : Arr A)
      → IsSchedule (2 ^ (n - length (targets n ws ++ targets n cs))) ks
      → for_each ks
          (λ k arr'.
            core
              (for_each
                (range (2 ^ (length (targets n ws) + length (targets n cs))))
                (clear nought
                  (length (targets n ws))
                  (spelled (reversed vs))
                  (entry_at (targets n ws ++ targets n cs) k))
                arr')
              (λ c.
                entry_at
                  (targets n ws ++ targets n cs)
                  k
                  (c + 2 ^ length (targets n ws) * spelled (reversed vs))))
          arr
        ≡ only_active nought n cs vs (gate_n n cs vs ws update arr)
  unfolding only_active gate_n
  generator_loop ks arr schedule = fun_ext λ j.
      let ts = targets n ws in
      let rs = targets n cs in
      let all = ts ++ rs in
      let mask = spelled (reversed vs) in
      let m = length ts in
      let l = length rs in
      let both : length all ≡ m + l = length-append ts rs in
      let cells : (k : ℕ) → k < 2 ^ (n - length all) → AreCells [] [] all k (entry_at all k) =
        λ k hk. entries-AreCells n hn k all all_wires-IsDistinct (omega (arith, both)) hk in
      let addr : ℕ → ℕ → ℕ = entry_at all in
      let new : UpdateN A = masked_update nought m l mask mask_lt update local core is_core in
      loop_n n [] [] all all_wires-IsDistinct refl new
        (subst (λ t. IsLocal (2 ^ t) new) (sym both)
          (masked_update-IsLocal nought m l mask mask_lt update local core is_core))
        addr
        (λ k arr'.
          core (for_each (range (2 ^ (m + l))) (clear nought m mask (addr k)) arr')
            (λ c. addr k (c + 2 ^ m * mask)))
        cells
        (λ k hk.
          subst
            (λ t. IsRound (2 ^ t) new (addr k) (λ arr'.
              core (for_each (range (2 ^ (m + l))) (clear nought m mask (addr k)) arr')
                (λ c. addr k (c + 2 ^ m * mask))))
            (sym both)
            (generator-IsRound nought m l mask mask_lt update local core is_core (addr k) (
              subst (λ t. IsApart (2 ^ t) (addr k)) both
                (cells_apart n [] [] all all_wires-IsDistinct refl k (addr k) (cells k hk)))))
        ks arr j schedule
      ∙ ap (λ v. if ltb j (2 ^ n) && true then v else arr j) (split_update arr j)
      ∙ ap
          (λ b.
            if ltb j (2 ^ n) && true
            then (if b then update (number_at ts j) (λ c. arr (with_number n ts c j)) else nought)
            else arr j)
          (controls_match-reversed n cs vs j paired)
      ∙ ground arith
