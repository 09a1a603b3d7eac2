-- ===== src/Lm/GeneratorRound.antt =====
-- A round of a generator: it zeroes the entries of its block whose control digits do not match and gives
-- the others to the core function.
use pennylane_lightning.Prelude.{
  ℕ, ◌+◌, ◌*◌, ◌/◌, ◌%◌, ◌^◌, ◌<◌, ◌≡◌, ap, sym, ◌∙◌, arith, ◌==◌, if◌then◌else◌, range, lt→ltb,
  ==→≡, ≡→==, Bool-cases, inl, inr,
}
use pennylane_lightning.Memory.{Arr, write, for_each}
use pennylane_lightning.Memory.Cells.{IsApart, OwnsCell, for_each_cells, for_each_others}
use pennylane_lightning.Blocks.{elem-range, range-IsDistinct, halves, halves-div, halves-lt, low-lt}
use pennylane_lightning.Gate.{UpdateN}
use pennylane_lightning.Lm.CorrectN.{IsRound, IsLocal}

-- On different addresses, the core function replaces the amplitudes as `update` says and no other.
abbrev pub IsSmallCore : {A : Type 0} → ℕ → (Arr A → (ℕ → ℕ) → Arr A) → UpdateN A → Type 0
IsSmallCore {A} dim core update =
    (addr : ℕ → ℕ) → IsApart dim addr → IsRound dim update addr (λ arr. core arr addr)

-- if (i / 2 ^ m == mask) continue; arr[addr i] = nought
abbrev pub clear : {A : Type 0} → A → ℕ → ℕ → (ℕ → ℕ) → ℕ → Arr A → Arr A
clear nought m mask addr i arr = if i / 2 ^ m == mask then arr else write arr (addr i) nought

module _ {A : Type 0} (nought : A) (m l mask : ℕ) (hmask : mask < 2 ^ l) (update : UpdateN A)
    (local : IsLocal (2 ^ m) update) (core : Arr A → (ℕ → ℕ) → Arr A)
    (is_core : IsSmallCore (2 ^ m) core update) where
  -- The update by the number of all digits, those of the controls the high ones.
  abbrev pub masked_update : UpdateN A
  masked_update i f =
      if i / 2 ^ m == mask then update (i % 2 ^ m) (λ c. f (c + 2 ^ m * mask)) else nought

  pub masked_update-IsLocal : IsLocal (2 ^ (m + l)) masked_update
  masked_update-IsLocal i f g hi same =
      ap (λ t. if i / 2 ^ m == mask then t else nought)
        (local (i % 2 ^ m) _ _ (low-lt m i)
          λ c h. same (c + 2 ^ m * mask) (halves-lt m c mask h l hmask))

  module _ (addr : ℕ → ℕ) (apart : IsApart (2 ^ (m + l)) addr) where
    clear-OwnsCell :
        OwnsCell addr
          (λ i old. if i / 2 ^ m == mask then old else nought)
          (clear nought m mask addr)
    unfolding write
    clear-OwnsCell = record { here = λ i arr. ground arith; there = λ i arr x ne. ground arith }

    cleared_cell :
        (arr : Arr A) (i : ℕ)
        → i < 2 ^ (m + l)
        → for_each (range (2 ^ (m + l))) (clear nought m mask addr) arr (addr i)
          ≡ (if i / 2 ^ m == mask then arr (addr i) else nought)
    cleared_cell arr i h =
        for_each_cells (2 ^ (m + l)) addr apart (λ i old. if i / 2 ^ m == mask then old else nought)
          (clear nought m mask addr) clear-OwnsCell (range (2 ^ (m + l))) arr i
          (range-IsDistinct (2 ^ (m + l))) h
        ∙ ap (λ b. if b then (if i / 2 ^ m == mask then arr (addr i) else nought) else arr (addr i))
            (elem-range i (2 ^ (m + l)) ∙ lt→ltb i (2 ^ (m + l)) h)

    active_cells : IsApart (2 ^ m) (λ c. addr (c + 2 ^ m * mask))
    active_cells i j hi hj e = omega (
      arith,
      apart (i + 2 ^ m * mask) (j + 2 ^ m * mask) (halves-lt m i mask hi l hmask)
          (halves-lt m j mask hj l hmask) e,
    )

    pub generator-IsRound : IsRound (2 ^ (m + l)) masked_update addr (λ arr.
        core
          (for_each (range (2 ^ (m + l))) (clear nought m mask addr) arr)
          (λ c. addr (c + 2 ^ m * mask)))
    generator-IsRound = record {
      hits = λ arr i h.
          let here = is_core (λ c. addr (c + 2 ^ m * mask)) active_cells in
          let after : Arr A = for_each (range (2 ^ (m + l))) (clear nought m mask addr) arr in
          elim (Bool-cases (i / 2 ^ m == mask)) [
            | inl on ↦
                ap (λ t. core after (λ c. addr (c + 2 ^ m * mask)) (addr t))
                  (sym (halves m i mask (==→≡ _ _ on)))
                ∙ here.hits after (i % 2 ^ m) (low-lt m i)
                ∙ local (i % 2 ^ m) _ _ (low-lt m i) (λ c hc.
                  cleared_cell arr (c + 2 ^ m * mask) (halves-lt m c mask hc l hmask)
                  ∙ ap (λ b. if b then arr (addr (c + 2 ^ m * mask)) else nought)
                      (≡→== ((c + 2 ^ m * mask) / 2 ^ m) mask (halves-div m c mask hc)))
                ∙ sym (
                    ap
                      (λ b.
                        if b
                        then update (i % 2 ^ m) (λ c. arr (addr (c + 2 ^ m * mask)))
                        else nought)
                      on)
            | inr off ↦
                here.misses after (addr i) (λ c hc e.
                  let same : i ≡ c + 2 ^ m * mask =
                    apart i (c + 2 ^ m * mask) h (halves-lt m c mask hc l hmask) e in
                  absurd (
                    ground (
                      arith,
                      ≡→== (i / 2 ^ m) mask (ap (λ t. t / 2 ^ m) same ∙ halves-div m c mask hc),
                    )))
                ∙ cleared_cell arr i h
                ∙ ap (λ b. if b then arr (addr i) else nought) off
                ∙ sym (
                    ap
                      (λ b.
                        if b
                        then update (i % 2 ^ m) (λ c. arr (addr (c + 2 ^ m * mask)))
                        else nought)
                      off)
          ];
      misses = λ arr j other.
          (is_core (λ c. addr (c + 2 ^ m * mask)) active_cells).misses _ j
            (λ c hc. other (c + 2 ^ m * mask) (halves-lt m c mask hc l hmask))
          ∙ for_each_others (2 ^ (m + l)) addr apart
              (λ i old. if i / 2 ^ m == mask then old else nought) (clear nought m mask addr)
              clear-OwnsCell (range (2 ^ (m + l))) arr j (range-IsDistinct (2 ^ (m + l))) other;
    }
