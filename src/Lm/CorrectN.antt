-- ===== src/Lm/CorrectN.antt =====
-- A loop whose rounds address the cells of one block each, by the number of their digits at the
-- targets, applies the gate that its rounds describe.
use pennylane_lightning.Prelude.{
  ℕ, ◌-◌, ◌^◌, ◌<◌, ◌≡◌, ◌≢◌, ap, sym, ◌∙◌, fun_ext, Bool, ◌&&◌, none, some, List, ◌++◌, ltb,
  if◌then◌else◌, length, inl, inr, Bool-cases,
}
use mathlib.Core.Path.{subst}
use pennylane_lightning.BitUtil.Sort.{IsDistinct}
use pennylane_lightning.Memory.{Arr, for_each}
use pennylane_lightning.Blocks.{
  IsAddress, IsAddress-unique, owner, owner-IsAddress, owned-lt, owner-with_bits,
  IsAddress-with_bits, IsAddress-own, bit-target, OwnsBlocks, IsSchedule, for_each_schedule,
  controls_match, block, block-lt, IsDistinct-right, digits, length-digits, number_at, number_at-lt,
  digits-number_at, number_at-digits,
}
use pennylane_lightning.Gate.{UpdateN, with_number}

-- A round with the addresses `addr` replaces the amplitude at each number i below dim as `update` says,
-- and no other.
pub record IsRound {A : Type 0} (dim : ℕ) (update : UpdateN A) (addr : ℕ → ℕ) (body : Arr A → Arr A)
    : Type 0 where
  pub hits : (arr : Arr A) (i : ℕ) → i < dim → body arr (addr i) ≡ update i (λ c. arr (addr c))
  pub misses : (arr : Arr A) (j : ℕ) → ((i : ℕ) → i < dim → j ≢ addr i) → body arr j ≡ arr j

-- An update that looks at the amplitudes with numbers below dim only.
abbrev pub IsLocal : {A : Type 0} → ℕ → UpdateN A → Type 0
IsLocal {A} dim update =
    (i : ℕ) (f g : ℕ → A) → i < dim → ((c : ℕ) → c < dim → f c ≡ g c) → update i f ≡ update i g

-- Addresses of block k, one for each number.
abbrev pub AreCells : List ℕ → List Bool → List ℕ → ℕ → (ℕ → ℕ) → Type 0
AreCells rs vs ts k addr =
    (i : ℕ) → i < 2 ^ length ts → IsAddress (rs ++ ts) (vs ++ digits (length ts) i) k (addr i)

module _ (n : ℕ) (rs : List ℕ) (vs : List Bool) (ts : List ℕ) (distinct : IsDistinct n (rs ++ ts))
    (paired : length vs ≡ length rs) where
  pub number_at-cell :
      (k : ℕ) (addr : ℕ → ℕ)
      → AreCells rs vs ts k addr
      → (i : ℕ) → i < 2 ^ length ts
      → number_at ts (addr i) ≡ i
  number_at-cell k addr cells i h =
      number_at-digits n ts i (addr i) (IsDistinct-right n rs ts distinct) h λ q on.
        bit-target n rs vs ts distinct paired (digits (length ts) i) k (addr i) q (cells i h) on

  -- Different numbers have different cells.
  pub cells_apart :
      (k : ℕ) (addr : ℕ → ℕ)
      → AreCells rs vs ts k addr
      → (i j : ℕ) → i < 2 ^ length ts
      → j < 2 ^ length ts
      → addr i ≡ addr j
      → i ≡ j
  cells_apart k addr cells i j hi hj e =
      sym (number_at-cell k addr cells i hi)
      ∙ ap (number_at ts) e
      ∙ number_at-cell k addr cells j hj

  module _ {A : Type 0} (update : UpdateN A) (local : IsLocal (2 ^ length ts) update)
      (addr : ℕ → ℕ → ℕ) (body : ℕ → Arr A → Arr A)
      (cells : (k : ℕ) → k < 2 ^ (n - length (rs ++ ts)) → AreCells rs vs ts k (addr k))
      (rounds : (k : ℕ)
        → k < 2 ^ (n - length (rs ++ ts))
        → IsRound (2 ^ length ts) update (addr k) (body k)) where
    -- The cells of a round, seen from one of them.
    seen :
        (k j i : ℕ)
        → owner n rs vs ts j ≡ some k
        → i < 2 ^ length ts
        → addr k i ≡ with_number n ts i j
    seen k j i own h =
        let hk = owned-lt n rs vs ts distinct paired k j own in
        IsAddress-unique _ _ k _ _ (cells k hk i h) (
          IsAddress-with_bits n rs vs ts distinct paired (digits (length ts) i) k j
            (length-digits (length ts) i) own)

    own_cell : (k j : ℕ) → owner n rs vs ts j ≡ some k → j ≡ addr k (number_at ts j)
    own_cell k j own =
        let hk = owned-lt n rs vs ts distinct paired k j own in
        IsAddress-unique (rs ++ ts) (vs ++ digits (length ts) (number_at ts j)) k _ _
          (subst (λ bs. IsAddress (rs ++ ts) (vs ++ bs) k j) (sym (digits-number_at ts j))
            (IsAddress-own n rs vs ts distinct paired k j own))
          (cells k hk (number_at ts j) (number_at-lt ts j))

    rounds-OwnsBlocks :
        OwnsBlocks
          (2 ^ (n - length (rs ++ ts)))
          (owner n rs vs ts)
          (λ arr j. update (number_at ts j) (λ i. arr (with_number n ts i j)))
          body
    rounds-OwnsBlocks = record {
      keeps = λ k arr j hk other. (rounds k hk).misses arr j λ i h e. other (
          ap (owner n rs vs ts) e
          ∙ owner-IsAddress n rs vs ts distinct paired (digits (length ts) i) k _ hk
              (cells k hk i h));
      updates = λ k arr j hk own.
          ap (body k arr) (own_cell k j own)
          ∙ (rounds k hk).hits arr (number_at ts j) (number_at-lt ts j)
          ∙ local (number_at ts j) (λ c. arr (addr k c)) (λ i. arr (with_number n ts i j))
              (number_at-lt ts j) (λ c h. ap arr (seen k j c own h));
      local = λ k arr arr' j own same. ap (update (number_at ts j)) (
          fun_ext λ i. same _ (
            owner-with_bits n rs vs ts distinct paired (digits (length ts) i) k j
              (length-digits (length ts) i) own));
    }

    -- The loop computes the gate, in whatever order its rounds run.
    pub loop_n :
        (ks : List ℕ) (arr : Arr A) (j : ℕ)
        → IsSchedule (2 ^ (n - length (rs ++ ts))) ks
        → for_each ks body arr j ≡ (
            if ltb j (2 ^ n) && controls_match rs vs j
            then update (number_at ts j) (λ i. arr (with_number n ts i j))
            else arr j)
    loop_n ks arr j schedule =
        let new : Arr A → ℕ → A = λ a x. update (number_at ts x) (λ i. a (with_number n ts i x)) in
        let run =
          for_each_schedule _ (owner n rs vs ts) new body rounds-OwnsBlocks ks arr j schedule in
        elim (Bool-cases (ltb j (2 ^ n) && controls_match rs vs j)) [
          | inl on ↦
              run.1 (block n (rs ++ ts) j) (block-lt n (rs ++ ts) distinct j)
                (ap (λ b. if b then some (block n (rs ++ ts) j) else none) on)
              ∙ ap (λ b. if b then new arr j else arr j) (sym on)
          | inr off ↦
              run.0 (ap (λ b. if b then some (block n (rs ++ ts) j) else none) off)
              ∙ ap (λ b. if b then new arr j else arr j) (sym off)
        ]
