-- ===== src/Lm/Correct1.antt =====
-- applyNC1 applies the one-qubit gate that its core function describes.
use mathlib.Core.Path.{ap₂}
use pennylane_lightning.Prelude.{
  ℕ, ◌-◌, ◌^◌, ◌<◌, ◌≡◌, ◌≢◌, refl, ap, sym, ◌∙◌, Bool, true, false, ◌&&◌, none, some, List, [],
  ◌∷◌, ◌++◌, arith, ltb, ◌==◌, if◌then◌else◌, elem, length, inl, inr, Bool-cases,
}
use pennylane_lightning.Word.Bit.{bit}
use pennylane_lightning.BitUtil.Sort.{IsDistinct}
use pennylane_lightning.Memory.{Arr, for_each}
use pennylane_lightning.Blocks.{
  IsAddress, IsAddress-unique, with_bits, owner, owner-IsAddress, owned-lt, owner-with_bits,
  IsAddress-with_bits, IsAddress-own, bit-target, OwnsBlocks, IsSchedule, for_each_schedule,
  controls_match, block, block-lt,
}
use pennylane_lightning.Gate.{Update1}
use pennylane_lightning.Lm.Apply.{Core1}
use pennylane_lightning.Lm.Addresses.{ArePair}

-- The core function replaces the two amplitudes as `update` says and no other.
abbrev pub IsCore1 : {A : Type 0} → Core1 A → Update1 A → Type 0
IsCore1 {A} core update =
    (arr : Arr A) (i0 i1 j : ℕ)
    → i0 ≢ i1
    → core arr i0 i1 j ≡ (
        if j == i0
        then update false (arr i0) (arr i1)
        else if j == i1
        then update true (arr i0) (arr i1)
        else arr j)

chosen :
    {A : Type 0} (a b c : A) (d : Bool) (i0 i1 j : ℕ)
    → i0 ≢ i1
    → j ≡ (if d then i1 else i0)
    → (if j == i0 then a else if j == i1 then b else c) ≡ (if d then b else a)
chosen a b c true i0 i1 j ne e = ground arith
chosen a b c false i0 i1 j ne e = ground arith

by_digit :
    {A : Type 0} (update : Update1 A) (d : Bool) (x x' y y' : A)
    → x ≡ x'
    → y ≡ y'
    → (if d then update true x' y' else update false x' y') ≡ update d x y
by_digit update true x x' y y' e f = sym (ap₂ (update true) e f)
by_digit update false x x' y y' e f = sym (ap₂ (update false) e f)

-- The new amplitude of a cell, for a target at position t.
abbrev pub new1 : {A : Type 0} → ℕ → ℕ → Update1 A → Arr A → ℕ → A
new1 n t update arr j =
    update (bit j t) (arr (with_bits n (t ∷ []) (false ∷ []) j))
      (arr (with_bits n (t ∷ []) (true ∷ []) j))

module _ {A : Type 0} (n : ℕ) (rs : List ℕ) (vs : List Bool) (t : ℕ)
    (distinct : IsDistinct n (rs ++ t ∷ [])) (paired : length vs ≡ length rs) (core : Core1 A)
    (update : Update1 A) (is_core : IsCore1 core update) (pair : ℕ → ℕ × ℕ)
    (pairs : (k : ℕ) → k < 2 ^ (n - length (rs ++ t ∷ [])) → ArePair rs vs t k (pair k)) where
  pair-ne : (k : ℕ) → k < 2 ^ (n - length (rs ++ t ∷ [])) → (pair k).0 ≢ (pair k).1
  pair-ne k hk e =
      let two = pairs k hk in
      let here : elem t (t ∷ []) ≡ true = ground arith in
      let b0 = bit-target n rs vs (t ∷ []) distinct paired (false ∷ []) k (pair k).0 t two.0 here in
      let b1 = bit-target n rs vs (t ∷ []) distinct paired (true ∷ []) k (pair k).1 t two.1 here in
      ground (arith, ap (λ x. bit x t) e)

  -- The cells of a round, seen from one of them.
  flips-pair :
      (k j : ℕ)
      → owner n rs vs (t ∷ []) j ≡ some k
      → (with_bits n (t ∷ []) (false ∷ []) j ≡ (pair k).0)
        × (with_bits n (t ∷ []) (true ∷ []) j ≡ (pair k).1)
        × (j ≡ (if bit j t then (pair k).1 else (pair k).0))
  flips-pair k j own =
      let two = pairs k (owned-lt n rs vs (t ∷ []) distinct paired k j own) in
      (
        IsAddress-unique _ _ k _ _
            (IsAddress-with_bits n rs vs (t ∷ []) distinct paired (false ∷ []) k j refl own) two.0,
        IsAddress-unique _ _ k _ _
            (IsAddress-with_bits n rs vs (t ∷ []) distinct paired (true ∷ []) k j refl own) two.1,
        own_cell (bit j t) (IsAddress-own n rs vs (t ∷ []) distinct paired k j own),
      )
    where
      own_cell :
          (b : Bool)
          → IsAddress (rs ++ t ∷ []) (vs ++ b ∷ []) k j
          → j ≡ (if b then (pair k).1 else (pair k).0)
      own_cell true a =
          IsAddress-unique _ _ k _ _ a
            (pairs k (owned-lt n rs vs (t ∷ []) distinct paired k j own)).1
      own_cell false a =
          IsAddress-unique _ _ k _ _ a
            (pairs k (owned-lt n rs vs (t ∷ []) distinct paired k j own)).0

  pub rounds1-OwnsBlocks :
      OwnsBlocks
        (2 ^ (n - length (rs ++ t ∷ [])))
        (owner n rs vs (t ∷ []))
        (new1 n t update)
        (λ k arr. core arr (pair k).0 (pair k).1)
  rounds1-OwnsBlocks = record {
    keeps = λ k arr j hk other.
        let two = pairs k hk in
        let not0 : j ≢ (pair k).0 = λ e.
          other
            (rw e (owner-IsAddress n rs vs (t ∷ []) distinct paired (false ∷ []) k _ hk two.0)) in
        let not1 : j ≢ (pair k).1 = λ e.
          other
            (rw e (owner-IsAddress n rs vs (t ∷ []) distinct paired (true ∷ []) k _ hk two.1)) in
        is_core arr (pair k).0 (pair k).1 j (pair-ne k hk) ∙ ground arith;
    updates = λ k arr j hk own.
        let cells = flips-pair k j own in
        let ne = pair-ne k hk in
        is_core arr (pair k).0 (pair k).1 j ne
        ∙ chosen _ _ (arr j) (bit j t) (pair k).0 (pair k).1 j ne cells.2
        ∙ by_digit update (bit j t) _ _ _ _ (ap arr cells.0) (ap arr cells.1);
    local = λ k arr arr' j own same. ground (
      arith,
      same _ (owner-with_bits n rs vs (t ∷ []) distinct paired (false ∷ []) k j refl own),
      same _ (owner-with_bits n rs vs (t ∷ []) distinct paired (true ∷ []) k j refl own),
    );
  }

  -- The loop of applyNC1 computes the gate, in whatever order its rounds run.
  pub loop1 :
      (ks : List ℕ) (arr : Arr A) (j : ℕ)
      → IsSchedule (2 ^ (n - length (rs ++ t ∷ []))) ks
      → for_each ks (λ k arr'. core arr' (pair k).0 (pair k).1) arr j
        ≡ (if ltb j (2 ^ n) && controls_match rs vs j then new1 n t update arr j else arr j)
  loop1 ks arr j schedule =
      let run =
        for_each_schedule _ (owner n rs vs (t ∷ [])) (new1 n t update) _ rounds1-OwnsBlocks ks arr j
          schedule in
      elim (Bool-cases (ltb j (2 ^ n) && controls_match rs vs j)) [
        | inl on ↦
            run.1 (block n (rs ++ t ∷ []) j) (block-lt n (rs ++ t ∷ []) distinct j)
              (ap (λ b. if b then some (block n (rs ++ t ∷ []) j) else none) on)
            ∙ ap (λ b. if b then new1 n t update arr j else arr j) (sym on)
        | inr off ↦
            run.0 (ap (λ b. if b then some (block n (rs ++ t ∷ []) j) else none) off)
            ∙ ap (λ b. if b then new1 n t update arr j else arr j) (sym off)
      ]
