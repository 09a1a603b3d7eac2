-- ===== src/Lm/Correct2.antt =====
-- The loop of applyNC2 applies the two-qubit gate that its core function describes.
use pennylane_lightning.Prelude.{
  ℕ, ◌-◌, ◌^◌, ◌<◌, ◌≡◌, ◌≢◌, refl, ap, sym, ◌∙◌, Bool, true, false, ◌&&◌, none, some, List, [],
  ◌∷◌, ◌++◌, arith, ltb, ◌==◌, if◌then◌else◌, elem, length, inl, inr, Bool-cases,
}
use pennylane_lightning.Word.Bit.{bit}
use pennylane_lightning.BitUtil.Sort.{IsDistinct}
use pennylane_lightning.Memory.{Arr, for_each}
use pennylane_lightning.Blocks.{
  IsAddress, IsAddress-unique, with_bits, owner, owner-IsAddress, owned-lt, owner-with_bits,
  IsAddress-with_bits, IsAddress-own, bit-target, OwnsBlocks, IsSchedule, for_each_schedule,
  controls_match, block, block-lt, IsDistinct-right,
}
use pennylane_lightning.Gate.{Update2}
use pennylane_lightning.Lm.Index.{Quad}
use pennylane_lightning.Lm.Apply.{Core2}
use pennylane_lightning.Lm.Addresses.{AreQuad}

-- The address of a quad at digits b and c.
abbrev pub quad_at : Quad → Bool → Bool → ℕ
quad_at q false false = q.i00
quad_at q false true = q.i01
quad_at q true false = q.i10
quad_at q true true = q.i11

-- Four different addresses.
pub record AreApart (q : Quad) : Type 0 where
  pub ne_00_01 : q.i00 ≢ q.i01
  pub ne_00_10 : q.i00 ≢ q.i10
  pub ne_00_11 : q.i00 ≢ q.i11
  pub ne_01_10 : q.i01 ≢ q.i10
  pub ne_01_11 : q.i01 ≢ q.i11
  pub ne_10_11 : q.i10 ≢ q.i11

-- The amplitude that an update gives at digits b and c of four addresses.
abbrev pub updated2 : {A : Type 0} → Update2 A → Arr A → Quad → Bool → Bool → A
updated2 update arr q b c = update b c (arr q.i00) (arr q.i01) (arr q.i10) (arr q.i11)

-- The core function replaces the four amplitudes as `update` says and no other.
abbrev pub IsCore2 : {A : Type 0} → Core2 A → Update2 A → Type 0
IsCore2 {A} core update =
    (arr : Arr A) (q : Quad) (j : ℕ)
    → AreApart q
    → core arr q j ≡ (
        if j == q.i00
        then updated2 update arr q false false
        else if j == q.i01
        then updated2 update arr q false true
        else if j == q.i10
        then updated2 update arr q true false
        else if j == q.i11
        then updated2 update arr q true true
        else arr j)

chosen :
    {A : Type 0} (a : Bool → Bool → A) (x : A) (b c : Bool) (q : Quad) (j : ℕ)
    → AreApart q
    → j ≡ quad_at q b c
    → (if j == q.i00
        then a false false
        else if j == q.i01
        then a false true
        else if j == q.i10
        then a true false
        else if j == q.i11
        then a true true
        else x)
      ≡ a b c
chosen a x false false q j ne e = ground arith
chosen a x false true q j ne e = ground (arith, ne.ne_00_01)
chosen a x true false q j ne e = ground (arith, ne.ne_00_10, ne.ne_01_10)
chosen a x true true q j ne e = ground (arith, ne.ne_00_11, ne.ne_01_11, ne.ne_10_11)

-- The new amplitude of a cell, for targets at positions t1 and t0.
abbrev pub new2 : {A : Type 0} → ℕ → ℕ → ℕ → Update2 A → Arr A → ℕ → A
new2 n t0 t1 update arr j =
    update (bit j t1) (bit j t0) (arr (with_bits n (t0 ∷ t1 ∷ []) (false ∷ false ∷ []) j))
      (arr (with_bits n (t0 ∷ t1 ∷ []) (true ∷ false ∷ []) j))
      (arr (with_bits n (t0 ∷ t1 ∷ []) (false ∷ true ∷ []) j))
      (arr (with_bits n (t0 ∷ t1 ∷ []) (true ∷ true ∷ []) j))

module _ {A : Type 0} (n : ℕ) (rs : List ℕ) (vs : List Bool) (t0 t1 : ℕ)
    (distinct : IsDistinct n (rs ++ t0 ∷ t1 ∷ [])) (paired : length vs ≡ length rs) (core : Core2 A)
    (update : Update2 A) (is_core : IsCore2 core update) (quad : ℕ → Quad)
    (quads : (k : ℕ)
      → k < 2 ^ (n - length (rs ++ t0 ∷ t1 ∷ []))
      → AreQuad rs vs t0 t1 k (quad k)) where
  apart : elem t0 (t1 ∷ []) ≡ false
  apart = (IsDistinct-right n rs (t0 ∷ t1 ∷ []) distinct).1

  -- The address of the quad at digits b of t1 and c of t0.
  at :
      (k : ℕ) (b c : Bool)
      → k < 2 ^ (n - length (rs ++ t0 ∷ t1 ∷ []))
      → IsAddress (rs ++ t0 ∷ t1 ∷ []) (vs ++ c ∷ b ∷ []) k (quad_at (quad k) b c)
  at k false false h = (quads k h).at_00
  at k false true h = (quads k h).at_01
  at k true false h = (quads k h).at_10
  at k true true h = (quads k h).at_11

  bits :
      (k : ℕ) (b c : Bool)
      → k < 2 ^ (n - length (rs ++ t0 ∷ t1 ∷ []))
      → (bit (quad_at (quad k) b c) t0 ≡ c) × (bit (quad_at (quad k) b c) t1 ≡ b)
  bits k b c h = (
    bit-target n rs vs (t0 ∷ t1 ∷ []) distinct paired (c ∷ b ∷ []) k _ t0 (at k b c h)
          (ground arith)
        ∙ ground arith,
    bit-target n rs vs (t0 ∷ t1 ∷ []) distinct paired (c ∷ b ∷ []) k _ t1 (at k b c h)
          (ground arith)
        ∙ ground (arith, apart),
  )

  quads-AreApart : (k : ℕ) → k < 2 ^ (n - length (rs ++ t0 ∷ t1 ∷ [])) → AreApart (quad k)
  quads-AreApart k h = record {
    ne_00_01 = λ e. ground (arith, bits k false false h, bits k false true h, ap (λ x. bit x t0) e);
    ne_00_10 = λ e. ground (arith, bits k false false h, bits k true false h, ap (λ x. bit x t1) e);
    ne_00_11 = λ e. ground (arith, bits k false false h, bits k true true h, ap (λ x. bit x t0) e);
    ne_01_10 = λ e. ground (arith, bits k false true h, bits k true false h, ap (λ x. bit x t0) e);
    ne_01_11 = λ e. ground (arith, bits k false true h, bits k true true h, ap (λ x. bit x t1) e);
    ne_10_11 = λ e. ground (arith, bits k true false h, bits k true true h, ap (λ x. bit x t0) e);
  }

  own_lt :
      (k j : ℕ)
      → owner n rs vs (t0 ∷ t1 ∷ []) j ≡ some k
      → k < 2 ^ (n - length (rs ++ t0 ∷ t1 ∷ []))
  own_lt k j own = owned-lt n rs vs (t0 ∷ t1 ∷ []) distinct paired k j own

  -- The cells of a round, seen from one of them.
  flips-quad :
      (k j : ℕ) (b c : Bool)
      → owner n rs vs (t0 ∷ t1 ∷ []) j ≡ some k
      → with_bits n (t0 ∷ t1 ∷ []) (c ∷ b ∷ []) j ≡ quad_at (quad k) b c
  flips-quad k j b c own =
      IsAddress-unique _ _ k _ _
        (IsAddress-with_bits n rs vs (t0 ∷ t1 ∷ []) distinct paired (c ∷ b ∷ []) k j refl own)
        (at k b c (own_lt k j own))

  own_cell :
      (k j : ℕ)
      → owner n rs vs (t0 ∷ t1 ∷ []) j ≡ some k
      → j ≡ quad_at (quad k) (bit j t1) (bit j t0)
  own_cell k j own =
      IsAddress-unique _ _ k _ _ (IsAddress-own n rs vs (t0 ∷ t1 ∷ []) distinct paired k j own)
        (at k (bit j t1) (bit j t0) (own_lt k j own))

  others :
      (k j : ℕ) (b c : Bool)
      → k < 2 ^ (n - length (rs ++ t0 ∷ t1 ∷ []))
      → owner n rs vs (t0 ∷ t1 ∷ []) j ≢ some k
      → j ≢ quad_at (quad k) b c
  others k j b c h other e = other (
      ap (owner n rs vs (t0 ∷ t1 ∷ [])) e
      ∙ owner-IsAddress n rs vs (t0 ∷ t1 ∷ []) distinct paired (c ∷ b ∷ []) k _ h (at k b c h))

  pub rounds2-OwnsBlocks :
      OwnsBlocks
        (2 ^ (n - length (rs ++ t0 ∷ t1 ∷ [])))
        (owner n rs vs (t0 ∷ t1 ∷ []))
        (new2 n t0 t1 update)
        (λ k arr. core arr (quad k))
  rounds2-OwnsBlocks = record {
    keeps = λ k arr j hk other.
        is_core arr (quad k) j (quads-AreApart k hk)
        ∙ ground (
          arith,
          others k j false false hk other,
          others k j false true hk other,
          others k j true false hk other,
          others k j true true hk other,
        );
    updates = λ k arr j hk own.
        is_core arr (quad k) j (quads-AreApart k hk)
        ∙ chosen (λ b c. updated2 update arr (quad k) b c) (arr j) (bit j t1) (bit j t0) (quad k) j
            (quads-AreApart k hk) (own_cell k j own)
        ∙ cc (
          ap arr (flips-quad k j false false own),
          ap arr (flips-quad k j false true own),
          ap arr (flips-quad k j true false own),
          ap arr (flips-quad k j true true own),
        );
    local = λ k arr arr' j own same.
        let there : (b c : Bool)
            → arr (with_bits n (t0 ∷ t1 ∷ []) (c ∷ b ∷ []) j)
              ≡ arr' (with_bits n (t0 ∷ t1 ∷ []) (c ∷ b ∷ []) j) =
          λ b c.
            same _
              (owner-with_bits n rs vs (t0 ∷ t1 ∷ []) distinct paired (c ∷ b ∷ []) k j refl own) in
        cc (there false false, there false true, there true false, there true true);
  }

  -- The loop of applyNC2 computes the gate, in whatever order its rounds run.
  pub loop2 :
      (ks : List ℕ) (arr : Arr A) (j : ℕ)
      → IsSchedule (2 ^ (n - length (rs ++ t0 ∷ t1 ∷ []))) ks
      → for_each ks (λ k arr'. core arr' (quad k)) arr j
        ≡ (if ltb j (2 ^ n) && controls_match rs vs j then new2 n t0 t1 update arr j else arr j)
  loop2 ks arr j schedule =
      let ts : List ℕ = t0 ∷ t1 ∷ [] in
      let run =
        for_each_schedule _ (owner n rs vs ts) (new2 n t0 t1 update) _ rounds2-OwnsBlocks ks arr j
          schedule in
      elim (Bool-cases (ltb j (2 ^ n) && controls_match rs vs j)) [
        | inl on ↦
            run.1 (block n (rs ++ ts) j) (block-lt n (rs ++ ts) distinct j)
              (ap (λ b. if b then some (block n (rs ++ ts) j) else none) on)
            ∙ ap (λ b. if b then new2 n t0 t1 update arr j else arr j) (sym on)
        | inr off ↦
            run.0 (ap (λ b. if b then some (block n (rs ++ ts) j) else none) off)
            ∙ ap (λ b. if b then new2 n t0 t1 update arr j else arr j) (sym off)
      ]
