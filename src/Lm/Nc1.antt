-- ===== src/Lm/Nc1.antt =====
-- applyNC1 as a whole: a one-qubit gate with controls on any wires of fewer than 64 qubits.
use mathlib.Core.List.{map-append}
use mathlib.Core.Path.{subst}
use pennylane_lightning.Prelude.{
  ℕ, ◌+◌, ◌-◌, ◌^◌, ◌<◌, ◌≡◌, refl, ap, sym, ◌∙◌, fun_ext, Bool, true, ◌&&◌, List, [], ◌∷◌, ◌++◌,
  arith, ltb, leb, ◌==◌, if◌then◌else◌, length, range, reversed, ok, length-append, length-map,
  guards_pass, suc, le→leb,
}
use pennylane_lightning.Word.{shl}
use pennylane_lightning.BitUtil.{rev_wire_parity}
use pennylane_lightning.BitUtil.Sort.{IsDistinct}
use pennylane_lightning.Memory.{Arr, for_each}
use pennylane_lightning.Blocks.{IsSchedule, range-IsSchedule, length_wires-le}
use pennylane_lightning.Gate.{Update1, gate1, position, positions}
use pennylane_lightning.Lm.Index.{reverse_wires, wire_shifts, nc1_controlled, nc1_plain}
use pennylane_lightning.Lm.Apply.{
  Core1, nc1_controlled_round, nc1_plain_round, apply_nc1, dispatch_nc1,
}
use pennylane_lightning.Lm.Addresses.{ArePair, nc1_controlled-ArePair, nc1_plain-ArePair}
use pennylane_lightning.Lm.Wires.{
  shl_one, rev_position', positions-IsDistinct, reversed-IsDistinct, reverse_wires_lem,
  length-reversed, length-reversed_pair, controls_match-reversed,
}
use pennylane_lightning.Lm.Correct1.{IsCore1, new1, loop1}

module _ {A : Type 0} (core : Core1 A) (update : Update1 A) (is_core : IsCore1 core update)
    (n w : ℕ) (cs : List ℕ) (vs : List Bool) (hn : n < 64) (distinct : IsDistinct n (w ∷ cs))
    (paired : length vs ≡ length cs) where
  all-positions : positions n (reversed (w ∷ cs)) ≡ positions n (reversed cs) ++ position n w ∷ []
  all-positions = map-append (position n) (reversed cs) (w ∷ [])

  all-IsDistinct : IsDistinct n (positions n (reversed cs) ++ position n w ∷ [])
  all-IsDistinct =
      subst (IsDistinct n) all-positions
        (positions-IsDistinct n (reversed (w ∷ cs)) (reversed-IsDistinct n (w ∷ cs) distinct))

  rounds_count : length (positions n (reversed cs) ++ position n w ∷ []) ≡ length cs + 1
  rounds_count =
      length-append (positions n (reversed cs)) (position n w ∷ [])
      ∙ omega (arith, length-map (reversed cs) (position n), length-reversed {0} cs)

  controlled-ArePair :
      (k : ℕ)
      → k < 2 ^ (n - length (positions n (reversed cs) ++ position n w ∷ []))
      → ArePair (positions n (reversed cs)) (reversed vs) (position n w) k (
          nc1_controlled
            (rev_wire_parity (reverse_wires n (w ∷ cs) vs).0)
            (reverse_wires n (w ∷ cs) vs).0
            (reverse_wires n (w ∷ cs) vs).1
            (length cs)
            k)
  controlled-ArePair k hk =
      subst
        (λ r.
          ArePair (positions n (reversed cs)) (reversed vs) (position n w) k
            (nc1_controlled (rev_wire_parity r.0) r.0 r.1 (length cs) k))
        (sym (
          reverse_wires_lem n (w ∷ cs) vs hn distinct
          ∙ ap (λ p. (p, wire_shifts (reversed vs) p)) all-positions))
        (subst
          (λ m. ArePair (positions n (reversed cs)) (reversed vs) (position n w) k (
            nc1_controlled (rev_wire_parity (positions n (reversed cs) ++ position n w ∷ []))
              (positions n (reversed cs) ++ position n w ∷ [])
              (wire_shifts (reversed vs) (positions n (reversed cs) ++ position n w ∷ [])) m k))
          (omega (arith, length-map (reversed cs) (position n), length-reversed {0} cs))
          (nc1_controlled-ArePair n (positions n (reversed cs)) (reversed vs) (position n w) k hn
            all-IsDistinct (length-reversed_pair n cs vs paired) hk))

  -- The loop of applyNC1 with controls, for distinct wires below n < 64 and a value for each control
  -- wire, computes the gate of its core function whatever the order of its rounds.
  pub nc1_controlled-any_order :
      (ks : List ℕ) (arr : Arr A)
      → IsSchedule (2 ^ (n - (length cs + 1))) ks
      → for_each ks (nc1_controlled_round core n (w ∷ cs) vs (length cs)) arr
        ≡ gate1 n cs vs w update arr
  unfolding nc1_controlled_round gate1
  nc1_controlled-any_order ks arr schedule = fun_ext λ j.
      loop1 n (positions n (reversed cs)) (reversed vs) (position n w) all-IsDistinct
        (length-reversed_pair n cs vs paired) core update is_core _ controlled-ArePair ks arr j
        (subst (λ m. IsSchedule (2 ^ (n - m)) ks) (sym rounds_count) schedule)
      ∙ ap (λ b. if ltb j (2 ^ n) && b then new1 n (position n w) update arr j else arr j)
          (controls_match-reversed n cs vs j paired)

-- The loop of applyNC1 without controls, for a wire below n < 64, computes the gate of its core
-- function whatever the order of its rounds.
pub nc1_plain-any_order :
    {A : Type 0} (core : Core1 A) (update : Update1 A)
    → IsCore1 core update
    → (n w : ℕ) (vs : List Bool) (ks : List ℕ) (arr : Arr A) → n < 64
    → w < n
    → IsSchedule (2 ^ (n - 1)) ks
    → for_each ks (nc1_plain_round core n w) arr ≡ gate1 n [] vs w update arr
unfolding nc1_plain_round gate1
nc1_plain-any_order core update is_core n w vs ks arr hn hw schedule = fun_ext λ j.
    loop1 n [] [] (position n w) (omega arith, refl, tt) refl core update is_core _
      (λ k hk.
        subst (λ t. ArePair [] [] (position n w) k (nc1_plain t k)) (sym (rev_position' n w hn hw))
          (nc1_plain-ArePair n (position n w) k hn (omega arith) hk))
      ks arr j schedule

all_rounds : (n m : ℕ) → n < 64 → 0 < m → IsSchedule (2 ^ (n - m)) (range (shl 1 (n - m)))
all_rounds n m hn hm =
    subst (λ c. IsSchedule c (range (shl 1 (n - m)))) (shl_one (n - m) (omega arith))
      (range-IsSchedule (shl 1 (n - m)))

-- A gate by applyNC1 on a wire and control wires, all distinct and below n < 64, with one control
-- value for each control wire and a core function that replaces its two amplitudes as `update` says,
-- returns, and the state vector is that of the abstract gate with this update.
pub dispatch_nc1-gate1 :
    {A : Type 0} (core : Core1 A) (update : Update1 A)
    → IsCore1 core update
    → (n w : ℕ) (cs : List ℕ) (vs : List Bool) (arr : Arr A) → n < 64
    → IsDistinct n (w ∷ cs)
    → length vs ≡ length cs
    → dispatch_nc1 core n cs vs (w ∷ []) arr ≡ ok (gate1 n cs vs w update arr)
unfolding dispatch_nc1 apply_nc1
dispatch_nc1-gate1 core update is_core n w [] vs arr hn d e =
    guards_pass true (leb 1 n) true "" _ "" _ refl (ground arith) refl
    ∙ ap ok (
        nc1_plain-any_order core update is_core n w vs _ arr hn d.0
          (all_rounds n 1 hn (omega arith)))
dispatch_nc1-gate1 core update is_core n w (c ∷ cs) vs arr hn d e =
    guards_pass true (leb (suc (length cs) + 1) n) (length vs == suc (length cs)) "" _ _ _ refl
      (le→leb _ _ (omega (arith, length_wires-le n (w ∷ c ∷ cs) d))) (ground arith)
    ∙ ap ok (
        nc1_controlled-any_order core update is_core n w (c ∷ cs) vs hn d e _ arr
          (all_rounds n (suc (length cs) + 1) hn (omega (arith, length_wires-le n (w ∷ c ∷ cs) d))))
