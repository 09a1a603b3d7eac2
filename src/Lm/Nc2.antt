-- ===== src/Lm/Nc2.antt =====
-- applyNC2 as a whole: a two-qubit gate with controls on any wires of fewer than 64 qubits.
use mathlib.Core.List.{map-append, append_assoc}
use mathlib.Core.Path.{subst, ap₂}
use pennylane_lightning.Prelude.{
  ℕ, ◌+◌, ◌-◌, ◌^◌, ◌<◌, ◌≡◌, refl, ap, sym, ◌∙◌, fun_ext, Bool, true, ◌&&◌, List, [], ◌∷◌, ◌++◌,
  arith, ltb, leb, ◌==◌, if◌then◌else◌, length, range, reversed, ok, length-append, length-map,
  guards_pass, suc, le→leb,
}
use pennylane_lightning.Word.{shl}
use pennylane_lightning.BitUtil.{rev_wire_parity}
use pennylane_lightning.BitUtil.Sort.{IsDistinct}
use pennylane_lightning.Memory.{Arr, for_each}
use pennylane_lightning.Blocks.{IsSchedule, range-IsSchedule, length_wires-le}
use pennylane_lightning.Gate.{Update2, gate2, position, positions}
use pennylane_lightning.Lm.Index.{reverse_wires, wire_shifts, nc2_controlled, nc2_plain}
use pennylane_lightning.Lm.Apply.{
  Core2, nc2_controlled_round, nc2_plain_round, apply_nc2, dispatch_nc2,
}
use pennylane_lightning.Lm.Addresses.{AreQuad, nc2_controlled-AreQuad, nc2_plain-AreQuad}
use pennylane_lightning.Lm.Wires.{
  shl_one, rev_position', positions-IsDistinct, reversed-IsDistinct, reverse_wires_lem,
  length-reversed, length-reversed_pair, controls_match-reversed,
}
use pennylane_lightning.Lm.Correct2.{IsCore2, new2, loop2}

module _ {A : Type 0} (core : Core2 A) (update : Update2 A) (is_core : IsCore2 core update)
    (n w0 w1 : ℕ) (cs : List ℕ) (vs : List Bool) (hn : n < 64)
    (distinct : IsDistinct n (w0 ∷ w1 ∷ cs)) (paired : length vs ≡ length cs) where
  all-positions :
      positions n (reversed (w0 ∷ w1 ∷ cs))
      ≡ positions n (reversed cs) ++ position n w1 ∷ position n w0 ∷ []
  all-positions =
      ap (positions n) (append_assoc (reversed cs) (w1 ∷ []) (w0 ∷ []))
      ∙ map-append (position n) (reversed cs) (w1 ∷ w0 ∷ [])

  all-IsDistinct : IsDistinct n (positions n (reversed cs) ++ position n w1 ∷ position n w0 ∷ [])
  all-IsDistinct = subst (IsDistinct n) all-positions (
      positions-IsDistinct n (reversed (w0 ∷ w1 ∷ cs))
        (reversed-IsDistinct n (w0 ∷ w1 ∷ cs) distinct))

  rounds_count :
      length (positions n (reversed cs) ++ position n w1 ∷ position n w0 ∷ []) ≡ length cs + 2
  rounds_count =
      length-append (positions n (reversed cs)) (position n w1 ∷ position n w0 ∷ [])
      ∙ omega (arith, length-map (reversed cs) (position n), length-reversed {0} cs)

  controlled-AreQuad :
      (k : ℕ)
      → k < 2 ^ (n - length (positions n (reversed cs) ++ position n w1 ∷ position n w0 ∷ []))
      → AreQuad (positions n (reversed cs)) (reversed vs) (position n w1) (position n w0) k (
          nc2_controlled
            (rev_wire_parity (reverse_wires n (w0 ∷ w1 ∷ cs) vs).0)
            (reverse_wires n (w0 ∷ w1 ∷ cs) vs).0
            (reverse_wires n (w0 ∷ w1 ∷ cs) vs).1
            (length cs)
            k)
  controlled-AreQuad k hk =
      subst
        (λ r.
          AreQuad (positions n (reversed cs)) (reversed vs) (position n w1) (position n w0) k
            (nc2_controlled (rev_wire_parity r.0) r.0 r.1 (length cs) k))
        (sym (
          reverse_wires_lem n (w0 ∷ w1 ∷ cs) vs hn distinct
          ∙ ap (λ p. (p, wire_shifts (reversed vs) p)) all-positions))
        (subst
          (λ m.
            AreQuad (positions n (reversed cs)) (reversed vs) (position n w1) (position n w0) k (
              nc2_controlled
                (rev_wire_parity (positions n (reversed cs) ++ position n w1 ∷ position n w0 ∷ []))
                (positions n (reversed cs) ++ position n w1 ∷ position n w0 ∷ [])
                (wire_shifts (reversed vs)
                  (positions n (reversed cs) ++ position n w1 ∷ position n w0 ∷ []))
                m k))
          (omega (arith, length-map (reversed cs) (position n), length-reversed {0} cs))
          (nc2_controlled-AreQuad n (positions n (reversed cs)) (reversed vs) (position n w1)
            (position n w0) k hn all-IsDistinct (length-reversed_pair n cs vs paired) hk))

  -- The loop of applyNC2 with controls, for distinct wires below n < 64 and a value for each control
  -- wire, computes the gate of its core function whatever the order of its rounds.
  pub nc2_controlled-any_order :
      (ks : List ℕ) (arr : Arr A)
      → IsSchedule (2 ^ (n - (length cs + 2))) ks
      → for_each ks (nc2_controlled_round core n (w0 ∷ w1 ∷ cs) vs (length cs)) arr
        ≡ gate2 n cs vs w0 w1 update arr
  unfolding nc2_controlled_round gate2
  nc2_controlled-any_order ks arr schedule = fun_ext λ j.
      loop2 n (positions n (reversed cs)) (reversed vs) (position n w1) (position n w0)
        all-IsDistinct (length-reversed_pair n cs vs paired) core update is_core _
        controlled-AreQuad ks arr j
        (subst (λ m. IsSchedule (2 ^ (n - m)) ks) (sym rounds_count) schedule)
      ∙ ap
          (λ b.
            if ltb j (2 ^ n) && b
            then new2 n (position n w1) (position n w0) update arr j
            else arr j)
          (controls_match-reversed n cs vs j paired)

-- The loop of applyNC2 without controls, for distinct wires below n < 64, computes the gate of its core
-- function whatever the order of its rounds.
pub nc2_plain-any_order :
    {A : Type 0} (core : Core2 A) (update : Update2 A)
    → IsCore2 core update
    → (n w0 w1 : ℕ) (vs : List Bool) (ks : List ℕ) (arr : Arr A) → n < 64
    → IsDistinct n (w0 ∷ w1 ∷ [])
    → IsSchedule (2 ^ (n - 2)) ks
    → for_each ks (nc2_plain_round core n w0 w1) arr ≡ gate2 n [] vs w0 w1 update arr
unfolding nc2_plain_round gate2
nc2_plain-any_order core update is_core n w0 w1 vs ks arr hn d schedule = fun_ext λ j.
    loop2 n [] [] (position n w1) (position n w0)
      (positions-IsDistinct n (w1 ∷ w0 ∷ []) (swapped d)) refl core update is_core _
      (λ k hk.
        subst {A = ℕ × ℕ}
          (λ t. AreQuad [] [] (position n w1) (position n w0) k (nc2_plain t.0 t.1 k))
          (sym (ap₂ (λ a b. (a, b)) (rev_position' n w1 hn d.2.0) (rev_position' n w0 hn d.0)))
          (nc2_plain-AreQuad n (position n w1) (position n w0) k hn
            (positions-IsDistinct n (w1 ∷ w0 ∷ []) (swapped d)) hk))
      ks arr j schedule
  where
    swapped : IsDistinct n (w0 ∷ w1 ∷ []) → IsDistinct n (w1 ∷ w0 ∷ [])
    swapped e = (e.2.0, ground (arith, e.1), (e.0, refl, tt))

all_rounds : (n m : ℕ) → n < 64 → 0 < m → IsSchedule (2 ^ (n - m)) (range (shl 1 (n - m)))
all_rounds n m hn hm =
    subst (λ c. IsSchedule c (range (shl 1 (n - m)))) (shl_one (n - m) (omega arith))
      (range-IsSchedule (shl 1 (n - m)))

-- A gate by applyNC2 on two wires and control wires, all distinct and below n < 64, with one control
-- value for each control wire and a core function that replaces its four amplitudes as `update` says,
-- returns, and the state vector is that of the abstract gate with this update.
pub dispatch_nc2-gate2 :
    {A : Type 0} (core : Core2 A) (update : Update2 A)
    → IsCore2 core update
    → (n w0 w1 : ℕ) (cs : List ℕ) (vs : List Bool) (arr : Arr A) → n < 64
    → IsDistinct n (w0 ∷ w1 ∷ cs)
    → length vs ≡ length cs
    → dispatch_nc2 core n cs vs (w0 ∷ w1 ∷ []) arr ≡ ok (gate2 n cs vs w0 w1 update arr)
unfolding dispatch_nc2 apply_nc2
dispatch_nc2-gate2 core update is_core n w0 w1 [] vs arr hn d e =
    guards_pass true (leb 2 n) true "" _ "" _ refl (ground arith) refl
    ∙ ap ok (
        nc2_plain-any_order core update is_core n w0 w1 vs _ arr hn d
          (all_rounds n 2 hn (omega arith)))
dispatch_nc2-gate2 core update is_core n w0 w1 (c ∷ cs) vs arr hn d e =
    guards_pass true (leb (suc (length cs) + 2) n) (length vs == suc (length cs)) "" _ _ _ refl
      (le→leb _ _ (omega (arith, length_wires-le n (w0 ∷ w1 ∷ c ∷ cs) d))) (ground arith)
    ∙ ap ok (
        nc2_controlled-any_order core update is_core n w0 w1 (c ∷ cs) vs hn d e _ arr (
          all_rounds n (suc (length cs) + 2) hn
            (omega (arith, length_wires-le n (w0 ∷ w1 ∷ c ∷ cs) d))))
