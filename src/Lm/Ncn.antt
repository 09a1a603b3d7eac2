-- ===== src/Lm/Ncn.antt =====
-- applyNCN as a whole: a gate with controls on any number of target wires of fewer than 64 qubits.
use mathlib.Core.List.{append-nil}
use mathlib.Core.Path.{subst}
use pennylane_lightning.Prelude.{
  ℕ, suc, ◌+◌, ◌-◌, ◌^◌, ◌<◌, ◌≡◌, refl, ap, ◌∙◌, Bool, true, false, List, [], ◌∷◌, ◌++◌, arith,
  leb, ◌==◌, if◌then◌else◌, length, range, reversed, ok, ◌>>=◌, guards_pass, le→leb,
}
use pennylane_lightning.Word.{shl}
use pennylane_lightning.BitUtil.{rev_wire_parity}
use pennylane_lightning.BitUtil.Parity.{length-rev_wire_parity}
use pennylane_lightning.BitUtil.Sort.{IsDistinct}
use pennylane_lightning.Memory.{Arr, for_each}
use pennylane_lightning.Blocks.{IsSchedule, length_wires-le}
use pennylane_lightning.Gate.{UpdateN, gate_n, positions, targets}
use pennylane_lightning.Util.Patterns.{patterns, generate_bits_patterns_lem}
use pennylane_lightning.Util.{generate_bits_patterns}
use pennylane_lightning.Lm.Index.{reverse_wires}
use pennylane_lightning.Lm.Wires.{reverse_wires_lem}
use pennylane_lightning.Lm.CorrectN.{IsLocal}
use pennylane_lightning.Lm.AllWires.{all_positions, all-IsDistinct, length-all}
use pennylane_lightning.Lm.Many.{
  CoreN, generate_bit_patterns, ncn_plain_round, ncn_controlled_round, apply_ncn,
}
use pennylane_lightning.Lm.NcnLoops.{
  IsCoreN, all_rounds, ncn_plain-any_order, ncn_controlled-any_order,
}

if_false {ℓ} : {A : Type ℓ} (b : Bool) (x y : A) → b ≡ false → (if b then x else y) ≡ y
if_false true x y h = ground arith
if_false false x y h = refl

-- The two functions that list bit patterns agree.
pub generate_bit_patterns-generate_bits_patterns :
    (qs : List ℕ) (n : ℕ) → generate_bit_patterns qs n ≡ generate_bits_patterns qs n
unfolding generate_bit_patterns generate_bits_patterns
generate_bit_patterns-generate_bits_patterns qs n = refl

-- A gate by applyNCN on one or more wires and control wires, all distinct and below n < 64, with one
-- control value for each control wire and a core function that replaces the amplitudes of its addresses
-- as `update` says, returns, and the state vector is that of the abstract gate with this update.
pub apply_ncn-gate_n :
    {A : Type 0} (core : CoreN A) (update : UpdateN A) (n : ℕ) (ws : List ℕ)
    → IsCoreN (2 ^ length ws) (targets n ws) core update
    → IsLocal (2 ^ length ws) update
    → n < 64
    → 0 < length ws
    → (cs : List ℕ) (vs : List Bool) (arr : Arr A) → IsDistinct n (ws ++ cs)
    → length vs ≡ length cs
    → apply_ncn core n cs vs ws arr ≡ ok (gate_n n cs vs ws update arr)
unfolding apply_ncn
apply_ncn-gate_n core update n ws is_core local hn pos cs vs arr d e =
    let revs = reverse_wires n (ws ++ cs) vs in
    let is_revs : revs.0 ≡ positions n (reversed cs) ++ targets n ws =
      ap (λ r. r.0) (reverse_wires_lem n (ws ++ cs) vs hn d) ∙ all_positions n ws cs in
    let all = all-IsDistinct n ws cs d in
    let count = length-all n ws cs in
    let masks : length (rev_wire_parity revs.0) ≡ length cs + length ws + 1 =
      ap (λ r. length (rev_wire_parity r)) is_revs
      ∙ length-rev_wire_parity (positions n (reversed cs) ++ targets n ws) (omega (arith, count))
      ∙ ap (λ m. m + 1) count in
    guards_pass (leb (length cs + length ws) n) (length vs == length cs)
      (length cs + length ws == length (rev_wire_parity revs.0) - 1) _ _ _ _
      (le→leb _ _
        (omega (arith, length_wires-le n (positions n (reversed cs) ++ targets n ws) all, count)))
      (ground arith) (ground (arith, masks))
    ∙ loops cs d e
  where
    loops :
        (cs : List ℕ)
        → IsDistinct n (ws ++ cs)
        → length vs ≡ length cs
        → (if length cs == 0
            then (generate_bit_patterns ws n >>= λ indices. ok (
                for_each
                  (range (shl 1 (n - (length cs + length ws))))
                  (ncn_plain_round core (rev_wire_parity (reverse_wires n (ws ++ cs) vs).0) indices)
                  arr))
            else ok (
                for_each
                  (range (shl 1 (n - (length cs + length ws))))
                  (ncn_controlled_round core
                    (rev_wire_parity (reverse_wires n (ws ++ cs) vs).0)
                    (reverse_wires n (ws ++ cs) vs).0
                    (reverse_wires n (ws ++ cs) vs).1
                    (length cs))
                  arr))
          ≡ ok (gate_n n cs vs ws update arr)
    loops [] d e =
        let d0 : IsDistinct n ws = subst (IsDistinct n) (append-nil ws) d in
        ap
          (λ out. out >>= λ indices. ok (
            for_each (range (shl 1 (n - (0 + length ws))))
              (ncn_plain_round core (rev_wire_parity (reverse_wires n (ws ++ []) vs).0) indices)
              arr))
          (generate_bit_patterns-generate_bits_patterns ws n
            ∙ (generate_bits_patterns_lem ws n hn d0).0)
        ∙ ap
            (λ r. ok (
              for_each (range (shl 1 (n - (0 + length ws))))
                (ncn_plain_round core (rev_wire_parity r) (patterns n ws)) arr))
            (ap (λ r. r.0) (reverse_wires_lem n (ws ++ []) vs hn d) ∙ all_positions n ws [])
        ∙ ap ok (
            ncn_plain-any_order core update n ws is_core local hn pos vs _ arr d0 (
              subst (λ m. IsSchedule (2 ^ (n - m)) (range (shl 1 (n - (0 + length ws)))))
                {x = 0 + length ws} {y = length ws} (omega arith)
                (all_rounds n (0 + length ws) hn (omega arith))))
    loops (c ∷ cs) d e =
        if_false (suc (length cs) == 0) _ _ (ground arith)
        ∙ ap ok (
            ncn_controlled-any_order core update n ws is_core local hn pos (c ∷ cs) vs _ arr d e
              (all_rounds n (suc (length cs) + length ws) hn (omega arith)))
