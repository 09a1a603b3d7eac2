-- ===== src/Lm/Apply.antt =====
-- applyNC1 and applyNC2 over a state vector, for a core function of the gate.
use pennylane_lightning.Prelude.{
  ℕ, ◌+◌, ◌-◌, Bool, true, false, List, [], ◌∷◌, ◌++◌, length, get_or, range, leb, ◌==◌,
  if◌then◌else◌, not, ◌||◌, String, Outcome, ok, abort_if_not, ◌>>◌,
}
use pennylane_lightning.Word.{shl, sub}
use pennylane_lightning.BitUtil.{rev_wire_parity}
use pennylane_lightning.Memory.{Arr, for_each}
use pennylane_lightning.Lm.Index.{
  reverse_wires, nc1_plain, nc1_controlled, nc2_plain, nc2_controlled, Quad,
}

abbrev pub size_mismatch : String
size_mismatch = "`controlled_wires` must have the same size as `controlled_values`."

-- std::vector::empty
abbrev pub is_empty {ℓ} : {A : Type ℓ} → List A → Bool
is_empty [] = true
is_empty (x ∷ xs) = false

-- A core function on the addresses i0 and i1, and one on i00, i01, i10 and i11.
abbrev pub Core1 : Type 0 → Type 0
Core1 A = Arr A → ℕ → ℕ → Arr A

abbrev pub Core2 : Type 0 → Type 0
Core2 A = Arr A → Quad → Arr A

module _ {A : Type 0} where
  -- The round k of each loop.
  unfoldable pub nc1_controlled_round : Core1 A → ℕ → List ℕ → List Bool → ℕ → ℕ → Arr A → Arr A
  unfolding reverse_wires nc1_controlled rev_wire_parity
  nc1_controlled_round core num_qubits all_wires controlled_values n_contr k arr =
      let revs = reverse_wires num_qubits all_wires controlled_values in
      let p = nc1_controlled (rev_wire_parity revs.0) revs.0 revs.1 n_contr k in core arr p.0 p.1

  unfoldable pub nc1_plain_round : Core1 A → ℕ → ℕ → ℕ → Arr A → Arr A
  unfolding sub nc1_plain
  nc1_plain_round core num_qubits wire k arr =
      let p = nc1_plain (sub (sub num_qubits wire) 1) k in core arr p.0 p.1

  unfoldable pub nc2_controlled_round : Core2 A → ℕ → List ℕ → List Bool → ℕ → ℕ → Arr A → Arr A
  unfolding reverse_wires nc2_controlled rev_wire_parity
  nc2_controlled_round core num_qubits all_wires controlled_values n_contr k arr =
      let revs = reverse_wires num_qubits all_wires controlled_values in
      core arr (nc2_controlled (rev_wire_parity revs.0) revs.0 revs.1 n_contr k)

  unfoldable pub nc2_plain_round : Core2 A → ℕ → ℕ → ℕ → ℕ → Arr A → Arr A
  unfolding sub nc2_plain
  nc2_plain_round core num_qubits wire0 wire1 k arr =
      core arr (nc2_plain (sub (sub num_qubits wire1) 1) (sub (sub num_qubits wire0) 1) k)

  -- applyNC1; the template parameter `has_controls` is an argument.
  unfoldable pub apply_nc1 :
      Bool → Core1 A → ℕ → List ℕ → List Bool → List ℕ → Arr A → Outcome (Arr A)
  unfolding shl for_each nc1_controlled_round nc1_plain_round
  apply_nc1 has_controls core num_qubits controlled_wires controlled_values wires arr = do
    let n_contr = length controlled_wires
    let nw_tot = n_contr + length wires
    let rounds = range (shl 1 (num_qubits - nw_tot))
    let all_wires = wires ++ controlled_wires
    abort_if_not (length wires == 1) "Assertion failed: n_wires == 1"
    abort_if_not (leb nw_tot num_qubits) "Assertion failed: num_qubits >= nw_tot"
    abort_if_not (not has_controls || length controlled_values == n_contr) size_mismatch
    ok (
        for_each rounds
          (if has_controls
            then nc1_controlled_round core num_qubits all_wires controlled_values n_contr
            else nc1_plain_round core num_qubits (get_or wires 0 0))
          arr)

  -- applyNC2
  unfoldable pub apply_nc2 :
      Bool → Core2 A → ℕ → List ℕ → List Bool → List ℕ → Arr A → Outcome (Arr A)
  unfolding shl for_each nc2_controlled_round nc2_plain_round
  apply_nc2 has_controls core num_qubits controlled_wires controlled_values wires arr = do
    let n_contr = length controlled_wires
    let nw_tot = n_contr + length wires
    let rounds = range (shl 1 (num_qubits - nw_tot))
    let all_wires = wires ++ controlled_wires
    abort_if_not (length wires == 2) "Assertion failed: n_wires == 2"
    abort_if_not (leb nw_tot num_qubits) "Assertion failed: num_qubits >= nw_tot"
    abort_if_not (not has_controls || length controlled_values == n_contr) size_mismatch
    ok (
        for_each rounds
          (if has_controls
            then nc2_controlled_round core num_qubits all_wires controlled_values n_contr
            else nc2_plain_round core num_qubits (get_or wires 0 0) (get_or wires 1 0))
          arr)

  -- What each gate does with a core function: the loop without controls if there is no control
  -- wire, else the one with controls.
  unfoldable pub dispatch_nc1 : Core1 A → ℕ → List ℕ → List Bool → List ℕ → Arr A → Outcome (Arr A)
  unfolding apply_nc1
  dispatch_nc1 core num_qubits controlled_wires controlled_values wires arr =
      if is_empty controlled_wires
      then apply_nc1 false core num_qubits controlled_wires controlled_values wires arr
      else apply_nc1 true core num_qubits controlled_wires controlled_values wires arr

  unfoldable pub dispatch_nc2 : Core2 A → ℕ → List ℕ → List Bool → List ℕ → Arr A → Outcome (Arr A)
  unfolding apply_nc2
  dispatch_nc2 core num_qubits controlled_wires controlled_values wires arr =
      if is_empty controlled_wires
      then apply_nc2 false core num_qubits controlled_wires controlled_values wires arr
      else apply_nc2 true core num_qubits controlled_wires controlled_values wires arr
