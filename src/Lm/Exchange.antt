-- ===== src/Lm/Exchange.antt =====
-- The gates of GateImplementationsLM.hpp that only exchange amplitudes: PauliX, CNOT, Toffoli, SWAP
-- and CSWAP. The argument `inverse` is unused there too.
use pennylane_lightning.Prelude.{
  ℕ, Bool, true, false, List, [], ◌∷◌, length, get_or, ◌==◌, Outcome, abort_if_not, ◌>>◌,
}
use pennylane_lightning.Memory.{Arr, swap}
use pennylane_lightning.Lm.Apply.{Core1, Core2, apply_nc2, dispatch_nc1, dispatch_nc2}

module _ {A : Type 0} where
  unfoldable pub pauli_x_core : Core1 A
  unfolding swap
  pauli_x_core arr i0 i1 = swap arr i0 i1

  unfoldable pub apply_nc_pauli_x : ℕ → List ℕ → List Bool → List ℕ → Bool → Arr A → Outcome (Arr A)
  unfolding dispatch_nc1
  apply_nc_pauli_x num_qubits controlled_wires controlled_values wires inverse arr =
      dispatch_nc1 pauli_x_core num_qubits controlled_wires controlled_values wires arr

  unfoldable pub apply_pauli_x : ℕ → List ℕ → Bool → Arr A → Outcome (Arr A)
  unfolding apply_nc_pauli_x
  apply_pauli_x num_qubits wires inverse arr = apply_nc_pauli_x num_qubits [] [] wires inverse arr

  unfoldable pub cnot_core : Core2 A
  unfolding swap
  cnot_core arr q = swap arr q.i10 q.i11

  unfoldable pub apply_cnot : ℕ → List ℕ → Bool → Arr A → Outcome (Arr A)
  unfolding apply_nc2
  apply_cnot num_qubits wires inverse arr = apply_nc2 false cnot_core num_qubits [] [] wires arr

  unfoldable pub apply_toffoli : ℕ → List ℕ → Bool → Arr A → Outcome (Arr A)
  unfolding apply_nc_pauli_x
  apply_toffoli num_qubits wires inverse arr = do
    abort_if_not (length wires == 3) "Assertion failed: wires.size() == 3"
    apply_nc_pauli_x num_qubits (get_or wires 0 0 ∷ get_or wires 1 0 ∷ []) (true ∷ true ∷ [])
        (get_or wires 2 0 ∷ []) inverse arr

  unfoldable pub swap_core : Core2 A
  unfolding swap
  swap_core arr q = swap arr q.i10 q.i01

  unfoldable pub apply_nc_swap : ℕ → List ℕ → List Bool → List ℕ → Bool → Arr A → Outcome (Arr A)
  unfolding dispatch_nc2
  apply_nc_swap num_qubits controlled_wires controlled_values wires inverse arr =
      dispatch_nc2 swap_core num_qubits controlled_wires controlled_values wires arr

  unfoldable pub apply_swap : ℕ → List ℕ → Bool → Arr A → Outcome (Arr A)
  unfolding apply_nc_swap
  apply_swap num_qubits wires inverse arr = apply_nc_swap num_qubits [] [] wires inverse arr

  -- The source reads wires[0], wires[1] and wires[2] unchecked.
  unfoldable pub apply_cswap : ℕ → List ℕ → Bool → Arr A → Outcome (Arr A)
  unfolding apply_nc_swap
  apply_cswap num_qubits wires inverse arr =
      apply_nc_swap num_qubits (get_or wires 0 0 ∷ []) (true ∷ [])
        (get_or wires 1 0 ∷ get_or wires 2 0 ∷ []) inverse arr
