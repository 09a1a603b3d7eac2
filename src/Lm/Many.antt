-- ===== src/Lm/Many.antt =====
-- applyNCN of GateImplementationsLM.hpp and the index patterns of GateIndices.cpp: gates with controls
-- on any number of target wires.
use pennylane_lightning.Prelude.{
  ℕ, ◌+◌, ◌-◌, Bool, List, [], ◌∷◌, ◌++◌, length, range, reversed, leb, ◌==◌, if◌then◌else◌,
  Outcome, ok, abort_if_not, ◌>>=◌, ◌>>◌,
}
use pennylane_lightning.Word.{shl}
use pennylane_lightning.BitUtil.{rev_wire_parity}
use pennylane_lightning.Memory.{Arr, for_each}
use pennylane_lightning.Util.{extend_patterns}
use pennylane_lightning.Lm.Index.{reverse_wires, or_masks, parity2indices}
use pennylane_lightning.Lm.Apply.{size_mismatch}

-- generateBitPatterns of GateIndices.cpp
unfoldable pub generate_bit_patterns : List ℕ → ℕ → Outcome (List ℕ)
unfolding extend_patterns
generate_bit_patterns qubit_indices num_qubits =
    extend_patterns (reversed qubit_indices) num_qubits (0 ∷ [])

-- A core function on a list of indices and an offset that is added to each.
abbrev pub CoreN : Type 0 → Type 0
CoreN A = Arr A → List ℕ → ℕ → Arr A

module _ {A : Type 0} where
  -- The round k of each loop.
  unfoldable pub ncn_plain_round : CoreN A → List ℕ → List ℕ → ℕ → Arr A → Arr A
  unfolding or_masks
  ncn_plain_round core parity indices k arr = core arr indices (or_masks k 0 0 parity)

  unfoldable pub ncn_controlled_round : CoreN A → List ℕ → List ℕ → List ℕ → ℕ → ℕ → Arr A → Arr A
  unfolding parity2indices
  ncn_controlled_round core parity rev_wires rev_wire_shifts n_contr k arr =
      core arr (parity2indices k parity rev_wire_shifts n_contr rev_wires) 0

  -- applyNCN
  unfoldable pub apply_ncn : CoreN A → ℕ → List ℕ → List Bool → List ℕ → Arr A → Outcome (Arr A)
  unfolding shl for_each reverse_wires rev_wire_parity ncn_plain_round ncn_controlled_round
      generate_bit_patterns
  apply_ncn core num_qubits controlled_wires controlled_values wires arr = do
    let n_contr = length controlled_wires
    let nw_tot = n_contr + length wires
    let rounds = range (shl 1 (num_qubits - nw_tot))
    let revs = reverse_wires num_qubits (wires ++ controlled_wires) controlled_values
    let parity = rev_wire_parity revs.0
    abort_if_not (leb nw_tot num_qubits) "Assertion failed: num_qubits >= nw_tot"
    abort_if_not (length controlled_values == n_contr) size_mismatch
    abort_if_not (nw_tot == length parity - 1) "Assertion failed: nw_tot == parity.size() - 1"
    if n_contr == 0
        then (generate_bit_patterns wires num_qubits >>= λ indices.
            ok (for_each rounds (ncn_plain_round core parity indices) arr))
        else ok (for_each rounds (ncn_controlled_round core parity revs.0 revs.1 n_contr) arr)
