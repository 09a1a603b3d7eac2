-- ===== src/Util.antt =====
-- utils/Util.hpp: exp2, maxDecimalForQubit, getIndicesAfterExclusion and generateBitsPatterns.
pub mod Exclusion
pub mod Patterns
use pennylane_lightning.Prelude.{
  ℕ, ◌+◌, Bool, true, false, not, ◌&&◌, List, [], ◌∷◌, ◌++◌, map, length, reversed, range, ltb,
  ◌==◌, if◌then◌else◌, Outcome, ok, abort, abort_if_not, ◌>>=◌, ◌>>◌,
}
use pennylane_lightning.Word.{shl, sub}

unfoldable pub exp2 : ℕ → ℕ
unfolding shl
exp2 n = shl 1 n

unfoldable pub max_decimal_for_qubit : ℕ → ℕ → Outcome ℕ
unfolding exp2 sub
max_decimal_for_qubit qubit_index qubits = do
  abort_if_not (ltb qubit_index qubits) "Assertion failed: qubitIndex < qubits"
  ok (exp2 (sub (sub qubits qubit_index) 1))

-- The inner loop of getIndicesAfterExclusion. An erasure moves the next entry to the place that the
-- loop has just seen, so that entry is passed over: `skip` is set for it.
unfoldable pub erase_equal : Bool → ℕ → List ℕ → List ℕ
erase_equal skip j [] = []
erase_equal skip j (i ∷ indices) =
    let kept = erase_equal false j indices in
    let erased = erase_equal true j indices in if not skip && (j == i) then erased else i ∷ kept

unfoldable pub exclude : List ℕ → List ℕ → List ℕ
unfolding erase_equal
exclude [] indices = indices
exclude (j ∷ indices_to_exclude) indices = exclude indices_to_exclude (erase_equal false j indices)

unfoldable pub get_indices_after_exclusion : List ℕ → ℕ → List ℕ
unfolding exclude
get_indices_after_exclusion indices_to_exclude num_qubits =
    exclude indices_to_exclude (range num_qubits)

-- The outer loop of generateBitsPatterns, over the wires from the last to the first.
unfoldable pub extend_patterns : List ℕ → ℕ → List ℕ → Outcome (List ℕ)
unfolding max_decimal_for_qubit
extend_patterns [] num_qubits indices = ok indices
extend_patterns (q ∷ qubits) num_qubits indices = max_decimal_for_qubit q num_qubits >>= λ value.
    extend_patterns qubits num_qubits (indices ++ map (λ i. i + value) indices)

unfoldable pub generate_bits_patterns : List ℕ → ℕ → Outcome (List ℕ)
unfolding extend_patterns
generate_bits_patterns qubit_indices num_qubits =
    extend_patterns (reversed qubit_indices) num_qubits (0 ∷ [])
