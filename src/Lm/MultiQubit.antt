-- ===== src/Lm/MultiQubit.antt =====
-- applyMultiQubitOp and applyNCMultiQubitOp of GateImplementationsLM.hpp: a gate on any number of wires,
-- given by its matrix. The matrix is the memory that `matrix` points to, row after row.
use pennylane_lightning.Prelude.{
  ℕ, ◌+◌, ◌*◌, Bool, List, [], length, get_or, range, if◌then◌else◌, Outcome,
}
use pennylane_lightning.Word.{shl}
use pennylane_lightning.Memory.{Arr, write, for_each}
use pennylane_lightning.Complex.{Floats, Complex, complex, plus, times, conj}
use pennylane_lightning.Lm.Many.{CoreN, apply_ncn}

module _ (F : Floats) where
  -- mat: a copy of the matrix, for the inverse conjugated and transposed.
  unfoldable pub dagger_n_if : Bool → ℕ → Arr (Complex F) → Arr (Complex F)
  unfolding for_each write
  dagger_n_if inverse dim matrix =
      if inverse
      then for_each (range dim)
          (λ i mat.
            for_each (range dim) (λ j m. write m (j * dim + i) (conj F (matrix (i * dim + j)))) mat)
          matrix
      else matrix

  -- arr[index] = 0.0; for each j: arr[index] += mat[base_idx + j] * coeffs[j]
  unfoldable pub row_round :
      ℕ → Arr (Complex F) → (ℕ → Complex F) → List ℕ → ℕ → ℕ → Arr (Complex F) → Arr (Complex F)
  unfolding for_each write
  row_round dim mat coeffs indices offset i arr =
      let index = get_or indices i 0 + offset in
      for_each (range dim)
        (λ j a. write a index (plus F (a index) (times F (mat (i * dim + j)) (coeffs j))))
        (write arr index (complex F F.zero F.zero))

  unfoldable pub multi_qubit_core : ℕ → Arr (Complex F) → CoreN (Complex F)
  unfolding for_each row_round
  multi_qubit_core dim mat arr indices offset =
      let coeffs : ℕ → Complex F = λ i. arr (get_or indices i 0 + offset) in
      for_each (range dim) (row_round dim mat coeffs indices offset) arr

  unfoldable pub apply_nc_multi_qubit_op :
      ℕ
      → List ℕ
      → List Bool
      → List ℕ
      → Bool
      → Arr (Complex F)
      → Arr (Complex F)
      → Outcome (Arr (Complex F))
  unfolding apply_ncn multi_qubit_core dagger_n_if shl
  apply_nc_multi_qubit_op num_qubits controlled_wires controlled_values wires inverse matrix arr =
      let dim = shl 1 (length wires) in
      apply_ncn (multi_qubit_core dim (dagger_n_if inverse dim matrix)) num_qubits controlled_wires
        controlled_values wires arr

  unfoldable pub apply_multi_qubit_op :
      ℕ → List ℕ → Bool → Arr (Complex F) → Arr (Complex F) → Outcome (Arr (Complex F))
  unfolding apply_nc_multi_qubit_op
  apply_multi_qubit_op num_qubits wires inverse matrix arr =
      apply_nc_multi_qubit_op num_qubits [] [] wires inverse matrix arr
