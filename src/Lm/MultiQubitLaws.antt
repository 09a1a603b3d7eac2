-- ===== src/Lm/MultiQubitLaws.antt =====
-- A gate given by its matrix on any number of wires multiplies the amplitudes of each block by it.
use native.Mathlib.Nat.{mul_comm}
use pennylane_lightning.Prelude.{
  ℕ, ◌+◌, ◌*◌, ◌/◌, ◌%◌, ◌^◌, ◌<◌, ◌≡◌, ◌≢◌, refl, ap, sym, ◌∙◌, Bool, true, false, List, ◌++◌,
  arith, length, get_or, range, elem, if◌then◌else◌, lt→ltb, ok, length-append,
}
use pennylane_lightning.BitUtil.Sort.{IsDistinct}
use pennylane_lightning.Memory.{Arr, write, for_each}
use pennylane_lightning.Memory.Cells.{
  IsApart, OwnsCell, for_each_cells, for_each_others, for_each_keeps, for_each_writer,
  for_each_accumulates, for_each_agree,
}
use pennylane_lightning.Blocks.{
  elem-range, range-IsDistinct, halves-div, halves-mod, length_wires-le,
}
use pennylane_lightning.Complex.{Floats, Complex, complex, plus, times, conj}
use pennylane_lightning.Gate.{UpdateN, gate_n, targets}
use pennylane_lightning.Lm.Wires.{shl_one}
use pennylane_lightning.Lm.CorrectN.{IsLocal}
use pennylane_lightning.Lm.Ncn.{apply_ncn-gate_n}
use pennylane_lightning.Lm.NcnLoops.{numbered-IsApart}
use pennylane_lightning.Lm.NcnLoops.{IsCoreN}
use pennylane_lightning.Lm.Many.{apply_ncn}
use pennylane_lightning.Lm.MultiQubit.{
  dagger_n_if, row_round, multi_qubit_core, apply_nc_multi_qubit_op,
}

-- The place of row r and column c is that of no other row or column.
place_row : (m r c r' c' : ℕ) → c < 2 ^ m → c' < 2 ^ m → r * 2 ^ m + c ≡ r' * 2 ^ m + c' → r ≡ r'
place_row m r c r' c' h h' e =
    sym (halves-div m c r h)
    ∙ ap (λ t. t / 2 ^ m) {x = c + 2 ^ m * r} {y = c' + 2 ^ m * r'}
        (omega (arith, mul_comm r (2 ^ m), mul_comm r' (2 ^ m), e))
    ∙ halves-div m c' r' h'

place_column : (m r c r' c' : ℕ) → c < 2 ^ m → c' < 2 ^ m → r * 2 ^ m + c ≡ r' * 2 ^ m + c' → c ≡ c'
place_column m r c r' c' h h' e =
    sym (halves-mod m c r h)
    ∙ ap (λ t. t % 2 ^ m) {x = c + 2 ^ m * r} {y = c' + 2 ^ m * r'}
        (omega (arith, mul_comm r (2 ^ m), mul_comm r' (2 ^ m), e))
    ∙ halves-mod m c' r' h'

module _ (F : Floats) where
  -- The entry at row i and column j of the matrix, or of its conjugate transpose.
  abbrev pub matrix_entry : Bool → ℕ → Arr (Complex F) → ℕ → ℕ → Complex F
  matrix_entry inverse dim matrix i j =
      if inverse then conj F (matrix (j * dim + i)) else matrix (i * dim + j)

  -- A row times a vector, summed from the first column on.
  abbrev pub product_update : ℕ → (ℕ → ℕ → Complex F) → UpdateN (Complex F)
  unfolding for_each
  product_update dim entry i f =
      for_each (range dim) (λ j sum. plus F sum (times F (entry i j) (f j)))
        (complex F F.zero F.zero)

  dagger_lem :
      (m : ℕ) (matrix : Arr (Complex F)) (r c : ℕ)
      → r < 2 ^ m
      → c < 2 ^ m
      → dagger_n_if F true (2 ^ m) matrix (r * 2 ^ m + c) ≡ conj F (matrix (c * 2 ^ m + r))
  unfolding dagger_n_if write
  dagger_lem m matrix r c hr hc =
      for_each_writer (2 ^ m) (r * 2 ^ m + c) c (conj F (matrix (c * 2 ^ m + r))) _
        (λ i arr hi other.
          for_each_keeps (r * 2 ^ m + c)
            (λ j a. write a (j * 2 ^ m + i) (conj F (matrix (i * 2 ^ m + j))))
            (λ j a.
              let ne : r * 2 ^ m + c ≢ j * 2 ^ m + i =
                λ e. other (sym (place_column m r c j i hc hi e)) in
              ground (arith, ne))
            (range (2 ^ m)) arr)
        (λ arr.
          for_each_writer (2 ^ m) (r * 2 ^ m + c) r (conj F (matrix (c * 2 ^ m + r)))
            (λ j a. write a (j * 2 ^ m + c) (conj F (matrix (c * 2 ^ m + j))))
            (λ j a hj other.
              let ne : r * 2 ^ m + c ≢ j * 2 ^ m + c =
                λ e. other (sym (place_row m r c j c hc hc e)) in
              ground (arith, ne))
            (λ a. ground arith) (range (2 ^ m)) arr (range-IsDistinct (2 ^ m))
          ∙ inside r arr _ hr)
        (range (2 ^ m)) matrix (range-IsDistinct (2 ^ m))
      ∙ inside c matrix _ hc
    where
      inside :
          (k : ℕ) (arr : Arr (Complex F)) (v : Complex F)
          → k < 2 ^ m
          → (if elem k (range (2 ^ m)) then v else arr (r * 2 ^ m + c)) ≡ v
      inside k arr v h =
          ap (λ b. if b then v else arr (r * 2 ^ m + c)) (elem-range k (2 ^ m) ∙ lt→ltb k (2 ^ m) h)

  mat-matrix_entry :
      (m : ℕ) (inverse : Bool) (matrix : Arr (Complex F)) (i j : ℕ)
      → i < 2 ^ m
      → j < 2 ^ m
      → dagger_n_if F inverse (2 ^ m) matrix (i * 2 ^ m + j)
        ≡ matrix_entry inverse (2 ^ m) matrix i j
  unfolding dagger_n_if
  mat-matrix_entry m true matrix i j hi hj = dagger_lem m matrix i j hi hj
  mat-matrix_entry m false matrix i j hi hj = refl

  product_update-IsLocal :
      (dim : ℕ) (entry : ℕ → ℕ → Complex F) → IsLocal dim (product_update dim entry)
  unfolding product_update
  product_update-IsLocal dim entry i f g hi same =
      for_each_agree dim _ _ (λ j sum h. ap (λ t. plus F sum (times F (entry i j) t)) (same j h))
        (range dim) _ (range-IsDistinct dim)

  multi_qubit_core-IsCoreN :
      (m : ℕ) (ts : List ℕ) (inverse : Bool) (matrix : Arr (Complex F))
      → IsCoreN
          (2 ^ m)
          ts
          (multi_qubit_core F (2 ^ m) (dagger_n_if F inverse (2 ^ m) matrix))
          (product_update (2 ^ m) (matrix_entry inverse (2 ^ m) matrix))
  unfolding multi_qubit_core product_update row_round write
  multi_qubit_core-IsCoreN m ts inverse matrix indices offset counted numbered =
      let dim = 2 ^ m in
      let mat = dagger_n_if F inverse dim matrix in
      let addr : ℕ → ℕ = λ i. get_or indices i 0 + offset in
      let apart : IsApart dim addr = numbered-IsApart dim ts addr numbered in
      let sums : Arr (Complex F) → ℕ → Complex F → Complex F = λ arr i old.
        for_each (range dim) (λ j sum. plus F sum (times F (mat (i * dim + j)) (arr (addr j))))
          (complex F F.zero F.zero) in
      let owns : (arr : Arr (Complex F))
          → OwnsCell addr (sums arr) (row_round F dim mat (λ i. arr (addr i)) indices offset) =
        λ arr. record {
          here = λ i a.
              for_each_accumulates (addr i)
                (λ j sum. plus F sum (times F (mat (i * dim + j)) (arr (addr j)))) (range dim)
                (write a (addr i) (complex F F.zero F.zero))
              ∙ ap
                  (for_each (range dim)
                    (λ j sum. plus F sum (times F (mat (i * dim + j)) (arr (addr j)))))
                  (ground arith);
          there = λ i a x ne.
              for_each_keeps x
                (λ j b.
                  write b (addr i)
                    (plus F (b (addr i)) (times F (mat (i * dim + j)) (arr (addr j)))))
                (λ j b. ground arith) (range dim) (write a (addr i) (complex F F.zero F.zero))
              ∙ ground arith;
        } in
      record {
        hits = λ arr i h.
            for_each_cells dim addr apart (sums arr) _ (owns arr) (range dim) arr i
              (range-IsDistinct dim) h
            ∙ ap (λ b. if b then sums arr i (arr (addr i)) else arr (addr i))
                (elem-range i dim ∙ lt→ltb i dim h)
            ∙ for_each_agree dim _ _
                (λ j sum hj.
                  ap (λ t. plus F sum (times F t (arr (addr j))))
                    (mat-matrix_entry m inverse matrix i j h hj))
                (range dim) _ (range-IsDistinct dim);
        misses = λ arr j other.
            for_each_others dim addr apart (sums arr) _ (owns arr) (range dim) arr j
              (range-IsDistinct dim) other;
      }

  -- A gate given by its matrix, on at least one wire and control wires, all distinct and below n < 64, with
  -- a value for each control wire, multiplies the amplitudes of each block whose controls match by the
  -- matrix, or by its conjugate transpose for the inverse, and changes no other.
  pub apply_nc_multi_qubit_op_lem :
      (n : ℕ) (ws cs : List ℕ) (vs : List Bool) (inverse : Bool) (matrix arr : Arr (Complex F))
      → n < 64
      → 0 < length ws
      → IsDistinct n (ws ++ cs)
      → length vs ≡ length cs
      → apply_nc_multi_qubit_op F n cs vs ws inverse matrix arr
        ≡ ok (
            gate_n n cs vs ws
              (product_update (2 ^ length ws) (matrix_entry inverse (2 ^ length ws) matrix))
              arr)
  unfolding apply_nc_multi_qubit_op
  apply_nc_multi_qubit_op_lem n ws cs vs inverse matrix arr hn pos d e =
      ap
        (λ dim.
          apply_ncn (multi_qubit_core F dim (dagger_n_if F inverse dim matrix)) n cs vs ws arr)
        (shl_one (length ws) (omega (arith, length_wires-le n (ws ++ cs) d, length-append ws cs)))
      ∙ apply_ncn-gate_n _ _ n ws
          (multi_qubit_core-IsCoreN (length ws) (targets n ws) inverse matrix)
          (product_update-IsLocal (2 ^ length ws) (matrix_entry inverse (2 ^ length ws) matrix)) hn
          pos cs vs arr d e
