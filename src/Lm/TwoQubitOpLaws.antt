-- ===== src/Lm/TwoQubitOpLaws.antt =====
-- What a two-qubit gate given by its matrix does to a state vector.
use pennylane_lightning.Prelude.{
  ℕ, ◌<◌, ◌≡◌, refl, ap, ◌∙◌, Bool, true, false, List, [], ◌∷◌, length, ok,
}
use pennylane_lightning.BitUtil.Sort.{IsDistinct}
use pennylane_lightning.Memory.{Arr}
use pennylane_lightning.Complex.{Floats, Complex, plus, times, conj}
use pennylane_lightning.Gate.{Update2, gate2}
use pennylane_lightning.Lm.Correct2.{IsCore2}
use pennylane_lightning.Lm.Nc2.{dispatch_nc2-gate2}
use pennylane_lightning.Lm.TwoQubit.{
  Matrix4, row_sum, dagger4_if, two_qubit_core, apply_nc_two_qubit_op,
}
use pennylane_lightning.Lm.TwoQubitLaws.{set4-IsCore2}

module _ (F : Floats) where
  -- The update that the core function computes from its matrix.
  abbrev core_update : Matrix4 F → Update2 (Complex F)
  core_update m false false x00 x01 x10 x11 = row_sum F m.row0 x00 x01 x10 x11
  core_update m false true x00 x01 x10 x11 = row_sum F m.row1 x00 x01 x10 x11
  core_update m true false x00 x01 x10 x11 = row_sum F m.row2 x00 x01 x10 x11
  core_update m true true x00 x01 x10 x11 = row_sum F m.row3 x00 x01 x10 x11

  two_qubit_core-IsCore2 : (m : Matrix4 F) → IsCore2 (two_qubit_core F m) (core_update m)
  unfolding two_qubit_core
  two_qubit_core-IsCore2 m = set4-IsCore2 F (core_update m)

  -- a x + b y + c z + d w
  abbrev sum4 :
      Complex F
      → Complex F
      → Complex F
      → Complex F
      → Complex F
      → Complex F
      → Complex F
      → Complex F
      → Complex F
  sum4 a b c d x y z w =
      plus F (plus F (plus F (times F a x) (times F b y)) (times F c z)) (times F d w)

  -- The product with a matrix: the amplitude at each pair of digits is the sum over its row.
  abbrev pub product4 : Matrix4 F → Update2 (Complex F)
  product4 m false false = sum4 m.row0.c0 m.row0.c1 m.row0.c2 m.row0.c3
  product4 m false true = sum4 m.row1.c0 m.row1.c1 m.row1.c2 m.row1.c3
  product4 m true false = sum4 m.row2.c0 m.row2.c1 m.row2.c2 m.row2.c3
  product4 m true true = sum4 m.row3.c0 m.row3.c1 m.row3.c2 m.row3.c3

  -- The product with its conjugate transpose: the sum over the conjugates of its column.
  abbrev pub adjoint_product4 : Matrix4 F → Update2 (Complex F)
  adjoint_product4 m false false =
      sum4 (conj F m.row0.c0) (conj F m.row1.c0) (conj F m.row2.c0) (conj F m.row3.c0)
  adjoint_product4 m false true =
      sum4 (conj F m.row0.c1) (conj F m.row1.c1) (conj F m.row2.c1) (conj F m.row3.c1)
  adjoint_product4 m true false =
      sum4 (conj F m.row0.c2) (conj F m.row1.c2) (conj F m.row2.c2) (conj F m.row3.c2)
  adjoint_product4 m true true =
      sum4 (conj F m.row0.c3) (conj F m.row1.c3) (conj F m.row2.c3) (conj F m.row3.c3)

  abbrev pub op_update4 : Bool → Matrix4 F → Update2 (Complex F)
  op_update4 true m = adjoint_product4 m
  op_update4 false m = product4 m

  core_update-dagger4_if :
      (inverse : Bool) (m : Matrix4 F) → core_update (dagger4_if F inverse m) ≡ op_update4 inverse m
  core_update-dagger4_if true m = λ i b c. entries b c i
    where
      entries : (b c : Bool) → core_update (dagger4_if F true m) b c ≡ adjoint_product4 m b c
      entries false false = refl
      entries false true = refl
      entries true false = refl
      entries true true = refl
  core_update-dagger4_if false m = λ i b c. entries b c i
    where
      entries : (b c : Bool) → core_update m b c ≡ product4 m b c
      entries false false = refl
      entries false true = refl
      entries true false = refl
      entries true true = refl

  -- A two-qubit gate given by its matrix, for distinct wires below n < 64 and a value for each control wire,
  -- multiplies the amplitudes whose controls match by it, or by its conjugate transpose for the
  -- inverse.
  pub apply_nc_two_qubit_op_lem :
      (n w0 w1 : ℕ) (cs : List ℕ) (vs : List Bool) (inverse : Bool) (m : Matrix4 F)
      (arr : Arr (Complex F))
      → n < 64
      → IsDistinct n (w0 ∷ w1 ∷ cs)
      → length vs ≡ length cs
      → apply_nc_two_qubit_op F n cs vs (w0 ∷ w1 ∷ []) inverse m arr
        ≡ ok (gate2 n cs vs w0 w1 (op_update4 inverse m) arr)
  unfolding apply_nc_two_qubit_op
  apply_nc_two_qubit_op_lem n w0 w1 cs vs inverse m arr hn distinct paired =
      dispatch_nc2-gate2 (two_qubit_core F (dagger4_if F inverse m))
        (core_update (dagger4_if F inverse m)) (two_qubit_core-IsCore2 (dagger4_if F inverse m)) n
        w0 w1 cs vs arr hn distinct paired
      ∙ ap (λ u. ok (gate2 n cs vs w0 w1 u arr)) (core_update-dagger4_if inverse m)
