-- ===== src/Lm/TwoQubitGenerators.antt =====
-- The generators of the two-qubit gates of GateImplementationsLM.hpp, with controls and without.
use pennylane_lightning.Prelude.{ℕ, Bool, List, [], Outcome}
use pennylane_lightning.Memory.{Arr, write, swap}
use pennylane_lightning.Complex.{Floats, Complex, complex, negated, imag_unit}
use pennylane_lightning.Lm.Apply.{Core2}
use pennylane_lightning.Lm.Generate.{apply_nc_generator2}
use pennylane_lightning.Lm.OneQubit.{minus_once, scale_at}
use pennylane_lightning.Lm.OneQubitGenerators.{with_factor}

module _ (F : Floats) where
  unfoldable pub generator_ising_xx_core : Core2 (Complex F)
  unfolding swap
  generator_ising_xx_core arr q = swap (swap arr q.i00 q.i11) q.i10 q.i01

  unfoldable pub apply_nc_generator_ising_xx :
      ℕ → List ℕ → List Bool → List ℕ → Bool → Arr (Complex F) → Outcome (F.Real × Arr (Complex F))
  unfolding apply_nc_generator2 generator_ising_xx_core
  apply_nc_generator_ising_xx num_qubits controlled_wires controlled_values wires adj arr =
      with_factor F (F.neg (F.half F.one)) (
        apply_nc_generator2 (complex F F.zero F.zero) generator_ising_xx_core num_qubits
          controlled_wires controlled_values wires arr)

  unfoldable pub apply_generator_ising_xx :
      ℕ → List ℕ → Bool → Arr (Complex F) → Outcome (F.Real × Arr (Complex F))
  unfolding apply_nc_generator_ising_xx
  apply_generator_ising_xx num_qubits wires adj arr =
      apply_nc_generator_ising_xx num_qubits [] [] wires adj arr

  unfoldable pub generator_ising_xy_core : Core2 (Complex F)
  unfolding swap write
  generator_ising_xy_core arr q =
      write (write (swap arr q.i10 q.i01) q.i00 (complex F F.zero F.zero)) q.i11
        (complex F F.zero F.zero)

  unfoldable pub apply_nc_generator_ising_xy :
      ℕ → List ℕ → List Bool → List ℕ → Bool → Arr (Complex F) → Outcome (F.Real × Arr (Complex F))
  unfolding apply_nc_generator2 generator_ising_xy_core
  apply_nc_generator_ising_xy num_qubits controlled_wires controlled_values wires adj arr =
      with_factor F (F.half F.one) (
        apply_nc_generator2 (complex F F.zero F.zero) generator_ising_xy_core num_qubits
          controlled_wires controlled_values wires arr)

  unfoldable pub apply_generator_ising_xy :
      ℕ → List ℕ → Bool → Arr (Complex F) → Outcome (F.Real × Arr (Complex F))
  unfolding apply_nc_generator_ising_xy
  apply_generator_ising_xy num_qubits wires adj arr =
      apply_nc_generator_ising_xy num_qubits [] [] wires adj arr

  unfoldable pub generator_ising_yy_core : Core2 (Complex F)
  unfolding swap write
  generator_ising_yy_core arr q =
      let v00 = arr q.i00 in
      let first = write arr q.i00 (negated F (arr q.i11)) in
      swap (write first q.i11 (negated F v00)) q.i10 q.i01

  unfoldable pub apply_nc_generator_ising_yy :
      ℕ → List ℕ → List Bool → List ℕ → Bool → Arr (Complex F) → Outcome (F.Real × Arr (Complex F))
  unfolding apply_nc_generator2 generator_ising_yy_core
  apply_nc_generator_ising_yy num_qubits controlled_wires controlled_values wires adj arr =
      with_factor F (F.neg (F.half F.one)) (
        apply_nc_generator2 (complex F F.zero F.zero) generator_ising_yy_core num_qubits
          controlled_wires controlled_values wires arr)

  unfoldable pub apply_generator_ising_yy :
      ℕ → List ℕ → Bool → Arr (Complex F) → Outcome (F.Real × Arr (Complex F))
  unfolding apply_nc_generator_ising_yy
  apply_generator_ising_yy num_qubits wires adj arr =
      apply_nc_generator_ising_yy num_qubits [] [] wires adj arr

  unfoldable pub generator_ising_zz_core : Core2 (Complex F)
  unfolding write
  generator_ising_zz_core arr q =
      let first = write arr q.i10 (minus_once F (arr q.i10)) in
      write first q.i01 (minus_once F (first q.i01))

  unfoldable pub apply_nc_generator_ising_zz :
      ℕ → List ℕ → List Bool → List ℕ → Bool → Arr (Complex F) → Outcome (F.Real × Arr (Complex F))
  unfolding apply_nc_generator2 generator_ising_zz_core
  apply_nc_generator_ising_zz num_qubits controlled_wires controlled_values wires adj arr =
      with_factor F (F.neg (F.half F.one)) (
        apply_nc_generator2 (complex F F.zero F.zero) generator_ising_zz_core num_qubits
          controlled_wires controlled_values wires arr)

  unfoldable pub apply_generator_ising_zz :
      ℕ → List ℕ → Bool → Arr (Complex F) → Outcome (F.Real × Arr (Complex F))
  unfolding apply_nc_generator_ising_zz
  apply_generator_ising_zz num_qubits wires adj arr =
      apply_nc_generator_ising_zz num_qubits [] [] wires adj arr

  -- arr[i01] *= IMAG; arr[i10] *= -IMAG
  unfoldable pub turn_middle : Core2 (Complex F)
  unfolding scale_at
  turn_middle arr q =
      scale_at F (scale_at F arr q.i01 (imag_unit F)) q.i10 (negated F (imag_unit F))

  unfoldable pub generator_single_excitation_core : Core2 (Complex F)
  unfolding swap write turn_middle
  generator_single_excitation_core arr q =
      let first = write arr q.i00 (complex F F.zero F.zero) in
      swap (write (turn_middle first q) q.i11 (complex F F.zero F.zero)) q.i10 q.i01

  unfoldable pub apply_nc_generator_single_excitation :
      ℕ → List ℕ → List Bool → List ℕ → Bool → Arr (Complex F) → Outcome (F.Real × Arr (Complex F))
  unfolding apply_nc_generator2 generator_single_excitation_core
  apply_nc_generator_single_excitation num_qubits controlled_wires controlled_values wires adj arr =
      with_factor F (F.neg (F.half F.one)) (
        apply_nc_generator2 (complex F F.zero F.zero) generator_single_excitation_core num_qubits
          controlled_wires controlled_values wires arr)

  unfoldable pub apply_generator_single_excitation :
      ℕ → List ℕ → Bool → Arr (Complex F) → Outcome (F.Real × Arr (Complex F))
  unfolding apply_nc_generator_single_excitation
  apply_generator_single_excitation num_qubits wires adj arr =
      apply_nc_generator_single_excitation num_qubits [] [] wires adj arr

  unfoldable pub generator_single_excitation_minus_core : Core2 (Complex F)
  unfolding swap turn_middle
  generator_single_excitation_minus_core arr q = swap (turn_middle arr q) q.i10 q.i01

  unfoldable pub apply_nc_generator_single_excitation_minus :
      ℕ → List ℕ → List Bool → List ℕ → Bool → Arr (Complex F) → Outcome (F.Real × Arr (Complex F))
  unfolding apply_nc_generator2 generator_single_excitation_minus_core
  apply_nc_generator_single_excitation_minus num_qubits controlled_wires controlled_values wires adj
        arr =
      with_factor F (F.neg (F.half F.one)) (
        apply_nc_generator2 (complex F F.zero F.zero) generator_single_excitation_minus_core
          num_qubits controlled_wires controlled_values wires arr)

  unfoldable pub apply_generator_single_excitation_minus :
      ℕ → List ℕ → Bool → Arr (Complex F) → Outcome (F.Real × Arr (Complex F))
  unfolding apply_nc_generator_single_excitation_minus
  apply_generator_single_excitation_minus num_qubits wires adj arr =
      apply_nc_generator_single_excitation_minus num_qubits [] [] wires adj arr

  unfoldable pub generator_single_excitation_plus_core : Core2 (Complex F)
  unfolding swap write turn_middle
  generator_single_excitation_plus_core arr q =
      let turned = turn_middle (write arr q.i00 (minus_once F (arr q.i00))) q in
      swap (write turned q.i11 (minus_once F (turned q.i11))) q.i10 q.i01

  unfoldable pub apply_nc_generator_single_excitation_plus :
      ℕ → List ℕ → List Bool → List ℕ → Bool → Arr (Complex F) → Outcome (F.Real × Arr (Complex F))
  unfolding apply_nc_generator2 generator_single_excitation_plus_core
  apply_nc_generator_single_excitation_plus num_qubits controlled_wires controlled_values wires adj
        arr =
      with_factor F (F.neg (F.half F.one)) (
        apply_nc_generator2 (complex F F.zero F.zero) generator_single_excitation_plus_core
          num_qubits controlled_wires controlled_values wires arr)

  unfoldable pub apply_generator_single_excitation_plus :
      ℕ → List ℕ → Bool → Arr (Complex F) → Outcome (F.Real × Arr (Complex F))
  unfolding apply_nc_generator_single_excitation_plus
  apply_generator_single_excitation_plus num_qubits wires adj arr =
      apply_nc_generator_single_excitation_plus num_qubits [] [] wires adj arr
