-- ===== src/Tests/Exchanges.antt =====
-- The kernels and the pool at concrete inputs: the gates that exchange amplitudes.
use pennylane_lightning.Prelude.{ℕ, ◌≡◌, refl, true, false, [], ◌∷◌, arith, ok, ◌>>=◌}
use pennylane_lightning.Memory.{Arr}
use pennylane_lightning.Gate.{gate1, gate2}
use pennylane_lightning.Lm.Exchange.{apply_nc_pauli_x, apply_nc_swap, apply_cnot}
use pennylane_lightning.Lm.ExchangeLaws.{
  x_update, swap_update, apply_nc_pauli_x_lem, apply_nc_swap_lem, apply_cnot-apply_nc_pauli_x,
  apply_nc_pauli_x-apply_nc_pauli_x,
}

-- The state vector whose amplitude at i is i.
abbrev ramp : Arr ℕ
ramp i = i

apply_nc_pauli_x_lem_example :
    apply_nc_pauli_x 3 (0 ∷ []) (true ∷ []) (2 ∷ []) false ramp
    ≡ ok (gate1 3 (0 ∷ []) (true ∷ []) 2 x_update ramp)
apply_nc_pauli_x_lem_example =
    apply_nc_pauli_x_lem 3 (omega arith) false ramp 2 (0 ∷ []) (true ∷ [])
      (omega arith, refl, (omega arith, refl, tt)) refl

apply_nc_swap_lem_example :
    apply_nc_swap 4 (0 ∷ []) (true ∷ []) (2 ∷ 3 ∷ []) false ramp
    ≡ ok (gate2 4 (0 ∷ []) (true ∷ []) 2 3 swap_update ramp)
apply_nc_swap_lem_example =
    apply_nc_swap_lem 4 (omega arith) false ramp 2 3 (0 ∷ []) (true ∷ [])
      (omega arith, refl, (omega arith, refl, (omega arith, refl, tt))) refl

apply_cnot-apply_nc_pauli_x_example :
    apply_cnot 3 (0 ∷ 2 ∷ []) false ramp
    ≡ apply_nc_pauli_x 3 (0 ∷ []) (true ∷ []) (2 ∷ []) false ramp
apply_cnot-apply_nc_pauli_x_example =
    apply_cnot-apply_nc_pauli_x 3 (omega arith) false ramp 0 2
      (omega arith, refl, (omega arith, refl, tt))

apply_nc_pauli_x-apply_nc_pauli_x_example :
    (apply_nc_pauli_x 3 (0 ∷ []) (true ∷ []) (2 ∷ []) false ramp
      >>= apply_nc_pauli_x 3 (0 ∷ []) (true ∷ []) (2 ∷ []) false)
    ≡ ok ramp
apply_nc_pauli_x-apply_nc_pauli_x_example =
    apply_nc_pauli_x-apply_nc_pauli_x 3 (omega arith) false ramp 2 (0 ∷ []) (true ∷ [])
      (omega arith, refl, (omega arith, refl, tt)) refl
