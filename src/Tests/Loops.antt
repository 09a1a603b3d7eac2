-- ===== src/Tests/Loops.antt =====
-- The kernels and the pool at concrete inputs: applyNC1 and applyNC2.
use pennylane_lightning.Prelude.{
  ℕ, ◌+◌, ◌≡◌, refl, Bool, true, ◌&&◌, List, [], ◌∷◌, arith, length, leb, ◌==◌, ok, is_ok, ◌||◌,
}
use pennylane_lightning.Memory.{Arr, for_each}
use pennylane_lightning.Blocks.{IsSchedule}
use pennylane_lightning.Gate.{gate1, gate2}
use pennylane_lightning.Lm.Apply.{dispatch_nc1, dispatch_nc2, nc2_controlled_round, is_empty}
use pennylane_lightning.Lm.Exchange.{pauli_x_core, swap_core}
use pennylane_lightning.Lm.ExchangeLaws.{
  x_update, swap_update, pauli_x_core-IsCore1, swap_core-IsCore2,
}
use pennylane_lightning.Lm.Nc1.{dispatch_nc1-gate1}
use pennylane_lightning.Lm.Nc2.{dispatch_nc2-gate2, nc2_controlled-any_order}
use pennylane_lightning.Lm.Refusals.{is_ok-dispatch_nc2}

-- The state vector whose amplitude at i is i.
abbrev ramp : Arr ℕ
ramp i = i

abbrev wire : List ℕ
wire = 1 ∷ []

abbrev control : List ℕ
control = 0 ∷ []

abbrev pair : List ℕ
pair = 1 ∷ 0 ∷ []

abbrev none_wires : List ℕ
none_wires = []

abbrev no_value : List Bool
no_value = []

-- Two rounds in the reverse order.
two_rounds : IsSchedule 2 (1 ∷ 0 ∷ [])
two_rounds = record {
  once = (omega arith, refl, (omega arith, refl, tt));
  all = λ k h. ground arith;
}

dispatch_nc1-gate1_example :
    dispatch_nc1 pauli_x_core 3 (0 ∷ []) (true ∷ []) (2 ∷ []) ramp
    ≡ ok (gate1 3 (0 ∷ []) (true ∷ []) 2 x_update ramp)
dispatch_nc1-gate1_example =
    dispatch_nc1-gate1 pauli_x_core x_update pauli_x_core-IsCore1 3 2 (0 ∷ []) (true ∷ []) ramp
      (omega arith) (omega arith, refl, (omega arith, refl, tt)) refl

dispatch_nc2-gate2_example :
    dispatch_nc2 swap_core 4 (0 ∷ []) (true ∷ []) (2 ∷ 3 ∷ []) ramp
    ≡ ok (gate2 4 (0 ∷ []) (true ∷ []) 2 3 swap_update ramp)
dispatch_nc2-gate2_example =
    dispatch_nc2-gate2 swap_core swap_update swap_core-IsCore2 4 2 3 (0 ∷ []) (true ∷ []) ramp
      (omega arith) (omega arith, refl, (omega arith, refl, (omega arith, refl, tt))) refl

nc2_controlled-any_order_example :
    for_each (1 ∷ 0 ∷ []) (nc2_controlled_round swap_core 4 (2 ∷ 3 ∷ 0 ∷ []) (true ∷ []) 1) ramp
    ≡ gate2 4 (0 ∷ []) (true ∷ []) 2 3 swap_update ramp
nc2_controlled-any_order_example =
    nc2_controlled-any_order swap_core swap_update swap_core-IsCore2 4 2 3 (0 ∷ []) (true ∷ [])
      (omega arith) (omega arith, refl, (omega arith, refl, (omega arith, refl, tt))) refl
      (1 ∷ 0 ∷ []) ramp two_rounds

is_ok-dispatch_nc2_example : is_ok (dispatch_nc2 swap_core 2 none_wires no_value pair ramp) ≡ (
    length pair == 2
    && (leb (length none_wires + 2) 2
        && (is_empty none_wires || (length no_value == length none_wires))))
is_ok-dispatch_nc2_example = is_ok-dispatch_nc2 2 no_value pair ramp swap_core none_wires
