-- ===== src/Lm/ExchangeLaws.antt =====
-- What the exchanging gates do to a state vector.
use pennylane_lightning.Prelude.{
  ℕ, ◌<◌, ◌≡◌, refl, ap, sym, ◌∙◌, Bool, true, false, List, [], ◌∷◌, length, arith, ok, ◌>>=◌,
}
use pennylane_lightning.BitUtil.Sort.{IsDistinct}
use pennylane_lightning.Memory.{Arr, swap, write}
use pennylane_lightning.Gate.{Update1, gate1, Update2, gate2}
use pennylane_lightning.Gate.Laws.{gate1-gate1, gate1_id, gate2-if_first, if_first}
use pennylane_lightning.Lm.Wires.{positions-IsDistinct}
use pennylane_lightning.Lm.Correct1.{IsCore1}
use pennylane_lightning.Lm.Correct2.{IsCore2}
use pennylane_lightning.Lm.Nc1.{dispatch_nc1-gate1}
use pennylane_lightning.Lm.Nc2.{dispatch_nc2-gate2}
use pennylane_lightning.Lm.Apply.{dispatch_nc2}
use pennylane_lightning.Lm.Exchange.{
  pauli_x_core, apply_nc_pauli_x, cnot_core, apply_cnot, apply_toffoli, swap_core, apply_nc_swap,
  apply_cswap,
}

-- The digit is flipped.
abbrev pub x_update : {A : Type 0} → Update1 A
x_update true x y = x
x_update false x y = y

-- The digits are exchanged.
abbrev pub swap_update : {A : Type 0} → Update2 A
swap_update false false a00 a01 a10 a11 = a00
swap_update false true a00 a01 a10 a11 = a10
swap_update true false a00 a01 a10 a11 = a01
swap_update true true a00 a01 a10 a11 = a11

pub pauli_x_core-IsCore1 : {A : Type 0} → IsCore1 {A = A} pauli_x_core x_update
unfolding pauli_x_core swap write
pauli_x_core-IsCore1 arr i0 i1 j ne = ground arith

cnot_core-IsCore2 : {A : Type 0} → IsCore2 {A = A} cnot_core (if_first x_update)
unfolding cnot_core swap write
cnot_core-IsCore2 arr q j ne =
    ground (arith, ne.ne_00_10, ne.ne_00_11, ne.ne_01_10, ne.ne_01_11, ne.ne_10_11, ne.ne_00_01)

pub swap_core-IsCore2 : {A : Type 0} → IsCore2 {A = A} swap_core swap_update
unfolding swap_core swap write
swap_core-IsCore2 arr q j ne =
    ground (arith, ne.ne_00_10, ne.ne_00_11, ne.ne_01_10, ne.ne_01_11, ne.ne_10_11, ne.ne_00_01)

apply_nc_pauli_x_run :
    {A : Type 0} (n : ℕ)
    → n < 64
    → (inverse : Bool) (w : ℕ) (cs : List ℕ) (vs : List Bool) → IsDistinct n (w ∷ cs)
    → length vs ≡ length cs
    → (arr : Arr A)
    → apply_nc_pauli_x n cs vs (w ∷ []) inverse arr ≡ ok (gate1 n cs vs w x_update arr)
unfolding apply_nc_pauli_x
apply_nc_pauli_x_run n hn inverse w cs vs d e arr =
    dispatch_nc1-gate1 pauli_x_core x_update pauli_x_core-IsCore1 n w cs vs arr hn d e

module _ {A : Type 0} (n : ℕ) (hn : n < 64) (inverse : Bool) (arr : Arr A) where
  -- PauliX with controls, for distinct wires below n < 64 and a value for each control wire, flips
  -- the digit of the wire in the basis states whose controls match.
  pub apply_nc_pauli_x_lem :
      (w : ℕ) (cs : List ℕ) (vs : List Bool)
      → IsDistinct n (w ∷ cs)
      → length vs ≡ length cs
      → apply_nc_pauli_x n cs vs (w ∷ []) inverse arr ≡ ok (gate1 n cs vs w x_update arr)
  apply_nc_pauli_x_lem w cs vs d e = apply_nc_pauli_x_run n hn inverse w cs vs d e arr

  -- SWAP with controls, for distinct wires below n < 64 and a value for each control wire, exchanges
  -- the digits of its two wires in the basis states whose controls match.
  pub apply_nc_swap_lem :
      (w0 w1 : ℕ) (cs : List ℕ) (vs : List Bool)
      → IsDistinct n (w0 ∷ w1 ∷ cs)
      → length vs ≡ length cs
      → apply_nc_swap n cs vs (w0 ∷ w1 ∷ []) inverse arr ≡ ok (gate2 n cs vs w0 w1 swap_update arr)
  unfolding apply_nc_swap
  apply_nc_swap_lem w0 w1 cs vs d e =
      dispatch_nc2-gate2 swap_core swap_update swap_core-IsCore2 n w0 w1 cs vs arr hn d e

  -- CNOT, which has its own core function, does on two distinct wires below n < 64 what PauliX with a
  -- control on the first wire does.
  pub apply_cnot-apply_nc_pauli_x :
      (c w : ℕ)
      → IsDistinct n (c ∷ w ∷ [])
      → apply_cnot n (c ∷ w ∷ []) inverse arr
        ≡ apply_nc_pauli_x n (c ∷ []) (true ∷ []) (w ∷ []) inverse arr
  unfolding apply_cnot dispatch_nc2
  apply_cnot-apply_nc_pauli_x c w d =
      dispatch_nc2-gate2 cnot_core (if_first x_update) cnot_core-IsCore2 n c w [] [] arr hn d refl
      ∙ ap ok (gate2-if_first n c w x_update arr (ground (arith, d)))
      ∙ sym (
          apply_nc_pauli_x_lem w (c ∷ []) (true ∷ []) (d.2.0, ground (arith, d.1), (d.0, refl, tt))
            refl)

  -- Toffoli on three distinct wires below n < 64 flips the digit of the third in the basis states with
  -- ones at the first two.
  pub apply_toffoli_lem :
      (c d w : ℕ)
      → IsDistinct n (w ∷ c ∷ d ∷ [])
      → apply_toffoli n (c ∷ d ∷ w ∷ []) inverse arr
        ≡ ok (gate1 n (c ∷ d ∷ []) (true ∷ true ∷ []) w x_update arr)
  unfolding apply_toffoli
  apply_toffoli_lem c d w distinct =
      apply_nc_pauli_x_lem w (c ∷ d ∷ []) (true ∷ true ∷ []) distinct refl

  -- CSWAP on three distinct wires below n < 64 exchanges the digits of the second and third in the
  -- basis states with a one at the first.
  pub apply_cswap_lem :
      (c w0 w1 : ℕ)
      → IsDistinct n (w0 ∷ w1 ∷ c ∷ [])
      → apply_cswap n (c ∷ w0 ∷ w1 ∷ []) inverse arr
        ≡ ok (gate2 n (c ∷ []) (true ∷ []) w0 w1 swap_update arr)
  unfolding apply_cswap
  apply_cswap_lem c w0 w1 distinct = apply_nc_swap_lem w0 w1 (c ∷ []) (true ∷ []) distinct refl

  -- PauliX with controls, for distinct wires below n < 64 and a value for each control wire, run twice
  -- gives back the state vector.
  pub apply_nc_pauli_x-apply_nc_pauli_x :
      (w : ℕ) (cs : List ℕ) (vs : List Bool)
      → IsDistinct n (w ∷ cs)
      → length vs ≡ length cs
      → (apply_nc_pauli_x n cs vs (w ∷ []) inverse arr
          >>= apply_nc_pauli_x n cs vs (w ∷ []) inverse)
        ≡ ok arr
  apply_nc_pauli_x-apply_nc_pauli_x w cs vs d e =
      ap (λ out. out >>= apply_nc_pauli_x n cs vs (w ∷ []) inverse)
        (apply_nc_pauli_x_lem w cs vs d e)
      ∙ apply_nc_pauli_x_run n hn inverse w cs vs d e (gate1 n cs vs w x_update arr)
      ∙ ap ok (
          gate1-gate1 n w cs vs d.0 ((positions-IsDistinct n (w ∷ cs) d).1)
            ((positions-IsDistinct n (w ∷ cs) d).2) x_update x_update arr
          ∙ gate1_id n cs vs w (λ b x y. x_update b (x_update false x y) (x_update true x y)) arr
              (λ b x y. ground arith))
