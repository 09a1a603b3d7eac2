-- ===== src/Sampling.antt =====
-- measurements/TransitionKernels.hpp of lightning.qubit: the kernels that propose the next basis state of
-- the Metropolis sampling. The random numbers that they draw are arguments.
pub mod Transitions
pub mod Metropolis
pub mod Cache
use pennylane_lightning.Prelude.{
  ℕ, zero, suc, ◌+◌, ◌-◌, ◌*◌, ◌/◌, ◌^◌, ◌%◌, Bool, List, [], ◌∷◌, ◌++◌, bit_and, range, get_or,
  ltb, ◌==◌, if◌then◌else◌,
}
use pennylane_lightning.Word.{shr}
use pennylane_lightning.Memory.{Arr, for_each}
use pennylane_lightning.Util.{exp2}

pub data TransitionKernelType : Type 0 where
  local : TransitionKernelType
  non_zero_random : TransitionKernelType

-- A double has 53 digits: the number of digits below them in a number of at most 65 digits.
excess_from : ℕ → ℕ → ℕ
excess_from zero x = 0
excess_from (suc fuel) x =
    let rest = suc (excess_from fuel (x / 2)) in if ltb x (2 ^ 53) then 0 else rest

-- The nearest double of a number, with the even last digit of the 53 at a tie.
unfoldable pub to_double : ℕ → ℕ
unfolding excess_from
to_double x =
    let unit = 2 ^ excess_from 12 x in
    let low = (x / unit) * unit in
    let up = if 2 * (x % unit) == unit then (x / unit) % 2 == 1 else ltb unit (2 * (x % unit)) in
    if ltb x (2 ^ 53) then x else if up then low + unit else low

-- LocalTransitionKernel: the digit at a random site gets a random value. The state is read as a
-- number of 32 bits. std::pow returns a double, so that the state is converted to one, the sum or
-- difference is rounded to one, and converted back.
unfoldable pub local_transition : ℕ → ℕ → ℕ → ℕ
unfolding shr to_double
local_transition qubit_site qubit_value init_idx =
    let current_bit = bit_and (shr (init_idx % 2 ^ 32) qubit_site) 1 in
    if qubit_value == current_bit
    then init_idx
    else if current_bit == 0
    then to_double (to_double init_idx + 2 ^ qubit_site)
    else to_double (to_double init_idx - 2 ^ qubit_site)

-- non_zeros_: the states whose amplitude passes the test std::abs(data[i]) > min_error.
unfoldable pub non_zeros : {A : Type 0} → (A → Bool) → ℕ → Arr A → List ℕ
unfolding for_each
non_zeros is_large sv_length sv =
    for_each (range sv_length) (λ i found. if is_large (sv i) then found ++ i ∷ [] else found) []

-- NonZeroRandomTransitionKernel: one of these at random.
unfoldable pub non_zero_transition : List ℕ → ℕ → ℕ → ℕ
non_zero_transition found trans_idx init_idx = get_or found trans_idx 0

-- kernel_factory, with the numbers that the kernel it makes draws.
unfoldable pub kernel_factory :
    {A : Type 0} → TransitionKernelType → (A → Bool) → Arr A → ℕ → ℕ → ℕ → ℕ → ℕ
unfolding non_zeros non_zero_transition local_transition exp2
kernel_factory local is_large sv num_qubits first second =
    non_zero_transition (non_zeros is_large (exp2 num_qubits) sv) first
kernel_factory non_zero_random is_large sv num_qubits first second = local_transition first second
