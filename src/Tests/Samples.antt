-- ===== src/Tests/Samples.antt =====
-- The Metropolis sampling at concrete inputs.
use pennylane_lightning.Prelude.{
  ℕ, ◌<◌, ◌+◌, ◌*◌, ◌-◌, ◌^◌, ◌≡◌, refl, Bool, true, List, [], ◌∷◌, arith, bit_and, get_or, ltb,
  ◌==◌, if◌then◌else◌,
}
use pennylane_lightning.Word.{shr}
use pennylane_lightning.Word.Bit.{bit}
use pennylane_lightning.Util.{exp2}
use pennylane_lightning.Memory.{Arr}
use pennylane_lightning.Tests.Words.{words, state}
use pennylane_lightning.Sampling.{
  local, non_zero_random, local_transition, non_zeros, non_zero_transition, kernel_factory,
}
use pennylane_lightning.Sampling.Transitions.{local_transition_lem, non_zero_transition-is_large}
use pennylane_lightning.Sampling.Metropolis.{Draw, burn_in, generate_samples_metropolis}
use pennylane_lightning.Sampling.Cache.{visited, generate_samples_metropolis_lem}

-- The amplitude at i is i; those above 2 are large.
abbrev ramp : Arr ℕ
ramp i = i

abbrev above_two : ℕ → Bool
above_two = ltb 2

-- The type non_zero_random gives the kernel that changes one digit, the type local the other one: from the
-- state 0, whose amplitude is small, the first reaches the state 1, whose amplitude is small too.
factory_runs :
    (kernel_factory non_zero_random above_two ramp 3 0 1 0 ≡ 1)
    × (kernel_factory local above_two ramp 3 1 0 0 ≡ 4)
unfolding kernel_factory local_transition
factory_runs = (refl, refl)

local_transition_lem_example :
    (local_transition 1 0 6 < 2 ^ 3)
    × (bit (local_transition 1 0 6) 2 ≡ (if 2 == 1 then 0 == 1 else bit 6 2))
local_transition_lem_example =
    local_transition_lem 3 1 0 6 2 (omega arith) (omega arith) (omega arith) (omega arith)
      (omega arith)

-- With 54 qubits the lowest digit is lost: the sum is rounded to a double.
rounded_run : local_transition 1 1 (2 ^ 53 + 1) ≡ 2 ^ 53 + 2
unfolding local_transition
rounded_run = refl

non_zero_transition-is_large_example :
    (non_zero_transition (non_zeros above_two (exp2 3) ramp) 1 0 < 2 ^ 3)
    × (above_two (ramp (non_zero_transition (non_zeros above_two (exp2 3) ramp) 1 0)) ≡ true)
unfolding non_zeros exp2
non_zero_transition-is_large_example =
    non_zero_transition-is_large above_two ramp 3 1 0 (omega arith) (omega arith)

-- A kernel that proposes a fixed state.
abbrev propose : ℕ → Draw words
propose i = record { kernel = λ s. (i, 1); ran = 0 }

abbrev draws : List (Draw words)
draws = propose 5 ∷ propose 3 ∷ propose 5 ∷ []

-- The third sample is a copy of the first.
generate_samples_metropolis_lem_example :
    generate_samples_metropolis words (λ x. x) (λ a b. a) ltb state 3 [] draws (2 * 3 + (3 - 1 - 0))
    ≡ bit_and
        (shr
          (get_or
            (visited words
              (λ x. x)
              (λ a b. a)
              ltb
              state
              3
              draws
              (burn_in words (λ x. x) (λ a b. a) ltb state [] 0))
            2
            0)
          0)
        1
generate_samples_metropolis_lem_example =
    generate_samples_metropolis_lem words (λ x. x) (λ a b. a) ltb state 3 [] draws 2 0 (omega arith)
      (omega arith)
