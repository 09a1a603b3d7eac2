-- ===== src/Sampling/Metropolis.antt =====
-- generate_samples_metropolis and metropolis_step of measurements/MeasurementsLQubit.hpp. The transition
-- kernel with the random numbers that it draws, std::log, std::min and the comparison are arguments.
use pennylane_lightning.Prelude.{
  ℕ, ◌+◌, ◌-◌, ◌*◌, Bool, List, [], ◌∷◌, Option, none, some, bit_and, range, ◌==◌, if◌then◌else◌,
}
use pennylane_lightning.Word.{shr}
use pennylane_lightning.Memory.{Arr, write, for_each}
use pennylane_lightning.Complex.{Floats, Complex, times, conj}

-- What a step draws: the kernel's proposal with its ratio, and the number to compare with.
pub record Draw (F : Floats) : Type 0 where
  pub kernel : ℕ → ℕ × F.Real
  pub ran : F.Real

module _ (F : Floats) (log : F.Real → F.Real) (smaller : F.Real → F.Real → F.Real)
    (less : F.Real → F.Real → Bool) (sv : Arr (Complex F)) where
  -- std::log((sv[i] * std::conj(sv[i])).real())
  abbrev pub plog : ℕ → F.Real
  plog i = log (times F (sv i) (conj F (sv i))).re

  unfoldable pub metropolis_step : Draw F → ℕ → ℕ
  metropolis_step draw init_idx =
      let trans_idx = (draw.kernel init_idx).0 in
      let trans_qratio = (draw.kernel init_idx).1 in
      let alph =
        smaller F.one (F.mul trans_qratio (F.exp (F.sub (plog trans_idx) (plog init_idx)))) in
      if less draw.ran alph then trans_idx else init_idx

-- cache.contains(idx) and cache[idx]
abbrev pub find : List (ℕ × ℕ) → ℕ → Option ℕ
find [] idx = none
find (entry ∷ cache) idx =
    let rest = find cache idx in if entry.0 == idx then some entry.1 else rest

-- The samples and the cache, from a state to the sample that has its digits.
pub record Sampler : Type 0 where
  pub samples : Arr ℕ
  pub cache : List (ℕ × ℕ)

-- samples[i * num_qubits + (num_qubits - 1 - j)] = (idx >> j) & 1U, for each j
unfoldable pub write_digits : ℕ → ℕ → ℕ → Arr ℕ → Arr ℕ
unfolding for_each write shr
write_digits num_qubits i idx samples =
    for_each (range num_qubits)
      (λ j a. write a (i * num_qubits + (num_qubits - 1 - j)) (bit_and (shr idx j) 1)) samples

-- std::copy of the sample cache_id to the sample i
unfoldable pub copy_sample : ℕ → ℕ → ℕ → Arr ℕ → Arr ℕ
unfolding for_each write
copy_sample num_qubits i cache_id samples =
    for_each (range num_qubits)
      (λ t a. write a (i * num_qubits + t) (a (cache_id * num_qubits + t))) samples

-- The sample i, of the state idx.
unfoldable pub record_sample : ℕ → ℕ → ℕ → Sampler → Sampler
unfolding write_digits copy_sample
record_sample num_qubits i idx s = elim (find s.cache idx) [
  | some cache_id ↦ record {
    samples = copy_sample num_qubits i cache_id s.samples;
    cache = s.cache;
  }
  | none ↦ record { samples = write_digits num_qubits i idx s.samples; cache = (idx, i) ∷ s.cache }
]

module _ (F : Floats) (log : F.Real → F.Real) (smaller : F.Real → F.Real → F.Real)
    (less : F.Real → F.Real → Bool) (sv : Arr (Complex F)) where
  -- The burn-in.
  unfoldable pub burn_in : List (Draw F) → ℕ → ℕ
  unfolding metropolis_step
  burn_in [] idx = idx
  burn_in (draw ∷ draws) idx = burn_in draws (metropolis_step F log smaller less sv draw idx)

  unfoldable pub sample_loop : ℕ → ℕ → List (Draw F) → ℕ → Sampler → Sampler
  unfolding metropolis_step record_sample
  sample_loop num_qubits i [] idx s = s
  sample_loop num_qubits i (draw ∷ draws) idx s =
      let next = metropolis_step F log smaller less sv draw idx in
      sample_loop num_qubits (i + 1) draws next (record_sample num_qubits i next s)

  -- With the draws of the burn-in and those of the samples; the vector of samples is created with zeros.
  unfoldable pub generate_samples_metropolis : ℕ → List (Draw F) → List (Draw F) → Arr ℕ
  unfolding burn_in sample_loop
  generate_samples_metropolis num_qubits burn draws =
      (sample_loop num_qubits 0 draws (burn_in burn 0)
        (record { samples = λ i. 0; cache = [] })).samples
