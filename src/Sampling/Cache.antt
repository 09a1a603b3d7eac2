-- ===== src/Sampling/Cache.antt =====
-- The samples that are copied by the cache are those that would be computed.
use native.Mathlib.Nat.{mul-le-mul_right}
use pennylane_lightning.Prelude.{
  ℕ, zero, suc, ◌+◌, ◌-◌, ◌*◌, ◌<◌, ◌≡◌, ◌≢◌, refl, ap, sym, ◌∙◌, Bool, true, false, List, [], ◌∷◌,
  Option, none, some, arith, ◌==◌, if◌then◌else◌, length, range, bit_and, get_or, lt→ltb, ==→≡,
}
use pennylane_lightning.Word.{shr}
use pennylane_lightning.BitUtil.Sort.{IsDistinct}
use pennylane_lightning.Memory.{Arr, write, for_each}
use pennylane_lightning.Memory.Cells.{for_each_cells, for_each_keeps}
use pennylane_lightning.Blocks.{elem-range, range-IsDistinct}
use pennylane_lightning.Complex.{Floats, Complex}
use pennylane_lightning.Sampling.Metropolis.{
  Draw, metropolis_step, find, Sampler, write_digits, copy_sample, record_sample, burn_in,
  sample_loop, generate_samples_metropolis,
}

-- The sample c has the digits of idx, the lowest last.
abbrev pub HasDigits : ℕ → ℕ → ℕ → Arr ℕ → Type 0
HasDigits n c idx samples = (j : ℕ) → j < n → samples (c * n + (n - 1 - j)) ≡ bit_and (shr idx j) 1

-- Every state of the cache is that of an earlier sample.
abbrev IsCache : ℕ → ℕ → Sampler → Type 0
IsCache n i s = (idx c : ℕ) → find s.cache idx ≡ some c → (c < i) × HasDigits n c idx s.samples

earlier : (n c i t : ℕ) → c < i → t < n → c * n + t < i * n
earlier n c i t h ht = omega (arith, mul-le-mul_right {m = suc c} {n = i} n h)

module _ (n i : ℕ) where
  write_digits-HasDigits :
      (idx : ℕ) (samples : Arr ℕ) → HasDigits n i idx (write_digits n i idx samples)
  unfolding write_digits write
  write_digits-HasDigits idx samples j h =
      for_each_cells n (λ j. i * n + (n - 1 - j)) (λ a b ha hb e. omega (arith, ha, hb, e))
        (λ j old. bit_and (shr idx j) 1) _
        (record { here = λ j a. ground arith; there = λ j a x ne. ground arith }) (range n) samples
        j (range-IsDistinct n) h
      ∙ ap (λ b. if b then bit_and (shr idx j) 1 else samples (i * n + (n - 1 - j)))
          (elem-range j n ∙ lt→ltb j n h)

  write_digits_before :
      (idx x : ℕ) (samples : Arr ℕ) → x < i * n → write_digits n i idx samples x ≡ samples x
  unfolding write_digits write
  write_digits_before idx x samples h =
      for_each_keeps x _
        (λ j a. let ne : x ≢ i * n + (n - 1 - j) = λ e. omega arith in ground (arith, ne)) (range n)
        samples

  copy_sample_before :
      (c x : ℕ) (samples : Arr ℕ) → x < i * n → copy_sample n i c samples x ≡ samples x
  unfolding copy_sample write
  copy_sample_before c x samples h =
      for_each_keeps x _ (λ t a. let ne : x ≢ i * n + t = λ e. omega arith in ground (arith, ne))
        (range n) samples

  -- A copy of an earlier sample does not read what it writes.
  copy_frozen :
      (c : ℕ) (samples : Arr ℕ)
      → c < i
      → (ts : List ℕ) (a : Arr ℕ) → IsDistinct n ts
      → ((y : ℕ) → y < i * n → a y ≡ samples y)
      → for_each ts (λ t b. write b (i * n + t) (b (c * n + t))) a
        ≡ for_each ts (λ t b. write b (i * n + t) (samples (c * n + t))) a
  unfolding for_each write
  copy_frozen c samples h [] a d same = refl
  copy_frozen c samples h (t ∷ ts) a d same =
      let frozen : a (c * n + t) ≡ samples (c * n + t) = same (c * n + t) (earlier n c i t h d.0) in
      copy_frozen c samples h ts (write a (i * n + t) (a (c * n + t))) d.2
        (λ y hy. let ne : y ≢ i * n + t = λ e. omega arith in ground (arith, ne, same y hy))
      ∙ ap
          (λ v.
            for_each ts (λ t b. write b (i * n + t) (samples (c * n + t))) (write a (i * n + t) v))
          frozen

  copy_sample_lem :
      (c : ℕ) (samples : Arr ℕ) (t : ℕ)
      → c < i
      → t < n
      → copy_sample n i c samples (i * n + t) ≡ samples (c * n + t)
  unfolding copy_sample write
  copy_sample_lem c samples t h ht =
      ap (λ a. a (i * n + t))
        (copy_frozen c samples h (range n) samples (range-IsDistinct n) (λ y hy. refl))
      ∙ for_each_cells n (λ t. i * n + t) (λ a b ha hb e. omega (arith, e))
          (λ t old. samples (c * n + t)) _
          (record { here = λ j a. ground arith; there = λ j a x ne. ground arith }) (range n)
          samples t (range-IsDistinct n) ht
      ∙ ap (λ b. if b then samples (c * n + t) else samples (i * n + t))
          (elem-range t n ∙ lt→ltb t n ht)

  -- A sample leaves the earlier ones alone.
  record_sample_before :
      (idx : ℕ) (s : Sampler) (x : ℕ)
      → x < i * n
      → (record_sample n i idx s).samples x ≡ s.samples x
  unfolding record_sample
  record_sample_before idx s x h = by_entry (find s.cache idx)
    where
      by_entry :
          (entry : Option ℕ)
          → (elim entry as (λ _. Sampler) [
            | some c ↦ record { samples = copy_sample n i c s.samples; cache = s.cache }
            | none ↦ record { samples = write_digits n i idx s.samples; cache = (idx, i) ∷ s.cache }
          ]).samples
              x
            ≡ s.samples x
      by_entry (some c) = copy_sample_before c x s.samples h
      by_entry none = write_digits_before idx x s.samples h

  record_sample-HasDigits :
      (idx : ℕ) (s : Sampler) → IsCache n i s → HasDigits n i idx (record_sample n i idx s).samples
  unfolding record_sample
  record_sample-HasDigits idx s ok_cache j h = by_entry (find s.cache idx) refl
    where
      by_entry :
          (entry : Option ℕ)
          → find s.cache idx ≡ entry
          → (elim entry as (λ _. Sampler) [
            | some c ↦ record { samples = copy_sample n i c s.samples; cache = s.cache }
            | none ↦ record { samples = write_digits n i idx s.samples; cache = (idx, i) ∷ s.cache }
          ]).samples
              (i * n + (n - 1 - j))
            ≡ bit_and (shr idx j) 1
      by_entry (some c) e =
          let known = ok_cache idx c e in
          copy_sample_lem c s.samples (n - 1 - j) known.0 (omega arith) ∙ known.1 j h
      by_entry none e = write_digits-HasDigits idx s.samples j h

  record_sample-IsCache :
      (idx : ℕ) (s : Sampler) → IsCache n i s → IsCache n (i + 1) (record_sample n i idx s)
  unfolding record_sample
  record_sample-IsCache idx s ok_cache idx' c found = by_entry (find s.cache idx) found
    where
      kept :
          (new : Arr ℕ)
          → ((x : ℕ) → x < i * n → new x ≡ s.samples x)
          → find s.cache idx' ≡ some c
          → (c < i + 1) × HasDigits n c idx' new
      kept new before e =
          let known = ok_cache idx' c e in
          (
            omega (arith, known.0),
            λ j h.
                before (c * n + (n - 1 - j)) (earlier n c i (n - 1 - j) known.0 (omega arith))
                ∙ known.1 j h,
          )

      new_entry :
          (b : Bool)
          → (idx == idx') ≡ b
          → (if b then some i else find s.cache idx') ≡ some c
          → (c < i + 1) × HasDigits n c idx' (write_digits n i idx s.samples)
      new_entry true same e =
          let place : i ≡ c = ground (arith, e) in
          (
            omega (arith, place),
            λ j h.
                ap (λ t. write_digits n i idx s.samples (t * n + (n - 1 - j))) (sym place)
                ∙ write_digits-HasDigits idx s.samples j h
                ∙ ap (λ t. bit_and (shr t j) 1) (==→≡ idx idx' same),
          )
      new_entry false other e =
          kept (write_digits n i idx s.samples) (λ x h. write_digits_before idx x s.samples h) e

      by_entry :
          (entry : Option ℕ)
          → find
              (elim entry as (λ _. Sampler) [
                | some c0 ↦ record { samples = copy_sample n i c0 s.samples; cache = s.cache }
                | none ↦ record {
                  samples = write_digits n i idx s.samples;
                  cache = (idx, i) ∷ s.cache;
                }
              ]).cache
              idx'
            ≡ some c
          → (c < i + 1)
            × HasDigits n c idx'
                (elim entry as (λ _. Sampler) [
                  | some c0 ↦ record { samples = copy_sample n i c0 s.samples; cache = s.cache }
                  | none ↦ record {
                    samples = write_digits n i idx s.samples;
                    cache = (idx, i) ∷ s.cache;
                  }
                ]).samples
      by_entry (some c0) e =
          kept (copy_sample n i c0 s.samples) (λ x h. copy_sample_before c0 x s.samples h) e
      by_entry none e = new_entry (idx == idx') refl e

module _ (F : Floats) (log : F.Real → F.Real) (smaller : F.Real → F.Real → F.Real)
    (less : F.Real → F.Real → Bool) (sv : Arr (Complex F)) (n : ℕ) where
  -- The states after each draw, from a state on.
  abbrev pub visited : List (Draw F) → ℕ → List ℕ
  visited [] idx = []
  visited (draw ∷ draws) idx =
      let next = metropolis_step F log smaller less sv draw idx in next ∷ visited draws next

  sample_loop_before :
      (draws : List (Draw F)) (i idx : ℕ) (s : Sampler) (x : ℕ)
      → x < i * n
      → (sample_loop F log smaller less sv n i draws idx s).samples x ≡ s.samples x
  unfolding sample_loop
  sample_loop_before [] i idx s x h = refl
  sample_loop_before (draw ∷ draws) i idx s x h =
      let next = metropolis_step F log smaller less sv draw idx in
      sample_loop_before draws (i + 1) next (record_sample n i next s) x
        (omega (arith, mul-le-mul_right {m = i} {n = i + 1} n (omega arith)))
      ∙ record_sample_before n i next s x h

  sample_loop-HasDigits :
      (draws : List (Draw F)) (i idx : ℕ) (s : Sampler) (k : ℕ)
      → IsCache n i s
      → k < length draws
      → HasDigits n
          (i + k)
          (get_or (visited draws idx) k 0)
          (sample_loop F log smaller less sv n i draws idx s).samples
  unfolding sample_loop
  sample_loop-HasDigits [] i idx s k ok_cache h j hj = absurd (omega arith)
  sample_loop-HasDigits (draw ∷ draws) i idx s zero ok_cache h j hj =
      let next = metropolis_step F log smaller less sv draw idx in
      let rest = record_sample n i next s in
      ap
        (λ t.
          (sample_loop F log smaller less sv n (i + 1) draws next rest).samples
            (t * n + (n - 1 - j)))
        {x = i + 0} {y = i} (omega arith)
      ∙ sample_loop_before draws (i + 1) next rest (i * n + (n - 1 - j))
          (earlier n i (i + 1) (n - 1 - j) (omega arith) (omega arith))
      ∙ record_sample-HasDigits n i next s ok_cache j hj
  sample_loop-HasDigits (draw ∷ draws) i idx s (suc k) ok_cache h j hj =
      let next = metropolis_step F log smaller less sv draw idx in
      let rest = record_sample n i next s in
      ap
        (λ t.
          (sample_loop F log smaller less sv n (i + 1) draws next rest).samples
            (t * n + (n - 1 - j)))
        {x = i + suc k} {y = i + 1 + k} (omega arith)
      ∙ sample_loop-HasDigits draws (i + 1) next rest k (record_sample-IsCache n i next s ok_cache)
          (omega arith) j hj

  -- The samples of generate_samples_metropolis, some of which a cache copies, are the digits of the states
  -- that the chain visits after the burn-in: sample k has the digits of the state after draw k, the lowest
  -- digit last.
  pub generate_samples_metropolis_lem :
      (burn draws : List (Draw F)) (k j : ℕ)
      → k < length draws
      → j < n
      → generate_samples_metropolis F log smaller less sv n burn draws (k * n + (n - 1 - j))
        ≡ bit_and (shr (get_or (visited draws (burn_in F log smaller less sv burn 0)) k 0) j) 1
  unfolding generate_samples_metropolis
  generate_samples_metropolis_lem burn draws k j h hj =
      let start = burn_in F log smaller less sv burn 0 in
      let empty : Sampler = record { samples = λ i. 0; cache = [] } in
      ap
        (λ t.
          (sample_loop F log smaller less sv n 0 draws start empty).samples (t * n + (n - 1 - j)))
        {x = k} {y = 0 + k} (omega arith)
      ∙ sample_loop-HasDigits draws 0 start empty k (λ idx c e. absurd (ground arith)) h j hj
