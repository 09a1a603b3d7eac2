-- ===== src/Pool.antt =====
-- utils/cuda_utils/TSQueue.hpp and DevicePool.hpp: the pool of devices that threads acquire and
-- release. A method that takes a lock is one step; acquireDevice and releaseDevice take two locks, one
-- after the other, so each is two steps between which other threads run.
pub mod Steps
use pennylane_lightning.Prelude.{
  ℕ, zero, suc, Bool, true, false, List, [], ◌∷◌, ◌++◌, Option, none, some, range, elem, ◌==◌,
  if◌then◌else◌, not,
}

-- std::queue behind TSQueue: the front first.
abbrev pub Queue : Type 0
Queue = List ℕ

unfoldable pub push : ℕ → Queue → Queue
push x q = q ++ x ∷ []

-- try_pop: the value that was popped, and the queue after.
unfoldable pub try_pop : Queue → Option (ℕ × Queue)
try_pop [] = none
try_pop (x ∷ q) = some (x, q)

-- wait_and_pop goes on when the queue is not empty; none is a thread that keeps waiting.
unfoldable pub wait_and_pop : Queue → Option (ℕ × Queue)
unfolding try_pop
wait_and_pop q = try_pop q

unfoldable pub empty : Queue → Bool
empty [] = true
empty (x ∷ q) = false

-- std::unordered_set: insert and erase.
unfoldable pub insert : ℕ → List ℕ → List ℕ
insert d ds = if elem d ds then ds else d ∷ ds

unfoldable pub erase : ℕ → List ℕ → List ℕ
erase d [] = []
erase d (e ∷ ds) = let rest = erase d ds in if d == e then rest else e ∷ rest

-- available_devices_ and active_devices_, with what the threads hold: the devices they have popped
-- and not yet inserted, those they have acquired and not yet begun to release, and those they have
-- pushed back and not yet erased.
pub record Pool : Type 0 where
  pub available : Queue
  pub active : List ℕ
  pub acquiring : List ℕ
  pub in_use : List ℕ
  pub releasing : List ℕ

-- refresh, for the number of devices that the CUDA runtime counts.
unfoldable pub refresh : ℕ → Pool
refresh total = record {
  available = range total;
  active = [];
  acquiring = [];
  in_use = [];
  releasing = [];
}

unfoldable pub is_active : Pool → ℕ → Bool
is_active p index = elem index p.active

unfoldable pub is_inactive : Pool → ℕ → Bool
unfolding is_active
is_inactive p index = not (is_active p index)

-- The list without the first d in it: a thread goes on from where it was with d.
abbrev pub take_out : ℕ → List ℕ → List ℕ
take_out d [] = []
take_out d (e ∷ ds) = let rest = take_out d ds in if d == e then ds else e ∷ rest

abbrev pub popped : Pool → Option (ℕ × Queue) → Option Pool
popped p none = none
popped p (some (d, q)) = some (record p { available = q; acquiring = d ∷ p.acquiring })

-- The first half of acquireDevice, wait_and_pop, and the second, the insertion of dev_id = d.
unfoldable pub begin_acquire : Pool → Option Pool
unfolding wait_and_pop
begin_acquire p = popped p (wait_and_pop p.available)

unfoldable pub finish_acquire : ℕ → Pool → Pool
unfolding insert
finish_acquire d p = record p {
  active = insert d p.active;
  acquiring = take_out d p.acquiring;
  in_use = d ∷ p.in_use;
}

-- The first half of releaseDevice, the push of dev_id = d, and the second, its erasure.
unfoldable pub begin_release : ℕ → Pool → Pool
unfolding push
begin_release d p = record p {
  available = push d p.available;
  in_use = take_out d p.in_use;
  releasing = d ∷ p.releasing;
}

unfoldable pub finish_release : ℕ → Pool → Pool
unfolding erase
finish_release d p = record p { active = erase d p.active; releasing = take_out d p.releasing }

-- acquireDevice and releaseDevice when no other thread runs.
abbrev pub finished : Option Pool → Option Pool
unfolding finish_acquire
finished none = none
finished (some p) = finish (p.acquiring)
  where
    finish : List ℕ → Option Pool
    finish [] = none
    finish (d ∷ ds) = some (finish_acquire d p)

unfoldable pub acquire_device : Pool → Option Pool
unfolding begin_acquire finish_acquire
acquire_device p = finished (begin_acquire p)

unfoldable pub release_device : ℕ → Pool → Pool
unfolding begin_release finish_release
release_device d p = finish_release d (begin_release d p)
