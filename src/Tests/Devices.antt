-- ===== src/Tests/Devices.antt =====
-- The kernels and the pool at concrete inputs: the device pool.
use pennylane_lightning.Prelude.{
  ◌≡◌, refl, true, false, [], ◌∷◌, ◌++◌, elem, ltb, if◌then◌else◌, some,
}
use pennylane_lightning.Pool.{
  Pool, refresh, is_active, is_inactive, begin_acquire, finish_acquire, begin_release,
  finish_release, acquire_device, release_device, wait_and_pop, try_pop, insert, erase, push,
}
use pennylane_lightning.Pool.Steps.{
  acquire_begins, acquire_ends, release_begins, release_ends, Reach, start, next, holders,
  holders_lem, IsExact, release_device-IsExact, acquire_device-IsExact,
}

-- Two devices, of which a thread has popped device 0.
abbrev acquiring_0 : Pool
acquiring_0 = record {
  available = 1 ∷ [];
  active = [];
  acquiring = 0 ∷ [];
  in_use = [];
  releasing = [];
}

-- A thread acquires device 0 and begins to release it.
used_once : Reach 2 (begin_release 0 (finish_acquire 0 acquiring_0))
unfolding refresh begin_acquire wait_and_pop try_pop finish_acquire
used_once =
    next (next (next start (acquire_begins refl)) (acquire_ends {p = acquiring_0} 0 refl))
      (release_begins {p = finish_acquire 0 acquiring_0} 0 refl)

-- Device 0 of two is in use.
abbrev using_0 : Pool
using_0 = record {
  available = 1 ∷ [];
  active = 0 ∷ [];
  acquiring = [];
  in_use = 0 ∷ [];
  releasing = [];
}

using_0-IsExact : IsExact using_0
unfolding is_active
using_0-IsExact d = refl

fresh-IsExact : IsExact (refresh 2)
unfolding refresh is_active
fresh-IsExact d = refl

fresh : (refresh 2).available ≡ 0 ∷ 1 ∷ []
unfolding refresh
fresh = refl

-- With one device: one thread pushes it back, a second acquires it, and the first then erases it: the
-- second thread uses a device that is not active.
abbrev one_released : Pool
one_released = record {
  available = 0 ∷ [];
  active = 0 ∷ [];
  acquiring = [];
  in_use = [];
  releasing = 0 ∷ [];
}

abbrev raced : Pool
raced = record {
  available = [];
  active = 0 ∷ [];
  acquiring = 0 ∷ [];
  in_use = [];
  releasing = 0 ∷ [];
}

race_runs : Reach 1 (finish_release 0 (finish_acquire 0 raced))
unfolding refresh begin_acquire wait_and_pop try_pop finish_acquire begin_release push insert
race_runs =
    next
      (next
        (next
          (next (next (next start (acquire_begins refl)) (acquire_ends 0 refl))
            (release_begins 0 refl))
          (acquire_begins {p = one_released} {q = raced} refl))
        (acquire_ends {p = raced} 0 refl))
      (release_ends {p = finish_acquire 0 raced} 0 refl)

race_ends :
    (elem 0 (finish_release 0 (finish_acquire 0 raced)).in_use ≡ true)
    × (is_active (finish_release 0 (finish_acquire 0 raced)) 0 ≡ false)
unfolding finish_acquire finish_release insert erase is_active
race_ends = (refl, refl)

holders_lem_example :
    holders (begin_release 0 (finish_acquire 0 acquiring_0)) 0 ≡ (if ltb 0 2 then 1 else 0)
holders_lem_example = holders_lem 2 used_once 0

release_device-IsExact_example :
    IsExact (release_device 0 using_0)
    × (is_inactive (release_device 0 using_0) 0 ≡ true)
    × ((release_device 0 using_0).available ≡ using_0.available ++ 0 ∷ [])
release_device-IsExact_example = release_device-IsExact 0 using_0 using_0-IsExact refl

acquire_device-IsExact_example :
    acquire_device (refresh 2)
      ≡ some (
          finish_acquire 0
            (record (refresh 2) { available = 1 ∷ []; acquiring = 0 ∷ (refresh 2).acquiring }))
    × IsExact (
        finish_acquire 0
          (record (refresh 2) { available = 1 ∷ []; acquiring = 0 ∷ (refresh 2).acquiring }))
    × (is_active
          (finish_acquire 0
            (record (refresh 2) { available = 1 ∷ []; acquiring = 0 ∷ (refresh 2).acquiring }))
          0
        ≡ true)
acquire_device-IsExact_example = acquire_device-IsExact (refresh 2) 0 (1 ∷ []) fresh-IsExact fresh
