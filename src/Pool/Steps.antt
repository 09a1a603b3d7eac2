-- ===== src/Pool/Steps.antt =====
-- The steps of the threads that share a device pool, and what holds in every order of them.
use pennylane_lightning.Prelude.{
  ℕ, zero, suc, ◌+◌, ◌≡◌, refl, ap, sym, ◌∙◌, true, List, [], ◌∷◌, ◌++◌, Option, none, some,
  range_from, elem, ◌==◌, if◌then◌else◌, not, ltb, arith, ◌||◌, ◌&&◌,
}
use pennylane_lightning.Pool.{
  Queue, push, try_pop, wait_and_pop, insert, erase, Pool, refresh, is_active, is_inactive,
  take_out, popped, begin_acquire, finish_acquire, begin_release, finish_release, finished,
  acquire_device, release_device,
}

-- A step of one of the threads.
pub data Step : Pool → Pool → Type 0 where
  acquire_begins : {p q : Pool} → begin_acquire p ≡ some q → Step p q
  acquire_ends : {p : Pool} (d : ℕ) → elem d p.acquiring ≡ true → Step p (finish_acquire d p)
  release_begins : {p : Pool} (d : ℕ) → elem d p.in_use ≡ true → Step p (begin_release d p)
  release_ends : {p : Pool} (d : ℕ) → elem d p.releasing ≡ true → Step p (finish_release d p)

pub data Reach (total : ℕ) : Pool → Type 0 where
  start : Reach total (refresh total)
  next : {p q : Pool} → Reach total p → Step p q → Reach total q

abbrev pub count : ℕ → List ℕ → ℕ
count d [] = 0
count d (e ∷ ds) = if d == e then suc (count d ds) else count d ds

-- How often a device is available, held by a thread or on its way to one.
abbrev pub holders : Pool → ℕ → ℕ
holders p d = count d p.available + count d p.acquiring + count d p.in_use

count-take_out :
    (d e : ℕ) (ds : List ℕ)
    → elem d ds ≡ true
    → count e (take_out d ds) + (if e == d then 1 else 0) ≡ count e ds
count-take_out d e [] h = ground arith
count-take_out d e (f ∷ ds) h = ground (arith, count-take_out d e ds)

count-append : (e : ℕ) (ds es : List ℕ) → count e (ds ++ es) ≡ count e ds + count e es
count-append e [] es = ground arith
count-append e (d ∷ ds) es = ground (arith, count-append e ds es)

count-range_from :
    (e i n : ℕ) → count e (range_from i n) ≡ (if ltb e i then 0 else if ltb e (i + n) then 1 else 0)
count-range_from e i zero = ground arith
count-range_from e i (suc n) = ground (arith, count-range_from e (suc i) n)

abbrev get_pool : Pool → Option Pool → Pool
get_pool p none = p
get_pool p (some r) = r

holders-popped :
    (p : Pool) (q : Queue) {r : Pool} (e : ℕ)
    → p.available ≡ q
    → popped p (try_pop q) ≡ some r
    → holders r e ≡ holders p e
unfolding try_pop
holders-popped p [] e h k = cc
holders-popped p (d ∷ q) e h k =
    sym (ap (λ o. holders (get_pool p o) e) k) ∙ ground (arith, ap (count e) h)

holders-Step : {p q : Pool} → Step p q → (e : ℕ) → holders q e ≡ holders p e
unfolding begin_acquire wait_and_pop finish_acquire begin_release finish_release push
holders-Step {p} (acquire_begins h) e = holders-popped p p.available e refl h
holders-Step {p} (acquire_ends d h) e = ground (arith, count-take_out d e p.acquiring h)
holders-Step {p} (release_begins d h) e =
    ground (arith, count-take_out d e p.in_use h, count-append e p.available (d ∷ []))
holders-Step (release_ends d h) e = refl

-- From a refreshed pool, whatever the order in which threads acquire and release, each device below
-- the total is available, being acquired or in use exactly once, and no other is: no two threads are
-- given the same device.
pub holders_lem :
    (total : ℕ) {p : Pool} → Reach total p → (d : ℕ) → holders p d ≡ (if ltb d total then 1 else 0)
unfolding refresh
holders_lem total start d = ground (arith, count-range_from d 0 total)
holders_lem total (next reach step) d = holders-Step step d ∙ holders_lem total reach d

-- With one thread, the active devices are those in use.
abbrev pub IsExact : Pool → Type 0
IsExact p = (d : ℕ) → is_active p d ≡ elem d p.in_use

elem-insert : (d e : ℕ) (ds : List ℕ) → elem d (insert e ds) ≡ (d == e || elem d ds)
unfolding insert
elem-insert d e ds = ground (arith, ap (λ x. elem x ds) {x = d} {y = e})

elem-erase : (d e : ℕ) (ds : List ℕ) → elem d (erase e ds) ≡ (not (d == e) && elem d ds)
unfolding erase
elem-erase d e [] = ground arith
elem-erase d e (f ∷ ds) = ground (arith, elem-erase d e ds)

elem-count : (d : ℕ) (ds : List ℕ) → elem d ds ≡ ltb 0 (count d ds)
elem-count d [] = ground arith
elem-count d (e ∷ ds) = ground (arith, elem-count d ds)

-- releaseDevice without other threads, when the active devices are those in use, of a device that is
-- in use once: the active devices are again those in use, and the device is inactive and available.
pub release_device-IsExact :
    (d : ℕ) (p : Pool)
    → IsExact p
    → count d p.in_use ≡ 1
    → IsExact (release_device d p)
      × (is_inactive (release_device d p) d ≡ true)
      × ((release_device d p).available ≡ p.available ++ d ∷ [])
unfolding release_device begin_release finish_release push is_active is_inactive
release_device-IsExact d p exact once =
    let present : elem d p.in_use ≡ true = ground (arith, elem-count d p.in_use) in
    (
      λ e. ground (
        arith,
        elem-erase e d p.active,
        exact e,
        elem-count e p.in_use,
        elem-count e (take_out d p.in_use),
        count-take_out d e p.in_use present,
      ),
      ground (arith, elem-erase d d p.active),
      refl,
    )

-- acquireDevice without other threads, when the active devices are those in use and one is available:
-- it gives the first of them, which is then active, and the active devices are those in use.
pub acquire_device-IsExact :
    (p : Pool) (d : ℕ) (q : Queue)
    → IsExact p
    → p.available ≡ d ∷ q
    → acquire_device p
        ≡ some (finish_acquire d (record p { available = q; acquiring = d ∷ p.acquiring }))
      × IsExact (finish_acquire d (record p { available = q; acquiring = d ∷ p.acquiring }))
      × (is_active (finish_acquire d (record p { available = q; acquiring = d ∷ p.acquiring })) d
          ≡ true)
unfolding acquire_device begin_acquire wait_and_pop try_pop finish_acquire is_active
acquire_device-IsExact p d q exact first = (
  ap (λ a. finished (popped p (try_pop a))) first,
  λ e. ground (arith, elem-insert e d p.active, exact e),
  ground (arith, elem-insert d d p.active),
)
