-- ===== src/Prelude/Errors.antt =====
-- utils/Error.hpp: code that may leave by the exception that PL_ABORT throws. `abort m` is the
-- LightningException whose text ends in m (the file name and line that Abort adds are left out).
use Prim.Native.String.{String}
use native.Mathlib.Omega.{arith}
use mathlib.Core.Path.{◌≡◌}
use mathlib.Core.Bool.{Bool, true, false, not, ◌&&◌}

pub data Outcome {ℓ} (A : Type ℓ) : Type ℓ where
  ok : A → Outcome A
  abort : String → Outcome A

infixl 5 ◌>>=◌ ◌>>◌
abbrev pub ◌>>=◌ {ℓ κ} : {A : Type ℓ} {B : Type κ} → Outcome A → (A → Outcome B) → Outcome B
ok a >>= f = f a
abort m >>= f = abort m

abbrev pub ◌>>◌ {ℓ} : {B : Type ℓ} → Outcome (Unit {0}) → Outcome B → Outcome B
m >> k = m >>= λ _. k

abbrev pub abort_if : Bool → String → Outcome (Unit {0})
abort_if true m = abort m
abort_if false m = ok tt

abbrev pub abort_if_not : Bool → String → Outcome (Unit {0})
abort_if_not b m = abort_if (not b) m

-- A chain of three guards that all pass.
pub guards_pass {ℓ} :
    {A : Type ℓ} (a b c : Bool) (l m n : String) (x : Outcome A)
    → a ≡ true
    → b ≡ true
    → c ≡ true
    → (abort_if_not a l >> (abort_if_not b m >> (abort_if_not c n >> x))) ≡ x
guards_pass a b c l m n x p q r = ground (arith, p, q, r)

-- Did the code return?
abbrev pub is_ok {ℓ} : {A : Type ℓ} → Outcome A → Bool
is_ok (ok a) = true
is_ok (abort m) = false

pub is_ok-guards {ℓ} :
    {A : Type ℓ} (a b c : Bool) (l m n : String) (x : A)
    → is_ok (abort_if_not a l >> (abort_if_not b m >> (abort_if_not c n >> ok x))) ≡ (a && (b && c))
is_ok-guards a b c l m n x = ground arith
