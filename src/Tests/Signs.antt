-- ===== src/Tests/Signs.antt =====
-- Numbers with a sign beside their size in the place of the floating-point ones: they keep signs as
-- KeepsSigns asks.
use pennylane_lightning.Prelude.{
  ℕ, ◌+◌, ◌-◌, ◌*◌, ◌/◌, ◌≡◌, refl, ap, Bool, true, false, not, ltb, if◌then◌else◌, arith,
}
use pennylane_lightning.Memory.{Arr}
use pennylane_lightning.Complex.{Floats, Complex, complex}
use pennylane_lightning.Lm.OneQubit.{Matrix2}
use pennylane_lightning.Lm.Angles.{KeepsSigns}

abbrev Number : Type 0
Number = Bool × ℕ

-- true is the sign minus.
abbrev negate : Number → Number
negate (s, x) = (not s, x)

abbrev add : Number → Number → Number
add (true, x) (true, y) = (true, x + y)
add (true, x) (false, y) = if ltb y x then (true, x - y) else (false, y - x)
add (false, x) (true, y) = if ltb x y then (true, y - x) else (false, x - y)
add (false, x) (false, y) = (false, x + y)

abbrev multiply : Number → Number → Number
multiply (s, x) (t, y) = (if s then not t else t, x * y)

abbrev pub numbers : Floats
numbers = record {
  Real = Number;
  zero = (false, 0);
  one = (false, 1);
  add = add;
  sub = λ x y. add x (negate y);
  mul = multiply;
  neg = negate;
  half = λ x. (x.0, x.1 / 2);
  inv_sqrt2 = (false, 3);
  cos = λ x. (false, x.1 + 2);
  sin = λ x. x;
  exp = λ x. (false, x.1 + 1);
}

not-not : (s : Bool) → not (not s) ≡ s
not-not true = refl
not-not false = refl

sign_moves : (s t : Bool) → (if not s then not t else t) ≡ not (if s then not t else t)
sign_moves true true = refl
sign_moves true false = refl
sign_moves false true = refl
sign_moves false false = refl

pub numbers-KeepsSigns : KeepsSigns numbers
numbers-KeepsSigns = record {
  neg-neg = λ x. ap (λ s. (s, x.1)) (not-not x.0);
  half-neg = λ x. refl;
  cos-neg = λ x. refl;
  sin-neg = λ x. refl;
  mul-neg = λ x y. ap (λ s. (s, x.1 * y.1)) (sign_moves x.0 y.0);
  mul-one = λ x. ap (λ m. (x.0, m)) {x = 1 * x.1} {y = x.1} (omega arith);
  exp-zero = refl;
  exp-neg_zero = refl;
}

abbrev pub plus_minus : Arr (Complex numbers)
plus_minus i = complex numbers (false, i) (true, i)

abbrev pub triangular : Matrix2 numbers
triangular = record {
  m00 = complex numbers (false, 1) (false, 2);
  m01 = complex numbers (true, 3) (false, 0);
  m10 = complex numbers (false, 0) (false, 0);
  m11 = complex numbers (false, 0) (true, 1);
}
