-- ===== src/Complex.antt =====
-- std::complex<PrecisionT> over floating-point numbers. The numbers and their operations are a
-- parameter: no law of exact arithmetic is assumed of them unless a theorem names it.

-- The floating-point type PrecisionT and what the gates use of <cmath>, with the constants
-- 1 / sqrt(2) (INVSQRT2 of utils/Util.hpp) and x / 2 as `half`.
pub record Floats : Type 1 where
  pub Real : Type 0
  pub zero : Real
  pub one : Real
  pub add : Real → Real → Real
  pub sub : Real → Real → Real
  pub mul : Real → Real → Real
  pub neg : Real → Real
  pub half : Real → Real
  pub inv_sqrt2 : Real
  pub cos : Real → Real
  pub sin : Real → Real
  pub exp : Real → Real

pub record Complex (F : Floats) : Type 0 where
  pub re : F.Real
  pub im : F.Real

module _ (F : Floats) where
  abbrev pub complex : F.Real → F.Real → Complex F
  complex x y = record { re = x; im = y }

  -- a + b, a - b, -a, a * b and conj(a); a real number times a.
  abbrev pub plus : Complex F → Complex F → Complex F
  plus a b = complex (F.add a.re b.re) (F.add a.im b.im)

  abbrev pub minus : Complex F → Complex F → Complex F
  minus a b = complex (F.sub a.re b.re) (F.sub a.im b.im)

  abbrev pub negated : Complex F → Complex F
  negated a = complex (F.neg a.re) (F.neg a.im)

  abbrev pub times : Complex F → Complex F → Complex F
  times a b =
      complex (F.sub (F.mul a.re b.re) (F.mul a.im b.im))
        (F.add (F.mul a.re b.im) (F.mul a.im b.re))

  abbrev pub conj : Complex F → Complex F
  conj a = complex a.re (F.neg a.im)

  abbrev pub scaled : F.Real → Complex F → Complex F
  scaled r a = complex (F.mul r a.re) (F.mul r a.im)

  -- IMAG
  abbrev pub imag_unit : Complex F
  imag_unit = complex F.zero F.one

  -- std::exp
  abbrev pub cexp : Complex F → Complex F
  cexp a = complex (F.mul (F.exp a.re) (F.cos a.im)) (F.mul (F.exp a.re) (F.sin a.im))
