-- ===== src/Tests/Words.antt =====
-- Wrapping 64-bit numbers in the place of the floating-point ones, to run the kernels on.
use pennylane_lightning.Prelude.{ℕ, ◌+◌, ◌*◌, ◌/◌, ◌%◌, ◌^◌}
use pennylane_lightning.Word.{sub}
use pennylane_lightning.Memory.{Arr}
use pennylane_lightning.Complex.{Floats, Complex, complex}
use pennylane_lightning.Lm.OneQubit.{Matrix2}
use pennylane_lightning.Lm.TwoQubit.{Row4, Matrix4}

unfoldable pub negate : ℕ → ℕ
unfolding sub
negate x = sub 0 x

abbrev pub words : Floats
words = record {
  Real = ℕ;
  zero = 0;
  one = 1;
  add = λ x y. (x + y) % 2 ^ 64;
  sub = λ x y. sub x y;
  mul = λ x y. (x * y) % 2 ^ 64;
  neg = negate;
  half = λ x. x / 2;
  inv_sqrt2 = 3;
  cos = λ x. x + 2;
  sin = λ x. x;
  exp = λ x. x + 1;
}

-- The state vector whose amplitude at i is i + i * 1i.
abbrev pub state : Arr (Complex words)
state i = complex words i i

abbrev pub identity : Matrix2 words
identity = record {
  m00 = complex words 1 0;
  m01 = complex words 0 0;
  m10 = complex words 0 0;
  m11 = complex words 1 0;
}

abbrev unit_row : ℕ → ℕ → ℕ → ℕ → Row4 words
unit_row a b c d = record {
  c0 = complex words a 0;
  c1 = complex words b 0;
  c2 = complex words c 0;
  c3 = complex words d 0;
}

abbrev pub identity4 : Matrix4 words
identity4 = record {
  row0 = unit_row 1 0 0 0;
  row1 = unit_row 0 1 0 0;
  row2 = unit_row 0 0 1 0;
  row3 = unit_row 0 0 0 1;
}
