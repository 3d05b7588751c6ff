-- ===== src/Tests/Usize.antt =====
-- Runs of the functions of core/src/util/usize.c.
use e.Base.{ℕ, ◌-◌, ◌*◌, ◌^◌, ◌≡◌, refl, arith, some, inl}
use e.Base.Int.{quot_ℤ, rem_ℤ}
use e.Usize.{Division, clz, sdiv}
use e.Usize.Signed.{value, int_of, int_of_double}
use e.Usize.Multiply.{mul}
use e.Usize.Multiply.Exact.{value-mul, int_of_double-mul}
use e.Usize.Divide.{sdiv_lem}
use e.Usize.LeadingZeros.{Normalizes, clz-Normalizes}
use e.Base.Int.{◌*ℤ◌}

-- `(e4__usize)-2`
abbrev minus_two : ℕ
minus_two = 2 ^ 64 - 2

value-mul_example : value (mul (2 ^ 64 - 1) minus_two 0) ≡ (2 ^ 64 - 1) * minus_two
value-mul_example = value-mul (2 ^ 64 - 1) minus_two 0 (omega arith) (omega arith) refl

int_of_double-mul_example : int_of_double (mul minus_two 21 1) ≡ int_of minus_two *ℤ int_of 21
int_of_double-mul_example = int_of_double-mul minus_two 21 1 (omega arith) (omega arith) refl

sdiv_example :
    (result : Division) × (sdiv minus_two 3 ≡ some result)
    × (int_of result.q ≡ quot_ℤ (int_of minus_two) (int_of 3))
    × (int_of result.r ≡ rem_ℤ (int_of minus_two) (int_of 3))
sdiv_example = sdiv_lem minus_two 3 (omega arith) (omega arith) (omega arith) (inl (omega arith))

clz-Normalizes_example : Normalizes 77 (clz 77)
clz-Normalizes_example = clz-Normalizes 77 (omega arith) (omega arith)
