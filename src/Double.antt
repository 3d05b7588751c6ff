-- ===== src/Double.antt =====
-- core/src/util/double.c: double words, high word and low word.
pub mod LongDivide
pub mod Divide
use e.Base.{ℕ, ◌+◌, ◌%◌, Bool, bit_xor, ◌==◌, if◌then◌else◌}
use e.Usize.{Double, max_usize, modulus}

-- e4__double_u
unfoldable pub double_u : ℕ → ℕ → Double
double_u low high = record { high = high; low = low }

-- e4__double_negate
unfoldable pub double_negate : Double → Double
double_negate d =
    let low = (bit_xor d.low max_usize + 1) % modulus in
    let carry = if low == 0 then 1 else 0 in
    record { high = (bit_xor d.high max_usize + carry) % modulus; low = low }
