-- ===== src/Usize/Multiply.antt =====
-- e4__usize_mul of core/src/util/usize.c: the double-word product.
pub mod Exact
use e.Base.{ℕ, ◌+◌, ◌*◌, ◌%◌, Bool, true, false, xor, ◌&&◌, ltb, if◌then◌else◌}
use e.Usize.{Double, modulus, f_signed, has_flag, is_negative, negate, high_half, low_half, join}
use e.Double.{double_negate}

-- The factor without its sign, as a signed multiplication takes it.
unfoldable pub unsign : ℕ → ℕ → ℕ
unsign flags u = if has_flag flags f_signed && is_negative u then negate u else u

-- Whether a signed multiplication negates its product.
unfoldable pub flips : ℕ → ℕ → ℕ → Bool
flips flags l r = has_flag flags f_signed && xor (is_negative l) (is_negative r)

-- The three columns of the product of the words (lh, ll) and (rh, rl).
unfoldable pub columns : ℕ → ℕ → ℕ → ℕ → Double
columns lh ll rh rl =
    let t0 = ll * rl % modulus in
    let t1 = (ll * rh % modulus + high_half t0) % modulus in
    let t2 = lh * rl % modulus in
    let s0 = join (low_half t1) (low_half t0) in
    let low = (s0 + join (low_half t2) 0) % modulus in
    let carry = if ltb low s0 then 1 else 0 in
    record { high = (high_half t1 + high_half t2 + lh * rh + carry) % modulus; low = low }

-- The basic multiplication algorithm on the halves of two words.
unfoldable pub multiply : ℕ → ℕ → Double
multiply l r = columns (high_half l) (low_half l) (high_half r) (low_half r)

-- e4__usize_mul
unfoldable pub mul : ℕ → ℕ → ℕ → Double
mul l r flags =
    let prod = multiply (unsign flags l) (unsign flags r) in
    if flips flags l r then double_negate prod else prod
