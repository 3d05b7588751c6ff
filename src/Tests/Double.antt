-- ===== src/Tests/Double.antt =====
-- Runs of the functions of core/src/util/double.c.
use e.Base.{◌-◌, ◌*◌, ◌/◌, ◌%◌, ◌^◌, ◌≡◌, refl, arith, some, if◌then◌else◌, leb, ◌==◌, true}
use e.Errors.{ok, err, e_divbyzero, e_rsltoutorange}
use e.Usize.{Double, Division}
use e.Usize.Signed.{value, int_of, int_of_double, IsWords}
use e.Double.Divide.{ndiv, div}
use e.Double.Divide.Unsigned.{ndiv_unsigned, div_unsigned}
use e.Double.Divide.Narrow.{ndiv_signed, ndiv_signed_refused, round_quot, round_rem}

abbrev dividend : Double
dividend = record { high = 5; low = 17 }

-- -7 as a double word
abbrev minus_seven : Double
minus_seven = record { high = 2 ^ 64 - 1; low = 2 ^ 64 - 7 }

dividend-IsWords : IsWords dividend
dividend-IsWords = omega arith

minus_seven-IsWords : IsWords minus_seven
minus_seven-IsWords = omega arith

ndiv_unsigned_example :
    ndiv dividend 9 0 true
    ≡ some (
        if 9 == 0
        then err e_divbyzero
        else if leb (9 * 2 ^ 64) (value dividend)
        then err e_rsltoutorange
        else ok (record { q = value dividend / 9; r = value dividend % 9 }))
ndiv_unsigned_example = ndiv_unsigned dividend 9 0 true dividend-IsWords (omega arith) refl

div_unsigned_example :
    div dividend 3 0
    ≡ some (
        if 3 == 0
        then err e_divbyzero
        else ok (record {
          q = record { high = value dividend / 3 / 2 ^ 64; low = value dividend / 3 % 2 ^ 64 };
          r = value dividend % 3;
        }))
div_unsigned_example = div_unsigned dividend 3 0 dividend-IsWords (omega arith) refl

-- Rounded down: -7 by 2.
ndiv_signed_example :
    (res : Division) × (ndiv minus_seven 2 3 true ≡ some (ok res))
    × (int_of res.q ≡ round_quot 3 (int_of_double minus_seven) (int_of 2))
    × (int_of res.r ≡ round_rem 3 (int_of_double minus_seven) (int_of 2))
ndiv_signed_example =
    ndiv_signed minus_seven 2 3 minus_seven-IsWords (omega arith) (omega arith) refl (omega arith)

ndiv_signed_refused_example : ndiv dividend 2 1 true ≡ some (err e_rsltoutorange)
ndiv_signed_refused_example =
    ndiv_signed_refused dividend 2 1 dividend-IsWords (omega arith) (omega arith) refl (omega arith)
