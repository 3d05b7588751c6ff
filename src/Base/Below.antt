-- ===== src/Base/Below.antt =====
-- Tests of all the numbers below a bound, which are decided by running them.
use e.Base.{Bytes, [], ◌∷◌, ltb, All, ℕ, zero, suc, ◌<◌, ◌≡◌, arith, Bool, true, ◌&&◌, dec_lt}

abbrev pub every_below : ℕ → (ℕ → Bool) → Bool
every_below zero test = true
every_below (suc n) test = test n && every_below n test

pub every_below_lem :
    (n : ℕ) (test : ℕ → Bool) → every_below n test ≡ true → (x : ℕ) → x < n → test x ≡ true
every_below_lem zero test all x h = absurd (omega arith)
every_below_lem (suc n) test all x h = elim (dec_lt x n) [
  | yes below ↦ every_below_lem n test (ground arith) x below
  | no last ↦ let here : n ≡ x = omega arith in rw here at first
]
  where
    first : test n ≡ true
    first = ground arith

abbrev pub are_bytes : Bytes → Bool
are_bytes [] = true
are_bytes (c ∷ cs) = ltb c 256 && are_bytes cs

pub are_bytes_lem : (s : Bytes) → are_bytes s ≡ true → All (λ c. c < 256) s
are_bytes_lem [] e = tt
are_bytes_lem (c ∷ cs) e = (ground arith, are_bytes_lem cs (ground arith))
