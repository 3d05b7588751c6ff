-- ===== src/Tests/Text.antt =====
-- Runs of the functions of core/src/util/mem.c and of e4__usize_format.
use e.Base.{suc, ◌+◌, ◌-◌, ◌^◌, ◌≡◌, refl, arith, some, length, inr, Bytes, [], ◌∷◌, ◌++◌}
use e.Usize.Format.{format}
use e.Mem.Number.{mem_number}
use e.Mem.Number.RoundTrip.{mem_number-format, mem_number-format_signed}
use e.Mem.Text.{mem_parse}
use e.Mem.Text.Parse.{mem_parse_lem}

mem_number-format_example :
    mem_number (format 48879 16 0 (suc 7)) (length (format 48879 16 0 (suc 7))) 16 0
    ≡ some (record { taken = length (format 48879 16 0 (suc 7)); out = 48879 })
mem_number-format_example =
    mem_number-format 48879 16 7 0 0 (omega arith) (omega arith) (omega arith) (omega arith) refl
      refl refl

mem_number-format_signed_example :
    mem_number
      (format (2 ^ 64 - 42) 10 1 (suc 7 + 1))
      (length (format (2 ^ 64 - 42) 10 1 (suc 7 + 1)))
      10
      1
    ≡ some (record { taken = length (format (2 ^ 64 - 42) 10 1 (suc 7 + 1)); out = 2 ^ 64 - 42 })
mem_number-format_signed_example =
    mem_number-format_signed (2 ^ 64 - 42) 10 7 1 1 (omega arith) (omega arith) (omega arith)
      (omega arith) refl refl refl refl

-- "Dup" and "dUP"
abbrev upper : Bytes
upper = 68 ∷ 117 ∷ 112 ∷ []

abbrev lower : Bytes
lower = 100 ∷ 85 ∷ 80 ∷ []

-- Two blanks, a word, a blank and more.
abbrev blanks : Bytes
blanks = 32 ∷ 32 ∷ []

abbrev word_rest : Bytes
word_rest = 117 ∷ 112 ∷ []

abbrev more : Bytes
more = 32 ∷ 46 ∷ []

mem_parse_example :
    mem_parse (blanks ++ ((100 ∷ word_rest) ++ more)) 32 1
    ≡ record { out = (100 ∷ word_rest) ++ more; length = length (100 ∷ word_rest) }
mem_parse_example =
    mem_parse_lem 32 1 100 blanks word_rest more refl refl (refl, (refl, tt))
      (refl, (refl, (refl, tt))) (inr refl)
