-- ===== src/Tests/Pictured.antt =====
-- A run of pictured numeric output.
use e.Base.{Bytes, [], ◌∷◌}
use e.Usize.{Double}

-- 2 ^ 64 + 7
abbrev number : Double
number = record { high = 1; low = 7 }

abbrev blank : Bytes
blank = 32 ∷ []
