-- ===== src/Tests/Escape.antt =====
-- Decoding `a\"\x41\m` and the round trip of a text with a backslash.
use e.Base.{◌≡◌, refl, arith, Bytes, [], ◌∷◌}
use e.Mem.Escape.{unescape, strnescape, escape, single_escape, run, hex_escape, literal_run}
use e.Mem.Escape.RoundTrip.{escaped, unescape-escaped}

abbrev text : Bytes
text = 97 ∷ 92 ∷ 110 ∷ []

unescape-escaped_example : unescape 3 (escaped text) ≡ text
unescape-escaped_example = unescape-escaped text 3 (omega arith)

decoded :
    unescape 9 (97 ∷ 92 ∷ 34 ∷ 92 ∷ 120 ∷ 52 ∷ 49 ∷ 92 ∷ 109 ∷ []) ≡ 97 ∷ 34 ∷ 65 ∷ 13 ∷ 10 ∷ []
unfolding unescape strnescape escape single_escape run hex_escape literal_run
decoded = refl
