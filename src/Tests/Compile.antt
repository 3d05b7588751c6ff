-- ===== src/Tests/Compile.antt =====
-- A string that is compiled.
use e.Base.{◌%◌, ◌<◌, ◌≤◌, ◌≡◌, refl, arith, Bytes, [], ◌∷◌, inl}
use e.Task.{Task}
use e.Task.ByteAccess.{load_text, store_text, load_text-store_text}
use e.Mem.Escape.RoundTrip.{escaped}
use e.Compile.Strings.{compile_estr, compile_estr_lem}
use e.Tests.Tasks.{sample}

-- HERE is 16 in the sample; a text of a letter, a backslash and a letter.
abbrev text : Bytes
text = 97 ∷ 92 ∷ 98 ∷ []

-- Its escaped form lies a byte behind the place that it is copied to.
abbrev placed : Task
placed = record sample { mem = store_text sample.mem 33 (escaped text) }

abbrev compiled : Task
compiled = compile_estr 504 placed 33 4

compile_estr_example :
    (compiled.mem 2 ≡ 504)
    × (compiled.mem 3 ≡ 3)
    × (load_text compiled.mem 32 3 ≡ text)
    × (compiled.here % 8 ≡ 0)
    × (35 ≤ compiled.here)
    × (compiled.here < 43)
compile_estr_example =
    compile_estr_lem 504 placed text 33 refl (omega arith)
      (load_text-store_text sample.mem 33 (escaped text)
        (omega arith, (omega arith, (omega arith, (omega arith, tt)))))
      (inl (omega arith))
