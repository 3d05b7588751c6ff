-- ===== src/Tests/Dict.antt =====
-- Runs on a dictionary of two words, one of them a builtin.
use e.Base.{◌≡◌, refl, arith, inr, Bytes, List, [], ◌∷◌, All, if◌then◌else◌, not, ◌&&◌}
use e.Errors.{e_ok, e_invforget}
use e.Usize.{has_flag}
use e.Task.{Task}
use e.Mem.Text.Compare.{IsChar, texts_equal, folded}
use e.Dict.Entry.{Header}
use e.Dict.{mem_dict_lookup, dict_entry, dict_lookup, dict_forget, f_compiling}
use e.Dict.Search.{HasName, find_from, same_name, mem_dict_lookup_lem}
use e.Dict.Forget.{dict_lookup-dict_entry, dict_forget-dict_entry, dict_forget_refused}
use e.Tests.Tasks.{sample}

-- "dup", a builtin, and "Drum"
abbrev dup_header : Header
dup_header = record { address = 800; xt = 840; flags = 8; name = 100 ∷ 117 ∷ 112 ∷ [] }

abbrev drum_header : Header
drum_header = record { address = 960; xt = 1000; flags = 0; name = 68 ∷ 114 ∷ 117 ∷ 109 ∷ [] }

abbrev words : List Header
words = drum_header ∷ dup_header ∷ []

abbrev task : Task
task = record sample { dict = words }

-- "DUP" and "dr"
abbrev dup_name : Bytes
dup_name = 68 ∷ 85 ∷ 80 ∷ []

abbrev dr : Bytes
dr = 100 ∷ 114 ∷ []

words_named : All HasName words
words_named = omega arith

dup_name_chars : All IsChar dup_name
dup_name_chars = omega arith

dr_chars : All IsChar dr
dr_chars = omega arith

mem_dict_lookup_example : mem_dict_lookup words dup_name ≡ find_from (same_name dup_name) words
mem_dict_lookup_example = mem_dict_lookup_lem words dup_name words_named dup_name_chars

dict_lookup-dict_entry_example : dict_lookup (dict_entry task dr 0 7 9) dup_name ≡ (
    if not (has_flag 0 f_compiling) && texts_equal (folded dr) (folded dup_name)
    then (dict_entry task dr 0 7 9).dict
    else mem_dict_lookup words dup_name)
dict_lookup-dict_entry_example =
    dict_lookup-dict_entry task dr dup_name 0 7 9 words_named dr_chars dup_name_chars

dict_forget-dict_entry_example :
    ((dict_forget (dict_entry task dr 0 7 9) dr).res ≡ e_ok)
    × ((dict_forget (dict_entry task dr 0 7 9) dr).task.dict ≡ words)
    × ((dict_forget (dict_entry task dr 0 7 9) dr).task.here ≡ 16)
dict_forget-dict_entry_example =
    dict_forget-dict_entry task dr dr 0 7 9 words_named dr_chars dr_chars refl refl

dup_found : mem_dict_lookup words dup_name ≡ dup_header ∷ []
dup_found = mem_dict_lookup_lem words dup_name words_named dup_name_chars

dict_forget_refused_example : dict_forget task dup_name ≡ record { res = e_invforget; task = task }
dict_forget_refused_example =
    dict_forget_refused task dup_name dup_header [] (inr (dup_found, refl))
