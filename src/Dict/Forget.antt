-- ===== src/Dict/Forget.antt =====
-- Entering a word and forgetting it.
use e.Base.{
  ℕ, ◌≡◌, refl, ap, true, false, ◌&&◌, not, if◌then◌else◌, Bytes, List, [], ◌∷◌, All, ◌⊎◌,
  Bool-cases, inl, inr,
}
use e.Errors.{e_ok, e_invforget}
use e.Usize.{has_flag}
use e.Task.{Task}
use e.Mem.Text.Compare.{IsChar, texts_equal, folded}
use e.Dict.Entry.{Header}
use e.Dict.{mem_dict_lookup, dict_entry, dict_forget, dict_lookup, visible, f_builtin, f_compiling}
use e.Dict.Search.{HasName, mem_dict_lookup_lem}

forget_found :
    (task : Task) (name : Bytes) (h : Header) (link : List Header)
    → mem_dict_lookup task.dict name ≡ h ∷ link
    → has_flag h.flags f_builtin ≡ false
    → dict_forget task name
      ≡ record { res = e_ok; task = record task { dict = link; here = h.address } }
unfolding dict_forget
forget_found task name h link found plain = rw (dict_forget, found, plain) refl

module _ (task : Task) (name name' : Bytes) (flags code user : ℕ) (named : All HasName task.dict)
    (chars : All IsChar name) (chars' : All IsChar name') where
  found_first : mem_dict_lookup (dict_entry task name flags code user).dict name' ≡ (
      if texts_equal (folded name) (folded name')
      then (dict_entry task name flags code user).dict
      else mem_dict_lookup task.dict name')
  unfolding dict_entry
  found_first =
      rw (mem_dict_lookup_lem task.dict name' named chars') (
        mem_dict_lookup_lem (dict_entry task name flags code user).dict name' (chars, named) chars')

  -- After a word is entered, a lookup returns the new entry for its name in any case, unless it
  -- is still being compiled; otherwise it searches the entries from before.
  pub dict_lookup-dict_entry : dict_lookup (dict_entry task name flags code user) name' ≡ (
      if not (has_flag flags f_compiling) && texts_equal (folded name) (folded name')
      then (dict_entry task name flags code user).dict
      else mem_dict_lookup task.dict name')
  unfolding dict_lookup dict_entry visible
  dict_lookup-dict_entry = elim (Bool-cases (has_flag flags f_compiling)) [
    | inl compiling ↦ rw compiling refl
    | inr done ↦ rw done found_first
  ]

  -- Forgetting the word that was entered last, by its name in any case, gives the dictionary and
  -- the end of the dictionary's memory back, when the word is no builtin.
  pub dict_forget-dict_entry :
      has_flag flags f_builtin ≡ false
      → texts_equal (folded name) (folded name') ≡ true
      → ((dict_forget (dict_entry task name flags code user) name').res ≡ e_ok)
        × ((dict_forget (dict_entry task name flags code user) name').task.dict ≡ task.dict)
        × ((dict_forget (dict_entry task name flags code user) name').task.here ≡ task.here)
  unfolding dict_forget dict_entry
  dict_forget-dict_entry plain equal =
      let top : mem_dict_lookup (dict_entry task name flags code user).dict name'
          ≡ (dict_entry task name flags code user).dict =
        rw equal at found_first in
      let done = forget_found (dict_entry task name flags code user) name' _ task.dict top plain in
      (ap (λ r. r.res) done, ap (λ r. r.task.dict) done, ap (λ r. r.task.here) done)

-- Where a word is not found, or is a builtin, forgetting reports it and leaves the task.
pub dict_forget_refused :
    (task : Task) (name : Bytes) (h : Header) (link : List Header)
    → (mem_dict_lookup task.dict name ≡ [])
      ⊎ ((mem_dict_lookup task.dict name ≡ h ∷ link) × (has_flag h.flags f_builtin ≡ true))
    → dict_forget task name ≡ record { res = e_invforget; task = task }
unfolding dict_forget
dict_forget_refused task name h link (inl e) = rw (dict_forget, e) refl
dict_forget_refused task name h link (inr (e, builtin)) = rw (dict_forget, e, builtin) refl
