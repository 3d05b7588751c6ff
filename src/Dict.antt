-- ===== src/Dict.antt =====
-- The dictionary: core/src/kernel/dict.c, and e4__mem_dict_entry, e4__mem_dict_lookup,
-- e4__mem_dict_lookup_xt and e4__mem_dict_suggest of core/src/util/mem.c.
pub mod Entry
pub mod Search
pub mod Forget
use e.Base.{
  ℕ, zero, suc, ◌+◌, ◌-◌, ◌*◌, ◌/◌, ◌%◌, ◌^◌, Bool, true, false, ◌&&◌, not, leb, ◌==◌,
  if◌then◌else◌, Bytes, length, List, [], ◌∷◌,
}
use e.Errors.{e_ok, e_invforget}
use e.Usize.{modulus, has_flag}
use e.Task.{Task, Memory, store}
use e.Mem.Layout.{aligned, cell_sz}
use e.Mem.Text.{strncasecmp}
use e.Mem.Text.Compare.{is_zero}
use e.Dict.Entry.{Header}

-- Flags of a dictionary entry.
abbrev pub f_builtin : ℕ
f_builtin = 0x08

abbrev pub f_compiling : ℕ
f_compiling = 0x10

-- e4__mem_dict_lookup: the dictionary from the entry that is found on, or the empty one for NULL.
unfoldable pub mem_dict_lookup : List Header → Bytes → List Header
mem_dict_lookup [] name = []
mem_dict_lookup (h ∷ dict) name =
    let further = mem_dict_lookup dict name in
    if length name == length h.name && is_zero (strncasecmp h.name name (length name))
    then h ∷ dict
    else further

-- e4__mem_dict_lookup_xt
unfoldable pub mem_dict_lookup_xt : List Header → ℕ → List Header
mem_dict_lookup_xt [] xt = []
mem_dict_lookup_xt (h ∷ dict) xt =
    let further = mem_dict_lookup_xt dict xt in if h.xt == xt then h ∷ dict else further

-- e4__mem_dict_suggest
unfoldable pub mem_dict_suggest : List Header → Bytes → List Header
mem_dict_suggest [] prefix = []
mem_dict_suggest (h ∷ dict) prefix =
    let further = mem_dict_suggest dict prefix in
    if leb (length prefix) (length h.name) && is_zero (strncasecmp h.name prefix (length prefix))
    then h ∷ dict
    else further

-- `sizeof(struct e4__dict_header)`
abbrev pub header_sz : ℕ
header_sz = 32

-- The size of a header and its name, aligned: the offset of the execution token.
unfoldable pub entry_xt : Bytes → ℕ
entry_xt name = aligned (header_sz + length name)

-- The size that e4__mem_dict_entry returns: the token has two cells in front of its data.
unfoldable pub entry_sz : Bytes → ℕ
entry_sz name =
    let sz = entry_xt name + 2 * cell_sz in
    if not (sz % cell_sz == 0) then sz + (cell_sz - sz % cell_sz) else sz

-- e4__dict_entry, with e4__mem_dict_entry at `here`: the new header, and the two cells of its token.
unfoldable pub dict_entry : Task → Bytes → ℕ → ℕ → ℕ → Task
dict_entry task name flags code user =
    let xt = task.here + entry_xt name in
    let header : Header = record { address = task.here; xt = xt; flags = flags; name = name } in
    let m = store task.mem (xt / cell_sz + 1) user in
    record task {
      mem = store m (xt / cell_sz) code;
      dict = header ∷ task.dict;
      here = task.here + entry_sz name / cell_sz * cell_sz;
    }

-- What a function returns, and the task after it.
pub record Returned : Type 0 where
  pub res : ℕ
  pub task : Task

-- e4__dict_forget
unfoldable pub dict_forget : Task → Bytes → Returned
dict_forget task name = elim (mem_dict_lookup task.dict name) [
  | [] ↦ record { res = e_invforget; task = task }
  | header ∷ link ↦
      if has_flag header.flags f_builtin
      then record { res = e_invforget; task = task }
      else record { res = e_ok; task = record task { dict = link; here = header.address } }
]

-- The dictionary without a word that is being compiled on top of it.
unfoldable pub visible : List Header → List Header
visible [] = []
visible (h ∷ dict) = if has_flag h.flags f_compiling then dict else h ∷ dict

-- e4__dict_lookup
unfoldable pub dict_lookup : Task → Bytes → List Header
dict_lookup task name = mem_dict_lookup (visible task.dict) name

-- e4__dict_lookup_xt
unfoldable pub dict_lookup_xt : Task → ℕ → List Header
dict_lookup_xt task xt = mem_dict_lookup_xt (visible task.dict) xt

-- e4__dict_suggest; an empty `from` is NULL.
unfoldable pub dict_suggest : Task → List Header → Bytes → List Header
dict_suggest task [] prefix = mem_dict_suggest (visible task.dict) prefix
dict_suggest task (_ ∷ link) prefix = mem_dict_suggest link prefix
