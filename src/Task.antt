-- ===== src/Task.antt =====
-- struct e4__task of core/src/kernel/e4-internal.h. A pointer to cells is the number of its cell;
-- `here`, the input buffer and the pointers to fields and texts are addresses in bytes. Memory maps
-- the number of a cell to what the cell holds.
pub mod ByteAccess
use e.Base.{ℕ, ◌==◌, if◌then◌else◌, Bool, Option, List}
use e.Dict.Entry.{Header}

abbrev pub Memory : Type 0
Memory = ℕ → ℕ

-- `e4__DEREF(p) = v`
unfoldable pub store : Memory → ℕ → ℕ → Memory
store m a v x = if x == a then v else m x

-- struct e4__io_src
pub record InputSource : Type 0 where
  pub buffer : ℕ
  pub sid : ℕ
  pub to_in : ℕ
  pub length : ℕ
  pub sz : ℕ

-- struct e4__compile_state
pub record CompileState : Type 0 where
  pub state : ℕ
  pub sus_state : ℕ
  pub s0 : ℕ
  pub here0 : ℕ
  pub xt : ℕ

-- struct e4__exception_state, less its jump buffer: `valid` says that a handler is installed. A
-- callback is named by a number.
pub record ExceptionState : Type 0 where
  pub valid : Bool
  pub code : ℕ
  pub then_callback : Option ℕ
  pub user : ℕ

-- struct e4__pno_state: addresses in bytes; 0 is NULL.
pub record PnoState : Type 0 where
  pub end : ℕ
  pub offset : ℕ

-- struct e4__file_exception; the two texts are named by their addresses.
pub record FileException : Type 0 where
  pub ex : ℕ
  pub ior : ℕ
  pub line : ℕ
  pub path : ℕ
  pub path_sz : ℕ
  pub buf : ℕ
  pub buf_sz : ℕ

-- struct e4__task, with the fields that a build with files has, but the table of callbacks, which
-- the functions that call them take as an argument, and the two buffers.
pub record Task : Type 0 where
  pub mem : Memory
  pub here : ℕ
  pub pad : ℕ
  pub s0 : ℕ
  pub sp : ℕ
  pub tib : ℕ
  pub r0 : ℕ
  pub rp : ℕ
  pub ip : ℕ
  pub base_ptr : ℕ
  pub in_ptr : ℕ
  pub state_ptr : ℕ
  pub io_src : InputSource
  pub compile : CompileState
  pub pno : PnoState
  pub tr0 : ℕ
  pub sl : ℕ
  pub rl : ℕ
  pub task_sz : ℕ
  pub tib_sz : ℕ
  pub base : ℕ
  pub dict : List Header
  pub exception : ExceptionState
  pub abortq_msg : ℕ
  pub abortq_msg_len : ℕ
  pub fib_depth : ℕ
  pub ior : ℕ
  pub fex : FileException
