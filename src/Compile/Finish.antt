-- ===== src/Compile/Finish.antt =====
-- What e4__compile_finish makes of a compilation that is going on.
use e.Base.{ℕ, ◌+◌, ◌/◌, ◌<◌, ◌≡◌, ◌≢◌, refl, arith, true, false, ◌==◌}
use e.Errors.{e_ok, e_csmismatch}
use e.Task.{Task, store, Memory}
use e.Mem.Layout.{cell_sz}
use e.Compile.{
  compile_finish, compile_resume, compile_cancel, finish_resumed, finish_token, compile_cell,
  set_state, Addresses, mark_done, comp_anonymous, comp_does, comp_colon,
}

-- A compilation that is going on in one of the three modes, on the stack that it started with, of a
-- token that lies in front of `here`.
abbrev pub IsCompiling : Task → ℕ → Type 0
IsCompiling task mode =
    (task.compile.state ≡ mode)
    × (task.compile.s0 ≡ task.sp)
    × (task.compile.xt / cell_sz + 1 < task.here / cell_sz)

-- What four stores at cells that differ leave there.
stored :
    (m : Memory) (x h n a b c d : ℕ)
    → x + 1 < h
    → n ≡ h + 1
    → (store (store (store (store m x a) (x + 1) b) h c) n d x ≡ a)
      × (store (store (store (store m x a) (x + 1) b) h c) n d (x + 1) ≡ b)
      × (store (store (store (store m x a) (x + 1) b) h c) n d h ≡ c)
      × (store (store (store (store m x a) (x + 1) b) h c) n d n ≡ d)
unfolding store
stored m x h n a b c d below next = (ground arith, ground arith, ground arith, ground arith)

stored_code :
    (m : Memory) (x h n a c d : ℕ)
    → x + 1 < h
    → n ≡ h + 1
    → (store (store (store m x a) h c) n d x ≡ a)
      × (store (store (store m x a) h c) n d h ≡ c)
      × (store (store (store m x a) h c) n d n ≡ d)
unfolding store
stored_code m x h n a c d below next = (ground arith, ground arith, ground arith)

module _ (addresses : Addresses) (task : Task) where
  -- For a compilation that goes on after DOES> on the stack that it started with, with its
  -- token in front of `here`, e4__compile_finish makes the token run the code: its code is the
  -- one for such words and its data the start of the code, which ends in EXIT and the sentinel;
  -- no compilation is left.
  pub compile_finish_does :
      IsCompiling task comp_does
      → (task' : Task) × (compile_finish addresses task ≡ record { res = e_ok; task = task' })
        × (task'.mem (task.compile.xt / cell_sz) ≡ addresses.doesthunk)
        × (task'.mem (task.compile.xt / cell_sz + 1) ≡ task.compile.here0)
        × (task'.mem (task.here / cell_sz) ≡ addresses.b_exit)
        × (task'.mem ((task.here + cell_sz) / cell_sz) ≡ addresses.b_sentinel)
        × (task'.here ≡ task.here + cell_sz + cell_sz)
        × (task'.compile.state ≡ 0)
  unfolding compile_finish compile_resume finish_resumed finish_token compile_cell
  compile_finish_does ok =
      let xt = task.compile.xt / cell_sz in
      let here = task.here / cell_sz in
      let next = (task.here + cell_sz) / cell_sz in
      let same : (task.compile.s0 == task.sp) ≡ true = ground (arith, ok.1) in
      let reads =
        stored task.mem xt here next addresses.doesthunk task.compile.here0 addresses.b_exit
          addresses.b_sentinel ok.2 (omega arith) in
      (
        set_state 0 (record task {
          mem =
              store
                (store (store (store task.mem xt addresses.doesthunk) (xt + 1) task.compile.here0)
                  here addresses.b_exit)
                next addresses.b_sentinel;
          here = task.here + cell_sz + cell_sz;
        }),
        rw (ok.0, same) refl,
        reads.0,
        reads.1,
        reads.2,
        reads.3,
        refl,
        refl,
      )

  -- For a colon definition that goes on on the stack that it started with, with its token in
  -- front of `here`, e4__compile_finish makes the token run threaded code, which ends in EXIT
  -- and the sentinel, and takes the mark of a word being compiled off the newest word; no
  -- compilation is left.
  pub compile_finish_colon :
      IsCompiling task comp_colon
      → (task' : Task) × (compile_finish addresses task ≡ record { res = e_ok; task = task' })
        × (task'.mem (task.compile.xt / cell_sz) ≡ addresses.threaded)
        × (task'.mem (task.here / cell_sz) ≡ addresses.b_exit)
        × (task'.mem ((task.here + cell_sz) / cell_sz) ≡ addresses.b_sentinel)
        × (task'.here ≡ task.here + cell_sz + cell_sz)
        × (task'.dict ≡ mark_done task.dict)
        × (task'.compile.state ≡ 0)
  unfolding compile_finish compile_resume finish_resumed finish_token compile_cell
  compile_finish_colon ok =
      let xt = task.compile.xt / cell_sz in
      let here = task.here / cell_sz in
      let next = (task.here + cell_sz) / cell_sz in
      let same : (task.compile.s0 == task.sp) ≡ true = ground (arith, ok.1) in
      let reads =
        stored_code task.mem xt here next addresses.threaded addresses.b_exit addresses.b_sentinel
          ok.2 (omega arith) in
      (
        set_state 0 (record task {
          mem =
              store (store (store task.mem xt addresses.threaded) here addresses.b_exit) next
                addresses.b_sentinel;
          here = task.here + cell_sz + cell_sz;
          dict = mark_done task.dict;
        }),
        rw (ok.0, same) refl,
        reads.0,
        reads.1,
        reads.2,
        refl,
        refl,
        refl,
      )

-- With another stack than at its start, a compilation in one of the three modes is cancelled and
-- reported.
pub compile_finish_mismatch :
    (addresses : Addresses) (task : Task)
    → (task.compile.state ≢ 0) × (task.compile.state ≢ comp_anonymous)
    → task.compile.s0 ≢ task.sp
    → compile_finish addresses task ≡ record { res = e_csmismatch; task = compile_cancel task }
unfolding compile_finish compile_resume finish_resumed
compile_finish_mismatch addresses task mode moved =
    let busy : (task.compile.state == 0) ≡ false = ground (arith, mode.0) in
    let named : (task.compile.state == comp_anonymous) ≡ false = ground (arith, mode.1) in
    let differ : (task.compile.s0 == task.sp) ≡ false = ground arith in
    rw (busy, named, differ) refl
