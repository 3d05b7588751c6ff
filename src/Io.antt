-- ===== src/Io.antt =====
-- core/src/kernel/io.c: the callbacks of struct e4__io_func. The outside is a world of any type, on
-- which a callback acts; a callback that is NULL is `none`. A buffer that a callback fills is the
-- text that it writes.
pub mod File
pub mod Line
pub mod Source
pub mod Pno
use mathlib.Core.Option
use e.Base.{ℕ, Option, none, some, Bytes}
use e.Errors.{e_unsupported}
use e.Task.{Task}
use e.Space.Members.{task_ior}

-- What a callback returns, what it writes through its pointers, and the code of the platform's
-- error, 0 for a callback that has none.
pub record Answer (W A : Type 0) : Type 0 where
  pub res : ℕ
  pub out : A
  pub ior : ℕ
  pub world : W

-- struct e4__io_func
pub record IoFunc (W : Type 0) : Type 0 where
  pub accept : Option (ℕ → W → Answer W Bytes)
  pub key : Option (W → Answer W ℕ)
  pub type : Option (Bytes → W → Answer W (Unit {0}))
  pub dlclose : Option (ℕ → W → Answer W (Unit {0}))
  pub dlopen : Option (Bytes → W → Answer W ℕ)
  pub dlsym : Option (ℕ → Bytes → W → Answer W ℕ)
  pub keyq : Option (W → Answer W ℕ)
  pub ms : Option (ℕ → W → Answer W (Unit {0}))
  pub unixtime : Option (W → Answer W ℕ)
  pub file_close : Option (ℕ → W → Answer W (Unit {0}))
  pub file_open : Option (Bytes → ℕ → W → Answer W ℕ)
  pub file_read : Option (ℕ → ℕ → W → Answer W Bytes)
  pub file_create : Option (Bytes → ℕ → W → Answer W ℕ)
  pub file_delete : Option (Bytes → W → Answer W (Unit {0}))
  pub file_position : Option (ℕ → W → Answer W ℕ)
  pub file_reposition : Option (ℕ → ℕ → W → Answer W (Unit {0}))
  pub file_resize : Option (ℕ → ℕ → W → Answer W (Unit {0}))
  pub file_size : Option (ℕ → W → Answer W ℕ)
  pub file_flush : Option (ℕ → W → Answer W (Unit {0}))
  pub file_rename : Option (Bytes → Bytes → W → Answer W (Unit {0}))

-- The result of a function that calls a callback: what it returns, what is written through its
-- pointers, if anything is, and the world.
pub record IoResult (W A : Type 0) : Type 0 where
  pub res : ℕ
  pub out : Option A
  pub world : W

module _ {W : Type 0} where
  -- A call of a callback that may be missing.
  unfoldable pub call_handler : {A : Type 0} → Option (W → Answer W A) → W → IoResult W A
  call_handler none w = record { res = e_unsupported; out = none; world = w }
  call_handler (some f) w = let a = f w in record { res = a.res; out = some a.out; world = a.world }

  -- e4__io_accept
  unfoldable pub io_accept : IoFunc W → ℕ → W → IoResult W Bytes
  unfolding call_handler
  io_accept io n w = call_handler (Option.map (λ f. f n) io.accept) w

  -- e4__io_key
  unfoldable pub io_key : IoFunc W → W → IoResult W ℕ
  unfolding call_handler
  io_key io w = call_handler io.key w

  -- e4__io_type
  unfoldable pub io_type : IoFunc W → Bytes → W → IoResult W (Unit {0})
  unfolding call_handler
  io_type io buf w = call_handler (Option.map (λ f. f buf) io.type) w

  -- e4__io_dlclose, e4__io_dlopen and e4__io_dlsym
  unfoldable pub io_dlclose : IoFunc W → ℕ → W → IoResult W (Unit {0})
  unfolding call_handler
  io_dlclose io handle w = call_handler (Option.map (λ f. f handle) io.dlclose) w

  unfoldable pub io_dlopen : IoFunc W → Bytes → W → IoResult W ℕ
  unfolding call_handler
  io_dlopen io path w = call_handler (Option.map (λ f. f path) io.dlopen) w

  unfoldable pub io_dlsym : IoFunc W → ℕ → Bytes → W → IoResult W ℕ
  unfolding call_handler
  io_dlsym io handle symbol w = call_handler (Option.map (λ f. f handle symbol) io.dlsym) w

  -- e4__io_keyq, e4__io_ms and e4__io_unixtime
  unfoldable pub io_keyq : IoFunc W → W → IoResult W ℕ
  unfolding call_handler
  io_keyq io w = call_handler io.keyq w

  unfoldable pub io_ms : IoFunc W → ℕ → W → IoResult W (Unit {0})
  unfolding call_handler
  io_ms io ms w = call_handler (Option.map (λ f. f ms) io.ms) w

  unfoldable pub io_unixtime : IoFunc W → W → IoResult W ℕ
  unfolding call_handler
  io_unixtime io w = call_handler io.unixtime w
