-- ===== src/Io/File.antt =====
-- The functions on files of core/src/kernel/io.c, e4__io_file_readline aside: each calls its callback
-- and stores the code of the platform's error in the task.
use mathlib.Core.Option
use e.Base.{ℕ, Option, none, some, Bytes}
use e.Errors.{e_unsupported}
use e.Task.{Task}
use e.Space.Members.{task_ior}
use e.Io.{Answer, IoFunc}

pub record FileResult (W A : Type 0) : Type 0 where
  pub res : ℕ
  pub out : Option A
  pub task : Task
  pub world : W

module _ {W : Type 0} where
  -- A call of a callback on files that may be missing.
  unfoldable pub call_file : {A : Type 0} → Option (W → Answer W A) → Task → W → FileResult W A
  call_file none task w = record { res = e_unsupported; out = none; task = task; world = w }
  call_file (some f) task w =
      let a = f w in
      record { res = a.res; out = some a.out; task = (task_ior task a.ior).task; world = a.world }

  -- e4__io_file_close
  unfoldable pub io_file_close : IoFunc W → Task → ℕ → W → FileResult W (Unit {0})
  unfolding call_file
  io_file_close io task fd w = call_file (Option.map (λ f. f fd) io.file_close) task w

  -- e4__io_file_open
  unfoldable pub io_file_open : IoFunc W → Task → Bytes → ℕ → W → FileResult W ℕ
  unfolding call_file
  io_file_open io task path perm w = call_file (Option.map (λ f. f path perm) io.file_open) task w

  -- e4__io_file_read
  unfoldable pub io_file_read : IoFunc W → Task → ℕ → ℕ → W → FileResult W Bytes
  unfolding call_file
  io_file_read io task fd n w = call_file (Option.map (λ f. f fd n) io.file_read) task w

  -- e4__io_file_create
  unfoldable pub io_file_create : IoFunc W → Task → Bytes → ℕ → W → FileResult W ℕ
  unfolding call_file
  io_file_create io task path perm w =
      call_file (Option.map (λ f. f path perm) io.file_create) task w

  -- e4__io_file_delete
  unfoldable pub io_file_delete : IoFunc W → Task → Bytes → W → FileResult W (Unit {0})
  unfolding call_file
  io_file_delete io task path w = call_file (Option.map (λ f. f path) io.file_delete) task w

  -- e4__io_file_position
  unfoldable pub io_file_position : IoFunc W → Task → ℕ → W → FileResult W ℕ
  unfolding call_file
  io_file_position io task fd w = call_file (Option.map (λ f. f fd) io.file_position) task w

  -- e4__io_file_reposition
  unfoldable pub io_file_reposition : IoFunc W → Task → ℕ → ℕ → W → FileResult W (Unit {0})
  unfolding call_file
  io_file_reposition io task fd pos w =
      call_file (Option.map (λ f. f fd pos) io.file_reposition) task w

  -- e4__io_file_resize
  unfoldable pub io_file_resize : IoFunc W → Task → ℕ → ℕ → W → FileResult W (Unit {0})
  unfolding call_file
  io_file_resize io task fd sz w = call_file (Option.map (λ f. f fd sz) io.file_resize) task w

  -- e4__io_file_size
  unfoldable pub io_file_size : IoFunc W → Task → ℕ → W → FileResult W ℕ
  unfolding call_file
  io_file_size io task fd w = call_file (Option.map (λ f. f fd) io.file_size) task w

  -- e4__io_file_flush
  unfoldable pub io_file_flush : IoFunc W → Task → ℕ → W → FileResult W (Unit {0})
  unfolding call_file
  io_file_flush io task fd w = call_file (Option.map (λ f. f fd) io.file_flush) task w

  -- e4__io_file_rename
  unfoldable pub io_file_rename : IoFunc W → Task → Bytes → Bytes → W → FileResult W (Unit {0})
  unfolding call_file
  io_file_rename io task old_path new_path w =
      call_file (Option.map (λ f. f old_path new_path) io.file_rename) task w
