-- ===== src/Tests/Tasks.antt =====
-- A small task with four cells on its parameter stack and two on its return stack, and runs on it.
use e.Base.{◌-◌, false, none, []}
use e.Task.{Task, InputSource, CompileState, ExceptionState, FileException}

abbrev pub no_input : InputSource
no_input = record { buffer = 168; sid = 0; to_in = 0; length = 0; sz = 72 }

abbrev pub idle : CompileState
idle = record { state = 0; sus_state = 0; s0 = 0; here0 = 0; xt = 0 }

abbrev pub no_handler : ExceptionState
no_handler = record { valid = false; code = 0; then_callback = none; user = 0 }

abbrev pub no_file_exception : FileException
no_file_exception = record { ex = 0; ior = 0; line = 0; path = 0; path_sz = 0; buf = 0; buf_sz = 0 }

abbrev pub sample : Task
sample = record {
  mem = λ x. x - 16;
  here = 16;
  pad = 5;
  s0 = 20;
  sp = 16;
  tib = 21;
  r0 = 40;
  rp = 38;
  ip = 0;
  base_ptr = 224;
  in_ptr = 104;
  state_ptr = 128;
  io_src = no_input;
  compile = idle;
  pno = record { end = 0; offset = 0 };
  tr0 = 40;
  sl = 10;
  rl = 30;
  task_sz = 328;
  tib_sz = 72;
  base = 10;
  dict = [];
  exception = no_handler;
  abortq_msg = 0;
  abortq_msg_len = 0;
  fib_depth = 0;
  ior = 0;
  fex = no_file_exception;
}
