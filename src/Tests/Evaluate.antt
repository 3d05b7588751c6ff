-- ===== src/Tests/Evaluate.antt =====
-- The evaluation of a text of two numbers and a word that does nothing.
use e.Base.{
  ℕ, ◌+◌, ◌/◌, ◌<◌, ◌≤◌, ◌≡◌, refl, sym, ap, ◌∙◌, arith, Bool, true, false, not, ◌==◌,
  if◌then◌else◌, some, List, [], ◌∷◌, Bytes, inl, inr, Bool-cases, length, ◌&&◌,
}
use e.Errors.{e_rstkoverflow}
use e.Task.{Task, Memory, store}
use e.Task.ByteAccess.{set_byte, store_byte, store_text}
use e.Mem.Text.Compare.{is_zero}
use e.Mem.Text.{strncasecmp}
use e.Stack.{avail, push, ravail, rpush, difference}
use e.Stack.Contents.{store_other}
use e.Dict.{dict_lookup, visible, mem_dict_lookup}
use e.Dict.Entry.{Header}
use e.Exception.{Outcome, returns, throw, set_valid}
use e.Compile.{compile_cell}
use e.Execute.Words.{Code, to_value, to_cell}
use e.Execute.{execute, call, kind_of, run_other}
use e.Io.Source.{io_word, io_parse}
use e.Evaluate.{Setting, evaluate, set_source}
use e.Evaluate.Returns.{called, evaluate_lem}
use e.Evaluate.Ends.{IsSafe, Onward, throw-Onward}
use e.Tests.Tasks.{sample}

abbrev idle_code : Code
idle_code = record {
  deferthunk = 1;
  doesthunk = 2;
  marker = 3;
  threaded = 4;
  threadedthunk = 5;
  userval = 6;
  uservar = 7;
  value = 8;
  variable = 9;
  exit_xt = 0;
  return_thunk = 0;
  native = λ c task user. some (returns tt task);
}

abbrev pub setting : Setting
setting = record {
  code = idle_code;
  addresses = record { b_exit = 8; b_sentinel = 16; b_lit_cell = 24; doesthunk = 2; threaded = 4 };
  callback = λ f task. returns tt task;
  fuel = 2;
}

-- A word IDLE, whose token stands in cell 5.
abbrev words : List Header
words = record { address = 0; xt = 40; flags = 0; name = 105 ∷ 100 ∷ 108 ∷ 101 ∷ [] } ∷ []

-- Cell 5 holds the code of IDLE, and HERE and the stacks are above it.
abbrev IsInPlace : Task → Type 0
IsInPlace t =
    (t.mem 5 ≡ 99)
    × (t.dict ≡ words)
    × (160 ≤ t.here)
    × (20 ≤ t.sl)
    × (t.sl ≤ t.sp + 1)
    × (20 ≤ t.rl)
    × (t.rl ≤ t.rp + 1)

store_text_below : (s : Bytes) (m : Memory) (a x : ℕ) → x < a / 8 → store_text m a s x ≡ m x
unfolding store_text store_byte
store_text_below [] m a x low = refl
store_text_below (c ∷ cs) m a x low =
    store_text_below cs (store_byte m a c) (a + 1) x (omega arith)
    ∙ store_other m (a / 8) _ x (omega arith)

first_xt : List Header → ℕ
first_xt [] = 40
first_xt (h ∷ _) = h.xt

found_only :
    (word : Bytes) (h : Header) (rest : List Header)
    → mem_dict_lookup words word ≡ h ∷ rest
    → h.xt ≡ 40
unfolding mem_dict_lookup first_xt
found_only word h rest e =
    only (length word == 4 && is_zero (strncasecmp (105 ∷ 100 ∷ 108 ∷ 101 ∷ []) word (length word)))
      e
  where
    only : (b : Bool) → (if b then words else []) ≡ h ∷ rest → h.xt ≡ 40
    only true found = ap first_xt (sym found)
    only false found = ap first_xt (sym found)

room_left : (a b : ℕ) → b ≤ a → (difference a b == 0) ≡ false → b < a
unfolding difference
room_left a b le room = ground arith

rp_left : (t : Task) → t.rl ≤ t.rp + 1 → (ravail t == 0) ≡ false → t.rl < t.rp + 1
unfolding ravail
rp_left t le room = room_left (t.rp + 1) t.rl le room

either_way :
    (b : Bool) (t : Task)
    → IsInPlace t
    → Onward IsInPlace t.io_src (returns tt (if b then t else record t { ip = 0 }))
unfolding Onward
either_way true t p = (p, refl, refl, omega arith)
either_way false t p = (p, refl, refl, omega arith)

-- IDLE ends, or there is no room on the return stack.
idle_runs :
    (t : Task)
    → IsInPlace t
    → (o : Outcome Unit) × (execute idle_code 2 t (to_cell 40) ≡ some o)
      × Onward IsInPlace t.io_src o
unfolding Onward execute call kind_of run_other rpush
idle_runs t p = elim (Bool-cases (ravail t == 0)) [
  | inl full ↦
      (throw t e_rstkoverflow, rw (execute, full) refl, throw-Onward IsInPlace t e_rstkoverflow p)
  | inr room ↦
      let left = rp_left t p.6 room in
      let called = rpush t (if not (t.ip == 0) then to_value (t.ip + 1) else 0) in
      let code : called.mem 5 ≡ 99 = store_other t.mem t.rp _ 5 (omega arith) ∙ p.0 in
      (
        returns tt (if not (t.ip == 0) then called else record called { ip = 0 }),
        rw (execute, room, code) refl,
        either_way (not (t.ip == 0)) called (code, p.1, p.2, p.3, p.4, p.5, omega arith),
      )
]

safe : IsSafe setting IsInPlace
unfolding io_word io_parse push avail compile_cell store_byte dict_lookup visible
safe = record {
  reads = λ t p. (
    store_text_below _ (store_byte t.mem t.here _) (t.here + 1) 5 (omega arith)
        ∙ store_other t.mem (t.here / 8) _ 5 (omega arith)
        ∙ p.0,
    p.1,
    p.2,
    p.3,
    p.4,
    p.5,
    p.6,
  );
  pushes = λ t v p room.
      let left = room_left (t.sp + 1) t.sl p.4 room in
      (store_other t.mem t.sp v 5 (omega arith) ∙ p.0, p.1, p.2, p.3, omega arith, p.5, p.6);
  compiles = λ t v p. (
    store_other t.mem (t.here / 8) v 5 (omega arith) ∙ p.0,
    p.1,
    omega arith,
    p.3,
    p.4,
    p.5,
    p.6,
  );
  executes = λ t word h rest p found.
      rw (found_only word h rest (ap (λ d. mem_dict_lookup (visible d) word) (sym p.1) ∙ found))
        (idle_runs t p);
}

-- At 88, from byte 16 on, the text "7 Idle 12".
abbrev text : Bytes
text = 55 ∷ 32 ∷ 73 ∷ 100 ∷ 108 ∷ 101 ∷ 32 ∷ 49 ∷ 50 ∷ []

abbrev pub beginning : Task
beginning = record sample {
  mem = store_text (λ a. if a == 5 then 99 else 0) 80 text;
  here = 400;
  sl = 100;
  s0 = 110;
  sp = 110;
  rl = 120;
  r0 = 130;
  rp = 130;
  tr0 = 130;
  dict = words;
}

in_place : IsInPlace (called (set_valid true (set_source 80 9 beginning)))
unfolding rpush store_text store_byte set_byte store
in_place = (refl, refl, omega arith, omega arith, omega arith, omega arith, omega arith)

evaluate_example :
    (res : ℕ) × (task' : Task) × (evaluate setting 10 beginning 80 9 ≡ some (returns res task'))
    × (task'.io_src ≡ beginning.io_src)
    × (task'.exception.code ≡ 0)
    × (task'.exception.valid ≡ false)
unfolding ravail
evaluate_example =
    evaluate_lem setting IsInPlace safe 10 beginning 80 9 (λ f t off. (t, refl, off)) refl refl
      in_place (omega arith) (omega arith) (omega arith)
