-- ===== src/Evaluate/Ends.antt =====
-- The evaluation of a text ends, where each word that it executes ends.
use e.Base.{
  ℕ, zero, suc, ◌+◌, ◌-◌, ◌<◌, ◌≤◌, ◌≡◌, refl, arith, Bool, true, false, not, ◌||◌, ltb, ◌==◌,
  if◌then◌else◌, Option, none, some, List, [], ◌∷◌, Bytes, inl, inr, ◌⊎◌, Bool-cases,
}
use e.Errors.{e_undefword, e_componlyword, e_stkoverflow}
use e.Usize.{modulus, has_flag}
use e.Task.{Task, InputSource}
use e.Stack.{avail, push}
use e.Dict.{dict_lookup}
use e.Dict.Entry.{Header}
use e.Exception.{Outcome, returns, throws, throw, throw_then}
use e.Compile.{compile_cell, compile_literal}
use e.Space.{task_compiling}
use e.Execute.Words.{to_cell}
use e.Execute.{Run, execute}
use e.Mem.Text.{f_skip_leading}
use e.Io.Source.{io_word, io_parse}
use e.Io.Source.Words.{io_parse_bounds}
use e.Evaluate.{
  Setting, f_immediate, f_componly, whole_number, evaluate_compile, evaluate_interpret,
  evaluate_word, word_at_here, evaluate_loop,
}

-- Code that returns keeps `P` and the input buffer, and does not move >IN back.
unfoldable pub Onward : (Task → Type 0) → InputSource → Outcome Unit → Type 0
Onward P src (returns _ task) =
    P task
    × (task.io_src.buffer ≡ src.buffer)
    × (task.io_src.length ≡ src.length)
    × (src.to_in ≤ task.io_src.to_in)
Onward P src (throws task) = Unit

-- What the words of a text may rely on, and what is expected of them: `P` stays true when a word
-- is read, a number is pushed or a cell is compiled, and a word that is found ends and goes onward.
pub record IsSafe (s : Setting) (P : Task → Type 0) : Type 0 where
  pub reads : (t : Task) → P t → P (io_word t 32)
  pub pushes : (t : Task) (v : ℕ) → P t → (avail t == 0) ≡ false → P (push t v)
  pub compiles : (t : Task) (v : ℕ) → P t → P (compile_cell t v)
  pub executes :
      (t : Task) (word : Bytes) (h : Header) (rest : List Header)
      → P t
      → dict_lookup t word ≡ h ∷ rest
      → (o : Outcome Unit) × (execute s.code s.fuel t (to_cell h.xt) ≡ some o) × Onward P t.io_src o

jump_or_stay :
    (b : Bool) (stay : Outcome Unit) (thrown : Task)
    → ((if b then stay else throws thrown) ≡ stay)
      ⊎ ((t' : Task) × ((if b then stay else throws thrown) ≡ throws t'))
jump_or_stay true stay thrown = inl refl
jump_or_stay false stay thrown = inr (thrown, refl)

throw-cases :
    (t : Task) (e : ℕ) → (throw t e ≡ returns tt t) ⊎ ((t' : Task) × (throw t e ≡ throws t'))
unfolding throw throw_then
throw-cases t e = jump_or_stay (e == 0 || not t.exception.valid) (returns tt t) _

-- Reading a word moves >IN on.
abbrev Forward : Task → Type 0
Forward t =
    let read = io_word t 32 in
    (read.io_src.buffer ≡ t.io_src.buffer)
    × (read.io_src.length ≡ t.io_src.length)
    × (t.io_src.to_in < read.io_src.to_in)

read-Forward :
    (t : Task)
    → t.io_src.to_in < t.io_src.length
    → t.io_src.buffer + t.io_src.length < modulus - 1
    → Forward t
unfolding io_word io_parse
read-Forward t inside low =
    let p = io_parse_bounds t 32 f_skip_leading inside low in (refl, refl, p.3)

pub throw-Onward : (P : Task → Type 0) (t : Task) (e : ℕ) → P t → Onward P t.io_src (throw t e)
unfolding throw throw_then Onward
throw-Onward P t e p = elim (Bool-cases (e == 0 || not t.exception.valid)) [
  | inl stays ↦ rw stays (p, refl, refl, omega arith)
  | inr jumps ↦ rw jumps tt
]

module _ (s : Setting) (P : Task → Type 0) (safe : IsSafe s P) where
  abbrev Ends : InputSource → Run → Type 0
  Ends src run = (o : Outcome Unit) × (run ≡ some o) × Onward P src o

  compile-Ends :
      (t : Task) (word : Bytes) (found : List Header) (number : Option ℕ)
      → P t
      → dict_lookup t word ≡ found
      → whole_number t word ≡ number
      → Ends t.io_src (evaluate_compile s t word)
  unfolding evaluate_compile Onward compile_literal compile_cell
  compile-Ends t word [] none p f n =
      (throw t e_undefword, rw (evaluate_compile, f, n) refl, throw-Onward P t e_undefword p)
  compile-Ends t word [] (some num) p f n = (
    returns tt (compile_literal s.addresses t num),
    rw (evaluate_compile, f, n) refl,
    (
      safe.compiles (compile_cell t s.addresses.b_lit_cell) num
          (safe.compiles t s.addresses.b_lit_cell p),
      refl,
      refl,
      omega arith,
    ),
  )
  compile-Ends t word (h ∷ rest) number p f n = elim (Bool-cases (has_flag h.flags f_immediate)) [
    | inl now ↦
        let ran = safe.executes t word h rest p f in
        (ran.0, rw (evaluate_compile, f, now) ran.1, ran.2)
    | inr later ↦ (
      returns tt (compile_cell t h.xt),
      rw (evaluate_compile, f, later) refl,
      (safe.compiles t h.xt p, refl, refl, omega arith),
    )
  ]

  interpret-Ends :
      (t : Task) (word : Bytes) (found : List Header) (number : Option ℕ)
      → P t
      → dict_lookup t word ≡ found
      → whole_number t word ≡ number
      → Ends t.io_src (evaluate_interpret s t word)
  unfolding evaluate_interpret Onward push
  interpret-Ends t word [] none p f n =
      (throw t e_undefword, rw (evaluate_interpret, f, n) refl, throw-Onward P t e_undefword p)
  interpret-Ends t word [] (some num) p f n = elim (Bool-cases (avail t == 0)) [
    | inl full ↦ (
      throw t e_stkoverflow,
      rw (evaluate_interpret, f, n, full) refl,
      throw-Onward P t e_stkoverflow p,
    )
    | inr room ↦ (
      returns tt (push t num),
      rw (evaluate_interpret, f, n, room) refl,
      (safe.pushes t num p room, refl, refl, omega arith),
    )
  ]
  interpret-Ends t word (h ∷ rest) number p f n =
      let ran = safe.executes t word h rest p f in
      elim (Bool-cases (has_flag h.flags f_componly)) [
        | inr free ↦ (ran.0, rw (evaluate_interpret, f, free) ran.1, ran.2)
        | inl only ↦ refused ran only
      ]
    where
      refused :
          Ends t.io_src (execute s.code s.fuel t (to_cell h.xt))
          → has_flag h.flags f_componly ≡ true
          → Ends t.io_src (evaluate_interpret s t word)
      refused ran only = elim (throw-cases t e_componlyword) [
        | inl on ↦ (ran.0, rw (evaluate_interpret, f, only, on) ran.1, ran.2)
        | inr jump ↦ (throws jump.0, rw (evaluate_interpret, f, only, jump.1) refl, tt)
      ]

  word-Ends : (t : Task) (word : Bytes) → P t → Ends t.io_src (evaluate_word s t word)
  unfolding evaluate_word Onward
  word-Ends t [] p = (returns tt t, refl, (p, refl, refl, omega arith))
  word-Ends t (c ∷ cs) p = elim (Bool-cases (task_compiling t)) [
    | inl compiles ↦
        rw (evaluate_word, compiles)
          (compile-Ends t (c ∷ cs) (dict_lookup t (c ∷ cs)) (whole_number t (c ∷ cs)) p refl refl)
    | inr interprets ↦
        rw (evaluate_word, interprets)
          (interpret-Ends t (c ∷ cs) (dict_lookup t (c ∷ cs)) (whole_number t (c ∷ cs)) p refl refl)
  ]

  -- What is left when the loop has ended: nothing, unless it was left by a jump.
  unfoldable pub Consumed : Outcome Unit → Type 0
  Consumed (returns _ task) = P task × (task.io_src.length ≤ task.io_src.to_in)
  Consumed (throws task) = Unit

  -- The loop ends with fuel for a round more than the bytes that are left.
  pub loop_ends :
      (fuel : ℕ) (t : Task)
      → P t
      → t.io_src.buffer + t.io_src.length < modulus - 1
      → t.io_src.length - t.io_src.to_in < fuel
      → (o : Outcome Unit) × (evaluate_loop s fuel t ≡ some o) × Consumed o
  unfolding evaluate_loop Consumed Onward
  loop_ends zero t p low enough = absurd (omega arith)
  loop_ends (suc fuel) t p low enough = elim (Bool-cases (ltb t.io_src.to_in t.io_src.length)) [
    | inr done ↦ (returns tt t, rw (evaluate_loop, done) refl, (p, ground arith))
    | inl more ↦
        let read = io_word t 32 in
        let moved = read-Forward t (ground arith) low in
        let ran = word-Ends read (word_at_here read) (safe.reads t p) in
        next (loop_ends fuel) ran.0 ran.1 ran.2 moved more (ground arith)
  ]
    where
      next :
          ((t' : Task)
            → P t'
            → t'.io_src.buffer + t'.io_src.length < modulus - 1
            → t'.io_src.length - t'.io_src.to_in < fuel
            → (o : Outcome Unit) × (evaluate_loop s fuel t' ≡ some o) × Consumed o)
          → (o : Outcome Unit)
          → evaluate_word s (io_word t 32) (word_at_here (io_word t 32)) ≡ some o
          → Onward P (io_word t 32).io_src o
          → Forward t
          → ltb t.io_src.to_in t.io_src.length ≡ true
          → t.io_src.to_in < t.io_src.length
          → (o' : Outcome Unit) × (evaluate_loop s (suc fuel) t ≡ some o') × Consumed o'
      next later (throws thrown) run onward moved more inside =
          (throws thrown, rw (evaluate_loop, more, run) refl, tt)
      next later (returns _ task) run onward moved more inside =
          let rest = later task onward.0 (omega arith) (omega arith) in
          (rest.0, rw (evaluate_loop, more, run) rest.1, rest.2)
