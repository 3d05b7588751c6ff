-- ===== src/Io/Source/Words.antt =====
-- Where e4__io_parse and e4__io_word leave >IN, and the word that is stored at HERE.
use e.Base.{
  ℕ, ◌+◌, ◌-◌, ◌<◌, ◌≤◌, ◌≡◌, refl, arith, Bool, true, false, ltb, if◌then◌else◌, Bytes, [], ◌∷◌,
  length,
}
use e.Usize.{modulus, has_flag}
use e.Task.{Task}
use e.Task.ByteAccess.{load_text, length-load_text}
use e.Mem.Text.{skip_delim, parse_length, mem_parse, f_skip_leading, f_ignore_esc}
use e.Io.Source.{rest_of_input, io_parse, set_in}

skip_delim-le : (delim : ℕ) (s : Bytes) → length (skip_delim delim s) ≤ length s
unfolding skip_delim
skip_delim-le delim [] = omega arith
skip_delim-le delim (c ∷ cs) = ground (arith, skip_delim-le delim cs)

parse_length-le :
    (delim : ℕ) (ignore escaped : Bool) (s : Bytes) → parse_length delim ignore escaped s ≤ length s
unfolding parse_length
parse_length-le delim ignore escaped [] = omega arith
parse_length-le delim ignore escaped (c ∷ cs) =
    ground (arith, parse_length-le delim ignore false cs, parse_length-le delim ignore true cs)

-- A text that is found lies inside the text in which it is looked for.
mem_parse-le :
    (s : Bytes) (delim flags : ℕ)
    → (length (mem_parse s delim flags).out ≤ length s)
      × ((mem_parse s delim flags).length ≤ length (mem_parse s delim flags).out)
unfolding mem_parse
mem_parse-le s delim flags = (
  ground (arith, skip_delim-le delim s),
  parse_length-le delim (has_flag flags f_ignore_esc) false
      (if has_flag flags f_skip_leading then skip_delim delim s else s),
)

-- Where >IN is within the input, and the input ends below the last word of memory, e4__io_parse
-- finds a text inside the part of the input that is left, and moves >IN on, to at most one byte
-- behind the input; it changes nothing else.
pub io_parse_bounds :
    (task : Task) (delim flags : ℕ)
    → task.io_src.to_in < task.io_src.length
    → task.io_src.buffer + task.io_src.length < modulus - 1
    → let p = io_parse task delim flags in
      (task.io_src.buffer + task.io_src.to_in ≤ p.out)
      × (p.out + p.length ≤ task.io_src.buffer + task.io_src.length)
      × (p.task.io_src.to_in ≡ p.out + p.length + 1 - task.io_src.buffer)
      × (task.io_src.to_in < p.task.io_src.to_in)
      × (p.task.io_src.to_in ≤ task.io_src.length + 1)
      × (p.task ≡ set_in p.task.io_src.to_in task)
unfolding io_parse rest_of_input
io_parse_bounds task delim flags inside low =
    let left : ltb task.io_src.to_in task.io_src.length ≡ true = ground arith in
    let n =
      if ltb task.io_src.to_in task.io_src.length
      then task.io_src.length - task.io_src.to_in
      else 0 in
    let input = load_text task.mem (task.io_src.buffer + task.io_src.to_in) n in
    let size = length-load_text task.mem (task.io_src.buffer + task.io_src.to_in) n in
    let size' : n ≡ task.io_src.length - task.io_src.to_in = rw left refl in
    let found = mem_parse-le input delim flags in
    let found' = found.1 in
    let found'' = found.0 in (omega arith, omega arith, omega arith, omega arith, omega arith, refl)

abbrev pub clamped : ℕ → ℕ
clamped n = if ltb n 256 then n else 255
