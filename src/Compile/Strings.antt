-- ===== src/Compile/Strings.antt =====
-- The characters and strings that core/src/kernel/compile.c compiles: a string is copied behind the
-- cells in front of it, which are stored last. `lit` is the address of the token that the string is
-- for. The text lies in memory, and may lie where it is copied to.
use e.Base.{
  ℕ, zero, suc, ◌+◌, ◌-◌, ◌*◌, ◌/◌, ◌%◌, ◌^◌, ◌<◌, ◌≤◌, ◌≡◌, refl, ◌∙◌, arith, Bytes, [], ◌∷◌,
  length, ap, ◌⊎◌,
}
use e.Task.{Task, Memory, store}
use e.Task.ByteAccess.{load_byte, load_text, store_byte, store_text}
use e.Stack.Contents.{store_same, store_other}
use e.Mem.Layout.{aligned, aligned_lem, cell_sz}
use e.Compile.Copied.{copy_loop, copy_loop_lem}
use e.Mem.Escape.{unescape}
use e.Mem.Escape.RoundTrip.{escaped, unescape-escaped}

-- e4__compile_char
unfoldable pub compile_char : Task → ℕ → Task
compile_char task cell = record task {
  mem = store_byte task.mem task.here (cell % 256);
  here = task.here + 1;
}

-- e4__compile_cstr, for the text at the address `str`, of `len` bytes, 255 at most.
unfoldable pub compile_cstr : ℕ → Task → ℕ → ℕ → Task
compile_cstr lit task str len =
    let copied = store_text task.mem (task.here + cell_sz + 1) (load_text task.mem str len) in
    record task {
      mem = store_byte (store copied (task.here / cell_sz) lit) (task.here + cell_sz) len;
      here = aligned (task.here + cell_sz + len + 1);
    }

-- e4__compile_estr, for the `len` bytes at the address `str`.
unfoldable pub compile_estr : ℕ → Task → ℕ → ℕ → Task
compile_estr lit task str len =
    let copied = copy_loop len task.mem str len (task.here + 2 * cell_sz) in
    let n = copied.buffer - (task.here + 2 * cell_sz) in
    record task {
      mem = store (store copied.mem (task.here / cell_sz) lit) (task.here / cell_sz + 1) n;
      here = aligned (task.here + 2 * cell_sz + n);
    }

-- e4__compile_str, for the `len` bytes at the address `str`.
unfoldable pub compile_str : ℕ → Task → ℕ → ℕ → Task
compile_str lit task str len =
    let copied = store_text task.mem (task.here + 2 * cell_sz) (load_text task.mem str len) in
    record task {
      mem = store (store copied (task.here / cell_sz) lit) (task.here / cell_sz + 1) len;
      here = aligned (task.here + 2 * cell_sz + len);
    }

-- A store of a cell below a text leaves the text.
load_text-store :
    (m : Memory) (c v a n : ℕ)
    → c * cell_sz + cell_sz ≤ a
    → load_text (store m c v) a n ≡ load_text m a n
unfolding load_text load_byte
load_text-store m c v a zero above = refl
load_text-store m c v a (suc n) above =
    rw (store_other m c v (a / 8) (omega arith), load_text-store m c v (a + 1) n (omega arith)) refl

length-escaped : (s : Bytes) → length s ≤ length (escaped s)
length-escaped [] = omega arith
length-escaped (c ∷ cs) = ground (arith, length-escaped cs)

-- For an aligned HERE and a text with its backslashes escaped that lies in memory, from the second
-- cell behind HERE on or before that cell, compiling the text stores the token, the length and the
-- text without its escapes, in this order from HERE on; HERE is then aligned and behind the text, by
-- less than a cell.
pub compile_estr_lem :
    (lit : ℕ) (task : Task) (s : Bytes) (str : ℕ)
    → task.here % cell_sz ≡ 0
    → task.here + 2 * cell_sz + length s < 2 ^ 64 - 7
    → load_text task.mem str (length (escaped s)) ≡ escaped s
    → (task.here + 2 * cell_sz ≤ str) ⊎ (str + length (escaped s) ≤ task.here + 2 * cell_sz)
    → let t = compile_estr lit task str (length (escaped s)) in
      (t.mem (task.here / cell_sz) ≡ lit)
      × (t.mem (task.here / cell_sz + 1) ≡ length s)
      × (load_text t.mem (task.here + 2 * cell_sz) (length s) ≡ s)
      × (t.here % cell_sz ≡ 0)
      × (task.here + 2 * cell_sz + length s ≤ t.here)
      × (t.here < task.here + 3 * cell_sz + length s)
unfolding compile_estr
compile_estr_lem lit task s str at room there apart =
    let buffer = task.here + 2 * cell_sz in
    let c = task.here / cell_sz in
    let n = length s in
    let copied = copy_loop (length (escaped s)) task.mem str (length (escaped s)) buffer in
    let text : unescape (length (escaped s)) (load_text task.mem str (length (escaped s))) ≡ s =
      ap (unescape (length (escaped s))) there
      ∙ unescape-escaped s (length (escaped s)) (length-escaped s) in
    let done =
      rw text at
        (copy_loop_lem (length (escaped s)) task.mem str (length (escaped s)) buffer apart) in
    let size : copied.buffer - buffer ≡ n = omega (arith, done.ends) in
    let ends = aligned_lem (buffer + n) room in
    rw size (
      store_other (store copied.mem c lit) (c + 1) n c (omega arith) ∙ store_same copied.mem c lit,
      store_same (store copied.mem c lit) (c + 1) n,
      load_text-store (store copied.mem c lit) (c + 1) n buffer n (omega arith)
          ∙ load_text-store copied.mem c lit buffer n (omega arith)
          ∙ done.copied,
      ends.0,
      ends.1,
      omega arith,
    )
