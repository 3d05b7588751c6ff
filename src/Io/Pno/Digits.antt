-- ===== src/Io/Pno/Digits.antt =====
-- The room that e4__io_pno_digits takes.
use e.Base.{
  List, map, All, ap, ℕ, zero, suc, ◌+◌, ◌-◌, ◌/◌, ◌%◌, ◌<◌, ◌≤◌, ◌≡◌, ◌≢◌, refl, ◌∙◌, arith, Bool,
  true, false, ◌&&◌, ltb, ◌==◌, if◌then◌else◌, some, Bytes, [], ◌∷◌, length, inl, inr, Bool-cases,
}
use e.Errors.{e_ok, e_pnooverflow}
use e.Usize.{Double, modulus, has_flag, f_signed, is_negative}
use e.Usize.Signed.{value, IsWords, double_negate-IsWords}
use e.Double.{double_negate}
use e.Task.{Task, Memory}
use e.Task.ByteAccess.{load_text, store_text, IsText, load_text-store_outside, load_text-store_text}
use e.Mem.Pictured.{Pictured, PicturedLoop, pno_byte, pno_loop, pno_sign, pno_digits, pno_hold}
use e.Mem.Number.Loop.{horner}
use e.Mem.Pictured.Numerals.{numeral, numeral-lt}
use e.Mem.Pictured.Texts.{digits_text, two_digits, length-numerals}
use e.Mem.Pictured.Digits.{double_of, step_last, step_more}
use e.Io.Pno.{io_pno_digits, written_digits, write_down, PnoDigits}
use e.Io.Pno.Holds.{IsBuilding}

pno_byte-lt : (d : ℕ) → pno_byte d < 256
unfolding pno_byte
pno_byte-lt d = ground arith

-- What has been written in at most `len` more bytes than `text`.
abbrev pub IsWithin : ℕ → Bytes → Bytes → Type 0
IsWithin len text text' = (length text' ≤ length text + len) × IsText text'

-- The least number of bytes that are written.
abbrev pub least : ℕ → ℕ
least zero = 0
least (suc _) = 1

module _ (base : ℕ) (low : 2 ≤ base) (high : base ≤ 36) where
  loop_total :
      (len : ℕ) (text : Bytes) (ud : Double)
      → IsWords ud
      → IsText text
      → (s : PicturedLoop) × (pno_loop len text base ud ≡ some s)
        × (length s.pictured.text + s.len ≤ length text + len)
        × IsText s.pictured.text
        × (length text + least len ≤ length s.pictured.text)
  unfolding pno_loop
  loop_total zero text ud words bytes = (
    record { pictured = record { text = text; ud = ud; res = e_pnooverflow }; len = 0 },
    refl,
    omega arith,
    bytes,
    omega arith,
  )
  loop_total (suc len) text ud words bytes =
      let c = pno_byte (value ud % base) in
      let small = pno_byte-lt (value ud % base) in
      elim (Bool-cases (value ud / base == 0)) [
        | inl last ↦
            let none_left : value ud / base ≡ 0 = ground arith in
            (
              _,
              step_last base low high len text ud words none_left,
              omega arith,
              (small, bytes),
              omega arith,
            )
        | inr more ↦
            let some_left : value ud / base ≢ 0 = ground arith in
            let rest =
              loop_total len (c ∷ text) (double_of (value ud / base)) (omega arith)
                (small, bytes) in
            (
              rest.0,
              step_more base low high len text ud words some_left ∙ rest.1,
              (let bound = rest.2 in omega arith),
              rest.3,
              (let grows = rest.4 in omega arith),
            )
      ]

  either-IsWords :
      (b : Bool) (ud : Double) → IsWords ud → IsWords (if b then double_negate ud else ud)
  either-IsWords true ud words = double_negate-IsWords ud
  either-IsWords false ud words = words

  signed-IsWithin :
      (b : Bool) (len : ℕ) (s : PicturedLoop)
      → length s.pictured.text + s.len ≤ len
      → IsText s.pictured.text
      → IsWithin len [] (pno_sign b s).text
  unfolding pno_sign pno_hold
  signed-IsWithin false len s bound bytes = (omega arith, bytes)
  signed-IsWithin true len s bound bytes = elim (Bool-cases (s.len == 0)) [
    | inl none_left ↦ rw none_left (omega arith, bytes)
    | inr some_left ↦
        let left : s.len ≢ 0 = ground arith in rw some_left (omega arith, (omega arith, bytes))
  ]

  pub digits_total :
      (len flags : ℕ) (ud : Double)
      → IsWords ud
      → (p : Pictured) × (pno_digits [] len base flags ud ≡ some p) × IsWithin len [] p.text
  unfolding pno_digits
  digits_total len flags ud words =
      let negative = has_flag flags f_signed && is_negative ud.high in
      let ud' = if negative then double_negate ud else ud in
      let words' : IsWords ud' = either-IsWords negative ud words in
      let ran = loop_total len [] ud' words' tt in
      let bound = ran.2 in
      (
        pno_sign negative ran.0,
        rw (pno_digits, ran.1) refl,
        signed-IsWithin negative len ran.0 (omega arith) ran.3,
      )

-- While a picture is built that lies above HERE by a byte or more, e4__io_pno_digits, for a base
-- from 2 to 36, ends: it writes no further than the byte above HERE, and leaves the memory below.
pub io_pno_digits_bounds :
    (task : Task) (ud : Double) (flags : ℕ)
    → IsBuilding task
    → task.here < task.pno.offset
    → 2 ≤ task.base
    → task.base ≤ 36
    → IsWords ud
    → (r : PnoDigits) × (io_pno_digits task ud flags ≡ some r)
      × (task.here < r.task.pno.offset)
      × (r.task.pno.offset ≤ task.pno.offset)
      × (load_text r.task.mem 0 task.here ≡ load_text task.mem 0 task.here)
unfolding io_pno_digits written_digits write_down
io_pno_digits_bounds task ud flags building room low high words =
    let same : task.base % 256 ≡ task.base = omega arith in
    let avail_len = (task.pno.offset - task.here + modulus - 1) % modulus in
    let size : avail_len ≡ task.pno.offset - task.here - 1 = omega arith in
    let ran = digits_total task.base low high avail_len flags ud words in
    let bound = ran.2.0 in
    let nonzero : (task.pno.offset == 0) ≡ false = ground arith in
    let above : ltb task.pno.offset task.here ≡ false = ground arith in
    (
      record { res = ran.0.res; ud = ran.0.ud; task = write_down task ran.0.text },
      rw (nonzero, above, same, ran.1) refl,
      omega arith,
      omega arith,
      load_text-store_outside task.mem (task.pno.offset + 1 - length ran.0.text) ran.0.text 0
          task.here ran.2.1 (inl (omega arith)),
    )

pub numerals-IsText : (ds : List ℕ) → IsText (map numeral ds)
numerals-IsText [] = tt
numerals-IsText (d ∷ ds) = (numeral-lt d, numerals-IsText ds)

-- The characters of digits that are stored below an address.
pub numerals_stored :
    (m : Memory) (end end' : ℕ) (ds : List ℕ) (text : Bytes)
    → end ≡ end'
    → text ≡ map numeral ds
    → load_text (store_text m (end - length text) text) (end' - length ds) (length ds)
      ≡ map numeral ds
numerals_stored m end end' ds text same e =
    rw (same, e, length-numerals ds)
      (rw (length-numerals ds) at (
        load_text-store_text m (end' - length (map numeral ds)) (map numeral ds)
          (numerals-IsText ds)))

-- Where only the byte at HERE is left for a picture, the room wraps: an unsigned number of two digits
-- or more is written in full, its last digit at the byte at HERE and the others over the bytes below
-- HERE, and the result is OK.
pub io_pno_digits_below :
    (task : Task) (ud : Double)
    → 128 ≤ task.here
    → task.here < modulus
    → task.pno.offset ≡ task.here
    → 2 ≤ task.base
    → task.base ≤ 36
    → IsWords ud
    → task.base ≤ value ud
    → (r : PnoDigits) × (ds : List ℕ) × (io_pno_digits task ud 0 ≡ some r)
      × (r.res ≡ e_ok)
      × (horner task.base 0 ds ≡ value ud)
      × All (λ d. d < task.base) ds
      × (2 ≤ length ds)
      × (r.task.pno.offset + length ds ≡ task.here)
      × (load_text r.task.mem (task.here + 1 - length ds) (length ds) ≡ map numeral ds)
unfolding io_pno_digits written_digits write_down pno_digits pno_sign
io_pno_digits_below task ud enough small full low high words more =
    let same : task.base % 256 ≡ task.base = omega arith in
    let avail_len = (task.pno.offset - task.here + modulus - 1) % modulus in
    let ran = digits_text 127 task.base avail_len ud refl words low high (omega arith) in
    let nonzero : (task.pno.offset == 0) ≡ false = ground arith in
    let above : ltb task.pno.offset task.here ≡ false = ground arith in
    let text = ran.0.pictured.text in
    let count : length text ≡ length ran.1 = ap length ran.3 ∙ length-numerals ran.1 in
    let bound = ran.8 in
    (
      record { res = ran.0.pictured.res; ud = ran.0.pictured.ud; task = write_down task text },
      ran.1,
      rw (nonzero, above, same, pno_digits, ran.2) refl,
      ran.6,
      ran.4,
      ran.5,
      two_digits task.base ran.1 ran.5 (omega arith) (rw ran.4 more),
      omega arith,
      numerals_stored task.mem (task.pno.offset + 1) (task.here + 1) ran.1 text (omega arith) ran.3,
    )
