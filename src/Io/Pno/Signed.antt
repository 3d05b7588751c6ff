-- ===== src/Io/Pno/Signed.antt =====
-- The text of a signed word that e4__io_pno_digits writes.
use e.Base.{
  ℕ, ◌+◌, ◌-◌, ◌%◌, ◌/◌, ◌*◌, ◌^◌, ◌<◌, ◌≤◌, ◌≡◌, refl, ap, ◌∙◌, arith, Bool, true, false, ltb,
  ◌==◌, if◌then◌else◌, some, Bytes, [], ◌∷◌, List, length, map, All, inl, inr, Bool-cases, ltb→lt,
}
use e.Usize.{Double, modulus, f_signed, is_negative, to_double, max_usize}
use e.Usize.Signed.{value, IsWords, double_negate-IsWords, value-double_negate}
use e.Double.{double_negate}
use e.Task.{Task}
use e.Mem.Number.Loop.{horner}
use e.Mem.Pictured.{Pictured, PicturedLoop, pno_loop, pno_sign, pno_digits, pno_hold}
use e.Mem.Pictured.Numerals.{numeral}
use e.Mem.Pictured.Texts.{digits_text, length-numerals}
use e.Io.Pno.{io_pno_digits, written_digits, write_down, PnoDigits}
use e.Io.Pno.Holds.{IsBuilding}
use e.Io.Pno.Digits.{numerals-IsText}
use e.Task.ByteAccess.{IsText}

-- A sign, and digits.
abbrev pub signed_text : Bool → List ℕ → Bytes
signed_text negative ds = if negative then 45 ∷ map numeral ds else map numeral ds

abbrev pub size_of : ℕ → ℕ
size_of res = if is_negative res then 2 ^ 64 - res else res

-- The double word of which the digits are written.
abbrev unsigned : ℕ → Double
unsigned res = if is_negative res then double_negate (to_double res) else to_double res

unsigned-IsWords :
    (res : ℕ) → res < 2 ^ 64 → IsWords (unsigned res) × (value (unsigned res) ≡ size_of res)
unfolding to_double is_negative
unsigned-IsWords res word = elim (Bool-cases (is_negative res)) [
  | inl below ↦
      let d : Double = record { high = max_usize; low = res } in
      rw below (
        double_negate-IsWords d,
        value-double_negate d (omega arith, word) ∙ negated res word below,
      )
  | inr above ↦ rw above ((omega arith, word), omega arith)
]
  where
    negated :
        (res : ℕ)
        → res < 2 ^ 64
        → is_negative res ≡ true
        → (2 ^ 128 - (max_usize * 2 ^ 64 + res)) % 2 ^ 128 ≡ 2 ^ 64 - res
    negated res word below =
        let large : max_usize / 2 < res = ltb→lt (max_usize / 2) res below in omega arith

sign_lem : (res : ℕ) → is_negative (to_double res).high ≡ is_negative res
unfolding to_double is_negative
sign_lem res = elim (Bool-cases (ltb (max_usize / 2) res)) [
  | inl below ↦ rw below refl
  | inr above ↦ rw above refl
]

digits_run :
    (len base : ℕ) (ud : Double) (negative : Bool) (s : PicturedLoop)
    → is_negative ud.high ≡ negative
    → pno_loop len [] base (if negative then double_negate ud else ud) ≡ some s
    → pno_digits [] len base f_signed ud ≡ some (pno_sign negative s)
unfolding pno_digits
digits_run len base ud negative s sign run =
    rw (pno_digits, sign, run) (ap (λ b. some (pno_sign b s)) sign)

io_run :
    (task : Task) (ud : Double) (flags len base : ℕ) (p : Pictured)
    → task.here ≤ task.pno.offset
    → 1 ≤ task.pno.offset
    → (task.pno.offset - task.here + modulus - 1) % modulus ≡ len
    → task.base % 256 ≡ base
    → pno_digits [] len base flags ud ≡ some p
    → io_pno_digits task ud flags
      ≡ some (record { res = p.res; ud = p.ud; task = write_down task p.text })
unfolding io_pno_digits written_digits
io_run task ud flags len base p above full size same run =
    let nonzero : (task.pno.offset == 0) ≡ false = ground arith in
    let over : ltb task.pno.offset task.here ≡ false = ground arith in
    rw (io_pno_digits, size, same, run, nonzero, over) refl

sign_text :
    (negative : Bool) (s : PicturedLoop) (ds : List ℕ)
    → 1 ≤ s.len
    → s.pictured.text ≡ map numeral ds
    → (pno_sign negative s).text ≡ signed_text negative ds
unfolding pno_sign pno_hold
sign_text true s ds left text =
    let some_left : (s.len == 0) ≡ false = ground arith in rw (some_left, text) refl
sign_text false s ds left text = text

-- While a picture is built with room for 132 bytes above HERE, e4__io_pno_digits writes a signed word
-- in full: its sign, and the digits of its size.
pub io_pno_digits_signed :
    (task : Task) (res : ℕ)
    → res < 2 ^ 64
    → IsBuilding task
    → task.here + 132 ≤ task.pno.offset
    → 2 ≤ task.base
    → task.base ≤ 36
    → (r : PnoDigits) × (ds : List ℕ) × (io_pno_digits task (to_double res) f_signed ≡ some r)
      × (r.task ≡ write_down task (signed_text (is_negative res) ds))
      × (horner task.base 0 ds ≡ size_of res)
      × All (λ d. d < task.base) ds
      × (length ds ≤ 128)
io_pno_digits_signed task res word building room low high =
    let len = task.pno.offset - task.here - 1 in
    let size : (task.pno.offset - task.here + modulus - 1) % modulus ≡ len = omega arith in
    let u = unsigned-IsWords res word in
    let ran = digits_text 127 task.base len (unsigned res) refl u.0 low high (omega arith) in
    let p = pno_sign (is_negative res) ran.0 in
    let count = ran.7 in
    let bound = ran.8 in
    (
      record { res = p.res; ud = p.ud; task = write_down task p.text },
      ran.1,
      io_run task (to_double res) f_signed len task.base p (omega arith) (omega arith) size
          (omega arith)
          (digits_run len task.base (to_double res) (is_negative res) ran.0 (sign_lem res) ran.2),
      ap (write_down task) (sign_text (is_negative res) ran.0 ran.1 (omega arith) ran.3),
      ran.4 ∙ u.1,
      ran.5,
      bound,
    )

pub signed_text-IsText : (negative : Bool) (ds : List ℕ) → IsText (signed_text negative ds)
signed_text-IsText true ds = (omega arith, numerals-IsText ds)
signed_text-IsText false ds = numerals-IsText ds

pub length-signed_text :
    (negative : Bool) (ds : List ℕ) → length (signed_text negative ds) ≤ length ds + 1
length-signed_text true ds = omega (arith, length-numerals ds)
length-signed_text false ds = omega (arith, length-numerals ds)
