-- ===== src/Io/Pno/Holds.antt =====
-- The text that e4__io_pno_holds builds, and e4__io_pno_finish returns.
use mathlib.Core.Path.{subst}
use e.Base.{
  ℕ, zero, suc, ◌+◌, ◌-◌, ◌*◌, ◌%◌, ◌<◌, ◌≤◌, ◌≡◌, refl, sym, ap, ◌∙◌, arith, true, false, not, ltb,
  Bool-cases, ◌==◌, if◌then◌else◌, some, Bytes, List, [], ◌∷◌, ◌++◌, length, append-nil, inl, inr,
}
use e.Errors.{e_ok, e_pnooverflow}
use e.Usize.{modulus}
use e.Task.{Task, Memory}
use e.Task.ByteAccess.{load_text, store_text, IsText, load_text-store_text, load_text-store_outside}
use e.Mem.Layout.{cell_sz}
use e.Mem.Pictured.{pno_holds}
use e.Dict.{Returned}
use e.Io.Pno.{io_pno_start, io_pno_holds, io_pno_finish, write_down, Picture}

-- The text that is written so far.
unfoldable pub written : Task → Bytes
written task = load_text task.mem (task.pno.offset + 1) (task.pno.end - task.pno.offset)

-- A picture that is being built: it lies at or above HERE, in memory that addresses do not wrap in.
abbrev pub IsBuilding : Task → Type 0
IsBuilding task =
    (2 ≤ task.here)
    × (task.here ≤ task.pno.offset + 1)
    × (1 ≤ task.pno.offset)
    × (task.pno.offset ≤ task.pno.end)
    × (task.pno.end < modulus)

-- Two ranges that meet are one.
load_text-append :
    (m : Memory) (a b k n : ℕ)
    → b ≡ a + k
    → load_text m a (k + n) ≡ load_text m a k ++ load_text m b n
unfolding load_text
load_text-append m a b zero n e =
    let same : b ≡ a = omega arith in let same' : 0 + n ≡ n = omega arith in rw (same, same') refl
load_text-append m a b (suc k) n e =
    let next : suc k + n ≡ suc (k + n) = omega arith in
    rw (next, load_text-append m (a + 1) b k n (omega arith)) refl

-- Writing a text in front of the others where it has room.
pub written-write_down :
    (task : Task) (s : Bytes)
    → IsText s
    → length s ≤ task.pno.offset
    → task.pno.offset ≤ task.pno.end
    → written (write_down task s) ≡ s ++ written task
unfolding written write_down
written-write_down task s bytes room order =
    let at = task.pno.offset + 1 - length s in
    let same : task.pno.offset - length s + 1 ≡ at = omega arith in
    let size : task.pno.end - (task.pno.offset - length s)
        ≡ length s + (task.pno.end - task.pno.offset) =
      omega arith in
    rw
      (
        same,
        size,
        load_text-append (store_text task.mem at s) at (task.pno.offset + 1) (length s)
            (task.pno.end - task.pno.offset) (omega arith),
        load_text-store_text task.mem at s bytes,
        load_text-store_outside task.mem at s (task.pno.offset + 1) (task.pno.end - task.pno.offset)
            bytes (inr (omega arith)),
      )
      refl

-- While a picture is built, e4__io_pno_holds puts a text in front of it where that has room above
-- HERE, and leaves the memory below HERE; where it has none the result is PNOOVERFLOW, and
-- nothing changes.
pub io_pno_holds_lem :
    (task : Task) (s : Bytes) (a n : ℕ)
    → IsBuilding task
    → IsText s
    → length s ≤ task.pno.offset
    → a + n ≤ task.here
    → let r = io_pno_holds task s in
      let fits = not (ltb (task.pno.offset + 1) (task.here + length s)) in
      (r.res ≡ (if fits then e_ok else e_pnooverflow))
      × (written r.task ≡ (if fits then s ++ written task else written task))
      × IsBuilding r.task
      × (load_text r.task.mem a n ≡ load_text task.mem a n)
      × (r.task.here ≡ task.here)
unfolding io_pno_holds pno_holds
io_pno_holds_lem task s a n building bytes short below =
    let nonzero : (task.pno.offset == 0) ≡ false = ground arith in
    let offset' : (task.pno.offset + modulus - length s) % modulus ≡ task.pno.offset - length s =
      omega arith in
    let here' : (task.here + modulus - 1) % modulus ≡ task.here - 1 = omega arith in
    let plain : s ++ [] ≡ s = append-nil s in
    elim (Bool-cases (ltb (task.pno.offset + 1) (task.here + length s))) [
      | inl over ↦
          let test : ltb (task.pno.offset - length s) (task.here - 1) ≡ true = ground arith in
          (
            rw (nonzero, offset', here', test, over) refl,
            rw (nonzero, offset', here', test, over) refl,
            rw (nonzero, offset', here', test) building,
            rw (nonzero, offset', here', test) refl,
            rw (nonzero, offset', here', test) refl,
          )
      | inr fits ↦
          let test : ltb (task.pno.offset - length s) (task.here - 1) ≡ false = ground arith in
          let room : task.here + length s ≤ task.pno.offset + 1 = ground arith in
          (
            rw (nonzero, offset', here', test, fits) refl,
            rw (nonzero, offset', here', test, fits, plain)
                (written-write_down task s bytes short (omega arith)),
            rw (nonzero, offset', here', test, plain) (unfold write_down in omega arith),
            rw (nonzero, offset', here', test, plain)
                (unfold write_down in
                  (load_text-store_outside task.mem (task.pno.offset + 1 - length s) s a n bytes
                    (inl (omega arith)))),
            rw (nonzero, offset', here', test) (unfold write_down in refl),
          )
    ]

-- Calls of e4__io_pno_holds one after the other, whatever they return.
unfoldable pub holds_each : Task → List Bytes → Task
holds_each task [] = task
holds_each task (s ∷ texts) = holds_each (io_pno_holds task s).task texts

-- The texts in the order in which they are read: the last is the first.
unfoldable pub picture_of : List Bytes → Bytes → Bytes
picture_of [] text = text
picture_of (s ∷ texts) text = picture_of texts (s ++ text)

unfoldable pub total : List Bytes → ℕ
total [] = 0
total (s ∷ texts) = length s + total texts

abbrev pub AreTexts : List Bytes → Type 0
AreTexts [] = Unit {0}
AreTexts (s ∷ texts) = IsText s × AreTexts texts

holds_fits :
    (task : Task) (s : Bytes)
    → IsBuilding task
    → task.here + length s ≤ task.pno.offset + 1
    → io_pno_holds task s ≡ record { res = e_ok; task = write_down task s }
unfolding io_pno_holds pno_holds
holds_fits task s building room =
    let nonzero : (task.pno.offset == 0) ≡ false = ground arith in
    let offset' : (task.pno.offset + modulus - length s) % modulus ≡ task.pno.offset - length s =
      omega arith in
    let here' : (task.here + modulus - 1) % modulus ≡ task.here - 1 = omega arith in
    let plain : s ++ [] ≡ s = append-nil s in
    let test : ltb (task.pno.offset - length s) (task.here - 1) ≡ false = ground arith in
    rw (nonzero, offset', here', test, plain) refl

holds_each_lem :
    (task : Task) (texts : List Bytes)
    → IsBuilding task
    → AreTexts texts
    → task.here + total texts ≤ task.pno.offset + 1
    → (written (holds_each task texts) ≡ picture_of texts (written task))
      × IsBuilding (holds_each task texts)
      × ((holds_each task texts).here ≡ task.here)
      × (load_text (holds_each task texts).mem 0 task.here ≡ load_text task.mem 0 task.here)
unfolding holds_each picture_of total write_down
holds_each_lem task [] building bytes room = (refl, building, refl, refl)
holds_each_lem task (s ∷ texts) building bytes room =
    let t = write_down task s in
    let written' : written t ≡ s ++ written task =
      written-write_down task s bytes.0 (omega arith) (omega arith) in
    let rest = holds_each_lem t texts (omega arith) bytes.1 (omega arith) in
    let below : load_text t.mem 0 task.here ≡ load_text task.mem 0 task.here =
      load_text-store_outside task.mem (task.pno.offset + 1 - length s) s 0 task.here bytes.0
        (inl (omega arith)) in
    let here_same : t.here ≡ task.here = refl in
    let rest_below : load_text (holds_each t texts).mem 0 task.here ≡ load_text t.mem 0 task.here =
      rest.3 in
    let first : holds_each task (s ∷ texts) ≡ holds_each t texts =
      ap (λ (r : Returned). holds_each r.task texts) (holds_fits task s building (omega arith)) in
    subst
      (λ (u : Task).
        (written u ≡ picture_of (s ∷ texts) (written task))
        × IsBuilding u
        × (u.here ≡ task.here)
        × (load_text u.mem 0 task.here ≡ load_text task.mem 0 task.here))
      (sym first)
      (rest.0 ∙ ap (picture_of texts) written', rest.1, rest.2 ∙ here_same, rest_below ∙ below)

-- A picture that is started and built of texts that have room between HERE and the pad, together:
-- e4__io_pno_finish returns OK, and at the address and with the size that it gives stand the texts,
-- the last of them first. The memory below HERE is as before, and no picture is being built.
pub io_pno_finish_lem :
    (task : Task) (texts : List Bytes)
    → 2 ≤ task.here
    → AreTexts texts
    → task.here + total texts ≤ task.pad * cell_sz
    → task.pad * cell_sz ≤ modulus
    → let f = io_pno_finish (holds_each (io_pno_start task) texts) in
      (p : Picture) × (f.out ≡ some p)
      × (f.res ≡ e_ok)
      × (load_text f.task.mem p.out_buf p.out_sz ≡ picture_of texts [])
      × (load_text f.task.mem 0 task.here ≡ load_text task.mem 0 task.here)
      × (f.task.pno.offset ≡ 0)
unfolding io_pno_finish
io_pno_finish_lem task texts low bytes room small =
    let t = io_pno_start task in
    let empty : written t ≡ [] =
      unfold io_pno_start written load_text in
      (let none_left : task.pad * cell_sz - 1 - (task.pad * cell_sz - 1) ≡ 0 = omega arith in
        rw none_left refl) in
    let held =
      holds_each_lem t texts (unfold io_pno_start in omega arith) bytes
        (unfold io_pno_start in omega arith) in
    let u = holds_each t texts in
    let building = held.1 in
    let here' : (u.here + modulus - 1) % modulus ≡ u.here - 1 = omega arith in
    let nonzero : (u.pno.offset == 0) ≡ false = ground arith in
    let test : ltb u.pno.offset (u.here - 1) ≡ false = ground arith in
    (
      record { out_buf = u.pno.offset + 1; out_sz = u.pno.end - u.pno.offset },
      rw (nonzero, here', test) refl,
      rw (nonzero, here', test) refl,
      rw nonzero (unfold written in held.0 ∙ ap (picture_of texts) empty),
      rw nonzero (unfold io_pno_start in held.3),
      rw nonzero refl,
    )
