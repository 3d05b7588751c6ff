-- ===== src/Mem/Ring.antt =====
-- The circular buffer of core/src/util/mem.c: e4__mem_cbuf_init and e4__mem_cbuf_push.
pub mod Escaped
use e.Base.{
  ℕ, zero, suc, ◌+◌, ◌-◌, ◌*◌, ◌≤◌, ◌<◌, ◌≡◌, ◌≢◌, refl, arith, ◌∙◌, ltb, ◌==◌, ◌||◌, true, false,
  if◌then◌else◌, Option, none, some, [], ◌∷◌, Bytes, length, inl, inr, ◌⊎◌,
}

-- struct e4__cbuf, with the bytes at `buf`.
pub record Cbuf : Type 0 where
  pub sz : ℕ
  pub offset : ℕ
  pub buf : ℕ → ℕ

-- e4__mem_cbuf_init
unfoldable pub cbuf_init : (ℕ → ℕ) → ℕ → Cbuf
cbuf_init buf sz = record { sz = sz; offset = 0; buf = buf }

-- memmove into a buffer
unfoldable pub write : (ℕ → ℕ) → ℕ → Bytes → ℕ → ℕ
write buf at [] x = buf x
write buf at (c ∷ cs) x = if x == at then c else write buf (at + 1) cs x

-- The offset of the entry, and the buffer after it.
pub record Pushed : Type 0 where
  pub entry : ℕ
  pub cbuf : Cbuf

-- e4__mem_cbuf_push; `none` is NULL.
unfoldable pub cbuf_push : Cbuf → Bytes → Option Pushed
cbuf_push cbuf text =
    let sz = length text in
    let entry = if ltb (cbuf.sz - cbuf.offset) sz then 0 else cbuf.offset in
    if ltb cbuf.sz sz || sz == 0
    then none
    else some (record {
      entry = entry;
      cbuf = record cbuf { buf = write cbuf.buf entry text; offset = entry + sz };
    })

-- The bytes of a range.
abbrev pub bytes_at : (ℕ → ℕ) → ℕ → ℕ → Bytes
bytes_at buf at zero = []
bytes_at buf at (suc n) = buf at ∷ bytes_at buf (at + 1) n

-- The next entry starts inside the buffer or at its end.
abbrev pub IsOffset : Cbuf → Type 0
IsOffset cbuf = cbuf.offset ≤ cbuf.sz

pub write_outside :
    (buf : ℕ → ℕ) (at : ℕ) (text : Bytes) (x : ℕ)
    → (x < at) ⊎ (at + length text ≤ x)
    → write buf at text x ≡ buf x
unfolding write
write_outside buf at [] x out = refl
write_outside buf at (c ∷ text) x out =
    let other : (x == at) ≡ false = ground arith in
    rw other (write_outside buf (at + 1) text x (ground arith))

pub bytes_ext :
    (buf buf' : ℕ → ℕ) (at n : ℕ)
    → ((x : ℕ) → at ≤ x → x < at + n → buf x ≡ buf' x)
    → bytes_at buf at n ≡ bytes_at buf' at n
bytes_ext buf buf' at zero same = refl
bytes_ext buf buf' at (suc n) same = rw (
  same at (omega arith) (omega arith),
  bytes_ext buf buf' (at + 1) n (λ x low high. same x (omega arith) (omega arith)),
)

pub bytes_at-write :
    (buf : ℕ → ℕ) (at : ℕ) (text : Bytes) → bytes_at (write buf at text) at (length text) ≡ text
unfolding write
bytes_at-write buf at [] = refl
bytes_at-write buf at (c ∷ text) =
    let first : (at == at) ≡ true = ground arith in
    let rest =
      bytes_ext (write buf at (c ∷ text)) (write buf (at + 1) text) (at + 1) (length text)
        (λ x low high. let other : (x == at) ≡ false = ground arith in rw other refl) in
    rw (first, rest, bytes_at-write buf (at + 1) text) refl

-- What an entry that is accepted gives.
abbrev placed : Cbuf → Bytes → Pushed
placed cbuf text =
    let entry = if ltb (cbuf.sz - cbuf.offset) (length text) then 0 else cbuf.offset in
    record {
      entry = entry;
      cbuf = record cbuf { buf = write cbuf.buf entry text; offset = entry + length text };
    }

accepted :
    (cbuf : Cbuf) (text : Bytes)
    → length text ≢ 0
    → length text ≤ cbuf.sz
    → cbuf_push cbuf text ≡ some (placed cbuf text)
unfolding cbuf_push
accepted cbuf text nonempty fits =
    let granted : (ltb cbuf.sz (length text) || length text == 0) ≡ false = ground arith in
    rw granted refl

-- In a buffer whose offset is inside it or at its end, an entry that is not empty and not
-- larger than the buffer is accepted: it lies in the buffer and holds the data, the bytes of
-- the buffer before it and after it are as before, and the next entry starts after it.
pub cbuf_push_lem :
    (cbuf : Cbuf) (text : Bytes)
    → IsOffset cbuf
    → length text ≢ 0
    → length text ≤ cbuf.sz
    → (pushed : Pushed) × (cbuf_push cbuf text ≡ some pushed)
      × (pushed.entry + length text ≤ cbuf.sz)
      × (bytes_at pushed.cbuf.buf pushed.entry (length text) ≡ text)
      × (bytes_at pushed.cbuf.buf 0 pushed.entry ≡ bytes_at cbuf.buf 0 pushed.entry)
      × (bytes_at pushed.cbuf.buf pushed.cbuf.offset (cbuf.sz - pushed.cbuf.offset)
          ≡ bytes_at cbuf.buf pushed.cbuf.offset (cbuf.sz - pushed.cbuf.offset))
      × (pushed.cbuf.offset ≡ pushed.entry + length text)
      × IsOffset pushed.cbuf
cbuf_push_lem cbuf text ok nonempty fits =
    let entry = (placed cbuf text).entry in
    let inside : entry + length text ≤ cbuf.sz = ground arith in
    (
      placed cbuf text,
      accepted cbuf text nonempty fits,
      inside,
      bytes_at-write cbuf.buf entry text,
      bytes_ext _ cbuf.buf 0 entry
          (λ x low high. write_outside cbuf.buf entry text x (inl (omega arith))),
      bytes_ext _ cbuf.buf (entry + length text) _
          (λ x low high. write_outside cbuf.buf entry text x (inr (omega arith))),
      refl,
      inside,
    )

-- In a buffer whose offset is inside it or at its end, after two entries that are not empty, of
-- which the first and twice the second together are at most one byte larger than the buffer,
-- the first can still be read.
pub cbuf_push_kept :
    (cbuf : Cbuf) (first second : Bytes)
    → IsOffset cbuf
    → length first ≢ 0
    → length second ≢ 0
    → length first + 2 * length second ≤ cbuf.sz + 1
    → (pushed pushed' : Pushed) × (cbuf_push cbuf first ≡ some pushed)
      × (cbuf_push pushed.cbuf second ≡ some pushed')
      × (bytes_at pushed'.cbuf.buf pushed.entry (length first) ≡ first)
cbuf_push_kept cbuf first second ok full full' fits =
    let pushed = placed cbuf first in
    let entry' = (placed pushed.cbuf second).entry in
    let apart : (pushed.entry + length first ≤ entry') ⊎ (entry' + length second ≤ pushed.entry) =
      ground arith in
    (
      pushed,
      placed pushed.cbuf second,
      accepted cbuf first full (omega arith),
      accepted pushed.cbuf second full' (omega arith),
      bytes_ext _ pushed.cbuf.buf pushed.entry (length first)
            (λ x low high. write_outside pushed.cbuf.buf entry' second x (ground arith))
          ∙ bytes_at-write cbuf.buf pushed.entry first,
    )
