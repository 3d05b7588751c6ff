-- ===== src/Task/ByteAccess.antt =====
-- Memory by bytes: what C reads and writes through a `char *`. A cell holds eight bytes, the lowest
-- of its value first.
use e.Base.{
  ℕ, zero, suc, ◌+◌, ◌*◌, ◌/◌, ◌%◌, ◌≤◌, ◌<◌, ◌≡◌, ◌≢◌, refl, arith, ap, ◌∙◌, [], ◌∷◌, Bytes,
  length, All, ◌⊎◌, inl, inr, ℕ_discrete,
}
use e.Task.{Memory, store}
use e.Stack.Contents.{store_same, store_other}

-- Byte `k` of a value, and the value with that byte replaced.
unfoldable pub byte_of : ℕ → ℕ → ℕ
byte_of zero x = x % 256
byte_of (suc k) x = byte_of k (x / 256)

unfoldable pub set_byte : ℕ → ℕ → ℕ → ℕ
set_byte zero v x = x / 256 * 256 + v
set_byte (suc k) v x = set_byte k v (x / 256) * 256 + x % 256

-- The byte at an address, and memory with a byte written there.
unfoldable pub load_byte : Memory → ℕ → ℕ
load_byte m a = byte_of (a % 8) (m (a / 8))

unfoldable pub store_byte : Memory → ℕ → ℕ → Memory
store_byte m a v = store m (a / 8) (set_byte (a % 8) v (m (a / 8)))

-- The `n` bytes from an address on, and memory with a text copied to an address.
unfoldable pub load_text : Memory → ℕ → ℕ → Bytes
load_text m a zero = []
load_text m a (suc n) = load_byte m a ∷ load_text m (a + 1) n

unfoldable pub store_text : Memory → ℕ → Bytes → Memory
store_text m a [] = m
store_text m a (c ∷ cs) = store_text (store_byte m a c) (a + 1) cs

abbrev pub IsText : Bytes → Type 0
IsText s = All (λ c. c < 256) s

byte_of-set_byte : (k v x : ℕ) → v < 256 → byte_of k (set_byte k v x) ≡ v
unfolding byte_of set_byte
byte_of-set_byte zero v x small = omega arith
byte_of-set_byte (suc k) v x small =
    let shift : (set_byte k v (x / 256) * 256 + x % 256) / 256 ≡ set_byte k v (x / 256) =
      omega arith in
    ap (byte_of k) shift ∙ byte_of-set_byte k v (x / 256) small

byte_of-set_other : (j k v x : ℕ) → j ≢ k → v < 256 → byte_of j (set_byte k v x) ≡ byte_of j x
unfolding byte_of set_byte
byte_of-set_other zero zero v x ne small = absurd (ne refl)
byte_of-set_other (suc j) zero v x ne small = ap (byte_of j) (omega arith)
byte_of-set_other zero (suc k) v x ne small = omega arith
byte_of-set_other (suc j) (suc k) v x ne small =
    let shift : (set_byte k v (x / 256) * 256 + x % 256) / 256 ≡ set_byte k v (x / 256) =
      omega arith in
    ap (byte_of j) shift ∙ byte_of-set_other j k v (x / 256) (omega arith) small

pub load-store_byte : (m : Memory) (a v : ℕ) → v < 256 → load_byte (store_byte m a v) a ≡ v
unfolding load_byte store_byte
load-store_byte m a v small =
    rw (store_same m (a / 8) (set_byte (a % 8) v (m (a / 8)))) (byte_of-set_byte (a % 8) v _ small)

pub load-store_other :
    (m : Memory) (a v b : ℕ) → b ≢ a → v < 256 → load_byte (store_byte m a v) b ≡ load_byte m b
unfolding load_byte store_byte
load-store_other m a v b ne small = elim (ℕ_discrete (b / 8) (a / 8)) [
  | yes same ↦
      rw (same, store_same m (a / 8) (set_byte (a % 8) v (m (a / 8))))
        (byte_of-set_other (b % 8) (a % 8) v _ (omega arith) small)
  | no other ↦ rw (store_other m (a / 8) (set_byte (a % 8) v (m (a / 8))) (b / 8) other) refl
]

-- A text that is copied leaves what lies outside.
pub load-store_text_outside :
    (m : Memory) (a : ℕ) (s : Bytes) (b : ℕ)
    → IsText s
    → (b < a) ⊎ (a + length s ≤ b)
    → load_byte (store_text m a s) b ≡ load_byte m b
unfolding store_text
load-store_text_outside m a [] b ok out = refl
load-store_text_outside m a (c ∷ cs) b ok out =
    load-store_text_outside (store_byte m a c) (a + 1) cs b ok.1 (onward out)
    ∙ load-store_other m a c b (apart out) ok.0
  where
    onward : (b < a) ⊎ (a + suc (length cs) ≤ b) → (b < a + 1) ⊎ (a + 1 + length cs ≤ b)
    onward (inl h) = inl (omega arith)
    onward (inr h) = inr (omega arith)

    apart : (b < a) ⊎ (a + suc (length cs) ≤ b) → b ≢ a
    apart (inl h) = omega arith
    apart (inr h) = omega arith

pub load_text-store_outside :
    (m : Memory) (a : ℕ) (s : Bytes) (b n : ℕ)
    → IsText s
    → (b + n ≤ a) ⊎ (a + length s ≤ b)
    → load_text (store_text m a s) b n ≡ load_text m b n
unfolding load_text
load_text-store_outside m a s b zero ok out = refl
load_text-store_outside m a s b (suc n) ok out =
    rw
      (
        load-store_text_outside m a s b ok (first out),
        load_text-store_outside m a s (b + 1) n ok (onward out),
      )
      refl
  where
    first : (b + suc n ≤ a) ⊎ (a + length s ≤ b) → (b < a) ⊎ (a + length s ≤ b)
    first (inl h) = inl (omega arith)
    first (inr h) = inr h

    onward : (b + suc n ≤ a) ⊎ (a + length s ≤ b) → (b + 1 + n ≤ a) ⊎ (a + length s ≤ b + 1)
    onward (inl h) = inl (omega arith)
    onward (inr h) = inr (omega arith)

-- A text that is copied is read back.
pub load_text-store_text :
    (m : Memory) (a : ℕ) (s : Bytes) → IsText s → load_text (store_text m a s) a (length s) ≡ s
unfolding load_text store_text
load_text-store_text m a [] ok = refl
load_text-store_text m a (c ∷ cs) ok =
    rw
      (
        load-store_text_outside (store_byte m a c) (a + 1) cs a ok.1 (inl (omega arith)),
        load-store_byte m a c ok.0,
        load_text-store_text (store_byte m a c) (a + 1) cs ok.1,
      )
      refl

byte_of-lt : (k x : ℕ) → byte_of k x < 256
unfolding byte_of
byte_of-lt zero x = omega arith
byte_of-lt (suc k) x = byte_of-lt k (x / 256)

pub load_text-IsText : (m : Memory) (a n : ℕ) → IsText (load_text m a n)
unfolding load_text load_byte
load_text-IsText m a zero = tt
load_text-IsText m a (suc n) = (byte_of-lt (a % 8) (m (a / 8)), load_text-IsText m (a + 1) n)

pub length-load_text : (m : Memory) (a n : ℕ) → length (load_text m a n) ≡ n
unfolding load_text
length-load_text m a zero = refl
length-load_text m a (suc n) = ap suc (length-load_text m (a + 1) n)
