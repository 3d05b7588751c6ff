-- ===== src/Execute/Meaning.antt =====
-- What threaded code means: a word is a partial function on the list of the cells of the parameter
-- stack, a colon definition the composition of the words that it was compiled from.
use e.Base.{
  ℕ, suc, ◌+◌, ◌-◌, ◌≤◌, ◌<◌, ◌≡◌, ◌≢◌, leb, Option, none, some, List, [], ◌∷◌, length,
  if◌then◌else◌, All,
}
use e.Task.{Task, Memory}
use e.Stack.Contents.{contents, IsCoherent}
use e.Exception.{returns}
use e.Execute.Words.{Code, to_value, to_cell}

-- A word, with the cell of its token: code that is not that of execute.c and its effect, a variable,
-- a value and what it holds, or a colon definition.
mutual
  pub data Word : Type 0 where
    native : ℕ → ℕ → (List ℕ → Option (List ℕ)) → Word
    variable : ℕ → Word
    value : ℕ → ℕ → Word
    colon : ℕ → Words → Word

  pub data Words : Type 0 where
    end : Words
    next : Word → Words → Words

abbrev pub token : Word → ℕ
token (native xt _ _) = xt
token (variable xt) = xt
token (value xt _) = xt
token (colon xt _) = xt

-- A stack has room for `cap` cells.
unfoldable pub bounded : ℕ → Option (List ℕ) → Option (List ℕ)
bounded cap none = none
bounded cap (some s) = if leb (length s) cap then some s else none

abbrev pub composed : Option (List ℕ) → (List ℕ → Option (List ℕ)) → Option (List ℕ)
composed none k = none
composed (some s) k = k s

-- The meaning of a word and of the words of a thread.
unfoldable mutual
  pub meaning : ℕ → Word → List ℕ → Option (List ℕ)
  meaning cap (native xt c effect) s = bounded cap (effect s)
  meaning cap (variable xt) s = bounded cap (some (to_value (xt + 2) ∷ s))
  meaning cap (value xt v) s = bounded cap (some (v ∷ s))
  meaning cap (colon xt ws) s = meaning_words cap ws s

  pub meaning_words : ℕ → Words → List ℕ → Option (List ℕ)
  meaning_words cap end s = some s
  meaning_words cap (next w ws) s = composed (meaning cap w s) (meaning_words cap ws)

-- The cells of the return stack that a word needs at most.
unfoldable mutual
  pub needs : Word → ℕ
  needs (native _ _ _) = 1
  needs (variable _) = 1
  needs (value _ _) = 1
  needs (colon _ ws) = needs_words ws + 2

  pub needs_words : Words → ℕ
  needs_words end = 0
  needs_words (next w ws) = if leb (needs w) (needs_words ws) then needs_words ws else needs w

-- The fuel with which `f` is left when the interpreter has run a word.
unfoldable mutual
  pub fuel_for : Word → ℕ → ℕ
  fuel_for (native _ _ _) f = suc f
  fuel_for (variable _) f = suc f
  fuel_for (value _ _) f = suc f
  fuel_for (colon _ ws) f = suc (fuel_words ws (suc f))

  pub fuel_words : Words → ℕ → ℕ
  fuel_words end f = f
  fuel_words (next w ws) f = fuel_for w (fuel_words ws f)

-- What running code leaves as it was: the bounds of the stacks and the base of the return stack,
-- the cells below `lo`, where the dictionary lies, and those of the return stack above `top`. The
-- pointer of the return stack ends at `r`.
pub record Kept (lo top r : ℕ) (t t' : Task) : Type 0 where
  pub coherent : IsCoherent t'
  pub sl_same : t'.sl ≡ t.sl
  pub s0_same : t'.s0 ≡ t.s0
  pub rl_same : t'.rl ≡ t.rl
  pub tr0_same : t'.tr0 ≡ t.tr0
  pub rp_same : t'.rp ≡ r
  pub low_same : (a : ℕ) → a < lo → t'.mem a ≡ t.mem a
  pub high_same : (a : ℕ) → top < a → t'.mem a ≡ t.mem a

-- Code that, on a return stack that is not empty, where its effect is defined and fits the stack,
-- has this effect and returns to the address on top of the return stack.
abbrev pub Implements : Code → ℕ → ℕ → (List ℕ → Option (List ℕ)) → Type 0
Implements code lo c effect =
    (task : Task) (user : ℕ) (s : List ℕ)
    → IsCoherent task
    → lo ≤ task.sl
    → task.rp < task.tr0
    → effect (contents task) ≡ some s
    → length s ≤ task.s0 + 1 - task.sl
    → (task' : Task) × (code.native c task user ≡ some (returns tt task'))
      × (contents task' ≡ s)
      × (task'.ip ≡ to_cell (task.mem (task.rp + 1)))
      × Kept lo (task.rp + 1) (task.rp + 1) task task'

-- No two code pointers are the same.
abbrev pub AreDistinct : List ℕ → Type 0
AreDistinct [] = Unit {0}
AreDistinct (x ∷ xs) = All (λ y. x ≢ y) xs × AreDistinct xs

abbrev pub kernel_code : Code → List ℕ
kernel_code code =
    code.threaded ∷ code.doesthunk ∷ code.deferthunk ∷ code.threadedthunk ∷ code.marker
    ∷ code.userval ∷ code.uservar ∷ code.value ∷ code.variable ∷ []

-- A word as it lies in memory below `lo`, and the thread at a cell: the tokens of its words, then
-- that of EXIT.
abbrev mutual
  pub Holds : Code → ℕ → Memory → Word → Type 0
  Holds code lo m (native xt c effect) =
      (xt < lo)
      × (to_value xt ≢ code.exit_xt)
      × (m xt ≡ c)
      × All (λ k. c ≢ k) (kernel_code code)
      × Implements code lo c effect
  Holds code lo m (variable xt) = (xt < lo) × (to_value xt ≢ code.exit_xt) × (m xt ≡ code.variable)
  Holds code lo m (value xt v) =
      (xt + 2 < lo) × (to_value xt ≢ code.exit_xt) × (m xt ≡ code.value) × (m (xt + 2) ≡ v)
  Holds code lo m (colon xt ws) =
      (xt < lo)
      × (to_value xt ≢ code.exit_xt)
      × (m xt ≡ code.threaded)
      × HoldsThread code lo m (xt + 2) ws

  pub HoldsThread : Code → ℕ → Memory → ℕ → Words → Type 0
  HoldsThread code lo m a end = (a < lo) × (m a ≡ code.exit_xt)
  HoldsThread code lo m a (next w ws) =
      (a < lo) × (m a ≡ to_value (token w)) × Holds code lo m w × HoldsThread code lo m (a + 1) ws
