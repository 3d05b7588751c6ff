-- ===== src/Execute/Total.antt =====
-- e4__execute on a word of threaded code as it lies in memory.
use e.Base.{ℕ, suc, ◌+◌, ◌-◌, ◌≤◌, ◌<◌, ◌≡◌, ◌≢◌, arith, ap, ◌∙◌, Option, some, List}
use e.Task.{Task, Memory}
use e.Stack.{ravail}
use e.Stack.Contents.{contents, ravail_lem}
use e.Exception.{Outcome, returns}
use e.Execute.{execute, call, kind_of, execute_threaded, thread_loop, and_then}
use e.Execute.Words.{Code, to_cell, enter_thread, leave_thread}
use e.Execute.Meaning.{
  Word, native, variable, value, colon, Words, token, meaning, meaning_words, needs, needs_words,
  fuel_words, Kept, Holds,
}
use e.Execute.Leaf.{IsReady, Called, call_native, call_variable, call_value}
use e.Execute.Step.{execute-Called, return_ip}
use e.Execute.Thread.{loop_end}
use e.Execute.Nest.{enter_lem}
use e.Execute.Refinement.{IsProgram, run_words, thread_left}

-- The fuel that executing a word takes.
unfoldable pub fuel_execute : Word → ℕ
fuel_execute (colon _ ws) = suc (suc (suc (fuel_words ws 2)))
fuel_execute _ = 2

module _ (code : Code) (lo cap : ℕ) (m : Memory) (program : IsProgram code lo m) where
  -- The call of a colon definition.
  call_colon :
      (xt : ℕ) (ws : Words) (p : Task) (s : List ℕ)
      → Holds code lo m (colon xt ws)
      → IsReady lo m cap p
      → p.rp < p.tr0
      → needs_words ws + 1 ≤ p.rp + 1 - p.rl
      → meaning_words cap ws (contents p) ≡ some s
      → Called code lo (suc (fuel_words ws 2)) code.threaded p (xt + 1) s
  call_colon xt ws p s held ready full room means =
      let ok = ready.coherent in
      let free : ravail p ≢ 0 = omega (arith, ravail_lem p ok.4) in
      let entered = enter_lem lo cap m p (xt + 1) ready free in
      let e = enter_thread p (xt + 1) in
      let rp' = entered.0.rp_base in
      let rl' = entered.0.rl_same in
      let ran =
        run_words code lo cap m program ws (xt + 2) 2 0 e s held.3 entered.1
          (entered.3 ∙ omega arith) (omega arith) (omega arith) (omega arith)
          (rw entered.2 means) in
      let left = thread_left code lo cap m program p ran.0 (xt + 1) ready full free ran.4 in
      let native : ran.0.mem (to_cell code.exit_xt) ≢ code.threaded =
        rw (ran.4.low_same _ program.exit_low ∙ entered.1.code_same _ program.exit_low)
          program.exit_native in
      (
        left.0,
        calls free ∙ ap ends (ran.1 ∙ loop_end code 1 ran.0 ran.3 native) ∙ ap some left.1,
        left.2 ∙ ran.2,
        left.3,
        left.4,
      )
    where
      ends : Option (Outcome Unit) → Option (Outcome Unit)
      ends o = and_then o (λ t. some (leave_thread code t))

      calls :
          ravail p ≢ 0
          → call code (suc (suc (fuel_words ws 2))) code.threaded p (xt + 1)
            ≡ ends (thread_loop code (fuel_words ws 2) 1 (enter_thread p (xt + 1)))
      calls free = unfold call execute_threaded kind_of in ground arith

  -- Where the tokens, and below them the words, of a colon definition lie in memory, the stacks are
  -- in order above the dictionary, the return stack has the room that the word needs, and the
  -- meaning of the word is defined on the parameter stack: with the fuel that is computed from the
  -- word, e4__execute returns, without a jump. It leaves the stack that the meaning gives, the
  -- instruction pointer behind the token (or NULL), the return stack and its base as they were, the
  -- dictionary, and the bounds and the order of the stacks.
  pub execute_refines :
      (w : Word) (t : Task) (s : List ℕ)
      → Holds code lo m w
      → IsReady lo m cap t
      → needs w ≤ t.rp + 1 - t.rl
      → meaning cap w (contents t) ≡ some s
      → (t' : Task) × (execute code (fuel_execute w) t (token w) ≡ some (returns tt t'))
        × (contents t' ≡ s)
        × (t'.ip ≡ return_ip t.ip)
        × Kept lo t.rp t.rp t t'
  unfolding fuel_execute meaning needs
  execute_refines (native xt c effect) t s held ready room means =
      execute-Called code lo cap m 0 xt t s held.0 ready room (λ p ready' full same below bound.
        rw held.2 (
          call_native code program.distinct lo cap m 0 xt c effect p s held ready' full
            (rw same means)))
  execute_refines (variable xt) t s held ready room means =
      execute-Called code lo cap m 0 xt t s held.0 ready room (λ p ready' full same below bound.
        rw held.2
          (call_variable code program.distinct lo cap m 0 xt p s ready' full (rw same means)))
  execute_refines (value xt v) t s held ready room means =
      execute-Called code lo cap m 0 xt t s (let low = held.0 in omega arith) ready room
        (λ p ready' full same below bound.
          rw held.2
            (call_value code program.distinct lo cap m 0 xt v p s held ready' full (rw same means)))
  execute_refines (colon xt ws) t s held ready room means =
      execute-Called code lo cap m (suc (fuel_words ws 2)) xt t s held.0 ready (omega arith)
        (λ p ready' full same below bound.
          rw held.2 (call_colon xt ws p s held ready' full (omega arith) (rw same means)))
