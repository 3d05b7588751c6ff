-- ===== src/Execute/Means.antt =====
-- What e4__execute does with a word of threaded code that lies in the memory of the task.
use e.Base.{ℕ, ◌+◌, ◌-◌, ◌≤◌, ◌≡◌, refl, arith, ap, ◌∙◌, some, List}
use e.Task.{Task}
use e.Stack.Contents.{cells, contents, return_contents, IsCoherent}
use e.Stack.Roll.{cells_ext}
use e.Exception.{returns}
use e.Execute.{execute}
use e.Execute.Words.{Code}
use e.Execute.Meaning.{Word, token, meaning, needs, Kept, Holds}
use e.Execute.Leaf.{IsReady}
use e.Execute.Step.{return_ip}
use e.Execute.Refinement.{IsProgram}
use e.Execute.Total.{fuel_execute, execute_refines}

-- The return stack above the pointer is a range of cells that are kept.
return_contents-Kept :
    (lo : ℕ) (t t' : Task) → Kept lo t.rp t.rp t t' → return_contents t' ≡ return_contents t
unfolding return_contents
return_contents-Kept lo t t' k =
    ap (λ (n : ℕ). cells t'.mem (n + 1) (t'.tr0 - n)) k.rp_same
    ∙ ap (λ (n : ℕ). cells t'.mem (t.rp + 1) (n - t.rp)) k.tr0_same
    ∙ cells_ext t'.mem t.mem (t.rp + 1) (t.rp + 1) (t.tr0 - t.rp)
        (λ i h. k.high_same (t.rp + 1 + i) (omega arith))

-- In a task whose stacks are in order, above the cells below `lo` in which the tokens and the
-- threads of a word lie, where the return stack has the room that the word needs and the meaning
-- of the word is defined on the parameter stack within its room: with the fuel that is computed
-- from the word, e4__execute on its token returns. The parameter stack is then what the meaning
-- gives; the return stack, its base and the cells below `lo` are as before, the stacks are in
-- order, and the instruction pointer is behind the token, or NULL if it was NULL.
pub execute_means :
    (code : Code) (lo : ℕ) (t : Task) (w : Word) (s : List ℕ)
    → IsProgram code lo t.mem
    → Holds code lo t.mem w
    → IsCoherent t
    → lo ≤ t.sl
    → needs w ≤ t.rp + 1 - t.rl
    → meaning (t.s0 + 1 - t.sl) w (contents t) ≡ some s
    → (t' : Task) × (execute code (fuel_execute w) t (token w) ≡ some (returns tt t'))
      × (contents t' ≡ s)
      × (return_contents t' ≡ return_contents t)
      × (t'.rp ≡ t.rp)
      × (t'.tr0 ≡ t.tr0)
      × (cells t'.mem 0 lo ≡ cells t.mem 0 lo)
      × IsCoherent t'
      × (t'.ip ≡ return_ip t.ip)
execute_means code lo t w s program held ok low room means =
    let ready : IsReady lo t.mem (t.s0 + 1 - t.sl) t = record {
      coherent = ok;
      above = low;
      cap_same = refl;
      code_same = λ a h. refl;
    } in
    let ran = execute_refines code lo (t.s0 + 1 - t.sl) t.mem program w t s held ready room means in
    let k = ran.4 in
    (
      ran.0,
      ran.1,
      ran.2,
      return_contents-Kept lo t ran.0 k,
      k.rp_same,
      k.tr0_same,
      cells_ext ran.0.mem t.mem 0 0 lo (λ i h. k.low_same (0 + i) (omega arith)),
      k.coherent,
      ran.3,
    )
