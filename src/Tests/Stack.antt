-- ===== src/Tests/Stack.antt =====
-- Runs of the operations of core/src/kernel/stack.c.
use e.Base.{◌+◌, ◌≤◌, ◌<◌, ◌≡◌, ◌≢◌, arith, ◌∷◌}
use e.Stack.{push, pop, dup, over, swap, tuck, depth, avail, ravail, peek}
use e.Stack.Contents.{contents, return_contents, IsCoherent, pop-push}
use e.Stack.Shuffle.{Refines, dup_cells, over_cells, swap_cells, tuck_cells, shuffles}
use e.Tests.Tasks.{sample}

sample-IsCoherent : IsCoherent sample
sample-IsCoherent = omega arith

sample_room : avail sample ≢ 0
unfolding avail
sample_room = omega arith

sample_rroom : ravail sample ≢ 0
unfolding ravail
sample_rroom = omega arith

sample_full : depth sample ≢ 0
unfolding depth
sample_full = omega arith

sample_two : 2 ≤ depth sample
unfolding depth
sample_two = omega arith

sample_three : 3 ≤ depth sample
unfolding depth
sample_three = omega arith

sample_roll : peek sample + 1 < depth sample
unfolding depth peek
sample_roll = omega arith

pop-push_example :
    (contents (push sample 7) ≡ 7 ∷ contents sample)
    × (return_contents (push sample 7) ≡ return_contents sample)
    × IsCoherent (push sample 7)
    × ((pop (push sample 7)).cell ≡ 7)
    × (contents (pop (push sample 7)).task ≡ contents sample)
pop-push_example = pop-push sample 7 sample-IsCoherent sample_room

shuffles_example :
    Refines dup dup_cells sample
    × Refines over over_cells sample
    × Refines swap swap_cells sample
    × Refines tuck tuck_cells sample
shuffles_example = shuffles sample sample-IsCoherent sample_two sample_room
