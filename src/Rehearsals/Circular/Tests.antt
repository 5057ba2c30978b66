-- ===== src/Rehearsals/Circular/Tests.antt =====
-- The ring at concrete sequences of calls.
use lkm_sandbox.Base.{ℤ, Option, replicate, set, ◌>>=◌, ◌≡◌, refl, pos, neg, some, List, [], ◌∷◌}
use lkm_sandbox.Rehearsals.Circular.{
  initial, read, write, slots_from, print_buffer, write_all, read_all, main, contents, writing,
  reading, values, another,
}
use lkm_sandbox.Rehearsals.Circular.Refines.{Op, put, get, run, queue_run, run-queue}

abbrev ops : List Op
ops = put (pos 5) ∷ get ∷ get ∷ put (neg 1) ∷ get ∷ []

-- An empty ring and a ring that holds -1 return the same.
ambiguous : run ops initial ≡ some (pos 5 ∷ neg 1 ∷ neg 1 ∷ [])
unfolding run read write
ambiguous = refl

run-queue_example : run ops initial ≡ some (queue_run ops [])
run-queue_example = run-queue ops

abbrev eight : List (Option ℤ)
eight =
    some (pos 1)
    ∷ some (pos 2)
    ∷ some (pos 3)
    ∷ some (pos 4)
    ∷ some (pos 5)
    ∷ some (pos 6)
    ∷ some (pos 7)
    ∷ some (pos 8)
    ∷ []

main_prints :
    (main initial >>= λ (lines, s). some lines)
    ≡ some (
        contents (replicate 8 (some (pos 0)))
        ∷ writing 8
        ∷ contents eight
        ∷ reading 8
        ∷ values (pos 1 ∷ pos 2 ∷ pos 3 ∷ pos 4 ∷ pos 5 ∷ pos 6 ∷ pos 7 ∷ pos 8 ∷ [])
        ∷ contents eight
        ∷ another
        ∷ contents (set eight 0 (some (pos 9)))
        ∷ [])
unfolding main write_all read_all print_buffer slots_from read write
main_prints = refl
