-- ===== src/Rehearsals/Clone/Tests.antt =====
-- The theorem on rehearsals/clone.c at concrete answers.
use lkm_sandbox.Base.{◌≡◌, refl, pos, some, [], ◌∷◌}
use lkm_sandbox.Rehearsals.Clone.{creating, cloned, Answers, Memory, main}

abbrev answers : Answers
answers = record { pid = pos 7; data_at = 64; stack = some 4096; clone_pid = pos 8 }

abbrev zeros : Memory
zeros a = 0

lines_lem : (main answers zeros).lines ≡ creating (pos 7) ∷ cloned (pos 8) ∷ []
unfolding main
lines_lem = refl
