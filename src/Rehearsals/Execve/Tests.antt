-- ===== src/Rehearsals/Execve/Tests.antt =====
-- The theorem on rehearsals/execve at a concrete process.
use lkm_sandbox.Base.{ℕ, ◌≡◌, refl, ℤ, pos, none, some, List, [], ◌∷◌, arith}
use lkm_sandbox.Rehearsals.Execve.{
  execve_executable, Line, running, executing, running_another, Answers, main, main_target, run,
}
use lkm_sandbox.Rehearsals.Execve.Runs.{Promise, run_lem}

abbrev replacing : Answers
replacing = record { pid = pos 7; execve_rc = none }

-- "./execve"
abbrev with_path : List ℕ
with_path = 46 ∷ 47 ∷ execve_executable

-- Called with its path, as a shell calls it, the program is not known again.
with_path_lem :
    run replacing (with_path ∷ [])
    ≡ some (running (pos 7) ∷ executing ∷ running_another (pos 7) ∷ [], pos 0)
unfolding run main main_target
with_path_lem = refl

run_lem_example :
    (lines : List Line) × (rc : ℤ) × (run replacing (with_path ∷ []) ≡ some (lines, rc))
    × Promise replacing with_path lines rc
run_lem_example = run_lem replacing with_path [] (λ rc e. absurd (ground arith))
