-- ===== src/Rehearsals/Fork/Tests.antt =====
-- The theorem on rehearsals/fork.c at a concrete family.
use lkm_sandbox.Base.{
  ℕ, suc, ◌≡◌, refl, pos, negsuc, neg, false, true, [], ◌∷◌, ◌++◌, if◌then◌else◌,
}
use lkm_sandbox.Rehearsals.Fork.{
  pids, press_a_key, forking, child, parent, Answers, before_fork, main, main_child,
}
use lkm_sandbox.Rehearsals.Fork.Output.{first_lines, output_lem}

abbrev mother : Answers
mother = record { ppid = pos 1; pid = pos 7; fpid = pos 8; ppid_after = pos 1; pid_after = pos 7 }

abbrev daughter : Answers
daughter = record { ppid = pos 1; pid = pos 7; fpid = pos 0; ppid_after = pos 7; pid_after = pos 8 }

-- Into a pipe the first lines are printed twice.
twice :
    (main false mother).1 ++ (main_child false daughter).1
    ≡ pids (pos 1) (pos 7)
      ∷ press_a_key
      ∷ forking
      ∷ parent (pos 8)
      ∷ pids (pos 1) (pos 7)
      ∷ pids (pos 1) (pos 7)
      ∷ press_a_key
      ∷ forking
      ∷ child (pos 0)
      ∷ pids (pos 7) (pos 8)
      ∷ []
unfolding main main_child before_fork
twice = refl

output_lem_example :
    ((n : ℕ)
      → mother.fpid ≡ pos (suc n)
      → main true mother ≡ (
        pos 0,
        first_lines mother ++ parent mother.fpid ∷ pids mother.ppid_after mother.pid_after ∷ [],
      ))
    × ((n : ℕ) → mother.fpid ≡ negsuc n → main true mother ≡ (neg 1, first_lines mother))
    × (main_child true mother ≡ (
      pos 0,
      (if true then [] else first_lines mother)
          ++ child (pos 0) ∷ pids mother.ppid_after mother.pid_after ∷ [],
    ))
output_lem_example = output_lem true mother
