-- ===== src/Rehearsals/Fork/Output.antt =====
-- rehearsals/fork.c: what the two processes print.
use lkm_sandbox.Base.{
  ℕ, suc, ◌≡◌, refl, pos, negsuc, neg, Bool, true, false, List, [], ◌∷◌, ◌++◌, if◌then◌else◌,
}
use lkm_sandbox.Rehearsals.Fork.{
  Line, pids, press_a_key, forking, child, parent, Answers, before_fork, main, main_child,
}

-- The lines before the call of fork.
abbrev pub first_lines : Answers → List Line
first_lines w = pids w.ppid w.pid ∷ press_a_key ∷ forking ∷ []

-- The process that calls fork prints its first lines once: with its own answer of fork and pids
-- behind them, and the result 0, where a process was made, and alone, with the result -1, where fork
-- has failed. The new process returns 0 and prints its own answer and pids, but where the output is
-- no terminal it prints the first lines again, from its copy of the buffer.
pub output_lem :
    (terminal : Bool) (w : Answers)
    → ((n : ℕ)
        → w.fpid ≡ pos (suc n)
        → main terminal w
          ≡ (pos 0, first_lines w ++ parent w.fpid ∷ pids w.ppid_after w.pid_after ∷ []))
      × ((n : ℕ) → w.fpid ≡ negsuc n → main terminal w ≡ (neg 1, first_lines w))
      × (main_child terminal w ≡ (
        pos 0,
        (if terminal then [] else first_lines w)
            ++ child (pos 0) ∷ pids w.ppid_after w.pid_after ∷ [],
      ))
unfolding main main_child before_fork
output_lem true w = (λ n e. rw e refl, λ n e. rw e refl, refl)
output_lem false w = (λ n e. rw e refl, λ n e. rw e refl, refl)
