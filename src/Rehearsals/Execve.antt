-- ===== src/Rehearsals/Execve.antt =====
-- rehearsals/execve/execve.c and rehearsals/execve/execve-target.c: a process that replaces its
-- program. What the system calls answer is an input; the output is a list of lines, as a terminal
-- shows them, where stdio puts out each line at its end. (Where the output is a file or a pipe, the
-- lines still in stdio's buffer are lost at a successful execve; that is not modelled.)
pub mod Runs
mod Tests
use lkm_sandbox.Base.{
  ℕ, ℤ, pos, neg, is_neg, Bool, true, false, Option, none, some, List, [], ◌∷◌, ◌++◌, ◌>>=◌,
  if◌then◌else◌,
}
use lkm_sandbox.Kernel.Text.{same_prefix}

-- "execve\0", which ends at its NUL
abbrev pub execve_executable : List ℕ
execve_executable = 101 ∷ 120 ∷ 101 ∷ 99 ∷ 118 ∷ 101 ∷ []

abbrev pub execve_size : ℕ
execve_size = 7

pub data Line : Type 0 where
  running : ℤ → Line
  executing : Line
  never_hit : Line
  failed : Line
  running_another : ℤ → Line
  invoked : Line

-- What getpid answers, and execve where it returns.
pub record Answers : Type 0 where
  pub pid : ℤ
  pub execve_rc : Option ℤ

-- How main of execve.c ends: with a result, or in the program of execve.
pub data End : Type 0 where
  returns : ℤ → End
  replaced : End

-- main of execve.c, with what it prints
pub main : Answers → List Line × End
main w =
    let begun = running w.pid ∷ executing ∷ [] in
    elim w.execve_rc [
      | none ↦ (begun, replaced)
      | some rc ↦
          if is_neg rc
          then (begun ++ failed ∷ [], returns (neg 1))
          else (begun ++ never_hit ∷ [], returns (pos 0))
    ]

-- main of execve-target.c; where `argv` is empty, argv[0] is NULL.
pub main_target : ℤ → List (List ℕ) → Option (List Line × ℤ)
main_target pid [] = none
main_target pid (name ∷ more) = some (
  running_another pid
      ∷ (if same_prefix execve_size name execve_executable then invoked ∷ [] else []),
  pos 0,
)

-- The process that runs execve.c, also in its new program, which has its `argv` and its pid.
pub run : Answers → List (List ℕ) → Option (List Line × ℤ)
run w argv =
    let (lines, end) = main w in
    elim end [
      | returns rc ↦ some (lines, rc)
      | replaced ↦ do (more, rc) ← main_target w.pid argv; some (lines ++ more, rc)
    ]
