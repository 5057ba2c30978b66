-- ===== src/Rehearsals/Fork.antt =====
-- rehearsals/fork.c: a process that forks. What the system calls answer is an input, and the output
-- is a list of lines, with the buffer of stdio: a line is written at once where the output is a
-- terminal, and when the process ends where it is not. The message of perror is left out.
pub mod Output
mod Tests
use lkm_sandbox.Base.{ℕ, zero, suc, ℤ, pos, negsuc, neg, Bool, true, false, List, [], ◌∷◌, ◌++◌}

-- The text before the key is pressed has no newline of its own, and is written with the next line.
pub data Line : Type 0 where
  pids : ℤ → ℤ → Line
  press_a_key : Line
  forking : Line
  child : ℤ → Line
  parent : ℤ → Line

-- What is written, and what is still in the buffer.
pub record Stdout : Type 0 where
  pub written : List Line
  pub buffer : List Line

abbrev pub print : Bool → List Line → Stdout → Stdout
print true lines out = record out { written = out.written ++ lines }
print false lines out = record out { buffer = out.buffer ++ lines }

-- What getppid and getpid answer before fork, and after it in one process, and fork in it.
pub record Answers : Type 0 where
  pub ppid : ℤ
  pub pid : ℤ
  pub fpid : ℤ
  pub ppid_after : ℤ
  pub pid_after : ℤ

abbrev pub print_pids : ℤ → ℤ → List Line
print_pids ppid pid = pids ppid pid ∷ []

abbrev pub pause_execution : List Line
pause_execution = press_a_key ∷ []

-- main up to fork
pub before_fork : Bool → ℤ → ℤ → Stdout
before_fork terminal ppid pid = print terminal (forking ∷ []) (
    print terminal pause_execution
      (print terminal (print_pids ppid pid) (record { written = []; buffer = [] })))

-- main from the answer of fork on
abbrev pub by_fpid : Bool → Answers → ℤ → Stdout → ℤ × Stdout
by_fpid terminal w (pos zero) out = (
  pos 0,
  print terminal (print_pids w.ppid_after w.pid_after) (print terminal (child (pos 0) ∷ []) out),
)
by_fpid terminal w (pos (suc n)) out = (
  pos 0,
  print terminal (print_pids w.ppid_after w.pid_after)
      (print terminal (parent (pos (suc n)) ∷ []) out),
)
by_fpid terminal w (negsuc n) out = (neg 1, out)

-- The end of a process writes the buffer.
abbrev pub flushed : ℤ × Stdout → ℤ × List Line
flushed (rc, out) = (rc, out.written ++ out.buffer)

-- main in the process that has called fork
pub main : Bool → Answers → ℤ × List Line
main terminal w = flushed (by_fpid terminal w w.fpid (before_fork terminal w.ppid w.pid))

-- main in the process that fork has made, where it answers 0: it has a copy of the buffer.
pub main_child : Bool → Answers → ℤ × List Line
main_child terminal w =
    let out = before_fork terminal w.ppid w.pid in
    flushed (by_fpid terminal w (pos 0) (record { written = []; buffer = out.buffer }))
