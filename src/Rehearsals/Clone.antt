-- ===== src/Rehearsals/Clone.antt =====
-- rehearsals/clone.c: a process that clones itself into a function. What the calls answer is an
-- input; the output is a list of lines. Without CLONE_VM the new process has a copy of the memory.
pub mod Shares
mod Tests
use lkm_sandbox.Base.{
  ℕ, zero, suc, ◌+◌, ◌*◌, ℤ, pos, negsuc, neg, Option, none, some, List, [], ◌∷◌, ◌++◌, ◌==◌,
  if◌then◌else◌,
}

abbrev pub stack_size : ℕ
stack_size = 1024 * 1024

pub data Line : Type 0 where
  creating : ℤ → Line
  cloned : ℤ → Line
  failed : Line
  child_function : Line
  running : ℤ → Line
  received : ℕ → Line

-- The memory of a process, by address.
abbrev pub Memory : Type 0
Memory = ℕ → ℕ

abbrev pub assign : ℕ → ℕ → Memory → Memory
assign p v memory a = if a == p then v else memory a

-- What clone is called with: the top of the stack, the argument of the function, and the memory of
-- the caller, which the new process has a copy of.
pub record Start : Type 0 where
  pub stack_top : ℕ
  pub argument : ℕ
  pub memory : Memory

-- What getpid, malloc and clone answer; `data_at` is the address of the variable `data`.
pub record Answers : Type 0 where
  pub pid : ℤ
  pub data_at : ℕ
  pub stack : Option ℕ
  pub clone_pid : ℤ

-- child_func, in a process with the pid and the memory: its lines and its result
pub child_func : ℤ → Memory → ℕ → List Line × ℤ
child_func pid memory argument =
    (child_function ∷ running pid ∷ received (memory argument) ∷ [], pos 0)

pub record Run : Type 0 where
  pub lines : List Line
  pub started : Option Start
  pub ret : ℤ

-- From the answer of clone on; a clone that fails answers -1.
abbrev pub by_pid : List Line → Start → ℤ → Run
by_pid lines start (negsuc zero) = record {
  lines = lines ++ failed ∷ [];
  started = none;
  ret = neg 1;
}
by_pid lines start pid = record {
  lines = lines ++ cloned pid ∷ [];
  started = some start;
  ret = pos 0;
}

-- main, over the memory of the process
pub main : Answers → Memory → Run
main w memory =
    let memory' = assign w.data_at 1001 memory in
    elim w.stack [
      | none ↦ record { lines = creating w.pid ∷ failed ∷ []; started = none; ret = neg 1 }
      | some stack ↦
          by_pid (creating w.pid ∷ [])
            (record { stack_top = stack + stack_size; argument = w.data_at; memory = memory' })
            w.clone_pid
    ]
