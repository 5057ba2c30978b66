-- ===== src/Pocs/Permissions.antt =====
-- pocs/io-port-permissions/permissions-revisited.c and its target for execve: getting the
-- permission for I/O ports, and reading a port from a process or a thread that was made then. What
-- the system calls answer is an input, and each call is written down in its order.
pub mod Guarded
mod Tests
use lkm_sandbox.Base.{
  ℕ, zero, suc, ◌*◌, ℤ, pos, negsuc, neg, is_neg, Bool, true, false, List, [], ◌∷◌, ◌++◌, ◌==◌,
  if◌then◌else◌,
}
use lkm_sandbox.Kernel.Text.{same_text, starts_with}

abbrev pub port : ℕ
port = 888

abbrev pub stack_size : ℕ
stack_size = 1024 * 1024

-- "iopl", "ioperm", "clone", "execve", "fork" and "pthread"
abbrev pub iopl_word : List ℕ
iopl_word = 105 ∷ 111 ∷ 112 ∷ 108 ∷ []

abbrev pub ioperm_word : List ℕ
ioperm_word = 105 ∷ 111 ∷ 112 ∷ 101 ∷ 114 ∷ 109 ∷ []

abbrev pub clone_word : List ℕ
clone_word = 99 ∷ 108 ∷ 111 ∷ 110 ∷ 101 ∷ []

abbrev pub execve_word : List ℕ
execve_word = 101 ∷ 120 ∷ 101 ∷ 99 ∷ 118 ∷ 101 ∷ []

abbrev pub fork_word : List ℕ
fork_word = 102 ∷ 111 ∷ 114 ∷ 107 ∷ []

abbrev pub pthread_word : List ℕ
pthread_word = 112 ∷ 116 ∷ 104 ∷ 114 ∷ 101 ∷ 97 ∷ 100 ∷ []

-- A call with its arguments, and with its answer where the order of the calls depends on it.
pub data Call : Type 0 where
  iopl : ℕ → ℤ → Call
  ioperm : ℕ → ℕ → ℕ → ℤ → Call
  malloc : ℕ → Call
  clone : ℤ → Call
  execve : Call
  fork : ℤ → Call
  pthread_create : Call
  pthread_join : Call
  inb : ℕ → Call

-- What the calls answer. An execve that succeeds does not return.
pub record Answers : Type 0 where
  pub permission_rc : ℤ
  pub stack_found : Bool
  pub clone_pid : ℤ
  pub execve_fails : Bool
  pub fork_pid : ℤ

-- How a function ends: with a result, or in the program of execve.
pub data End : Type 0 where
  returns : ℤ → End
  replaced : End

-- The calls of a run in their order, and its end.
pub record Run : Type 0 where
  pub calls : List Call
  pub end : End

-- get_permissions
unfoldable pub get_permissions : Answers → List ℕ → ℤ × List Call
get_permissions w method =
    if same_text method iopl_word
    then (w.permission_rc, iopl 3 w.permission_rc ∷ [])
    else if same_text method ioperm_word
    then (w.permission_rc, ioperm 0 65535 1 w.permission_rc ∷ [])
    else (neg 1, [])

-- test_read, which is also all that the new process or thread does
unfoldable pub test_read : List Call
test_read = inb port ∷ []

-- permissions_with_clone
unfoldable pub permissions_with_clone : Answers → Run
permissions_with_clone w =
    if w.stack_found
    then record {
      calls = malloc stack_size ∷ clone w.clone_pid ∷ test_read;
      end = returns (elim w.clone_pid [ negsuc ℕ.zero ↦ neg 1 | _ ↦ pos 0 ]);
    }
    else record { calls = malloc stack_size ∷ []; end = returns (neg 1) }

-- main of the target of execve
abbrev pub main_target : Run
main_target = record { calls = test_read; end = returns (pos 0) }

-- permissions_with_execve; where execve does not fail, the target runs in its place
unfoldable pub permissions_with_execve : Answers → Run
permissions_with_execve w =
    if w.execve_fails
    then record { calls = test_read ++ execve ∷ []; end = returns (neg 1) }
    else record { calls = test_read ++ execve ∷ main_target.calls; end = replaced }

-- permissions_with_fork, as the process in which fork answers `fork_pid` runs it
unfoldable pub permissions_with_fork : Answers → Run
permissions_with_fork w =
    if is_neg w.fork_pid
    then record { calls = fork w.fork_pid ∷ []; end = returns (neg 1) }
    else record { calls = fork w.fork_pid ∷ test_read; end = returns (pos 0) }

-- permissions_with_pthread
unfoldable pub permissions_with_pthread : Run
permissions_with_pthread = record {
  calls = pthread_create ∷ (test_read ++ pthread_join ∷ []);
  end = returns (pos 0);
}

-- The result of main for that of the function that it has chosen.
abbrev pub main_end : End → End
main_end replaced = replaced
main_end (returns (pos zero)) = returns (pos 0)
main_end (returns z) = returns (neg 2)

-- The choice of main by the word for the creation; the last branch goes to `usage`.
unfoldable pub create : Answers → List ℕ → Run
create w creation =
    if starts_with clone_word creation
    then (let r = permissions_with_clone w in record r { end = main_end r.end })
    else if starts_with execve_word creation
    then (let r = permissions_with_execve w in record r { end = main_end r.end })
    else if starts_with fork_word creation
    then (let r = permissions_with_fork w in record r { end = main_end r.end })
    else if starts_with pthread_word creation
    then (let r = permissions_with_pthread in record r { end = main_end r.end })
    else record { calls = []; end = returns (neg 1) }

-- What main does with the result of get_permissions.
abbrev pub after : ℤ → List Call → Run → Run
after (pos zero) granted r = record r { calls = granted ++ r.calls }
after rc granted r = record { calls = granted; end = returns (neg 2) }

unfoldable pub main : Answers → ℕ → List ℕ → List ℕ → Run
main w argc permissions creation =
    if argc == 3
    then (let (rc, granted) = get_permissions w permissions in after rc granted (create w creation))
    else record { calls = []; end = returns (neg 1) }
