-- ===== src/Pocs/Permissions/Guarded.antt =====
-- pocs/io-port-permissions/permissions-revisited.c: the order of the calls.
use lkm_sandbox.Base.{
  ℕ, zero, suc, ◌≡◌, refl, ℤ, pos, negsuc, Bool, true, false, ◌||◌, ◌&&◌, ◌+◌, leb, ltb, inl, inr,
  List, [], ◌∷◌, ◌==◌, if◌then◌else◌, Bool-cases, is_neg, arith,
}
use lkm_sandbox.Kernel.Text.{same_text, starts_with}
use lkm_sandbox.Pocs.Permissions.{
  Call, iopl, ioperm, malloc, clone, execve, fork, pthread_create, pthread_join, port, inb, Answers,
  Run, returns, iopl_word, ioperm_word, clone_word, execve_word, fork_word, pthread_word,
  get_permissions, test_read, permissions_with_clone, permissions_with_execve,
  permissions_with_fork, permissions_with_pthread, create, after, main,
}

abbrev is_zero : ℤ → Bool
is_zero (pos zero) = true
is_zero _ = false

-- What the kernel keeps: the level of iopl, and the ports that ioperm has turned on.
pub record Perms : Type 0 where
  pub level : ℕ
  pub bits : ℕ → Bool

abbrev pub denied : Perms
denied = record { level = 0; bits = λ p. false }

-- At the level 3 every port may be read, otherwise those that are turned on.
abbrev pub may_read : ℕ → Perms → Bool
may_read p perms = (perms.level == 3) || perms.bits p

-- iopl and ioperm with their answers: where they fail, nothing changes.
abbrev pub raise : ℕ → ℤ → Perms → Perms
raise level rc perms = record perms { level = if is_zero rc then level else perms.level }

abbrev pub turn : ℕ → ℕ → ℕ → ℤ → Perms → Perms
turn from n on rc perms = record perms {
  bits = λ p.
      if is_zero rc && leb from p && ltb p (from + n)
      then if on == 0 then false else true
      else perms.bits p;
}

-- Each read of a port is of one that may be read then.
abbrev pub IsGuarded : Perms → List Call → Type 0
IsGuarded granted [] = Unit
IsGuarded granted (inb p ∷ calls) = (may_read p granted ≡ true) × IsGuarded granted calls
IsGuarded granted (iopl level rc ∷ calls) = IsGuarded (raise level rc granted) calls
IsGuarded granted (ioperm from n on rc ∷ calls) = IsGuarded (turn from n on rc granted) calls
IsGuarded granted (malloc n ∷ calls) = IsGuarded granted calls
IsGuarded granted (clone pid ∷ calls) = IsGuarded granted calls
IsGuarded granted (execve ∷ calls) = IsGuarded granted calls
IsGuarded granted (fork pid ∷ calls) = IsGuarded granted calls
IsGuarded granted (pthread_create ∷ calls) = IsGuarded granted calls
IsGuarded granted (pthread_join ∷ calls) = IsGuarded granted calls

either-IsGuarded :
    (perms : Perms) (b : Bool) (x y : Run)
    → IsGuarded perms x.calls
    → IsGuarded perms y.calls
    → IsGuarded perms (if b then x else y).calls
either-IsGuarded perms true x y hx hy = hx
either-IsGuarded perms false x y hx hy = hy

-- With the port at hand, each way to make a process or a thread may read it.
module _ (perms : Perms) (h : may_read port perms ≡ true) (w : Answers) where
  permissions_with_clone-IsGuarded : IsGuarded perms (permissions_with_clone w).calls
  unfolding permissions_with_clone test_read
  permissions_with_clone-IsGuarded = either-IsGuarded perms w.stack_found _ _ (h, tt) tt

  permissions_with_execve-IsGuarded : IsGuarded perms (permissions_with_execve w).calls
  unfolding permissions_with_execve test_read
  permissions_with_execve-IsGuarded = either-IsGuarded perms w.execve_fails _ _ (h, tt) (h, (h, tt))

  permissions_with_fork-IsGuarded : IsGuarded perms (permissions_with_fork w).calls
  unfolding permissions_with_fork test_read
  permissions_with_fork-IsGuarded = either-IsGuarded perms (is_neg w.fork_pid) _ _ tt (h, tt)

  create-IsGuarded : (creation : List ℕ) → IsGuarded perms (create w creation).calls
  unfolding create permissions_with_pthread test_read
  create-IsGuarded creation =
      either-IsGuarded perms (starts_with clone_word creation) _ _ permissions_with_clone-IsGuarded
        (either-IsGuarded perms (starts_with execve_word creation) _ _
          permissions_with_execve-IsGuarded
          (either-IsGuarded perms (starts_with fork_word creation) _ _
            permissions_with_fork-IsGuarded
            (either-IsGuarded perms (starts_with pthread_word creation) _ _ (h, tt) tt)))

-- What main promises of a run that has asked for a permission with the answer `rc`.
abbrev Promise : ℤ → Run → Type 0
Promise rc r = IsGuarded denied r.calls × (r.end ≡ returns (pos 0) → rc ≡ pos 0)

after_iopl :
    (w : Answers) (creation : List ℕ) (rc : ℤ)
    → Promise rc (after rc (iopl 3 rc ∷ []) (create w creation))
after_iopl w creation (pos zero) =
    (create-IsGuarded (raise 3 (pos 0) denied) refl w creation, λ _. refl)
after_iopl w creation (pos (suc n)) = (tt, λ e. absurd (ground arith))
after_iopl w creation (negsuc n) = (tt, λ e. absurd (ground arith))

after_ioperm :
    (w : Answers) (creation : List ℕ) (rc : ℤ)
    → Promise rc (after rc (ioperm 0 65535 1 rc ∷ []) (create w creation))
after_ioperm w creation (pos zero) =
    (create-IsGuarded (turn 0 65535 1 (pos 0) denied) refl w creation, λ _. refl)
after_ioperm w creation (pos (suc n)) = (tt, λ e. absurd (ground arith))
after_ioperm w creation (negsuc n) = (tt, λ e. absurd (ground arith))

asked :
    (w : Answers) (method creation : List ℕ)
    → let (rc, granted) = get_permissions w method in
      Promise w.permission_rc (after rc granted (create w creation))
unfolding get_permissions
asked w method creation = elim (Bool-cases (same_text method iopl_word)) [
  | inl e ↦ rw e (after_iopl w creation w.permission_rc)
  | inr n ↦ elim (Bool-cases (same_text method ioperm_word)) [
    | inl e ↦ rw (n, e) (after_ioperm w creation w.permission_rc)
    | inr m ↦ rw (n, m) (tt, λ e. absurd (ground arith))
  ]
]

-- Whatever the arguments are and whatever the system calls answer: started without any permission,
-- the program reads a port only where a call of iopl that has succeeded has set the level to 3, or
-- one of ioperm that has succeeded has turned that port on; and where it returns 0, it was called
-- with two arguments and the permission was granted.
pub main-IsGuarded :
    (w : Answers) (argc : ℕ) (permissions creation : List ℕ)
    → IsGuarded denied (main w argc permissions creation).calls
      × ((main w argc permissions creation).end ≡ returns (pos 0)
          → (argc ≡ 3) × (w.permission_rc ≡ pos 0))
unfolding main
main-IsGuarded w argc permissions creation = elim (Bool-cases (argc == 3)) [
  | inl e ↦
      let (guarded, granted) = asked w permissions creation in
      rw e (guarded, λ h. (ground arith, granted h))
  | inr n ↦ rw n (tt, λ h. absurd (ground arith))
]
