-- ===== src/Rehearsals/Execve/Runs.antt =====
-- rehearsals/execve: what the process prints in either program.
use lkm_sandbox.Base.{
  ℕ, zero, suc, ◌≡◌, ◌≢◌, refl, ap, ap₂, ◌↔◌, ℤ, pos, neg, Bool, true, false, ◌||◌, none, some,
  List, [], ◌∷◌, if◌then◌else◌, arith, Bool-cases, Option-cases, length, ◌<◌, inl, inr,
}
use lkm_sandbox.Kernel.Text.{same_prefix}
use lkm_sandbox.Rehearsals.Execve.{
  execve_executable, execve_size, Line, running, executing, never_hit, failed, running_another,
  invoked, Answers, main, main_target, run,
}

abbrev pub is_never_hit : Line → Bool
is_never_hit never_hit = true
is_never_hit _ = false

abbrev pub is_invoked : Line → Bool
is_invoked invoked = true
is_invoked _ = false

abbrev pub any : (Line → Bool) → List Line → Bool
any test [] = false
any test (x ∷ xs) = test x || any test xs

-- Up to a length that is beyond the word, its NUL is compared too.
eq_of_same_prefix : (n : ℕ) (cs ds : List ℕ) → length ds < n → same_prefix n cs ds ≡ true → cs ≡ ds
eq_of_same_prefix zero cs ds h e = absurd (omega arith)
eq_of_same_prefix (suc n) [] [] h e = refl
eq_of_same_prefix (suc n) [] (d ∷ ds) h e = absurd (ground arith)
eq_of_same_prefix (suc n) (c ∷ cs) [] h e = absurd (ground arith)
eq_of_same_prefix (suc n) (c ∷ cs) (d ∷ ds) h e =
    ap₂ ◌∷◌ (ground arith) (eq_of_same_prefix n cs ds (omega arith) (ground arith))

invoked_only : (b : Bool) → any is_invoked (if b then invoked ∷ [] else []) ≡ b
invoked_only true = refl
invoked_only false = refl

another :
    (name : List ℕ)
    → same_prefix execve_size name execve_executable ≡ false
    → name ≢ execve_executable
another name other is =
    absurd (ground (arith, ap (λ (n : List ℕ). same_prefix execve_size n execve_executable) is))

-- What is promised of the lines, with the name of the program.
abbrev pub Promise : Answers → List ℕ → List Line → ℤ → Type 0
Promise w name lines rc =
    (any is_never_hit lines ≡ false)
    × ((any is_invoked lines ≡ true) ↔ ((w.execve_rc ≡ none) × (name ≡ execve_executable)))
    × ((rc ≡ pos 0) ↔ (w.execve_rc ≡ none))

-- Where an execve that returns answers -1: the process ends, whatever its name is; it never prints
-- the line behind execve, prints that it was invoked just where execve has replaced the program and
-- its own name, argv[0], is "execve" without a path, and returns 0 just where the program was
-- replaced.
pub run_lem :
    (w : Answers) (name : List ℕ) (more : List (List ℕ))
    → ((rc : ℤ) → w.execve_rc ≡ some rc → rc ≡ neg 1)
    → (lines : List Line) × (rc : ℤ) × (run w (name ∷ more) ≡ some (lines, rc))
      × Promise w name lines rc
unfolding run main main_target
run_lem w name more fails = elim (Option-cases w.execve_rc) [
  | inl e ↦ elim (Bool-cases (same_prefix execve_size name execve_executable)) [
    | inl same ↦
        let is : name ≡ execve_executable =
          eq_of_same_prefix execve_size name execve_executable (omega arith) same in
        (
          running w.pid ∷ executing ∷ running_another w.pid ∷ invoked ∷ [],
          pos 0,
          rw (e, same) refl,
          (refl, (λ _. (e, is), λ _. refl), (λ _. e, λ _. refl)),
        )
    | inr other ↦ (
      running w.pid ∷ executing ∷ running_another w.pid ∷ [],
      pos 0,
      rw (e, other) refl,
      (
        refl,
        (λ h. absurd (ground arith), λ h. absurd (another name other h.1)),
        (λ _. e, λ _. refl),
      ),
    )
  ]
  | inr (rc, e) ↦ (
    running w.pid ∷ executing ∷ failed ∷ [],
    neg 1,
    rw (e, fails rc e) refl,
    (
      refl,
      (λ h. absurd (ground arith), λ h. absurd (ground arith)),
      (λ h. absurd (ground arith), λ h. absurd (ground arith)),
    ),
  )
]
