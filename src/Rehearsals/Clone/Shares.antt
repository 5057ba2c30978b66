-- ===== src/Rehearsals/Clone/Shares.antt =====
-- rehearsals/clone.c: what the new process is given.
use lkm_sandbox.Base.{
  ℕ, zero, suc, ◌+◌, ◌≡◌, refl, ◌⊎◌, inl, inr, ℤ, pos, negsuc, neg, none, some, [], ◌∷◌,
  Option-cases, arith,
}
use lkm_sandbox.Rehearsals.Clone.{
  stack_size, child_function, running, received, Memory, assign, Start, Answers, child_func, Run,
  main,
}

-- How main ends.
abbrev pub Outcome : Answers → Memory → Run → Type 0
Outcome w memory r =
    (((w.stack ≡ none) ⊎ (w.clone_pid ≡ neg 1)) × (r.ret ≡ neg 1) × (r.started ≡ none))
    ⊎ ((stack : ℕ) × (start : Start) × (w.stack ≡ some stack)
        × (r.ret ≡ pos 0)
        × (r.started ≡ some start)
        × (start.stack_top ≡ stack + stack_size)
        × ((pid : ℤ)
            → child_func pid start.memory start.argument
              ≡ (child_function ∷ running pid ∷ received 1001 ∷ [], pos 0)))

abbrev start_of : Answers → Memory → ℕ → Start
start_of w memory stack = record {
  stack_top = stack + stack_size;
  argument = w.data_at;
  memory = assign w.data_at 1001 memory;
}

cloned_Outcome :
    (w : Answers) (memory : Memory) (stack : ℕ) (pid : ℤ)
    → w.stack ≡ some stack
    → w.clone_pid ≡ pid
    → Outcome w memory (main w memory)
unfolding main child_func
cloned_Outcome w memory stack (negsuc zero) e e' = inl (inr e', rw (e, e') refl, rw (e, e') refl)
cloned_Outcome w memory stack (negsuc (suc n)) e e' =
    inr (
      stack,
      start_of w memory stack,
      e,
      rw (e, e') refl,
      rw (e, e') refl,
      refl,
      λ pid. ground arith,
    )
cloned_Outcome w memory stack (pos n) e e' =
    inr (
      stack,
      start_of w memory stack,
      e,
      rw (e, e') refl,
      rw (e, e') refl,
      refl,
      λ pid. ground arith,
    )

-- Either there is no stack, or clone has failed: the program returns -1 and starts nothing. Or a
-- process was made, and the program returns 0 without waiting for it: its stack ends where the
-- memory of malloc does, and, whatever the memory was before, the function there prints the 1001
-- that main has assigned.
pub main-Outcome : (w : Answers) (memory : Memory) → Outcome w memory (main w memory)
unfolding main
main-Outcome w memory = elim (Option-cases w.stack) [
  | inl e ↦ inl (inl e, rw e refl, rw e refl)
  | inr (stack, e) ↦ cloned_Outcome w memory stack w.clone_pid e refl
]
