-- ===== src/Rehearsals/IoPorts/Guarded.antt =====
-- rehearsals/io_ports.c: the permission behind each access to a port.
use lkm_sandbox.Base.{
  ℕ, zero, suc, ◌+◌, ◌≡◌, refl, ◌↔◌, ℤ, pos, negsuc, Bool, true, false, ◌&&◌, List, [], ◌∷◌, ◌==◌,
  leb, ltb, if◌then◌else◌, arith,
}
use lkm_sandbox.Rehearsals.IoPorts.{
  port, Call, ioperm, outb, sleep, inb, Answers, Run, use_ports, main,
}

abbrev pub Perms : Type 0
Perms = ℕ → Bool

abbrev pub denied : Perms
denied p = false

-- ioperm with its answer: `n` ports are turned on, or off, where it succeeds.
abbrev pub turn : ℕ → ℕ → ℕ → ℤ → Perms → Perms
turn from n on (pos zero) perms p =
    if leb from p && ltb p (from + n) then (if on == 0 then false else true) else perms p
turn from n on rc perms p = perms p

-- The permissions after some calls.
abbrev pub perms_after : List Call → Perms → Perms
perms_after [] perms = perms
perms_after (ioperm from n on rc ∷ calls) perms = perms_after calls (turn from n on rc perms)
perms_after (outb v p ∷ calls) perms = perms_after calls perms
perms_after (sleep n ∷ calls) perms = perms_after calls perms
perms_after (inb p ∷ calls) perms = perms_after calls perms

-- Each port that is written or read is permitted then.
abbrev pub IsGuarded : List Call → Perms → Type 0
IsGuarded [] perms = Unit
IsGuarded (ioperm from n on rc ∷ calls) perms = IsGuarded calls (turn from n on rc perms)
IsGuarded (outb v p ∷ calls) perms = (perms p ≡ true) × IsGuarded calls perms
IsGuarded (sleep n ∷ calls) perms = IsGuarded calls perms
IsGuarded (inb p ∷ calls) perms = (perms p ≡ true) × IsGuarded calls perms

abbrev pub Promise : Answers → Run → Type 0
Promise w r =
    IsGuarded r.calls denied
    × ((r.ret ≡ pos 0) ↔ ((w.first_rc ≡ pos 0) × (w.second_rc ≡ pos 0)))
    × (((p : ℕ) → perms_after r.calls denied p ≡ false)
        ↔ ((w.first_rc ≡ pos 0) → (w.second_rc ≡ pos 0)))

by_answers :
    (w : Answers) (a b : ℤ) → w.first_rc ≡ a → w.second_rc ≡ b → Promise w (use_ports w w.first_rc)
by_answers w (pos zero) (pos zero) e e' =
    rw (e, e')
      ((refl, (refl, tt)), (λ h. (refl, refl), λ h. refl), (λ h h'. refl, λ h p. ground arith))
by_answers w (pos zero) (pos (suc n)) e e' =
    rw (e, e')
      (
        (refl, (refl, tt)),
        (λ h. absurd (ground arith), λ h. h.1),
        (λ h. absurd (ground (arith, h port)), λ h. absurd (ground (arith, h refl))),
      )
by_answers w (pos zero) (negsuc n) e e' =
    rw (e, e')
      (
        (refl, (refl, tt)),
        (λ h. absurd (ground arith), λ h. h.1),
        (λ h. absurd (ground (arith, h port)), λ h. absurd (ground (arith, h refl))),
      )
by_answers w (pos (suc n)) b e e' =
    rw (e, e')
      (
        tt,
        (λ h. absurd (ground arith), λ h. absurd (ground arith)),
        (λ h h'. absurd (ground arith), λ h p. refl),
      )
by_answers w (negsuc n) b e e' =
    rw (e, e')
      (
        tt,
        (λ h. absurd (ground arith), λ h. absurd (ground arith)),
        (λ h h'. absurd (ground arith), λ h p. refl),
      )

-- Whatever ioperm answers: the program writes and reads only ports that it has been permitted,
-- returns 0 just where both calls of ioperm succeed, and keeps no permission just where the second
-- one succeeds or the first one does not.
pub main-Guarded : (w : Answers) → Promise w (main w)
unfolding main
main-Guarded w = by_answers w w.first_rc w.second_rc refl refl
