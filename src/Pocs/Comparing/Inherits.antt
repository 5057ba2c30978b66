-- ===== src/Pocs/Comparing/Inherits.antt =====
-- pocs/io-port-permissions/comparing-iopl-ioperm.c: invariants of the steps, and what a new thread
-- inherits.
use mathlib.Core.Path.{subst}
use lkm_sandbox.Base.{
  ◌∙◌, if◌then◌else◌, ◌≡◌, ◌≢◌, refl, Bool, true, false, Option, none, some, arith,
}
use lkm_sandbox.Pocs.Comparing.{
  Thread, main_thread, delayed_thread, thread, Ports, IsInherited, World, End, Process,
  delayed_step, child_step, inherit, main_step, step,
}

-- What holds of the state after a step, if there is one.
abbrev pub Ensures {ℓ κ} : {A : Type ℓ} → (A → Type κ) → Option A → Type κ
Ensures P none = Unit
Ensures P (some a) = P a

pub Ensures-some {ℓ κ} :
    {A : Type ℓ} (P : A → Type κ) {o : Option A} {a : A} → Ensures P o → o ≡ some a → P a
Ensures-some P h e = subst (Ensures P) e h

-- Where each thread's own step keeps something, so does the step of any.
pub step-Ensures :
    (K : Ports) (w : World) (P : Process K → Type 0) (s : Process K)
    → Ensures P (main_step K w s.main s)
    → Ensures P (delayed_step K s.delayed s)
    → Ensures P (child_step K s.child s)
    → (t : Thread) → Ensures P (step K w t s)
step-Ensures K w P s h₀ h₁ h₂ t = by_end s.ended t
  where
    by_end :
        (ended : Option End) (t : Thread)
        → Ensures P (elim ended [
          | some e ↦ none
          | none ↦ elim t [
            | main_thread ↦ main_step K w s.main s
            | delayed_thread ↦ delayed_step K s.delayed s
            | thread ↦ child_step K s.child s
          ]
        ])
    by_end (some e) t = tt
    by_end none main_thread = h₀
    by_end none delayed_thread = h₁
    by_end none thread = h₂

-- To prove something of an `if`, with the test at hand.
pub either {ℓ κ} :
    {A : Type ℓ} (P : A → Type κ) (b : Bool) (x y : A)
    → (b ≡ true → P x)
    → (b ≡ false → P y)
    → P (if b then x else y)
either P true x y h k = h refl
either P false x y h k = k refl

module _ (K : Ports) (I : IsInherited K) where
  pub inherit-others :
      (created : Bool) (u v : Thread) (p : K.Perms)
      → v ≢ u
      → K.allowed v (inherit K created u p) ≡ K.allowed v p
  inherit-others created u v p ne =
      either (λ q. K.allowed v q ≡ K.allowed v p) created _ _ (λ e. I.others main_thread u v p ne)
        (λ e. refl)

  pub inherit-copied :
      (created : Bool) (u : Thread) (p : K.Perms)
      → (created ≡ true → K.allowed main_thread p ≡ true)
      → created ≡ true
      → K.allowed u (inherit K created u p) ≡ true
  inherit-copied true u p h e = I.copied main_thread u p ∙ h refl
  inherit-copied false u p h e = absurd (ground arith)
