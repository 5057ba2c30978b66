-- ===== src/Parameters/Defaults.antt =====
-- lkm_parameters.c: when the module says that its parameters are the defaults.
use lkm_sandbox.Base.{ℕ, ◌≡◌, refl, ap, ap₂, ◌↔◌, ℤ, pos, negsuc, true, List, [], ◌∷◌, arith}
use lkm_sandbox.Kernel.Text.{same_text}
use lkm_sandbox.Parameters.{default_message, default_number, same_number, defaults, init}

same_text_sound : (xs ys : List ℕ) → same_text xs ys ≡ true → xs ≡ ys
same_text_sound [] [] h = refl
same_text_sound [] (y ∷ ys) h = absurd (ground arith)
same_text_sound (x ∷ xs) [] h = absurd (ground arith)
same_text_sound (x ∷ xs) (y ∷ ys) h = ap₂ ◌∷◌ (ground arith) (same_text_sound xs ys (ground arith))

same_number_sound : (m n : ℤ) → same_number m n ≡ true → m ≡ n
same_number_sound (pos m) (pos n) h = ap pos (ground arith)
same_number_sound (negsuc m) (negsuc n) h = ap negsuc (ground arith)
same_number_sound (pos m) (negsuc n) h = absurd (ground arith)
same_number_sound (negsuc m) (pos n) h = absurd (ground arith)

-- The module says that it was loaded with the default parameters if and only if both parameters
-- are the defaults.
pub init_defaults :
    (number : ℤ) (message : List ℕ)
    → (init number message ≡ (pos 0, defaults))
      ↔ ((number ≡ default_number) × (message ≡ default_message))
unfolding init
init_defaults number message = (
  λ h. (
    same_number_sound number default_number (ground arith),
    same_text_sound message default_message (ground arith),
  ),
  λ (n, m). rw (n, m) refl,
)
