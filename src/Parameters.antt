-- ===== src/Parameters.antt =====
-- lkm_parameters.c: a module with two parameters.
pub mod Defaults
mod Tests
use lkm_sandbox.Kernel.Text.{same_text}
use lkm_sandbox.Base.{
  ℕ, zero, suc, ℤ, pos, negsuc, Bool, true, false, ◌&&◌, List, [], ◌∷◌, ◌==◌, if◌then◌else◌,
}

-- "That's a parameter."
abbrev pub default_message : List ℕ
default_message =
    84 ∷ 104 ∷ 97 ∷ 116 ∷ 39 ∷ 115 ∷ 32 ∷ 97 ∷ 32 ∷ 112 ∷ 97 ∷ 114 ∷ 97 ∷ 109 ∷ 101 ∷ 116 ∷ 101
    ∷ 114 ∷ 46 ∷ []

abbrev pub default_number : ℤ
default_number = pos 42

abbrev pub same_number : ℤ → ℤ → Bool
same_number (pos m) (pos n) = m == n
same_number (negsuc m) (negsuc n) = m == n
same_number _ _ = false

-- What init prints about the parameters.
pub data Line : Type 0 where
  defaults : Line
  given : ℤ → List ℕ → Line

unfoldable pub init : ℤ → List ℕ → ℤ × Line
init number message =
    if same_number number default_number && same_text message default_message
    then (pos 0, defaults)
    else (pos 0, given number message)
