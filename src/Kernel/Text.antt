-- ===== src/Kernel/Text.antt =====
-- C strings as lists of chars.
use lkm_sandbox.Base.{
  ℕ, zero, suc, ◌-◌, Bool, true, false, ◌&&◌, ◌==◌, List, [], ◌∷◌, ◌++◌, length, take, replicate,
}

-- strncpy: as many chars of the source, with NULs where it is shorter.
abbrev pub strncpy : List ℕ → ℕ → List ℕ
strncpy src n = take n src ++ replicate (n - length src) 0

-- strcmp of two strings, without their NULs, answers 0.
abbrev pub same_text : List ℕ → List ℕ → Bool
same_text [] [] = true
same_text (c ∷ cs) (d ∷ ds) = (c == d) && same_text cs ds
same_text _ _ = false

-- strncmp of a string with a word, up to the length of the word, answers 0.
abbrev pub starts_with : List ℕ → List ℕ → Bool
starts_with [] text = true
starts_with (c ∷ cs) [] = false
starts_with (c ∷ cs) (d ∷ ds) = (c == d) && starts_with cs ds

-- strncmp of two strings, without their NULs, up to `n` chars answers 0.
abbrev pub same_prefix : ℕ → List ℕ → List ℕ → Bool
same_prefix zero cs ds = true
same_prefix (suc n) [] [] = true
same_prefix (suc n) (c ∷ cs) (d ∷ ds) = (c == d) && same_prefix n cs ds
same_prefix (suc n) _ _ = false
