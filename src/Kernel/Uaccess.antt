-- ===== src/Kernel/Uaccess.antt =====
-- copy_from_user and copy_to_user, over an unknown user memory.
use lkm_sandbox.Base.{ℕ, ◌≡◌, List, length}

pub record Uaccess : Type 1 where
  pub Memory : Type 0
  -- the `n` bytes of user memory from an address on
  pub bytes : Memory → ℕ → ℕ → List ℕ
  -- how many bytes were not copied, and the `n` bytes that then stand at the destination
  pub from_user : Memory → ℕ → ℕ → ℕ × List ℕ
  -- how many bytes were not copied, and the user memory after the copy
  pub to_user : Memory → ℕ → List ℕ → ℕ × Memory

-- What the documentation of the two copies promises.
pub record IsLawful (U : Uaccess) : Type 0 where
  -- the destination of a copy is as long as was asked for, also where the copy broke off
  pub length-from_user : (m : U.Memory) (p n : ℕ) → length (U.from_user m p n).1 ≡ n
  -- a copy that leaves nothing out delivers the source
  pub from_user_all :
      (m : U.Memory) (p n : ℕ) → (U.from_user m p n).0 ≡ 0 → (U.from_user m p n).1 ≡ U.bytes m p n
  pub to_user_all :
      (m : U.Memory) (p : ℕ) (xs : List ℕ)
      → (U.to_user m p xs).0 ≡ 0
      → U.bytes (U.to_user m p xs).1 p (length xs) ≡ xs
