-- ===== src/Kernel/PutUser.antt =====
-- put_user for a char, over an unknown user memory.
use lkm_sandbox.Base.{ℕ, ◌≡◌, ◌≢◌, Option, some}

pub record PutUser : Type 1 where
  pub Memory : Type 0
  -- the char at an address
  pub char_at : Memory → ℕ → ℕ
  -- the memory after the char was put at the address, or -EFAULT
  pub put_user : Memory → ℕ → ℕ → Option Memory

-- What the documentation promises of a put that succeeds.
pub record IsLawful (P : PutUser) : Type 0 where
  pub put_self :
      (m : P.Memory) (a x : ℕ) {m' : P.Memory} → P.put_user m a x ≡ some m' → P.char_at m' a ≡ x
  pub put_other :
      (m : P.Memory) (a x b : ℕ) {m' : P.Memory}
      → P.put_user m a x ≡ some m'
      → b ≢ a
      → P.char_at m' b ≡ P.char_at m b
