-- ===== src/Kernel/DevT.antt =====
-- MKDEV, MAJOR and MINOR.
use lkm_sandbox.Base.{ℕ, ◌^◌, ◌<◌, ◌≡◌}

pub record DevT : Type 0 where
  pub mkdev : ℕ → ℕ → ℕ
  pub major : ℕ → ℕ
  pub minor : ℕ → ℕ

-- A number has a major number of 12 bits and a minor number of 20 bits; 0 is that of 0 and 0.
pub record IsLawful (T : DevT) : Type 0 where
  pub major-mkdev : (a b : ℕ) → a < 2 ^ 12 → b < 2 ^ 20 → T.major (T.mkdev a b) ≡ a
  pub minor-mkdev : (a b : ℕ) → a < 2 ^ 12 → b < 2 ^ 20 → T.minor (T.mkdev a b) ≡ b
  pub major_zero : T.major 0 ≡ 0
