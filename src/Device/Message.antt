-- ===== src/Device/Message.antt =====
-- lkm_device.c: the message buffer as a C string.
use lkm_sandbox.Base.{
  ℕ, zero, suc, ◌≤◌, ◌<◌, ◌≡◌, refl, Bool, true, false, some, List, [], ◌∷◌, get_elem?, arith,
}
use lkm_sandbox.Kernel.Text.{strncpy}
use lkm_sandbox.Device.{message, message_buffer_length, Device}

-- The first NUL stands at `n`.
pub record IsText (chars : List ℕ) (n : ℕ) : Type 0 where
  pub ends : get_elem? chars n ≡ some 0
  pub starts : (i : ℕ) → i < n → (c : ℕ) × (get_elem? chars i ≡ some (suc c))

-- The first `n` chars are not NUL.
abbrev all_suc : List ℕ → ℕ → Bool
all_suc chars zero = true
all_suc [] (suc n) = false
all_suc (zero ∷ chars) (suc n) = false
all_suc (suc c ∷ chars) (suc n) = all_suc chars n

starts_lem :
    (chars : List ℕ) (n i : ℕ)
    → all_suc chars n ≡ true
    → i < n
    → (c : ℕ) × (get_elem? chars i ≡ some (suc c))
starts_lem chars zero i h lt = elim lt [ ]
starts_lem [] (suc n) i h lt = absurd (ground arith)
starts_lem (zero ∷ chars) (suc n) i h lt = absurd (ground arith)
starts_lem (suc c ∷ chars) (suc n) zero h lt = (c, refl)
starts_lem (suc c ∷ chars) (suc n) (suc i) h lt = starts_lem chars n i h (omega arith)

pub message-IsText : IsText message 14
message-IsText = record { ends = refl; starts = λ i h. starts_lem message 14 i refl h }

-- A device that was initialised: the buffer holds the message, and the pointer is in it, the NUL
-- included.
pub record IsReadable (s : Device) : Type 0 where
  pub filled : s.message_buffer ≡ message
  pub within : s.message_ptr ≤ 14

-- strncpy copies the whole message, and its NUL.
pub strncpy-message : strncpy message message_buffer_length ≡ message
strncpy-message = refl
