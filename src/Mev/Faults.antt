-- ===== src/Mev/Faults.antt =====
-- lkm_mev.c: for which states and positions the device goes wrong.
use lkm_sandbox.Base.{ℕ, ◌+◌, ◌*◌, ◌/◌, ◌^◌, ◌≡◌, false, none, arith}
use native.Mathlib.Nat.{add-mul-div_right, add-mul-mod_self_right, add-mod_right}
use lkm_sandbox.Kernel.Uaccess.{Uaccess}
use lkm_sandbox.Mev.Types.{Container, State, IsValid, locate}
use lkm_sandbox.Mev.Place.{itemsize_pos}
use lkm_sandbox.Mev.Write.{write_locked, write}

-- Until mev_trim has run, the quantum and the set size are what stands in the memory of the
-- container: where one of them is 0, every write divides by zero.
pub write_unset :
    (U : Uaccess) (s : State U) (buf count f_pos : ℕ)
    → s.dev.quantum * s.dev.qset ≡ 0
    → write U false buf count f_pos s ≡ none
unfolding write write_locked locate
write_unset U s buf count f_pos e = ground arith

-- On a valid device, `item` is an int: 2 ^ 32 sets behind a position lies the same place.
pub locate_wraps :
    (c : Container) (p : ℕ) → IsValid c → locate c (p + 2 ^ 32 * (c.quantum * c.qset)) ≡ locate c p
unfolding locate
locate_wraps c p v =
    let pos = itemsize_pos c.quantum c.qset v.quantum_pos v.qset_pos in
    rw (
      add-mul-div_right p (2 ^ 32) pos,
      add-mul-mod_self_right p (2 ^ 32) (c.quantum * c.qset),
      add-mod_right (p / (c.quantum * c.qset)) (2 ^ 32),
    )
