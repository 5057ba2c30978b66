-- ===== src/Mev/Setup/Open.antt =====
-- lkm_mev.c, mev_open on a valid device.
use lkm_sandbox.Base.{ℕ, ◌⊎◌, inr, ◌≢◌, ◌≡◌, inl, some, [], ◌%◌, pos, arith}
use native.Mathlib.Decide.{ℕ_discrete}
use lkm_sandbox.Kernel.Slab.{Slab}
use lkm_sandbox.Mev.Types.{quantum_size, qset_size, Container, IsValid}
use lkm_sandbox.Mev.Held.{Owns}
use lkm_sandbox.Mev.Trim.Frees.{trim-Owns, trim-IsValid}
use lkm_sandbox.Mev.Setup.{io_is_wronly, open_device}

abbrev pub emptied : Container → Container
emptied c = record c { chain = []; quantum = quantum_size; qset = qset_size; size = 0 }

-- Opening a valid device, whose memory is accounted for, for writing only frees all that its chain
-- holds, and nothing else, and leaves an empty, valid device; opening it otherwise changes nothing.
pub open_lem :
    (others : ℕ → ℕ) (c : Container) (f_flags : ℕ) (s : Slab)
    → IsValid c
    → Owns others c.chain s.log
    → ((f_flags % 4 ≡ 1)
        × ((s' : Slab) × (open_device (some c) f_flags s ≡ some (pos 0, some (emptied c), s'))
            × IsValid (emptied c)
            × Owns others [] s'.log))
      ⊎ ((f_flags % 4 ≢ 1) × (open_device (some c) f_flags s ≡ some (pos 0, some c, s)))
unfolding open_device io_is_wronly
open_lem others c f_flags s v o = elim (ℕ_discrete (f_flags % 4) 1) [
  | yes wronly ↦
      let (s', e, left) = trim-Owns others c s v.shaped o in
      inl (wronly, (s', ground arith, trim-IsValid c s e, left))
  | no other ↦ inr (other, ground arith)
]
