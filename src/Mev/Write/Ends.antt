-- ===== src/Mev/Write/Ends.antt =====
-- lkm_mev.c, mev_write: how a write on a valid device ends.
use lkm_sandbox.Base.{
  ℕ, ◌+◌, ◌-◌, ◌*◌, ◌/◌, ◌^◌, ◌≤◌, ◌<◌, ◌≡◌, ap, inl, inr, Bool, true, false, some, List,
  if◌then◌else◌, arith, ◌>>=◌,
}
use lkm_sandbox.Kernel.Errno.{enomem, efault}
use lkm_sandbox.Kernel.Slab.{Slab}
use lkm_sandbox.Kernel.Uaccess.{Uaccess, IsLawful}
use lkm_sandbox.Mev.Types.{Qset, Container, State, IsValid, sem-IsValid}
use lkm_sandbox.Mev.Place.{place, slot-lt, offset-lt, end-le, locate_lem}
use lkm_sandbox.Mev.Read.{down, to_quantum_end, released}
use lkm_sandbox.Mev.Write.{write_at, write_locked, write}
use lkm_sandbox.Mev.Write.Nodes.{failed, finished, WriteEnds, write_at-Ends}

mul_le : (a b c d : ℕ) → a ≤ b → c ≤ d → a * c ≤ b * d
mul_le a b c d h k = grind arith

-- How many bytes a write of `count` bytes is cut to.
abbrev pub write_length : Container → ℕ → ℕ → ℕ
write_length c f_pos count = to_quantum_end c.quantum (place c f_pos).q_pos count

module _ (U : Uaccess) (L : IsLawful U) (s : State U) (v : IsValid s.dev) (free : 0 < s.dev.sem)
    (buf count f_pos : ℕ) (near : f_pos / (s.dev.quantum * s.dev.qset) < 2 ^ 32) where
  locked_same : write U false buf count f_pos s ≡ (
      write_at U buf count f_pos (place s.dev f_pos) (record s { dev = down s.dev }) >>= λ r.
      some (released U r))
  unfolding write write_locked
  locked_same = rw (locate_lem (down s.dev) f_pos (sem-IsValid s.dev (s.dev.sem - 1) v) near)

  restore_failed :
      (e : ℕ) (chain : List Qset) (slab : Slab)
      → released U (failed U f_pos (record s { dev = down s.dev }) e chain slab)
        ≡ failed U f_pos s e chain slab
  restore_failed e chain slab = ground arith

  restore_finished :
      (n : ℕ) (chain : List Qset) (slab : Slab)
      → released U (finished U f_pos (record s { dev = down s.dev }) n chain slab)
        ≡ finished U f_pos s n chain slab
  restore_finished n chain slab = ground arith

  restore_either :
      (b : Bool) (chain : List Qset) (slab : Slab)
      → let n = write_length s.dev f_pos count in
        some (
          released U (
            if b
            then finished U f_pos (record s { dev = down s.dev }) n chain slab
            else failed U f_pos (record s { dev = down s.dev }) efault chain slab))
        ≡ some (if b then finished U f_pos s n chain slab else failed U f_pos s efault chain slab)
  restore_either true chain slab = ap some (restore_finished _ chain slab)
  restore_either false chain slab = ap some (restore_failed efault chain slab)

  small : f_pos + write_length s.dev f_pos count < 2 ^ 64
  small = omega (
    arith,
    end-le s.dev.quantum s.dev.qset v.quantum_pos v.qset_pos f_pos (write_length s.dev f_pos count)
        (ground (arith, offset-lt s.dev.quantum s.dev.qset v.quantum_pos v.qset_pos f_pos)),
    mul_le (f_pos / (s.dev.quantum * s.dev.qset) + 1) (2 ^ 32) (s.dev.quantum * s.dev.qset) (2 ^ 31)
        (omega arith) (omega (arith, v.fits_int)),
  )

  pub write-Ends :
      WriteEnds U f_pos s buf
        (place s.dev f_pos)
        (write_length s.dev f_pos count)
        (write U false buf count f_pos s)
  write-Ends =
      elim (write_at-Ends U f_pos (record s { dev = down s.dev }) L buf count (place s.dev f_pos)
        (slot-lt s.dev.quantum s.dev.qset v.quantum_pos v.qset_pos f_pos)
        (offset-lt s.dev.quantum s.dev.qset v.quantum_pos v.qset_pos f_pos) small near v.shaped) [
          | inl (chain, slab, e, x) ↦
              inl (chain, slab, rw (locked_same, e) (ap some (restore_failed enomem chain slab)), x)
          | inr (mid, chain, slab, e, lt, x, t, fresh) ↦
              inr (
                mid,
                chain,
                slab,
                rw (locked_same, e) (restore_either _ chain slab),
                lt,
                x,
                t,
                fresh,
              )
        ]
