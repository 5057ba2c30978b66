-- ===== src/Mev/Read.antt =====
-- lkm_mev.c, mev_read.
pub mod Agrees
pub mod Ends
pub mod Delivers
use lkm_sandbox.Base.{
  ℕ, ◌+◌, ◌-◌, ◌%◌, ◌^◌, Bool, true, false, Option, none, some, List, ◌>>=◌, ltb, leb, ◌==◌,
  if◌then◌else◌, length, get_elem?, take, drop, pos, neg,
}
use lkm_sandbox.Kernel.Errno.{efault, erestartsys}
use lkm_sandbox.Kernel.Uaccess.{Uaccess}
use lkm_sandbox.Mev.Types.{Quantum, Slots, Qset, Container, State, Io, Place, locate}
use lkm_sandbox.Mev.Follow.{follow}

-- down_interruptible that is not interrupted, and up. A down waits while the count is 0.
abbrev pub down : Container → Container
down c = record c { sem = c.sem - 1 }

abbrev pub up : Container → Container
up c = record c { sem = c.sem + 1 }

-- What the tests on `dptr` and its data find.
pub data Lookup : Type 0 where
  outside : Lookup
  absent : Lookup
  present : Quantum → Lookup

abbrev pub slot_of : Option (Option Quantum) → Lookup
slot_of none = outside
slot_of (some none) = absent
slot_of (some (some q)) = present q

abbrev pub slots_at : Option Slots → ℕ → Lookup
slots_at none i = absent
slots_at (some a) i = slot_of (get_elem? a.quanta i)

abbrev pub qset_at : Option Qset → ℕ → Lookup
qset_at none i = outside
qset_at (some node) i = slots_at node.slots i

-- `dptr == NULL || !dptr->data || !dptr->data[s_pos]`
unfoldable pub lookup : Bool → List Qset → Place → Lookup
lookup false chain at = absent
lookup true chain at = qset_at (get_elem? chain at.item) at.s_pos

-- `count`, cut to the end of the quantum
abbrev pub to_quantum_end : ℕ → ℕ → ℕ → ℕ
to_quantum_end quantum q_pos count = if ltb (quantum - q_pos) count then quantum - q_pos else count

-- `count`, cut to the end of the file; the sum is of 64 bits
abbrev pub to_file_end : ℕ → ℕ → ℕ → ℕ
to_file_end size f_pos count = if ltb size ((f_pos + count) % 2 ^ 64) then size - f_pos else count

-- The `n` bytes from an offset on, a fault where the memory is shorter.
abbrev pub slice : ℕ → ℕ → List ℕ → Option (List ℕ)
slice i n bytes = if leb (i + n) (length bytes) then some (take n (drop i bytes)) else none

module _ (U : Uaccess) where
  -- The copy, and what follows it.
  unfoldable pub deliver : ℕ → ℕ → List ℕ → State U → Io U
  deliver buf f_pos bytes s =
      let (left, user) = U.to_user s.user buf bytes in
      let s' = record s { user = user } in
      if left == 0
      then record { ret = pos (length bytes); f_pos = (f_pos + length bytes) % 2 ^ 64; state = s' }
      else record { ret = neg efault; f_pos = f_pos; state = s' }

  -- From the call of mev_follow to the label `out`.
  unfoldable pub read_at : ℕ → ℕ → ℕ → Place → State U → Option (Io U)
  read_at buf count f_pos at s =
      let r = follow s.dev.chain at.item s.slab in
      let s' = record s { dev = record (s.dev) { chain = r.chain }; slab = r.slab } in
      elim (lookup r.found r.chain at) [
        | outside ↦ none
        | absent ↦ some (record { ret = pos 0; f_pos = f_pos; state = s' })
        | present q ↦ do
          bytes ← slice at.q_pos (to_quantum_end s.dev.quantum at.q_pos count) q.bytes
          some (deliver buf f_pos bytes s')
      ]

  -- What runs while the semaphore is held.
  unfoldable pub read_locked : ℕ → ℕ → ℕ → State U → Option (Io U)
  read_locked buf count f_pos s =
      if leb s.dev.size f_pos
      then some (record { ret = pos 0; f_pos = f_pos; state = s })
      else do at ← locate s.dev f_pos; read_at buf (to_file_end s.dev.size f_pos count) f_pos at s

  abbrev pub released : Io U → Io U
  released r = record r { state = record (r.state) { dev = up r.state.dev } }

  -- `interrupted` is what down_interruptible answers.
  unfoldable pub read : Bool → ℕ → ℕ → ℕ → State U → Option (Io U)
  read true buf count f_pos s = some (record { ret = neg erestartsys; f_pos = f_pos; state = s })
  read false buf count f_pos s = do
    r ← read_locked buf count f_pos (record s { dev = down s.dev })
    some (released r)
