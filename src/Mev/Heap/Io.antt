-- ===== src/Mev/Heap/Io.antt =====
-- lkm_mev.c, mev_read and mev_write over the kernel's memory, with the user's memory.
pub mod Agrees
pub mod Present
pub mod Reads
pub mod Receives
pub mod Nodes
pub mod Writes
pub mod Sample
mod Tests
use lkm_sandbox.Base.{
  ℕ, ◌+◌, ◌-◌, ◌%◌, ◌^◌, ℤ, Bool, true, false, Option, none, some, List, [], ◌>>=◌, ltb, leb, ◌==◌,
  if◌then◌else◌, length, overwrite, pos, neg,
}
use lkm_sandbox.Kernel.Errno.{enomem, efault, erestartsys}
use lkm_sandbox.Kernel.Uaccess.{Uaccess}
use lkm_sandbox.Mev.Types.{Place, locate}
use lkm_sandbox.Mev.Types
use lkm_sandbox.Mev.Read.{to_quantum_end, to_file_end, slice}
use lkm_sandbox.Mev.Heap.{Ptr, quantum, Memory, Container, put, follow}
use lkm_sandbox.Mev.Heap.Access.{load_bytes, find, grow}

pub record State (U : Uaccess) : Type 0 where
  pub dev : Container
  pub memory : Memory
  pub user : U.Memory

pub record Io (U : Uaccess) : Type 0 where
  pub ret : ℤ
  pub f_pos : ℕ
  pub state : State U

-- The sizes of a container, which is all that the place of a position depends on.
abbrev pub sizes : Container → lkm_sandbox.Mev.Types.Container
sizes c = record { chain = []; quantum = c.quantum; qset = c.qset; size = c.size; sem = c.sem }

module _ (U : Uaccess) where
  abbrev pub down : State U → State U
  down s = record s { dev = record (s.dev) { sem = s.dev.sem - 1 } }

  abbrev pub released : Io U → Io U
  released r = record r {
    state = record (r.state) { dev = record (r.state.dev) { sem = r.state.dev.sem + 1 } };
  }

  -- copy_to_user, and what follows it
  unfoldable pub deliver : ℕ → ℕ → List ℕ → State U → Io U
  deliver buf f_pos bytes s =
      let (left, user) = U.to_user s.user buf bytes in
      let s' = record s { user = user } in
      if left == 0
      then record { ret = pos (length bytes); f_pos = (f_pos + length bytes) % 2 ^ 64; state = s' }
      else record { ret = neg efault; f_pos = f_pos; state = s' }

  -- mev_read from the test of the pointers on, with the pointer to the quantum
  unfoldable pub read_quantum : ℕ → ℕ → ℕ → Place → Ptr → State U → Option (Io U)
  read_quantum buf count f_pos at q s = elim (q == 0) [
    | true ↦ some (record { ret = pos 0; f_pos = f_pos; state = s })
    | false ↦ do
      bytes ← load_bytes s.memory.cells q
      part ← slice at.q_pos (to_quantum_end s.dev.quantum at.q_pos count) bytes
      some (deliver buf f_pos part s)
  ]

  -- mev_read from the call of mev_follow on
  unfoldable pub read_at : ℕ → ℕ → ℕ → Place → State U → Option (Io U)
  read_at buf count f_pos at s = do
    (p, c, m) ← follow s.dev at.item s.memory
    q ← find p at.s_pos m.cells
    read_quantum buf count f_pos at q (record s { dev = c; memory = m })

  unfoldable pub read_locked : ℕ → ℕ → ℕ → State U → Option (Io U)
  read_locked buf count f_pos s =
      if leb s.dev.size f_pos then some (record { ret = pos 0; f_pos = f_pos; state = s }) else do
        at ← locate (sizes s.dev) f_pos
        read_at buf (to_file_end s.dev.size f_pos count) f_pos at s

  -- mev_read
  unfoldable pub read : Bool → ℕ → ℕ → ℕ → State U → Option (Io U)
  read true buf count f_pos s = some (record { ret = neg erestartsys; f_pos = f_pos; state = s })
  read false buf count f_pos s = do r ← read_locked buf count f_pos (down s); some (released r)

  -- copy_from_user, and what follows it
  unfoldable pub receive : ℕ → ℕ → ℕ → ℕ → Ptr → State U → Option (Io U)
  receive buf count f_pos q_pos q s = do
    old ← load_bytes s.memory.cells q
    let (left, bytes) = U.from_user s.user buf count in
        let cells = put s.memory.cells q (some (quantum (overwrite q_pos bytes old))) in
        let end = (f_pos + count) % 2 ^ 64 in
        if leb (q_pos + count) (length old)
        then some (
            if left == 0
            then record {
              ret = pos count;
              f_pos = end;
              state = record s {
                dev = record (s.dev) { size = if ltb s.dev.size end then end else s.dev.size };
                memory = record (s.memory) { cells = cells };
              };
            }
            else record {
              ret = neg efault;
              f_pos = f_pos;
              state = record s { memory = record (s.memory) { cells = cells } };
            })
        else none

  -- mev_write from the test of `dptr` on
  unfoldable pub write_node : ℕ → ℕ → ℕ → Place → Ptr → State U → Option (Io U)
  write_node buf count f_pos at p s = elim (p == 0) [
    | true ↦ some (record { ret = neg enomem; f_pos = f_pos; state = s })
    | false ↦ do
      (q, m) ← grow s.dev.quantum s.dev.qset at.s_pos p s.memory
      elim (q == 0) [
        | true ↦ some (record { ret = neg enomem; f_pos = f_pos; state = record s { memory = m } })
        | false ↦
            receive buf (to_quantum_end s.dev.quantum at.q_pos count) f_pos at.q_pos q
              (record s { memory = m })
      ]
  ]

  -- mev_write from the call of mev_follow on
  unfoldable pub write_at : ℕ → ℕ → ℕ → Place → State U → Option (Io U)
  write_at buf count f_pos at s = do
    (p, c, m) ← follow s.dev at.item s.memory
    write_node buf count f_pos at p (record s { dev = c; memory = m })

  unfoldable pub write_locked : ℕ → ℕ → ℕ → State U → Option (Io U)
  write_locked buf count f_pos s =
      locate (sizes s.dev) f_pos >>= λ at. write_at buf count f_pos at s

  -- mev_write
  unfoldable pub write : Bool → ℕ → ℕ → ℕ → State U → Option (Io U)
  write true buf count f_pos s = some (record { ret = neg erestartsys; f_pos = f_pos; state = s })
  write false buf count f_pos s = do r ← write_locked buf count f_pos (down s); some (released r)
