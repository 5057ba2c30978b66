-- ===== src/Mev/Write.antt =====
-- lkm_mev.c, mev_write.
pub mod Grow
pub mod Fresh
pub mod Discloses
pub mod Extends
pub mod Stores
pub mod Nodes
pub mod Ends
pub mod Effect
pub mod Writes
use lkm_sandbox.Base.{
  ℕ, ◌+◌, ◌%◌, ◌^◌, Bool, true, false, Option, none, some, List, ◌>>=◌, ltb, leb, ◌==◌,
  if◌then◌else◌, length, get_elem?, set, replicate, tabulate, overwrite, pos, neg,
}
use lkm_sandbox.Kernel.Errno.{enomem, efault, erestartsys}
use lkm_sandbox.Kernel.Slab.{Slab, null, block, kmalloc}
use lkm_sandbox.Kernel.Uaccess.{Uaccess}
use lkm_sandbox.Mev.Types.{Quantum, Slots, Qset, State, Io, Place, locate}
use lkm_sandbox.Mev.Follow.{follow}
use lkm_sandbox.Mev.Read.{down, to_quantum_end, released}

-- What the allocations of mev_write leave: no memory, or the array and the quantum at `s_pos`.
pub data Grown : Type 0 where
  outside : Grown
  no_memory : Option Slots → Slab → Grown
  grown : Slots → Quantum → Slab → Grown

-- `if (!dptr->data[s_pos])`: a fresh quantum keeps the stale bytes of its memory.
unfoldable pub grow_quantum : ℕ → ℕ → Slots → Slab → Grown
grow_quantum quantum s_pos a s = elim (get_elem? a.quanta s_pos) [
  | none ↦ outside
  | some (some q) ↦ grown a q s
  | some none ↦ elim (kmalloc s) [
    | null s' ↦ no_memory (some a) s'
    | block b s' ↦
        let q : Quantum = record { addr = b.addr; bytes = tabulate b.stale 0 quantum } in
        grown (record a { quanta = set a.quanta s_pos (some q) }) q s'
  ]
]

-- `if (!dptr->data)`: a fresh array is cleared.
unfoldable pub grow : ℕ → ℕ → ℕ → Option Slots → Slab → Grown
grow quantum qset s_pos (some a) s = grow_quantum quantum s_pos a s
grow quantum qset s_pos none s = elim (kmalloc s) [
  | null s' ↦ no_memory none s'
  | block b s' ↦
      grow_quantum quantum s_pos (record { addr = b.addr; quanta = replicate qset none }) s'
]

-- The array after the bytes were copied into the quantum at `s_pos`.
abbrev pub stored : Slots → Quantum → Place → List ℕ → Slots
stored a q at bytes = record a {
  quanta = set a.quanta at.s_pos (some (record q { bytes = overwrite at.q_pos bytes q.bytes }));
}

-- The chain with the slots of its n-th set replaced.
abbrev pub set_slots : List Qset → ℕ → Qset → Option Slots → List Qset
set_slots chain n node slots = set chain n (record node { slots = slots })

module _ (U : Uaccess) where
  -- The copy, and what follows it; a copy beyond the end of the quantum is a fault.
  unfoldable pub receive : ℕ → ℕ → ℕ → Place → Qset → Slots → Quantum → State U → Option (Io U)
  receive buf count f_pos at node a q s =
      let (left, bytes) = U.from_user s.user buf count in
      let chain = set_slots s.dev.chain at.item node (some (stored a q at bytes)) in
      let end = (f_pos + count) % 2 ^ 64 in
      if leb (at.q_pos + count) (length q.bytes)
      then if left == 0
        then some (record {
          ret = pos count;
          f_pos = end;
          state = record s {
            dev = record (s.dev) {
              chain = chain;
              size = if ltb s.dev.size end then end else s.dev.size;
            };
          };
        })
        else some (record {
          ret = neg efault;
          f_pos = f_pos;
          state = record s { dev = record (s.dev) { chain = chain } };
        })
      else none

  -- From the test of `dptr->data` to the label `out`, at the set that mev_follow found.
  unfoldable pub write_node : ℕ → ℕ → ℕ → Place → Qset → State U → Option (Io U)
  write_node buf count f_pos at node s =
      elim (grow s.dev.quantum s.dev.qset at.s_pos node.slots s.slab) [
        | outside ↦ none
        | no_memory slots slab ↦ some (record {
          ret = neg enomem;
          f_pos = f_pos;
          state = record s {
            dev = record (s.dev) { chain = set_slots s.dev.chain at.item node slots };
            slab = slab;
          };
        })
        | grown a q slab ↦
            receive buf (to_quantum_end s.dev.quantum at.q_pos count) f_pos at node a q
              (record s { slab = slab })
      ]

  -- From the call of mev_follow to the label `out`.
  unfoldable pub write_at : ℕ → ℕ → ℕ → Place → State U → Option (Io U)
  write_at buf count f_pos at s =
      let r = follow s.dev.chain at.item s.slab in
      let s' = record s { dev = record (s.dev) { chain = r.chain }; slab = r.slab } in
      if r.found
      then (get_elem? r.chain at.item >>= λ node. write_node buf count f_pos at node s')
      else some (record { ret = neg enomem; f_pos = f_pos; state = s' })

  -- What runs while the semaphore is held.
  unfoldable pub write_locked : ℕ → ℕ → ℕ → State U → Option (Io U)
  write_locked buf count f_pos s = locate s.dev f_pos >>= λ at. write_at buf count f_pos at s

  -- `interrupted` is what down_interruptible answers.
  unfoldable pub write : Bool → ℕ → ℕ → ℕ → State U → Option (Io U)
  write true buf count f_pos s = some (record { ret = neg erestartsys; f_pos = f_pos; state = s })
  write false buf count f_pos s = do
    r ← write_locked buf count f_pos (record s { dev = down s.dev })
    some (released U r)
