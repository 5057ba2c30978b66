-- ===== src/Mev/Heap/Access.antt =====
-- lkm_mev.c, mev_read and mev_write over the kernel's memory.
pub mod Quanta
pub mod Fills
pub mod Makes
pub mod Rounds
pub mod Grown
pub mod Lookups
use lkm_sandbox.Base.{
  ℕ, zero, suc, ◌+◌, ◌%◌, ◌^◌, Bool, true, false, Option, none, some, List, ◌>>=◌, ltb, leb, ◌==◌,
  if◌then◌else◌, length, get_elem?, set, replicate, tabulate, overwrite, pos, neg, ℤ,
}
use lkm_sandbox.Kernel.Errno.{enomem, efault, erestartsys}
use lkm_sandbox.Kernel.Slab.{Block, Slab, null, block, kmalloc}
use lkm_sandbox.Kernel.Uaccess.{Uaccess}
use lkm_sandbox.Mev.Types.{Place, locate}
use lkm_sandbox.Mev.Types
use lkm_sandbox.Mev.Read.{to_quantum_end, to_file_end, slice}
use lkm_sandbox.Mev.Heap.{
  Ptr, Cell, qset, array, quantum, Cells, Memory, Container, put, load_qset, load_item, as_array,
  follow,
}

-- kmalloc, with what stands in the memory that it gives; the pointer is NULL where there is none.
unfoldable pub alloc : (Block → Cell) → Memory → Ptr × Memory
alloc content m = elim (kmalloc m.slab) [
  | null s ↦ (0, record m { slab = s })
  | block b s ↦ (b.addr, record { cells = put m.cells b.addr (some (content b)); slab = s })
]

abbrev as_quantum : Option Cell → Option (List ℕ)
as_quantum (some (quantum bytes)) = some bytes
as_quantum _ = none

-- The bytes of a quantum.
unfoldable pub load_bytes : Cells → Ptr → Option (List ℕ)
load_bytes cells zero = none
load_bytes cells (suc p) = as_quantum (cells (suc p))

unfoldable pub load_array : Cells → Ptr → Option (List Ptr)
load_array cells zero = none
load_array cells (suc p) = as_array (cells (suc p))

-- `dptr == NULL || !dptr->data || !dptr->data[s_pos]`: NULL where it holds, or the pointer to the
-- quantum.
unfoldable pub find : Ptr → ℕ → Cells → Option Ptr
find p i cells = elim (p == 0) [
  | true ↦ some 0
  | false ↦ do
    (slots, next) ← load_qset cells p
    elim (slots == 0) [ true ↦ some 0 | false ↦ load_item cells slots i ]
]

-- `if (!dptr->data)` of mev_write: the pointer to the array, NULL without memory
unfoldable pub grow_array : ℕ → Ptr → Memory → Option (Ptr × Memory)
grow_array n p m = do
  (slots, next) ← load_qset m.cells p
  elim (slots == 0) [
    | false ↦ some (slots, m)
    | true ↦
        let (fresh, m') = alloc (λ b. array (replicate n 0)) m in
        elim (fresh == 0) [
          | true ↦ some (0, m')
          | false ↦ some (fresh, record m' { cells = put m'.cells p (some (qset fresh next)) })
        ]
  ]

-- `if (!dptr->data[s_pos])`: the pointer to the quantum, NULL without memory
unfoldable pub grow_quantum : ℕ → ℕ → Ptr → Memory → Option (Ptr × Memory)
grow_quantum n i slots m = do
  items ← load_array m.cells slots
  q ← get_elem? items i
  elim (q == 0) [
    | false ↦ some (q, m)
    | true ↦
        let (fresh, m') = alloc (λ b. quantum (tabulate b.stale 0 n)) m in
        elim (fresh == 0) [
          | true ↦ some (0, m')
          | false ↦
              some
                (fresh, record m' { cells = put m'.cells slots (some (array (set items i fresh))) })
        ]
  ]

-- Both, from the set at `p` on.
unfoldable pub grow : ℕ → ℕ → ℕ → Ptr → Memory → Option (Ptr × Memory)
grow n_quantum n_qset i p m = do
  (slots, m') ← grow_array n_qset p m
  elim (slots == 0) [ true ↦ some (0, m') | false ↦ grow_quantum n_quantum i slots m' ]
