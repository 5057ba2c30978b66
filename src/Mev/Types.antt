-- ===== src/Mev/Types.antt =====
-- lkm_mev.c, lines 41 to 57: the structures, and the place of a file position in them. The chain
-- of quantum sets is reached from the container alone, so it is a list with the address of each
-- piece of memory beside it. `none` is a fault of the kernel: a division by zero, a signed
-- overflow, or an access outside an array.
use lkm_sandbox.Base.{
  ℕ, ◌*◌, ◌/◌, ◌%◌, ◌^◌, ◌≤◌, ◌<◌, ◌≡◌, Option, none, some, List, All, leb, ◌==◌, if◌then◌else◌,
  length,
}
use lkm_sandbox.Kernel.Slab.{Slab}
use lkm_sandbox.Kernel.Uaccess.{Uaccess}

abbrev pub quantum_size : ℕ
quantum_size = 4000

abbrev pub qset_size : ℕ
qset_size = 1000

-- One `data[i]`: the memory that kmalloc(quantum) gave.
pub record Quantum : Type 0 where
  pub addr : ℕ
  pub bytes : List ℕ

-- The array `data` of a quantum set; a slot that is NULL is `none`.
pub record Slots : Type 0 where
  pub addr : ℕ
  pub quanta : List (Option Quantum)

-- struct mev_qset, whose `next` is the rest of the list; `slots` is its `data`.
pub record Qset : Type 0 where
  pub addr : ℕ
  pub slots : Option Slots

-- struct mev_container, less its cdev; `chain` is its `data`, and `sem` counts the semaphore.
pub record Container : Type 0 where
  pub chain : List Qset
  pub quantum : ℕ
  pub qset : ℕ
  pub size : ℕ
  pub sem : ℕ

-- What the operations of the device change: the container, the allocator, the user's memory.
pub record State (U : Uaccess) : Type 0 where
  pub dev : Container
  pub slab : Slab
  pub user : U.Memory

-- The result of a read or a write, with `*f_pos` as it leaves it.
pub record Io (U : Uaccess) : Type 0 where
  pub ret : lkm_sandbox.Base.ℤ
  pub f_pos : ℕ
  pub state : State U

pub record Place : Type 0 where
  pub item : ℕ
  pub s_pos : ℕ
  pub q_pos : ℕ

-- `item`, `s_pos` and `q_pos` of mev_read and mev_write. `item` is an int: the quotient is cut to
-- 32 bits, and the loop of mev_follow counts its bit pattern down to 0.
unfoldable pub locate : Container → ℕ → Option Place
locate c f_pos =
    let itemsize = c.quantum * c.qset in
    if leb (2 ^ 31) itemsize
    then none
    else if itemsize == 0
    then none
    else some (record {
      item = f_pos / itemsize % 2 ^ 32;
      s_pos = f_pos % itemsize / c.quantum;
      q_pos = f_pos % itemsize % c.quantum;
    })

abbrev pub SlotOf : ℕ → Option Quantum → Type 0
SlotOf quantum none = Unit
SlotOf quantum (some q) = length q.bytes ≡ quantum

abbrev pub SlotsOf : ℕ → ℕ → Option Slots → Type 0
SlotsOf quantum qset none = Unit
SlotsOf quantum qset (some a) = (length a.quanta ≡ qset) × All (SlotOf quantum) a.quanta

-- Every array of the chain has the size that the container names.
abbrev pub ChainOf : ℕ → ℕ → List Qset → Type 0
ChainOf quantum qset = All (λ node. SlotsOf quantum qset node.slots)

-- The invariant of a container that is not in use.
pub record IsValid (c : Container) : Type 0 where
  pub quantum_pos : 0 < c.quantum
  pub qset_pos : 0 < c.qset
  pub fits_int : c.quantum * c.qset < 2 ^ 31
  pub shaped : ChainOf c.quantum c.qset c.chain
  -- an int counts the sets
  pub counted : length c.chain ≤ 2 ^ 32
  -- the chain reaches to the end of the file
  pub covered : c.size ≤ length c.chain * (c.quantum * c.qset)

-- The semaphore is no part of the invariant.
pub sem-IsValid : (c : Container) (k : ℕ) → IsValid c → IsValid (record c { sem = k })
sem-IsValid c k v = record {
  quantum_pos = v.quantum_pos;
  qset_pos = v.qset_pos;
  fits_int = v.fits_int;
  shaped = v.shaped;
  counted = v.counted;
  covered = v.covered;
}
