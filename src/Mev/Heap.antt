-- ===== src/Mev/Heap.antt =====
-- lkm_mev.c, mev_follow and mev_trim over the kernel's memory: sets, arrays and quanta stand at
-- addresses and refer to each other by pointers. `none` is a fault: a NULL pointer or memory that
-- is not allocated, or no longer, is read, written or freed.
pub mod Layout
pub mod Grows
pub mod Steps
pub mod Links
pub mod Follows
pub mod Items
pub mod Trims
pub mod Access
pub mod Io
pub mod Runs
pub mod Inside
pub mod Race
mod Tests
use lkm_sandbox.Base.{
  ℕ, zero, suc, Bool, true, false, Option, none, some, List, ◌>>=◌, ◌==◌, if◌then◌else◌, get_elem?,
}
use lkm_sandbox.Kernel.Slab.{Slab, null, block, kmalloc, kfree}
use lkm_sandbox.Mev.Types.{quantum_size, qset_size}

abbrev pub Ptr : Type 0
Ptr = ℕ

-- What stands at an address: a set with its `data`, here `slots`, and `next`, an array of pointers to quanta, or a
-- quantum.
pub data Cell : Type 0 where
  qset : Ptr → Ptr → Cell
  array : List Ptr → Cell
  quantum : List ℕ → Cell

abbrev pub Cells : Type 0
Cells = Ptr → Option Cell

pub record Memory : Type 0 where
  pub cells : Cells
  pub slab : Slab

-- struct mev_container; `chain` is its pointer `data`, to the first set.
pub record Container : Type 0 where
  pub chain : Ptr
  pub quantum : ℕ
  pub qset : ℕ
  pub size : ℕ
  pub sem : ℕ

pub put : Cells → Ptr → Option Cell → Cells
put cells p c a = if a == p then c else cells a

-- `dptr->data` and `dptr->next`
abbrev as_qset : Option Cell → Option (Ptr × Ptr)
as_qset (some (qset slots next)) = some (slots, next)
as_qset _ = none

pub load_qset : Cells → Ptr → Option (Ptr × Ptr)
load_qset cells zero = none
load_qset cells (suc p) = as_qset (cells (suc p))

-- `data[i]`
abbrev pub as_array : Option Cell → Option (List Ptr)
as_array (some (array items)) = some items
as_array _ = none

pub load_item : Cells → Ptr → ℕ → Option Ptr
load_item cells zero i = none
load_item cells (suc p) i = do items ← as_array (cells (suc p)); get_elem? items i

-- `kfree(p)` of memory that is there
abbrev freed : Option Cell → Ptr → Memory → Option Memory
freed none p m = none
freed (some c) p m = some (record { cells = put m.cells p none; slab = kfree p m.slab })

pub free : Ptr → Memory → Option Memory
free zero m = some m
free (suc p) m = freed (m.cells (suc p)) (suc p) m

-- `kmalloc(sizeof(struct mev_qset))` and the memset of what it gives; the pointer is NULL where
-- there is no memory.
pub new_qset : Memory → Ptr × Memory
new_qset m = elim (kmalloc m.slab) [
  | null s ↦ (0, record m { slab = s })
  | block b s ↦ (b.addr, record { cells = put m.cells b.addr (some (qset 0 0)); slab = s })
]

-- `while (n--)` of mev_follow
pub walk : ℕ → Ptr → Memory → Option (Ptr × Memory)
walk zero p m = some (p, m)
walk (suc n) p m = do
  (slots, next) ← load_qset m.cells p
  elim (next == 0) [
    | false ↦ walk n next m
    | true ↦
        let (fresh, m') = new_qset m in
        elim (fresh == 0) [
          | true ↦ some (0, m')
          | false ↦ walk n fresh (record m' { cells = put m'.cells p (some (qset slots fresh)) })
        ]
  ]

-- mev_follow, with the container as it leaves it
pub follow : Container → ℕ → Memory → Option (Ptr × Container × Memory)
follow c n m = elim (c.chain == 0) [
  | false ↦ do (p, m') ← walk n c.chain m; some (p, c, m')
  | true ↦
      let (fresh, m') = new_qset m in
      elim (fresh == 0) [
        | true ↦ some (0, c, m')
        | false ↦ do (p, m'') ← walk n fresh m'; some (p, record c { chain = fresh }, m'')
      ]
]

-- The inner loop of mev_trim, from the index `i` on.
pub free_items : Ptr → ℕ → ℕ → Memory → Option Memory
free_items slots i zero m = some m
free_items slots i (suc n) m = do
  q ← load_item m.cells slots i
  m' ← free q m
  free_items slots (suc i) n m'

-- `if (dptr->data)`: the quanta, the array, and `dptr->data = NULL`
pub free_data : ℕ → Ptr → Memory → Option Memory
free_data n dptr m = do
  (slots, next) ← load_qset m.cells dptr
  elim (slots == 0) [
    | true ↦ some m
    | false ↦ do
      m' ← free_items slots 0 n m
      m'' ← free slots m'
      (gone, next') ← load_qset m''.cells dptr
      some (record m'' { cells = put m''.cells dptr (some (qset 0 next')) })
  ]

-- The outer loop of mev_trim, which reads `next` before it frees the set.
pub free_sets : ℕ → ℕ → Ptr → Memory → Option Memory
free_sets n zero dptr m = none
free_sets n (suc fuel) dptr m = elim (dptr == 0) [
  | true ↦ some m
  | false ↦ do
    m' ← free_data n dptr m
    (slots, next) ← load_qset m'.cells dptr
    m'' ← free dptr m'
    free_sets n fuel next m''
]

-- mev_trim
pub trim : ℕ → Container → Memory → Option (Container × Memory)
trim fuel c m = do
  m' ← free_sets c.qset fuel c.chain m
  some (record c { size = 0; quantum = quantum_size; qset = qset_size; chain = 0 }, m')
