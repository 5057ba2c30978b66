-- ===== src/Mev/Heap/Access/Rounds.antt =====
-- lkm_mev.c, mev_write: the branches of its allocations over the kernel's memory.
use lkm_sandbox.Base.{
  ℕ, zero, suc, ◌≡◌, ◌≢◌, refl, some, List, get_elem?, set, replicate, tabulate, arith,
}
use lkm_sandbox.Kernel.Slab.{Block, Slab, null, block, kmalloc}
use lkm_sandbox.Mev.Heap.{Ptr, qset, array, quantum, Cells, Memory, put, load_qset}
use lkm_sandbox.Mev.Heap.Steps.{at}
use lkm_sandbox.Mev.Heap.Access.{alloc, load_bytes, load_array, grow_array, grow_quantum, grow}

pub load_array_lem :
    (cells : Cells) (p : Ptr) (items : List Ptr)
    → p ≢ 0
    → cells p ≡ some (array items)
    → load_array cells p ≡ some items
unfolding load_array
load_array_lem cells zero items ne e = absurd (ne refl)
load_array_lem cells (suc p) items ne e = rw e refl

pub load_bytes_lem :
    (cells : Cells) (p : Ptr) (bytes : List ℕ)
    → p ≢ 0
    → cells p ≡ some (quantum bytes)
    → load_bytes cells p ≡ some bytes
unfolding load_bytes
load_bytes_lem cells zero bytes ne e = absurd (ne refl)
load_bytes_lem cells (suc p) bytes ne e = rw e refl

module _ (n : ℕ) (p slots next : Ptr) (m : Memory)
    (e : load_qset m.cells p ≡ some (slots, next)) where
  pub array_there : slots ≢ 0 → grow_array n p m ≡ some (slots, m)
  unfolding grow_array
  array_there ne = ground arith

  pub array_lost :
      (s : Slab) → slots ≡ 0 → kmalloc m.slab ≡ null s → grow_array n p m ≡ some (0, at m.cells s)
  unfolding grow_array alloc
  array_lost s z e' = ground arith

  pub array_fresh :
      (b : Block) (s : Slab)
      → slots ≡ 0
      → kmalloc m.slab ≡ block b s
      → b.addr ≢ 0
      → grow_array n p m
        ≡ some (
          b.addr,
          at
              (put (put m.cells b.addr (some (array (replicate n 0)))) p (some (qset b.addr next)))
              s,
        )
  unfolding grow_array alloc
  array_fresh b s z e' ne = ground arith

module _ (n i : ℕ) (slots q : Ptr) (items : List Ptr) (m : Memory)
    (e : load_array m.cells slots ≡ some items) (e_q : get_elem? items i ≡ some q) where
  pub quantum_there : q ≢ 0 → grow_quantum n i slots m ≡ some (q, m)
  unfolding grow_quantum
  quantum_there ne = ground arith

  pub quantum_lost :
      (s : Slab)
      → q ≡ 0
      → kmalloc m.slab ≡ null s
      → grow_quantum n i slots m ≡ some (0, at m.cells s)
  unfolding grow_quantum alloc
  quantum_lost s z e' = ground arith

  pub quantum_fresh :
      (b : Block) (s : Slab)
      → q ≡ 0
      → kmalloc m.slab ≡ block b s
      → b.addr ≢ 0
      → grow_quantum n i slots m
        ≡ some (
          b.addr,
          at
              (put
                (put m.cells b.addr (some (quantum (tabulate b.stale 0 n))))
                slots
                (some (array (set items i b.addr))))
              s,
        )
  unfolding grow_quantum alloc
  quantum_fresh b s z e' ne = ground arith

module _ (n k i : ℕ) (p slots : Ptr) (m m' : Memory) (e : grow_array k p m ≡ some (slots, m')) where
  pub grow_lost : slots ≡ 0 → grow n k i p m ≡ some (0, m')
  unfolding grow
  grow_lost z = ground arith

  pub grow_on : slots ≢ 0 → grow n k i p m ≡ grow_quantum n i slots m'
  unfolding grow
  grow_on ne = ground arith
