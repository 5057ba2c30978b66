-- ===== src/Mev/Heap/Io/Writes.antt =====
-- lkm_mev.c, mev_write over the kernel's memory, beside mev_write over the list.
use mathlib.Core.Path.{subst}
use lkm_sandbox.Base.{
  ℕ, ◌-◌, ◌*◌, ◌/◌, ◌^◌, ◌<◌, ◌≡◌, refl, ◌∙◌, true, false, some, ◌>>=◌, get_elem?, neg, Bool-cases,
  Option-cases, inl, inr,
}
use lkm_sandbox.Kernel.Errno.{enomem}
use lkm_sandbox.Kernel.Uaccess.{Uaccess, IsLawful}
use lkm_sandbox.Mev.Types.{
  Place, Quantum, Slots, Qset, SlotsOf, ChainOf, IsValid, locate, sem-IsValid,
}
use lkm_sandbox.Mev.Types
use lkm_sandbox.Mev.Follow
use lkm_sandbox.Mev.Place.{place, slot-lt, locate_lem}
use lkm_sandbox.Mev.Read.{to_quantum_end}
use lkm_sandbox.Mev.Read
use lkm_sandbox.Mev.Walk.{follow-ChainOf}
use lkm_sandbox.Mev.Write.{no_memory, grown, set_slots}
use lkm_sandbox.Mev.Write
use lkm_sandbox.Mev.Write.Writes
use lkm_sandbox.Mev.Heap.{Ptr, Cells, Memory, Container, follow}
use lkm_sandbox.Mev.Heap.Layout.{Represents}
use lkm_sandbox.Mev.Heap.Grows.{Available}
use lkm_sandbox.Mev.Heap.Steps.{at, found_ptr}
use lkm_sandbox.Mev.Heap.Io.{State, write_node, write_at, write_locked, write}
use lkm_sandbox.Mev.Heap.Io.Agrees.{
  beside, result, Agrees, down-Represents, released-Agrees, follow_lem, sizes_lem,
}
use lkm_sandbox.Mev.Heap.Io.Nodes.{heap_null, write_node-Agrees}

module _ (U : Uaccess) (buf count f_pos : ℕ) (to : Place) where
  list_lost :
      (s : lkm_sandbox.Mev.Types.State U)
      → let r = lkm_sandbox.Mev.Follow.follow s.dev.chain to.item s.slab in
        r.found ≡ false
        → lkm_sandbox.Mev.Write.write_at U buf count f_pos to s
          ≡ some (record {
            ret = neg enomem;
            f_pos = f_pos;
            state = record s { dev = record (s.dev) { chain = r.chain }; slab = r.slab };
          })
  unfolding lkm_sandbox.Mev.Write.write_at
  list_lost s e = rw e refl

  list_found :
      (s : lkm_sandbox.Mev.Types.State U)
      → let r = lkm_sandbox.Mev.Follow.follow s.dev.chain to.item s.slab in
        r.found ≡ true
        → lkm_sandbox.Mev.Write.write_at U buf count f_pos to s ≡ (
            get_elem? r.chain to.item >>= λ node.
            lkm_sandbox.Mev.Write.write_node U buf count f_pos to node
              (record s { dev = record (s.dev) { chain = r.chain }; slab = r.slab }))
  unfolding lkm_sandbox.Mev.Write.write_at
  list_found s e = rw e refl

  heap_at :
      (h : State U) (p : Ptr) (c : Container) (m : Memory)
      → follow h.dev to.item h.memory ≡ some (p, c, m)
      → write_at U buf count f_pos to h
        ≡ write_node U buf count f_pos to p (record h { dev = c; memory = m })
  unfolding write_at
  heap_at h p c m e = rw e refl

  write_at-Agrees :
      (c : Container) (cells : Cells) (s : lkm_sandbox.Mev.Types.State U)
      → Represents c cells s.dev
      → Available cells s.slab.answers
      → ChainOf s.dev.quantum s.dev.qset s.dev.chain
      → to.s_pos < s.dev.qset
      → Agrees U
          (lkm_sandbox.Mev.Write.write_at U buf count f_pos to s)
          (write_at U buf count f_pos to (beside U c cells s))
  write_at-Agrees c cells s rep v shaped lt =
      let r = lkm_sandbox.Mev.Follow.follow s.dev.chain to.item s.slab in
      let s' : lkm_sandbox.Mev.Types.State U = record s {
        dev = record (s.dev) { chain = r.chain };
        slab = r.slab;
      } in
      let (c', cells', e, rep', g) = follow_lem U to.item c cells s rep v in
      let heap = heap_at (beside U c cells s) (found_ptr r to.item) c' (at cells' r.slab) e in
      elim (Bool-cases r.found) [
        | inr lost ↦ rw (list_lost s lost) (
          c',
          cells',
          heap
              ∙ heap_null U buf count f_pos to (found_ptr r to.item) (beside U c' cells' s')
                  (rw lost refl),
          rep',
          g.available,
        )
        | inl found ↦ elim (Option-cases (get_elem? r.chain to.item)) [
          | inl none_there ↦ rw (list_found s found, none_there) tt
          | inr (node, there) ↦
              let ptr : found_ptr r to.item ≡ node.addr = rw (found, there) refl in
              rw (list_found s found, there, heap, ptr)
                (write_node-Agrees U buf count f_pos to c' cells' s' rep' g.available
                  (follow-ChainOf s.dev.quantum s.dev.qset s.dev.chain to.item s.slab shaped) lt
                  node there)
        ]
      ]

module _ (U : Uaccess) (buf count f_pos : ℕ) (c : Container) (cells : Cells)
    (s : lkm_sandbox.Mev.Types.State U) (rep : Represents c cells s.dev)
    (v : Available cells s.slab.answers) (valid : IsValid s.dev)
    (near : f_pos / (s.dev.quantum * s.dev.qset) < 2 ^ 32) where
  write_locked-Agrees :
      Agrees U
        (lkm_sandbox.Mev.Write.write_locked U buf count f_pos s)
        (write_locked U buf count f_pos (beside U c cells s))
  unfolding lkm_sandbox.Mev.Write.write_locked write_locked
  write_locked-Agrees =
      let there = locate_lem s.dev f_pos valid near in
      rw (sizes_lem c cells s.dev f_pos rep, there)
        (write_at-Agrees U buf count f_pos (place s.dev f_pos) c cells s rep v valid.shaped
          (slot-lt s.dev.quantum s.dev.qset valid.quantum_pos valid.qset_pos f_pos))

write-Agrees :
    (U : Uaccess) (buf count f_pos : ℕ) (c : Container) (cells : Cells)
    (s : lkm_sandbox.Mev.Types.State U)
    → Represents c cells s.dev
    → Available cells s.slab.answers
    → IsValid s.dev
    → f_pos / (s.dev.quantum * s.dev.qset) < 2 ^ 32
    → Agrees U
        (lkm_sandbox.Mev.Write.write U false buf count f_pos s)
        (write U false buf count f_pos (beside U c cells s))
unfolding lkm_sandbox.Mev.Write.write write
write-Agrees U buf count f_pos c cells s rep v valid near =
    let s' : lkm_sandbox.Mev.Types.State U = record s { dev = lkm_sandbox.Mev.Read.down s.dev } in
    released-Agrees U _ _ (
      write_locked-Agrees U buf count f_pos (record c { sem = c.sem - 1 }) cells s'
        (down-Represents U c cells s.dev rep) v (sem-IsValid s.dev (s.dev.sem - 1) valid) near)

-- On a valid device whose semaphore is free, which stands in the kernel's memory as its chain says,
-- and where kmalloc gives memory that nobody holds: a write below 2 ^ 32 sets that is not
-- interrupted does not fault in the kernel's memory, where it follows the pointers, links new sets,
-- arrays and quanta to them, and copies into a quantum. It has the result, the position, the size,
-- the semaphore and the allocator of mev_write over the list, and leaves the chain of that write in
-- memory. What kmalloc still has to give is memory that nobody holds then.
pub write_refines :
    (U : Uaccess)
    → IsLawful U
    → (s : lkm_sandbox.Mev.Types.State U) → IsValid s.dev
    → 0 < s.dev.sem
    → (buf count f_pos : ℕ) → f_pos / (s.dev.quantum * s.dev.qset) < 2 ^ 32
    → (c : Container) (cells : Cells) → Represents c cells s.dev
    → Available cells s.slab.answers
    → (r : lkm_sandbox.Mev.Types.Io U) × (c' : Container) × (cells' : Cells)
      × (lkm_sandbox.Mev.Write.write U false buf count f_pos s ≡ some r)
      × (write U false buf count f_pos (beside U c cells s) ≡ some (result U c' cells' r))
      × Represents c' cells' r.state.dev
      × Available cells' r.state.slab.answers
write_refines U L s valid free buf count f_pos near c cells rep v =
    let total = lkm_sandbox.Mev.Write.Writes.write_total U L s valid free buf count f_pos near in
    let (c', cells', e', rep', v') =
      subst (λ o. Agrees U o (write U false buf count f_pos (beside U c cells s))) total.1
        (write-Agrees U buf count f_pos c cells s rep v valid near) in
    (total.0, c', cells', total.1, e', rep', v')
