-- ===== src/Mev/Heap/Io/Reads.antt =====
-- lkm_mev.c, mev_read over the kernel's memory, beside mev_read over the list.
use mathlib.Core.Path.{subst}
use lkm_sandbox.Base.{
  ℕ, ◌<◌, ◌^◌, ◌+◌, ◌-◌, ◌≡◌, refl, ap, ◌∙◌, Bool, true, false, some, ◌>>=◌, leb, pos, Bool-cases,
  Option-cases, inl, inr, arith,
}
use lkm_sandbox.Kernel.Uaccess.{Uaccess}
use lkm_sandbox.Mev.Types.{Place, Quantum, locate, IsValid}
use lkm_sandbox.Mev.Types
use lkm_sandbox.Mev.Follow
use lkm_sandbox.Mev.Read.{
  Lookup, outside, absent, present, lookup, slice, to_quantum_end, to_file_end,
}
use lkm_sandbox.Mev.Read
use lkm_sandbox.Mev.Read.Delivers
use lkm_sandbox.Mev.Heap.{Cells, Container}
use lkm_sandbox.Mev.Heap.Layout.{Represents}
use lkm_sandbox.Mev.Heap.Grows.{Available}
use lkm_sandbox.Mev.Heap.Steps.{found_ptr}
use lkm_sandbox.Mev.Heap.Access.{find}
use lkm_sandbox.Mev.Heap.Access.Lookups.{find_lem}
use lkm_sandbox.Mev.Heap.Io.{sizes, read_at, read_locked, read}
use lkm_sandbox.Mev.Heap.Io.Agrees.{
  beside, result, Agrees, down-Represents, released-Agrees, follow_lem, sizes_lem,
}
use lkm_sandbox.Mev.Heap.Io.Present.{after_lem}

module _ (U : Uaccess) where
  module _ (buf count f_pos : ℕ) (c : Container) (cells : Cells) (s : lkm_sandbox.Mev.Types.State U)
      (rep : Represents c cells s.dev) (v : Available cells s.slab.answers) where
    read_at-Agrees :
        (to : Place)
        → Agrees U
            (lkm_sandbox.Mev.Read.read_at U buf count f_pos to s)
            (read_at U buf count f_pos to (beside U c cells s))
    unfolding lkm_sandbox.Mev.Read.read_at read_at
    read_at-Agrees to =
        let r = lkm_sandbox.Mev.Follow.follow s.dev.chain to.item s.slab in
        let (c', cells', e, rep', g) = follow_lem U to.item c cells s rep v in
        rw e (
          after_lem U buf count f_pos to c' cells'
            (record s { dev = record (s.dev) { chain = r.chain }; slab = r.slab }) rep' g.available
            (lookup r.found r.chain to) (find (found_ptr r to.item) to.s_pos cells')
            (find_lem cells' r to rep'.holds))

    heap_past :
        leb c.size f_pos ≡ true
        → read_locked U buf count f_pos (beside U c cells s)
          ≡ some (record { ret = pos 0; f_pos = f_pos; state = beside U c cells s })
    unfolding read_locked
    heap_past e = ground arith

    pub heap_on :
        (to : Place)
        → leb c.size f_pos ≡ false
        → locate (sizes c) f_pos ≡ some to
        → read_locked U buf count f_pos (beside U c cells s)
          ≡ read_at U buf (to_file_end c.size f_pos count) f_pos to (beside U c cells s)
    unfolding read_locked
    heap_on to e e' = ground arith

    list_past :
        leb s.dev.size f_pos ≡ true
        → lkm_sandbox.Mev.Read.read_locked U buf count f_pos s
          ≡ some (record { ret = pos 0; f_pos = f_pos; state = s })
    unfolding lkm_sandbox.Mev.Read.read_locked
    list_past e = ground arith

    list_on :
        leb s.dev.size f_pos ≡ false
        → lkm_sandbox.Mev.Read.read_locked U buf count f_pos s ≡ (
            locate s.dev f_pos >>= λ to.
            lkm_sandbox.Mev.Read.read_at U buf (to_file_end s.dev.size f_pos count) f_pos to s)
    unfolding lkm_sandbox.Mev.Read.read_locked
    list_on e = ground arith

  read_locked-Agrees :
      (buf count f_pos : ℕ) (c : Container) (cells : Cells) (s : lkm_sandbox.Mev.Types.State U)
      → Represents c cells s.dev
      → Available cells s.slab.answers
      → Agrees U
          (lkm_sandbox.Mev.Read.read_locked U buf count f_pos s)
          (read_locked U buf count f_pos (beside U c cells s))
  read_locked-Agrees buf count f_pos c cells s rep v = elim (Bool-cases (leb s.dev.size f_pos)) [
    | inl past ↦ rw (list_past buf count f_pos c cells s rep v past) (
      c,
      cells,
      heap_past buf count f_pos c cells s rep v (ap (λ n. leb n f_pos) rep.size ∙ past),
      rep,
      v,
    )
    | inr before ↦ elim (Option-cases (locate s.dev f_pos)) [
      | inl lost ↦ rw (list_on buf count f_pos c cells s rep v before, lost) tt
      | inr (to, there) ↦
          rw
            (
              list_on buf count f_pos c cells s rep v before,
              there,
              heap_on buf count f_pos c cells s rep v to (ap (λ n. leb n f_pos) rep.size ∙ before)
                  (sizes_lem c cells s.dev f_pos rep ∙ there),
              ap (λ n. to_file_end n f_pos count) rep.size,
            )
            (read_at-Agrees buf (to_file_end s.dev.size f_pos count) f_pos c cells s rep v to)
    ]
  ]

  read-Agrees :
      (interrupted : Bool) (buf count f_pos : ℕ) (c : Container) (cells : Cells)
      (s : lkm_sandbox.Mev.Types.State U)
      → Represents c cells s.dev
      → Available cells s.slab.answers
      → Agrees U
          (lkm_sandbox.Mev.Read.read U interrupted buf count f_pos s)
          (read U interrupted buf count f_pos (beside U c cells s))
  unfolding lkm_sandbox.Mev.Read.read read
  read-Agrees true buf count f_pos c cells s rep v = (c, cells, refl, rep, v)
  read-Agrees false buf count f_pos c cells s rep v =
      let s' : lkm_sandbox.Mev.Types.State U = record s { dev = lkm_sandbox.Mev.Read.down s.dev } in
      let c' = record c { sem = c.sem - 1 } in
      released-Agrees U _ _
        (read_locked-Agrees buf count f_pos c' cells s' (down-Represents U c cells s.dev rep) v)

-- On a valid device whose semaphore is free, which stands in the kernel's memory as its chain says,
-- and where kmalloc gives memory that nobody holds: a read that is not interrupted and ends below
-- 2 ^ 64 does not fault in the kernel's memory, where it follows the pointers to a quantum. It has
-- the result and the position of mev_read over the list, leaves the user's memory and the allocator
-- as that read does, and leaves the chain of that read in memory. What kmalloc still has to give is
-- memory that nobody holds then.
pub read_refines :
    (U : Uaccess) (s : lkm_sandbox.Mev.Types.State U)
    → IsValid s.dev
    → 0 < s.dev.sem
    → (buf count f_pos : ℕ) → f_pos + count < 2 ^ 64
    → (c : Container) (cells : Cells) → Represents c cells s.dev
    → Available cells s.slab.answers
    → (r : lkm_sandbox.Mev.Types.Io U) × (c' : Container) × (cells' : Cells)
      × (lkm_sandbox.Mev.Read.read U false buf count f_pos s ≡ some r)
      × (read U false buf count f_pos (beside U c cells s) ≡ some (result U c' cells' r))
      × Represents c' cells' r.state.dev
      × Available cells' r.state.slab.answers
read_refines U s valid free buf count f_pos small c cells rep v =
    let total = lkm_sandbox.Mev.Read.Delivers.read_total U s valid free buf count f_pos small in
    let (c', cells', e', rep', v') =
      subst (λ o. Agrees U o (read U false buf count f_pos (beside U c cells s))) total.1
        (read-Agrees U false buf count f_pos c cells s rep v) in
    (total.0, c', cells', total.1, e', rep', v')
