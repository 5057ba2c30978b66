-- ===== src/Mev/Heap/Io/Receives.antt =====
-- lkm_mev.c, mev_write: the copy into a quantum over the kernel's memory, beside that over the list.
use lkm_sandbox.Base.{
  ℕ, ◌+◌, ◌%◌, ◌^◌, ◌≡◌, refl, sym, ap, ◌∙◌, true, false, Option, none, some, List, length, ltb,
  leb, ◌==◌, if◌then◌else◌, get_elem?, overwrite, pos, neg, Bool-cases, inl, inr, arith,
}
use lkm_sandbox.Kernel.Errno.{efault}
use lkm_sandbox.Kernel.Uaccess.{Uaccess}
use lkm_sandbox.Mev.Types.{Place, Quantum, Slots, Qset}
use lkm_sandbox.Mev.Types
use lkm_sandbox.Mev.Write.{stored, set_slots}
use lkm_sandbox.Mev.Write
use lkm_sandbox.Mev.Heap.{Ptr, Cells, Memory, Container, quantum, put}
use lkm_sandbox.Mev.Heap.Layout.{first_ptr, layout, Holds, Represents}
use lkm_sandbox.Mev.Heap.Steps.{at}
use lkm_sandbox.Mev.Heap.Access.{load_bytes}
use lkm_sandbox.Mev.Heap.Access.Rounds.{load_bytes_lem}
use lkm_sandbox.Mev.Heap.Access.Quanta.{quantum-Holds}
use lkm_sandbox.Mev.Heap.Access.Fills.{Fills, Fills-trans, Fills-Grows, Node, first-set_slots}
use lkm_sandbox.Mev.Heap.Access.Makes.{Fills-Node, bytes-Fills}
use lkm_sandbox.Mev.Heap.Io.{State, receive}
use lkm_sandbox.Mev.Heap.Io.Agrees.{Agrees}

module _ (U : Uaccess) (buf count f_pos : ℕ) where
  abbrev end_pos : ℕ
  end_pos = (f_pos + count) % 2 ^ 64

  abbrev reach : ℕ → ℕ
  reach size = if ltb size end_pos then end_pos else size

  module _ (q_pos : ℕ) (q : Ptr) (old : List ℕ) (h : State U)
      (e : load_bytes h.memory.cells q ≡ some old)
      (fits : leb (q_pos + count) (length old) ≡ true) where
    abbrev copied : Memory
    copied = record (h.memory) {
      cells =
          put h.memory.cells q
            (some (quantum (overwrite q_pos (U.from_user h.user buf count).1 old)));
    }

    heap_whole :
        ((U.from_user h.user buf count).0 == 0) ≡ true
        → receive U buf count f_pos q_pos q h
          ≡ some (record {
            ret = pos count;
            f_pos = end_pos;
            state = record h { dev = record (h.dev) { size = reach h.dev.size }; memory = copied };
          })
    unfolding receive
    heap_whole whole = ground arith

    heap_part :
        ((U.from_user h.user buf count).0 == 0) ≡ false
        → receive U buf count f_pos q_pos q h
          ≡ some (record { ret = neg efault; f_pos = f_pos; state = record h { memory = copied } })
    unfolding receive
    heap_part part = ground arith

  module _ (to : Place) (node : Qset) (a : Slots) (q : Quantum) (s : lkm_sandbox.Mev.Types.State U)
      (fits : leb (to.q_pos + count) (length q.bytes) ≡ true) where
    abbrev chain : List Qset
    chain =
        set_slots s.dev.chain to.item node (some (stored a q to (U.from_user s.user buf count).1))

    list_whole :
        ((U.from_user s.user buf count).0 == 0) ≡ true
        → lkm_sandbox.Mev.Write.receive U buf count f_pos to node a q s
          ≡ some (record {
            ret = pos count;
            f_pos = end_pos;
            state = record s { dev = record (s.dev) { chain = chain; size = reach s.dev.size } };
          })
    unfolding lkm_sandbox.Mev.Write.receive
    list_whole whole = ground arith

    list_part :
        ((U.from_user s.user buf count).0 == 0) ≡ false
        → lkm_sandbox.Mev.Write.receive U buf count f_pos to node a q s
          ≡ some (record {
            ret = neg efault;
            f_pos = f_pos;
            state = record s { dev = record (s.dev) { chain = chain } };
          })
    unfolding lkm_sandbox.Mev.Write.receive
    list_part part = ground arith

  list_beyond :
      (to : Place) (node : Qset) (a : Slots) (q : Quantum) (s : lkm_sandbox.Mev.Types.State U)
      → leb (to.q_pos + count) (length q.bytes) ≡ false
      → lkm_sandbox.Mev.Write.receive U buf count f_pos to node a q s ≡ none
  unfolding lkm_sandbox.Mev.Write.receive
  list_beyond to node a q s beyond = ground arith

  pub moved :
      (c : Container) (cells : Cells) (d : lkm_sandbox.Mev.Types.Container) (chain : List Qset)
      (size size' : ℕ)
      → Represents c cells d
      → first_ptr chain ≡ first_ptr d.chain
      → size ≡ size'
      → (cells' : Cells) → Holds cells' (layout chain)
      → Represents (record c { size = size }) cells' (record d { chain = chain; size = size' })
  moved c cells d after size size' rep e e' cells' h = record {
    first = rep.first ∙ sym e;
    quantum = rep.quantum;
    qset = rep.qset;
    size = e';
    sem = rep.sem;
    holds = h;
  }

  -- The memory before the allocations, and after them; `s` has the chain from before.
  module _ (c : Container) (cells : Cells) (s : lkm_sandbox.Mev.Types.State U)
      (rep : Represents c cells s.dev) (to : Place) (node : Qset)
      (there : get_elem? s.dev.chain to.item ≡ some node) (next : Ptr)
      (t : Node cells node.addr next node.slots) (a : Slots) (q : Quantum)
      (e_q : get_elem? a.quanta to.s_pos ≡ some (some q)) (m : Memory)
      (f : Fills cells node.addr next node.slots m (some a)) where
    abbrev after : lkm_sandbox.Mev.Types.State U
    after = record s { slab = m.slab }

    pub receive_lem :
        Agrees U (lkm_sandbox.Mev.Write.receive U buf count f_pos to node a q after) (
          receive U buf count f_pos to.q_pos q.addr (record { dev = c; memory = m; user = s.user }))
    unfolding Holds
    receive_lem = elim (Bool-cases (leb (to.q_pos + count) (length q.bytes))) [
      | inr beyond ↦ rw (list_beyond to node a q after beyond) tt
      | inl fits ↦
          let bytes = (U.from_user s.user buf count).1 in
          let new = overwrite to.q_pos bytes q.bytes in
          let slots : Option Slots = some (stored a q to bytes) in
          let cells' = put m.cells q.addr (some (quantum new)) in
          let (ne_q, there_q, _) = quantum-Holds m.cells a.quanta to.s_pos q f.holds.3 e_q in
          let load = load_bytes_lem m.cells q.addr q.bytes ne_q there_q in
          let f' = Fills-trans f (
            bytes-Fills m.cells m.slab node.addr next a (Fills-Node t.ne_null f) to.s_pos q new e_q
              f.available) in
          let g =
            Fills-Grows cells (at cells' m.slab) s.dev.chain to.item next slots rep.holds there
              t.node f' in
          let first = first-set_slots s.dev.chain to.item slots there in
          let h : State U = record { dev = c; memory = m; user = s.user } in
          elim (Bool-cases ((U.from_user s.user buf count).0 == 0)) [
            | inl whole ↦ rw (list_whole to node a q after fits whole) (
              record c { size = reach s.dev.size },
              cells',
              heap_whole to.q_pos q.addr q.bytes h load fits whole
                  ∙ ap
                      (λ n. some (record {
                        ret = pos count;
                        f_pos = end_pos;
                        state = record h {
                          dev = record c { size = reach n };
                          memory = at cells' m.slab;
                        };
                      }))
                      rep.size,
              moved c cells s.dev (set_slots s.dev.chain to.item node slots) (reach s.dev.size) _
                  rep first refl cells' g.holds,
              f'.available,
            )
            | inr part ↦ rw (list_part to node a q after fits part) (
              c,
              cells',
              heap_part to.q_pos q.addr q.bytes h load fits part,
              moved c cells s.dev (set_slots s.dev.chain to.item node slots) c.size _ rep first
                  rep.size cells' g.holds,
              f'.available,
            )
          ]
    ]
