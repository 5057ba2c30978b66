-- ===== src/Mev/Heap/Io/Nodes.antt =====
-- lkm_mev.c, mev_write from the set that mev_follow has found on, over the kernel's memory, beside
-- that over the list.
use lkm_sandbox.Base.{ℕ, ◌<◌, ◌≡◌, ◌≢◌, ap, ap₂, ◌∙◌, Option, some, get_elem?, neg, inl, inr, arith}
use lkm_sandbox.Kernel.Errno.{enomem}
use lkm_sandbox.Kernel.Slab.{Slab}
use lkm_sandbox.Kernel.Uaccess.{Uaccess}
use lkm_sandbox.Mev.Types.{
  Place, Quantum, Slots, Qset, SlotsOf, ChainOf, IsValid, locate, sem-IsValid,
}
use lkm_sandbox.Mev.Types
use lkm_sandbox.Mev.Read.{to_quantum_end}
use lkm_sandbox.Mev.Chain.{All-get_elem?}
use lkm_sandbox.Mev.Write.{no_memory, grown, set_slots}
use lkm_sandbox.Mev.Write
use lkm_sandbox.Mev.Heap.{Ptr, Cells, Memory, Container}
use lkm_sandbox.Mev.Heap.Layout.{Holds, Represents}
use lkm_sandbox.Mev.Heap.Grows.{Available}
use lkm_sandbox.Mev.Heap.Steps.{at}
use lkm_sandbox.Mev.Heap.Access.{grow}
use lkm_sandbox.Mev.Heap.Access.Quanta.{quantum-Holds}
use lkm_sandbox.Mev.Heap.Access.Fills.{Fills-Grows, Node-at, first-set_slots}
use lkm_sandbox.Mev.Heap.Access.Grown.{grow-GrownAs}
use lkm_sandbox.Mev.Heap.Io.{State, receive, write_node}
use lkm_sandbox.Mev.Heap.Io.Agrees.{beside, Agrees}
use lkm_sandbox.Mev.Heap.Io.Receives.{moved, receive_lem}

module _ (U : Uaccess) (buf count f_pos : ℕ) (to : Place) where
  module _ (node : Qset) (s : lkm_sandbox.Mev.Types.State U) where
    list_no_memory :
        (slots : Option Slots) (slab : Slab)
        → lkm_sandbox.Mev.Write.grow s.dev.quantum s.dev.qset to.s_pos node.slots s.slab
          ≡ no_memory slots slab
        → lkm_sandbox.Mev.Write.write_node U buf count f_pos to node s
          ≡ some (record {
            ret = neg enomem;
            f_pos = f_pos;
            state = record s {
              dev = record (s.dev) { chain = set_slots s.dev.chain to.item node slots };
              slab = slab;
            };
          })
    unfolding lkm_sandbox.Mev.Write.write_node
    list_no_memory slots slab e = ground arith

    list_grown :
        (a : Slots) (q : Quantum) (slab : Slab)
        → lkm_sandbox.Mev.Write.grow s.dev.quantum s.dev.qset to.s_pos node.slots s.slab
          ≡ grown a q slab
        → lkm_sandbox.Mev.Write.write_node U buf count f_pos to node s
          ≡ lkm_sandbox.Mev.Write.receive U buf
              (to_quantum_end s.dev.quantum to.q_pos count)
              f_pos
              to
              node
              a
              q
              (record s { slab = slab })
    unfolding lkm_sandbox.Mev.Write.write_node
    list_grown a q slab e = ground arith

  module _ (p : Ptr) (h : State U) where
    pub heap_null :
        p ≡ 0
        → write_node U buf count f_pos to p h
          ≡ some (record { ret = neg enomem; f_pos = f_pos; state = h })
    unfolding write_node
    heap_null z = ground arith

    heap_no_memory :
        (m : Memory)
        → p ≢ 0
        → grow h.dev.quantum h.dev.qset to.s_pos p h.memory ≡ some (0, m)
        → write_node U buf count f_pos to p h
          ≡ some (record { ret = neg enomem; f_pos = f_pos; state = record h { memory = m } })
    unfolding write_node
    heap_no_memory m ne e = ground arith

    heap_grown :
        (q : Ptr) (m : Memory)
        → p ≢ 0
        → grow h.dev.quantum h.dev.qset to.s_pos p h.memory ≡ some (q, m)
        → q ≢ 0
        → write_node U buf count f_pos to p h
          ≡ receive U buf
              (to_quantum_end h.dev.quantum to.q_pos count)
              f_pos
              to.q_pos
              q
              (record h { memory = m })
    unfolding write_node
    heap_grown q m ne e ne_q = ground arith

  module _ (c : Container) (cells : Cells) (s : lkm_sandbox.Mev.Types.State U)
      (rep : Represents c cells s.dev) (v : Available cells s.slab.answers)
      (shaped : ChainOf s.dev.quantum s.dev.qset s.dev.chain) (lt : to.s_pos < s.dev.qset) where
    pub write_node-Agrees :
        (node : Qset)
        → get_elem? s.dev.chain to.item ≡ some node
        → Agrees U
            (lkm_sandbox.Mev.Write.write_node U buf count f_pos to node s)
            (write_node U buf count f_pos to node.addr (beside U c cells s))
    unfolding Holds
    write_node-Agrees node there =
        let (next, t) = Node-at cells s.dev.chain to.item rep.holds there in
        let slots_shaped =
          All-get_elem? (λ (n : Qset). SlotsOf s.dev.quantum s.dev.qset n.slots) s.dev.chain to.item
            shaped there in
        let sizes_out =
          ap₂ (λ x y. grow x y to.s_pos node.addr (at cells s.slab)) rep.quantum rep.qset in
        elim (grow-GrownAs cells s.slab node.addr next s.dev.quantum s.dev.qset to.s_pos node.slots
          t v slots_shaped lt) [
            | inl (slots, m, e, out, f) ↦
                let g =
                  Fills-Grows cells m s.dev.chain to.item next slots rep.holds there t.node f in
                rw (list_no_memory node s slots m.slab e) (
                  c,
                  m.cells,
                  heap_no_memory node.addr (beside U c cells s) m t.ne_null (sizes_out ∙ out),
                  moved U buf count f_pos c cells s.dev (set_slots s.dev.chain to.item node slots)
                      c.size s.dev.size rep (first-set_slots s.dev.chain to.item slots there)
                      rep.size m.cells g.holds,
                  f.available,
                )
            | inr (a, q, m, e, out, e_q, f) ↦
                let (ne_q, _, _) = quantum-Holds m.cells a.quanta to.s_pos q f.holds.3 e_q in
                rw
                  (
                    list_grown node s a q m.slab e,
                    heap_grown node.addr (beside U c cells s) q.addr m t.ne_null (sizes_out ∙ out)
                        ne_q,
                    ap (λ n. to_quantum_end n to.q_pos count) rep.quantum,
                  )
                  (receive_lem U buf (to_quantum_end s.dev.quantum to.q_pos count) f_pos c cells s
                    rep to node there next t a q e_q m f)
          ]
