-- ===== src/Mev/Write/Nodes.antt =====
-- lkm_mev.c, mev_write from mev_follow on: how it ends.
use lkm_sandbox.Base.{
  none, sym, ◌∙◌, ℕ, ◌+◌, ◌^◌, ◌≤◌, ◌<◌, ◌≡◌, ◌⊎◌, inl, inr, Option, some, List, length, get_elem?,
  get_elem?_of_lt, lt-length_of_get_elem?, length-set, ◌==◌, ltb, if◌then◌else◌, pos, neg, arith,
  Bool-cases,
}
use lkm_sandbox.Kernel.Errno.{enomem, efault}
use lkm_sandbox.Kernel.Slab.{Block, Slab}
use lkm_sandbox.Kernel.Uaccess.{Uaccess, IsLawful}
use lkm_sandbox.Mev.Types.{Quantum, Slots, Qset, State, Io, Place, SlotOf, SlotsOf, ChainOf}
use lkm_sandbox.Mev.Follow.{follow}
use lkm_sandbox.Mev.Walk.{follow-length, follow-byte_in}
use lkm_sandbox.Mev.Write.Fresh.{Fills, follow-Within, grow-Fills}
use lkm_sandbox.Kernel.Given.{Gives, Within}
use lkm_sandbox.Mev.Bytes.{byte_in}
use mathlib.Core.Path.{subst}
use lkm_sandbox.Mev.Chain.{All-get_elem?, byte_in-node, set_slots-byte_in}
use lkm_sandbox.Mev.Read.{to_quantum_end}
use lkm_sandbox.Mev.Write.{grown, stored, set_slots, receive, write_node, write_at}
use lkm_sandbox.Mev.Write.Grow.{grow-Ends}
use lkm_sandbox.Mev.Write.Extends.{Extends, Extends-trans, follow-Extends, slots-Extends}
use lkm_sandbox.Mev.Write.Stores.{Stores, stored-Stores}

module _ (U : Uaccess) (f_pos : ℕ) (s : State U) where
  -- The state with another chain and allocator.
  abbrev pub moved : List Qset → Slab → State U
  moved chain slab = record s { dev = record (s.dev) { chain = chain }; slab = slab }

  -- A write that stops with an error number.
  abbrev pub failed : ℕ → List Qset → Slab → Io U
  failed e chain slab = record { ret = neg e; f_pos = f_pos; state = moved chain slab }

  -- A write that has copied `n` bytes.
  abbrev pub finished : ℕ → List Qset → Slab → Io U
  finished n chain slab = record {
    ret = pos n;
    f_pos = f_pos + n;
    state = record s {
      dev = record (s.dev) {
        chain = chain;
        size = if ltb s.dev.size (f_pos + n) then f_pos + n else s.dev.size;
      };
      slab = slab;
    };
  }

  -- Where no byte stood at the place, the quantum there is fresh: it has the stale bytes of a block
  -- that the allocator gives.
  abbrev pub Refills : Place → List Qset → Type 0
  Refills at mid =
      (o : ℕ)
      → o < s.dev.quantum
      → byte_in s.dev.chain at.item at.s_pos o ≡ none
      → (b : Block) × Gives s.slab b
        × ((i : ℕ) → i < s.dev.quantum → byte_in mid at.item at.s_pos i ≡ some (b.stale i))

  -- Without memory the chain has grown and no byte has changed; with it the bytes that
  -- copy_from_user delivers are stored at the place.
  abbrev pub WriteEnds : ℕ → Place → ℕ → Option (Io U) → Type 0
  WriteEnds buf at n r =
      ((chain : List Qset) × (slab : Slab) × (r ≡ some (failed enomem chain slab))
        × Extends s.dev.quantum s.dev.qset s.dev.chain chain s.slab slab)
      ⊎ ((mid : List Qset) × (chain : List Qset) × (slab : Slab) × (let (left, bytes) =
              U.from_user s.user buf n in
            r ≡ some (if left == 0 then finished n chain slab else failed efault chain slab))
          × (at.item < length mid)
          × Extends s.dev.quantum s.dev.qset s.dev.chain mid s.slab slab
          × Stores s.dev.quantum s.dev.qset at (U.from_user s.user buf n).1 mid chain
          × Refills at mid)

  receive_lem :
      (buf n : ℕ) (at : Place) (node : Qset) (a : Slots) (q : Quantum) (chain : List Qset)
      (slab : Slab)
      → f_pos + n < 2 ^ 64
      → at.q_pos + n ≤ length q.bytes
      → receive U buf n f_pos at node a q (moved chain slab)
        ≡ some (
            let (left, bytes) = U.from_user s.user buf n in
            let chain' = set_slots chain at.item node (some (stored a q at bytes)) in
            if left == 0 then finished n chain' slab else failed efault chain' slab)
  unfolding receive
  receive_lem buf n at node a q chain slab h k = ground arith

  module _ (L : IsLawful U) (buf count : ℕ) (at : Place) (hs : at.s_pos < s.dev.qset)
      (hq : at.q_pos < s.dev.quantum)
      (small : f_pos + to_quantum_end s.dev.quantum at.q_pos count < 2 ^ 64) where
    write_node-Ends :
        (chain : List Qset) (slab : Slab) (node : Qset)
        → get_elem? chain at.item ≡ some node
        → Extends s.dev.quantum s.dev.qset s.dev.chain chain s.slab slab
        → ((o : ℕ) → byte_in chain at.item at.s_pos o ≡ byte_in s.dev.chain at.item at.s_pos o)
        → Within s.slab slab
        → WriteEnds buf at
            (to_quantum_end s.dev.quantum at.q_pos count)
            (write_node U buf count f_pos at node (moved chain slab))
    unfolding write_node
    write_node-Ends chain slab node e x same in_s =
        let v =
          All-get_elem? (λ (m : Qset). SlotsOf s.dev.quantum s.dev.qset m.slots) chain at.item
            x.shaped e in
        elim (grow-Ends s.dev.quantum s.dev.qset at.s_pos node.slots slab hs v) [
          | inl (slots, slab', eq, g) ↦ inl (
            set_slots chain at.item node slots,
            slab',
            ground arith,
            Extends-trans x (
                slots-Extends s.dev.quantum s.dev.qset chain at.item node e slots slab slab'
                  x.shaped g),
          )
          | inr (a, q, slab', eq, eq_q, g) ↦
              let l : length q.bytes ≡ s.dev.quantum =
                All-get_elem? (SlotOf s.dev.quantum) a.quanta at.s_pos g.shaped.1 eq_q in
              let n = to_quantum_end s.dev.quantum at.q_pos count in
              inr (
                set_slots chain at.item node (some a),
                set_slots chain at.item node (some (stored a q at (U.from_user s.user buf n).1)),
                slab',
                rw (eq, write_node)
                    (receive_lem buf n at node a q chain slab' small (ground arith)),
                omega (
                  arith,
                  length-set chain at.item (record node { slots = some a }),
                  lt-length_of_get_elem? chain at.item e,
                ),
                Extends-trans x (
                    slots-Extends s.dev.quantum s.dev.qset chain at.item node e (some a) slab slab'
                      x.shaped g),
                stored-Stores s.dev.quantum s.dev.qset chain at node a q
                    (U.from_user s.user buf n).1 e eq_q x.shaped g.shaped l
                    (ground (arith, L.length-from_user s.user buf n)),
                λ o lt hole.
                    let fills : Fills s.dev.quantum at.s_pos node.slots slab (grown a q slab') =
                      subst (Fills s.dev.quantum at.s_pos node.slots slab) eq
                        (grow-Fills s.dev.quantum s.dev.qset at.s_pos node.slots slab hs v) in
                    let (b, gives, stale) =
                      fills o lt
                        (sym (byte_in-node chain at.item node e at.s_pos o) ∙ same o ∙ hole) in
                    (
                      b,
                      in_s b gives,
                      λ i l.
                          set_slots-byte_in chain at.item node e (some a) at.s_pos i
                          ∙ rw eq_q (stale i l),
                    ),
              )
        ]

    pub write_at-Ends :
        at.item < 2 ^ 32
        → ChainOf s.dev.quantum s.dev.qset s.dev.chain
        → WriteEnds buf at
            (to_quantum_end s.dev.quantum at.q_pos count)
            (write_at U buf count f_pos at s)
    unfolding write_at
    write_at-Ends hi v =
        let r = follow s.dev.chain at.item s.slab in
        let e = follow-Extends s.dev.quantum s.dev.qset s.dev.chain at.item s.slab hi v in
        elim (Bool-cases r.found) [
          | inl found ↦
              let (node, at_node) =
                get_elem?_of_lt r.chain at.item
                  ((follow-length s.dev.chain at.item s.slab).1 found) in
              rw (found, at_node)
                (write_node-Ends r.chain r.slab node at_node e
                  (follow-byte_in s.dev.chain at.item s.slab at.item at.s_pos)
                  (follow-Within s.dev.chain at.item s.slab))
          | inr lost ↦ inl (r.chain, r.slab, rw lost, e)
        ]
