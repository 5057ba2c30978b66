-- ===== src/Mev/Heap/Access/Grown.antt =====
-- lkm_mev.c, mev_write: its allocations over the kernel's memory, beside those over the list.
use lkm_sandbox.Base.{
  ℕ, ◌<◌, ◌≡◌, refl, ◌⊎◌, inl, inr, Option, none, some, get_elem?, length-replicate,
  get_elem?_of_lt, get_elem?-set_self, lt-length_of_get_elem?, set, replicate, tabulate, arith,
}
use lkm_sandbox.Kernel.Slab.{Block, Slab, block, kmalloc}
use lkm_sandbox.Mev.Types.{Quantum, Slots, SlotsOf}
use lkm_sandbox.Mev.Write.{Grown, no_memory, grown}
use lkm_sandbox.Mev.Write
use lkm_sandbox.Mev.Heap.{Ptr, qset, array, Cells, Memory, put}
use lkm_sandbox.Mev.Heap.Layout.{Holds}
use lkm_sandbox.Mev.Heap.Grows.{Available, kmalloc-Answers}
use lkm_sandbox.Mev.Heap.Steps.{at, load_qset_lem}
use lkm_sandbox.Mev.Heap.Access.{grow_quantum, grow}
use lkm_sandbox.Mev.Heap.Access.Quanta.{get_elem?-map, quantum-Holds}
use lkm_sandbox.Mev.Heap.Access.Fills.{Fills, Fills-trans, Node}
use lkm_sandbox.Mev.Heap.Access.Makes.{
  Fills-Node, same-Fills, fresh_array, array-Fills, quantum-Fills,
}
use lkm_sandbox.Mev.Heap.Access.Rounds.{
  load_array_lem, array_there, array_lost, array_fresh, quantum_there, quantum_lost, quantum_fresh,
  grow_lost, grow_on,
}

-- No memory, in both; or a quantum, and its pointer.
abbrev pub GrownAs : Cells → Ptr → Ptr → Option Slots → ℕ → Grown → Option (Ptr × Memory) → Type 0
GrownAs cells p next slots i r out =
    ((slots' : Option Slots) × (m : Memory) × (r ≡ no_memory slots' m.slab)
      × (out ≡ some (0, m))
      × Fills cells p next slots m slots')
    ⊎ ((a : Slots) × (q : Quantum) × (m : Memory) × (r ≡ grown a q m.slab)
        × (out ≡ some (q.addr, m))
        × (get_elem? a.quanta i ≡ some (some q))
        × Fills cells p next slots m (some a))

module _ (cells : Cells) (s : Slab) (p next n : ℕ) (a : Slots) (i : ℕ)
    (t : Node cells p next (some a)) (v : Available cells s.answers) where
  by_slot :
      (slot : Option Quantum)
      → get_elem? a.quanta i ≡ some slot
      → GrownAs cells p next
          (some a)
          i
          (lkm_sandbox.Mev.Write.grow_quantum n i a s)
          (grow_quantum n i a.addr (at cells s))
  unfolding lkm_sandbox.Mev.Write.grow_quantum Holds
  by_slot (some q) e =
      let there = quantum-Holds cells a.quanta i q t.holds.3 e in
      let items = load_array_lem cells a.addr _ t.holds.0 t.holds.1 in
      inr (
        a,
        q,
        at cells s,
        ground arith,
        quantum_there n i a.addr q.addr _ (at cells s) items (get_elem?-map a.quanta i e) there.0,
        e,
        same-Fills cells s p next (some a) t v,
      )
  by_slot none e =
      let items = load_array_lem cells a.addr _ t.holds.0 t.holds.1 in
      let at_i = get_elem?-map a.quanta i e in
      elim (kmalloc-Answers cells s v) [
        | inl (s', e_s, v') ↦ inl (
          some a,
          at cells s',
          ground arith,
          quantum_lost n i a.addr 0 _ (at cells s) items at_i s' refl e_s,
          same-Fills cells s' p next (some a) t v',
        )
        | inr (b, s', e_s, ne_b, free, v') ↦
            let q : Quantum = record { addr = b.addr; bytes = tabulate b.stale 0 n } in
            inr (
              record a { quanta = set a.quanta i (some q) },
              q,
              at _ s',
              ground arith,
              quantum_fresh n i a.addr 0 _ (at cells s) items at_i b s' refl e_s ne_b,
              get_elem?-set_self a.quanta i _ (lt-length_of_get_elem? a.quanta i e),
              quantum-Fills cells s' p next a t i q e ne_b free v',
            )
      ]

list_fresh :
    (n k i : ℕ) (b : Block) (s s' : Slab)
    → kmalloc s ≡ block b s'
    → lkm_sandbox.Mev.Write.grow n k i none s
      ≡ lkm_sandbox.Mev.Write.grow_quantum n i (fresh_array k b.addr) s'
unfolding lkm_sandbox.Mev.Write.grow
list_fresh n k i b s s' e = ground arith

after_Fills :
    (cells : Cells) (p next : Ptr) (m : Memory) (x y : Option Slots) (i : ℕ) {r : Grown}
    {out : Option (Ptr × Memory)}
    → Fills cells p next x m y
    → GrownAs m.cells p next y i r out
    → GrownAs cells p next x i r out
after_Fills cells p next m x y i f (inl (slots, m', e, e', g)) =
    inl (slots, m', e, e', Fills-trans f g)
after_Fills cells p next m x y i f (inr (a, q, m', e, e', e_q, g)) =
    inr (a, q, m', e, e', e_q, Fills-trans f g)

-- The allocations at a set that stands in memory, whose slots have the container's sizes.
pub grow-GrownAs :
    (cells : Cells) (s : Slab) (p next n k i : ℕ) (slots : Option Slots)
    → Node cells p next slots
    → Available cells s.answers
    → SlotsOf n k slots
    → i < k
    → GrownAs cells p next slots i
        (lkm_sandbox.Mev.Write.grow n k i slots s)
        (grow n k i p (at cells s))
unfolding lkm_sandbox.Mev.Write.grow Holds
grow-GrownAs cells s p next n k i (some a) t v shaped lt =
    let (slot, e) = get_elem?_of_lt a.quanta i (omega (arith, shaped.0)) in
    let on =
      array_there k p a.addr next (at cells s) (load_qset_lem cells p _ next t.ne_null t.node)
        t.holds.0 in
    rw (grow_on n k i p a.addr (at cells s) (at cells s) on t.holds.0)
      (by_slot cells s p next n a i t v slot e)
grow-GrownAs cells s p next n k i none t v shaped lt =
    let load = load_qset_lem cells p _ next t.ne_null t.node in
    elim (kmalloc-Answers cells s v) [
      | inl (s', e_s, v') ↦ inl (
        none,
        at cells s',
        ground arith,
        grow_lost n k i p 0 (at cells s) (at cells s')
            (array_lost k p 0 next (at cells s) load s' refl e_s) refl,
        same-Fills cells s' p next none t v',
      )
      | inr (b, s', e_s, ne_b, free, v') ↦
          let f = array-Fills cells s' p next b.addr k t ne_b free v' in
          let m =
            at (put (put cells b.addr (some (array (replicate k 0)))) p (some (qset b.addr next)))
              s' in
          let a = fresh_array k b.addr in
          let (slot, e) =
            get_elem?_of_lt a.quanta i
              (omega (arith, length-replicate {A = Option Quantum} k none)) in
          rw
            (
              list_fresh n k i b s s' e_s,
              grow_on n k i p b.addr (at cells s) m
                  (array_fresh k p 0 next (at cells s) load b s' refl e_s ne_b) ne_b,
            )
            (after_Fills cells p next m none (some a) i f
              (by_slot m.cells s' p next n a i (Fills-Node t.ne_null f) f.available slot e))
    ]
