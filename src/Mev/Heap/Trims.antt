-- ===== src/Mev/Heap/Trims.antt =====
-- lkm_mev.c, mev_trim over the kernel's memory: what it frees, and the order in which it reads.
use lkm_sandbox.Base.{
  ℕ, zero, suc, ◌<◌, ◌≡◌, ◌≢◌, refl, ap, ◌∙◌, true, false, Option, none, some, List, [], ◌∷◌,
  if◌then◌else◌, length, get_elem?, map, arith,
}
use lkm_sandbox.Kernel.Slab.{Slab, kfree}
use lkm_sandbox.Mev.Types.{quantum_size, qset_size, Quantum, Slots, Qset, SlotsOf, ChainOf}
use lkm_sandbox.Mev.Types
use lkm_sandbox.Mev.Trim.{free_quanta, free_qset, free_chain}
use lkm_sandbox.Mev.Trim
use lkm_sandbox.Mev.Heap.{
  Ptr, qset, array, Cells, Memory, Container, put, free_data, free_sets, trim,
}
use lkm_sandbox.Mev.Heap.Layout.{
  slot_ptr, slots_ptr, first_ptr, slots_places, layout, has, Holds, Holds-frame, Holds-split,
  has-append, Represents,
}
use lkm_sandbox.Mev.Heap.Steps.{at, load_qset_lem}
use lkm_sandbox.Mev.Heap.Items.{
  IsRest, Drops, free_lem, data_step, data_none, sets_step, free_items_lem,
}

-- Freeing what the `data` of a set holds: the set stays, with `data` NULL.
abbrev Empties : Cells → ℕ → Ptr → Option Slots → Slab → Option Slab → Option Memory → Type 0
Empties cells next p slots s logged out =
    (m : Memory) × (out ≡ some m)
    × (m.cells p ≡ some (qset 0 next))
    × ((a : Ptr) → a ≢ p → m.cells a ≡ (if has a (slots_places slots) then none else cells a))
    × (logged ≡ some (kfree p m.slab))

free_data_lem :
    (n quantum p next : ℕ) (slots : Option Slots) (cells : Cells) (s : Slab)
    → SlotsOf quantum n slots
    → p ≢ 0
    → cells p ≡ some (qset (slots_ptr slots) next)
    → has p (slots_places slots) ≡ false
    → Holds cells (slots_places slots)
    → Empties cells next p slots s
        (free_qset n (record { addr = p; slots = slots }) s)
        (free_data n p (at cells s))
unfolding free_qset Holds has put
free_data_lem n quantum p next none cells s v ne e out h = (
  at cells s,
  data_none n p next (at cells s) (load_qset_lem cells p 0 next ne e),
  e,
  λ a other. refl,
  refl,
)
free_data_lem n quantum p next (some t) cells s v ne e out h =
    let (m, eq, rest, log) =
      free_items_lem t.addr (map slot_ptr t.quanta) h.0 n 0 t.quanta cells s v.0
        (λ j. ap (get_elem? (map slot_ptr t.quanta)) (omega arith)) h.1 h.2 h.3 in
    let there : m.cells t.addr ≡ some (array (map slot_ptr t.quanta)) =
      ground (arith, rest t.addr) in
    let set : m.cells p ≡ some (qset t.addr next) = ground (arith, rest p) in
    let apart : p ≢ t.addr = λ same. absurd (ground arith) in
    let kept : put m.cells t.addr none p ≡ some (qset t.addr next) = ground arith in
    (
      at (put (put m.cells t.addr none) p (some (qset 0 next))) (kfree t.addr m.slab),
      data_step n p t.addr next (at cells s) m (at (put m.cells t.addr none) (kfree t.addr m.slab))
          (load_qset_lem cells p _ next ne e) h.0 eq (free_lem t.addr _ m.cells m.slab h.0 there)
          (load_qset_lem (put m.cells t.addr none) p _ next ne kept),
      ground arith,
      λ a other. ground (arith, rest a),
      rw log refl,
    )

free_sets_lem :
    (n quantum fuel : ℕ) (chain : List Qset) (cells : Cells) (s : Slab)
    → length chain < fuel
    → ChainOf quantum n chain
    → Holds cells (layout chain)
    → Drops
        (layout chain)
        cells
        (free_chain n chain s)
        (free_sets n fuel (first_ptr chain) (at cells s))
unfolding free_sets free_chain layout Holds has put
free_sets_lem n quantum zero chain cells s enough v h = absurd (omega arith)
free_sets_lem n quantum (suc fuel) [] cells s enough v h = (at cells s, refl, λ a. refl, refl)
free_sets_lem n quantum (suc fuel) (node ∷ chain) cells s enough v (ne, e, out, h) =
    let parts = Holds-split cells (slots_places node.slots) (layout chain) h in
    let out' = has-append node.addr (slots_places node.slots) (layout chain) in
    let (m, eq, set, others, log) =
      free_data_lem n quantum node.addr (first_ptr chain) node.slots cells s v.0 ne e (ground arith)
        parts.left in
    let cells' = put m.cells node.addr none in
    let same : (a : Ptr) → has a (layout chain) ≡ true → cells' a ≡ cells a =
      λ a i. ground (arith, others a, parts.apart a) in
    let (m', eq', rest, log') =
      free_sets_lem n quantum fuel chain cells' (kfree node.addr m.slab) (omega arith) v.1
        (Holds-frame (layout chain) same parts.right) in
    (
      m',
      sets_step n fuel node.addr 0 (first_ptr chain) (at cells s) m
            (at cells' (kfree node.addr m.slab)) ne eq (load_qset_lem m.cells node.addr 0 _ ne set)
            (free_lem node.addr _ m.cells m.slab ne set)
          ∙ eq',
      λ a.
          rw (has-append a (slots_places node.slots) (layout chain))
            (ground (arith, rest a, others a)),
      rw log log',
    )

-- Where the container stands in memory as its chain says, the arrays have its sizes, and the outer
-- loop may run once more than there are sets: mev_trim over the memory does not fault, so that it
-- never reads or frees what it has freed already. It leaves what mev_trim over the list leaves,
-- calls kfree in the same order, gives back every place of the chain, and changes nothing else.
pub trim_refines :
    (fuel : ℕ) (c : Container) (m : Memory) (d : lkm_sandbox.Mev.Types.Container)
    → Represents c m.cells d
    → ChainOf d.quantum d.qset d.chain
    → length d.chain < fuel
    → (c' : Container) × (m' : Memory) × (d' : lkm_sandbox.Mev.Types.Container) × (trim fuel c m
        ≡ some (c', m'))
      × (lkm_sandbox.Mev.Trim.trim d m.slab ≡ some (d', m'.slab))
      × Represents c' m'.cells d'
      × IsRest (layout d.chain) m.cells m'.cells
unfolding trim lkm_sandbox.Mev.Trim.trim Holds layout
trim_refines fuel c m d r v enough =
    let (m', eq, rest, log) =
      free_sets_lem d.qset d.quantum fuel d.chain m.cells m.slab enough v r.holds in
    (
      record c { size = 0; quantum = quantum_size; qset = qset_size; chain = 0 },
      m',
      record d { size = 0; quantum = quantum_size; qset = qset_size; chain = [] },
      rw (r.qset, r.first, eq) refl,
      rw log refl,
      record { first = refl; quantum = refl; qset = refl; size = refl; sem = r.sem; holds = tt },
      rest,
    )
