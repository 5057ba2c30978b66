-- ===== src/Mev/Heap/Access/Lookups.antt =====
-- lkm_mev.c, mev_read: the test of the pointers over the kernel's memory, beside that of the list.
use lkm_sandbox.Base.{
  ℕ, ◌≡◌, ◌≢◌, refl, ◌∙◌, inl, inr, Bool, true, false, Option, none, some, List, if◌then◌else◌,
  get_elem?, map, Option-cases, arith,
}
use lkm_sandbox.Mev.Types.{Quantum, Slots, Qset, Place}
use lkm_sandbox.Mev.Follow.{Followed}
use lkm_sandbox.Mev.Read.{Lookup, outside, absent, present, lookup, slots_at, slot_of, qset_at}
use lkm_sandbox.Mev.Heap.{Ptr, quantum, Cells, load_qset, load_item}
use lkm_sandbox.Mev.Heap.Layout.{quanta_places, slot_ptr, layout, Holds}
use lkm_sandbox.Mev.Heap.Steps.{found_ptr, node_ptr, load_qset_lem}
use lkm_sandbox.Mev.Heap.Items.{load_item_lem}
use lkm_sandbox.Mev.Heap.Access.{find}
use lkm_sandbox.Mev.Heap.Access.Quanta.{get_elem?-map, quantum-Holds}
use lkm_sandbox.Mev.Heap.Access.Fills.{Node, Node-at}

-- NULL where the list finds nothing, and the quantum that the list finds.
abbrev pub FindAs : Cells → Lookup → Option Ptr → Type 0
FindAs cells outside out = Unit
FindAs cells absent out = out ≡ some 0
FindAs cells (present q) out =
    (out ≡ some q.addr) × (q.addr ≢ 0) × (cells q.addr ≡ some (quantum q.bytes))

module _ (cells : Cells) (p i slots next : ℕ) (ne : p ≢ 0)
    (e : load_qset cells p ≡ some (slots, next)) where
  find_none : slots ≡ 0 → find p i cells ≡ some 0
  unfolding find
  find_none z = ground arith

  find_item : slots ≢ 0 → find p i cells ≡ load_item cells slots i
  unfolding find
  find_item ne' = ground arith

find_null : (p i : ℕ) (cells : Cells) → p ≡ 0 → find p i cells ≡ some 0
unfolding find
find_null p i cells z = ground arith

by_slot :
    (cells : Cells) (quanta : List (Option Quantum)) (i : ℕ)
    → Holds cells (quanta_places quanta)
    → (out : Option Ptr) → out ≡ get_elem? (map slot_ptr quanta) i
    → FindAs cells (slot_of (get_elem? quanta i)) out
by_slot cells quanta i h out e = elim (Option-cases (get_elem? quanta i)) [
  | inl none_there ↦ rw none_there tt
  | inr (none, there) ↦ rw there (e ∙ get_elem?-map quanta i there)
  | inr (some q, there) ↦
      let held = quantum-Holds cells quanta i q h there in
      rw there (e ∙ get_elem?-map quanta i there, held.0, held.1)
]

by_slots :
    (cells : Cells) (p next i : ℕ) (slots : Option Slots)
    → Node cells p next slots
    → FindAs cells (slots_at slots i) (find p i cells)
unfolding Holds
by_slots cells p next i none t =
    find_none cells p i 0 next t.ne_null (load_qset_lem cells p 0 next t.ne_null t.node) refl
by_slots cells p next i (some a) t = by_slot cells a.quanta i t.holds.3 (find p i cells) (
    find_item cells p i a.addr next t.ne_null (load_qset_lem cells p _ next t.ne_null t.node)
      t.holds.0
    ∙ load_item_lem a.addr _ cells i t.holds.0 t.holds.1)

by_node :
    (cells : Cells) (chain : List Qset) (item i : ℕ)
    → Holds cells (layout chain)
    → FindAs cells
        (qset_at (get_elem? chain item) i)
        (find (node_ptr (get_elem? chain item)) i cells)
by_node cells chain item i h = elim (Option-cases (get_elem? chain item)) [
  | inl none_there ↦ rw none_there tt
  | inr (node, there) ↦
      let (next, t) = Node-at cells chain item h there in
      rw there (by_slots cells node.addr next i node.slots t)
]

-- At the pointer that mev_follow gives, the test finds what the list's test finds.
pub find_lem :
    (cells : Cells) (r : Followed) (at : Place)
    → Holds cells (layout r.chain)
    → FindAs cells (lookup r.found r.chain at) (find (found_ptr r at.item) at.s_pos cells)
unfolding lookup
find_lem cells r at h = by_found r.found
  where
    by_found :
        (found : Bool)
        → FindAs cells
            (lookup found r.chain at)
            (find (if found then node_ptr (get_elem? r.chain at.item) else 0) at.s_pos cells)
    by_found true = by_node cells r.chain at.item at.s_pos h
    by_found false = find_null 0 at.s_pos cells refl
