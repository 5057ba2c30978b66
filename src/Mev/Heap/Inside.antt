-- ===== src/Mev/Heap/Inside.antt =====
-- lkm_mev.c: the quantum that a read finds stands in the memory of the chain.
use mathlib.Core.Option.{some-injective}
use lkm_sandbox.Base.{
  ℕ, zero, suc, ◌≡◌, sym, ap, ◌∙◌, inl, inr, true, Option, none, some, List, [], ◌∷◌, get_elem?,
  Option-cases, arith,
}
use lkm_sandbox.Mev.Types.{Quantum, Slots, Qset, Place}
use lkm_sandbox.Mev.Read.{present, slots_at, lookup}
use lkm_sandbox.Mev.Heap.{Ptr}
use lkm_sandbox.Mev.Heap.Layout.{quanta_places, slots_places, layout, has, has-append}

quanta-has :
    (quanta : List (Option Quantum)) (i : ℕ) (q : Quantum)
    → get_elem? quanta i ≡ some (some q)
    → has q.addr (quanta_places quanta) ≡ true
unfolding quanta_places has
quanta-has [] i q h = absurd (ground arith)
quanta-has (none ∷ quanta) zero q h = absurd (ground arith)
quanta-has (some x ∷ quanta) zero q h =
    let e : x ≡ q = some-injective x q (some-injective (some x) (some q) h) in
    let same : q.addr ≡ x.addr = ap (λ (y : Quantum). y.addr) (sym e) in ground arith
quanta-has (none ∷ quanta) (suc i) q h = quanta-has quanta i q h
quanta-has (some x ∷ quanta) (suc i) q h = ground (arith, quanta-has quanta i q h)

present-injective : (x q : Quantum) → present x ≡ present q → x ≡ q
present-injective x q h = ground arith

slots-has :
    (slots : Option Slots) (i : ℕ) (q : Quantum)
    → slots_at slots i ≡ present q
    → has q.addr (slots_places slots) ≡ true
unfolding has
slots-has none i q h = absurd (ground arith)
slots-has (some a) i q h = elim (Option-cases (get_elem? a.quanta i)) [
  | inl e ↦ absurd (ground arith)
  | inr (none, e) ↦ absurd (ground arith)
  | inr (some x, e) ↦
      let same : x ≡ q = present-injective x q (ground arith) in
      ground (arith, quanta-has a.quanta i q (rw (sym same) e))
]

set-has :
    (a : Ptr) (chain : List Qset) (n : ℕ) (node : Qset)
    → get_elem? chain n ≡ some node
    → has a (slots_places node.slots) ≡ true
    → has a (layout chain) ≡ true
unfolding layout has
set-has a [] n node h i = absurd (ground arith)
set-has a (x ∷ chain) zero node h i =
    let e : x ≡ node = some-injective x node h in
    let same : has a (slots_places x.slots) ≡ true =
      ap (λ (y : Qset). has a (slots_places y.slots)) e ∙ i in
    ground (arith, has-append a (slots_places x.slots) (layout chain))
set-has a (x ∷ chain) (suc n) node h i =
    ground (arith, has-append a (slots_places x.slots) (layout chain), set-has a chain n node h i)

-- The quantum that a read finds stands in the layout of the chain.
pub lookup-has :
    (chain : List Qset) (to : Place) (q : Quantum)
    → lookup true chain to ≡ present q
    → has q.addr (layout chain) ≡ true
unfolding lookup
lookup-has chain to q h = elim (Option-cases (get_elem? chain to.item)) [
  | inl e ↦ absurd (ground arith)
  | inr (node, e) ↦
      let found : slots_at node.slots to.s_pos ≡ present q = ground arith in
      set-has q.addr chain to.item node e (slots-has node.slots to.s_pos q found)
]
