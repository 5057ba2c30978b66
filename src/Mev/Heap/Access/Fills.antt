-- ===== src/Mev/Heap/Access/Fills.antt =====
-- lkm_mev.c, mev_write: a set whose `data` changes, in the kernel's memory.
use lkm_sandbox.Base.{
  ℕ, zero, suc, ◌≡◌, ◌≢◌, refl, sym, ap, true, false, Option, some, List, [], ◌∷◌, get_elem?, arith,
}
use mathlib.Core.Path.{subst}
use mathlib.Core.Option.{some-injective}
use lkm_sandbox.Mev.Types.{Slots, Qset}
use lkm_sandbox.Mev.Write.{set_slots}
use lkm_sandbox.Mev.Heap.{Ptr, Cell, qset, Cells, Memory}
use lkm_sandbox.Mev.Heap.Layout.{
  slots_ptr, first_ptr, slots_places, layout, has, Holds, Holds-frame, Holds-cell, Holds-split,
  Holds-append, has-append,
}
use lkm_sandbox.Mev.Heap.Grows.{Available, Grows, behind-Grows}

-- From one memory to another: the set at `p`, with its `next`, has other slots; what lies elsewhere
-- stays.
pub record Fills (cells : Cells) (p next : Ptr) (slots : Option Slots) (m : Memory)
    (slots' : Option Slots) : Type 0 where
  pub holds : Holds m.cells (slots_places slots')
  pub node : m.cells p ≡ some (qset (slots_ptr slots') next)
  pub out : has p (slots_places slots') ≡ false
  pub keeps :
      (a : Ptr) (c : Cell)
      → cells a ≡ some c
      → a ≢ p
      → has a (slots_places slots) ≡ false
      → (m.cells a ≡ some c) × (has a (slots_places slots') ≡ false)
  pub available : Available m.cells m.slab.answers

pub Fills-trans :
    {cells : Cells} {p next : Ptr} {x y z : Option Slots} {m m' : Memory}
    → Fills cells p next x m y
    → Fills m.cells p next y m' z
    → Fills cells p next x m' z
Fills-trans f g = record {
  holds = g.holds;
  node = g.node;
  out = g.out;
  keeps = λ a c e ne o. let (e', o') = f.keeps a c e ne o in g.keeps a c e' ne o';
  available = g.available;
}

-- What the set and its slots are before, in a chain that stands in memory.
pub record Node (cells : Cells) (p next : Ptr) (slots : Option Slots) : Type 0 where
  pub ne_null : p ≢ 0
  pub node : cells p ≡ some (qset (slots_ptr slots) next)
  pub out : has p (slots_places slots) ≡ false
  pub holds : Holds cells (slots_places slots)

pub Node-at :
    (cells : Cells) (chain : List Qset) (n : ℕ) {node : Qset}
    → Holds cells (layout chain)
    → get_elem? chain n ≡ some node
    → (next : Ptr) × Node cells node.addr next node.slots
unfolding Holds layout has
Node-at cells [] n h e = absurd (ground arith)
Node-at cells (x ∷ chain) zero (ne, e_x, out, rest) e =
    let parts = Holds-split cells (slots_places x.slots) (layout chain) rest in
    let out' = has-append x.addr (slots_places x.slots) (layout chain) in
    subst (λ (z : Qset). (next : Ptr) × Node cells z.addr next z.slots) (some-injective _ _ e)
      (first_ptr chain, record { ne_null = ne; node = e_x; out = ground arith; holds = parts.left })
Node-at cells (x ∷ chain) (suc n) (ne, e_x, out, rest) e =
    Node-at cells chain n (Holds-split cells (slots_places x.slots) (layout chain) rest).right e

pub first-set_slots :
    (chain : List Qset) (n : ℕ) {node : Qset} (slots : Option Slots)
    → get_elem? chain n ≡ some node
    → first_ptr (set_slots chain n node slots) ≡ first_ptr chain
first-set_slots [] n slots e = absurd (ground arith)
first-set_slots (x ∷ chain) zero slots e = ap (λ (z : Qset). z.addr) (sym (some-injective _ _ e))
first-set_slots (x ∷ chain) (suc n) slots e = refl

-- The first set of a chain has other slots.
head-Grows :
    (cells : Cells) (m : Memory) (node : Qset) (chain : List Qset) (next : Ptr)
    (slots : Option Slots)
    → Holds cells (layout (node ∷ chain))
    → cells node.addr ≡ some (qset (slots_ptr node.slots) next)
    → Fills cells node.addr next node.slots m slots
    → Grows cells (layout (node ∷ chain)) m (layout (record node { slots = slots } ∷ chain))
unfolding Holds layout has
head-Grows cells m node chain next slots (ne, e, out, rest) e_n f =
    let parts = Holds-split cells (slots_places node.slots) (layout chain) rest in
    let out' = has-append node.addr (slots_places node.slots) (layout chain) in
    let stays : (a : Ptr)
        → has a (layout chain) ≡ true
        → (m.cells a ≡ cells a) × (has a (slots_places slots) ≡ false) =
      λ a i.
        let (c, e_cell) = Holds-cell cells (layout chain) a parts.right i in
        let apart : a ≢ node.addr = λ same. absurd (ground arith) in
        let (e', o) = f.keeps a c e_cell apart (ground (arith, parts.apart a)) in
        (ground arith, o) in
    record {
      holds = (
        ne,
        ground (arith, f.node),
        rw (has-append node.addr (slots_places slots) (layout chain)) (ground (arith, f.out)),
        Holds-append m.cells (slots_places slots) (layout chain) (record {
          left = f.holds;
          right = Holds-frame (layout chain) (λ a i. (stays a i).0) parts.right;
          apart = λ a i. ground (arith, stays a);
        }),
      );
      keeps = λ a c e_cell o.
          let o' = has-append a (slots_places node.slots) (layout chain) in
          let apart : a ≢ node.addr = λ same. absurd (ground arith) in
          let (e', o'') = f.keeps a c e_cell apart (ground arith) in
          (e', rw (has-append a (slots_places slots) (layout chain)) (ground arith));
      available = f.available;
    }

-- The chain with the other slots stands in the other memory.
pub Fills-Grows :
    (cells : Cells) (m : Memory) (chain : List Qset) (n : ℕ) {node : Qset} (next : Ptr)
    (slots : Option Slots)
    → Holds cells (layout chain)
    → get_elem? chain n ≡ some node
    → cells node.addr ≡ some (qset (slots_ptr node.slots) next)
    → Fills cells node.addr next node.slots m slots
    → Grows cells (layout chain) m (layout (set_slots chain n node slots))
unfolding Holds layout has
Fills-Grows cells m [] n next slots h e e_n f = absurd (ground arith)
Fills-Grows cells m (x ∷ chain) zero {node} next slots h e e_n f =
    let same : x ≡ node = some-injective _ _ e in
    subst
      (λ (z : Qset).
        Grows cells (layout (z ∷ chain)) m (layout (record node { slots = slots } ∷ chain)))
      (sym same)
      (head-Grows cells m node chain next slots
        (subst (λ (z : Qset). Holds cells (layout (z ∷ chain))) same h) e_n f)
Fills-Grows cells m (x ∷ chain) (suc n) {node} next slots h e e_n f =
    behind-Grows cells m x chain (set_slots chain n node slots) h (first-set_slots chain n slots e)
      (Fills-Grows cells m chain n next slots
        (Holds-split cells (slots_places x.slots) (layout chain) h.3).right e e_n f)
