-- ===== src/Mev/Heap/Grows.antt =====
-- lkm_mev.c: a chain that grows in the kernel's memory, and what kmalloc gives.
use lkm_sandbox.Base.{
  ◌≡◌, ◌≢◌, refl, ◌⊎◌, inl, inr, true, false, Option, none, some, List, [], ◌∷◌, arith,
}
use lkm_sandbox.Kernel.Slab.{Block, Slab, Call, null, block, kmalloc}
use lkm_sandbox.Mev.Types.{Qset}
use lkm_sandbox.Mev.Heap.{Ptr, Cell, quantum, Cells, Memory, put}
use lkm_sandbox.Mev.Heap.Layout.{
  Places, first_ptr, slots_places, layout, has, Holds, Holds-frame, Holds-split, Holds-append,
  has-append, Holds-cell,
}

-- What the documentation of kmalloc promises of its answers to come: memory that is not NULL, and
-- that nobody holds.
unfoldable pub Available : Cells → List (Option Block) → Type 0
Available cells [] = Unit
Available cells (none ∷ more) = Available cells more
Available cells (some b ∷ more) =
    (b.addr ≢ 0) × (cells b.addr ≡ none) × Available (put cells b.addr (some (quantum []))) more

pub Available-frame :
    (cells cells' : Cells) (answers : List (Option Block))
    → ((a : Ptr) → cells a ≡ none → cells' a ≡ none)
    → Available cells answers
    → Available cells' answers
unfolding Available put
Available-frame cells cells' [] same h = tt
Available-frame cells cells' (none ∷ more) same h = Available-frame cells cells' more same h
Available-frame cells cells' (some b ∷ more) same (ne, e, h) = (
  ne,
  same b.addr e,
  Available-frame (put cells b.addr (some (quantum []))) (put cells' b.addr (some (quantum [])))
      more (λ a i. ground (arith, same a)) h,
)

-- The two answers of kmalloc; fresh memory is not NULL, nobody holds it, and it is not given again.
abbrev Answers : Cells → Slab → Type 0
Answers cells s =
    ((s' : Slab) × (kmalloc s ≡ null s') × Available cells s'.answers)
    ⊎ ((b : Block) × (s' : Slab) × (kmalloc s ≡ block b s')
        × (b.addr ≢ 0)
        × (cells b.addr ≡ none)
        × Available (put cells b.addr (some (quantum []))) s'.answers)

of_answers :
    (cells : Cells) (answers : List (Option Block)) (log : List Call)
    → Available cells answers
    → Answers cells (record { answers = answers; log = log })
unfolding Available
of_answers cells [] log h = inl (_, refl, tt)
of_answers cells (none ∷ more) log h = inl (_, refl, h)
of_answers cells (some b ∷ more) log h = inr (b, _, refl, h.0, h.1, h.2)

pub kmalloc-Answers : (cells : Cells) (s : Slab) → Available cells s.answers → Answers cells s
kmalloc-Answers cells s h = of_answers cells s.answers s.log h

-- From one memory to another: the places before, and after; what lies elsewhere stays.
pub record Grows (cells : Cells) (before : Places) (m : Memory) (after : Places) : Type 0 where
  pub holds : Holds m.cells after
  pub keeps :
      (a : Ptr) (c : Cell)
      → cells a ≡ some c
      → has a before ≡ false
      → (m.cells a ≡ some c) × (has a after ≡ false)
  pub available : Available m.cells m.slab.answers

pub Grows-trans :
    {cells : Cells} {m m' : Memory} {xs ys zs : Places}
    → Grows cells xs m ys
    → Grows m.cells ys m' zs
    → Grows cells xs m' zs
Grows-trans g h = record {
  holds = h.holds;
  keeps = λ a c e out. let (e', out') = g.keeps a c e out in h.keeps a c e' out';
  available = h.available;
}

-- A set in front of a chain that grows.
pub behind-Grows :
    (cells : Cells) (m : Memory) (node : Qset) (chain chain' : List Qset)
    → Holds cells (layout (node ∷ chain))
    → first_ptr chain' ≡ first_ptr chain
    → Grows cells (layout chain) m (layout chain')
    → Grows cells (layout (node ∷ chain)) m (layout (node ∷ chain'))
unfolding Holds layout has
behind-Grows cells m node chain chain' (ne, e_node, out, rest) e g =
    let parts = Holds-split cells (slots_places node.slots) (layout chain) rest in
    let out' = has-append node.addr (slots_places node.slots) (layout chain) in
    let (kept, apart) = g.keeps node.addr _ e_node (ground arith) in
    let stays : (a : Ptr)
        → has a (slots_places node.slots) ≡ true
        → (m.cells a ≡ cells a) × (has a (layout chain') ≡ false) =
      λ a i.
        let (c, e_cell) = Holds-cell cells (slots_places node.slots) a parts.left i in
        let (e', o) = g.keeps a c e_cell (parts.apart a i) in (ground arith, o) in
    record {
      holds = (
        ne,
        rw e kept,
        rw (has-append node.addr (slots_places node.slots) (layout chain')) (ground arith),
        Holds-append m.cells (slots_places node.slots) (layout chain') (record {
          left = Holds-frame (slots_places node.slots) (λ a i. (stays a i).0) parts.left;
          right = g.holds;
          apart = λ a i. (stays a i).1;
        }),
      );
      keeps = λ a c e_cell o.
          let o' = has-append a (slots_places node.slots) (layout chain) in
          let (e', o'') = g.keeps a c e_cell (ground arith) in
          (e', rw (has-append a (slots_places node.slots) (layout chain')) (ground arith));
      available = g.available;
    }
