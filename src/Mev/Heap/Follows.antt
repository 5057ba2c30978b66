-- ===== src/Mev/Heap/Follows.antt =====
-- lkm_mev.c, mev_follow over the kernel's memory.
use lkm_sandbox.Base.{
  ℕ, zero, suc, ◌≡◌, refl, sym, ◌∙◌, inl, inr, Option, some, List, false, [], ◌∷◌,
}
use lkm_sandbox.Kernel.Slab.{Slab}
use lkm_sandbox.Mev.Types.{Slots, Qset}
use lkm_sandbox.Mev.Types
use lkm_sandbox.Mev.Follow.{Followed, cleared}
use lkm_sandbox.Mev.Follow
use lkm_sandbox.Mev.Heap.{Ptr, qset, Cell, Cells, Memory, Container, put, walk, follow}
use lkm_sandbox.Mev.Heap.Layout.{slots_ptr, first_ptr, layout, has, Represents, Holds}
use lkm_sandbox.Mev.Heap.Links.{
  same-Grows, fresh-Grows, link-Grows, behind-Holds, load-Holds, load_ne,
}
use lkm_sandbox.Mev.Heap.Steps.{
  at, found_ptr, walk_on, walk_lost, walk_fresh, follow_on, follow_lost, follow_fresh, list_lost,
  list_fresh, list_none, list_first,
}
use lkm_sandbox.Mev.Heap.Grows.{Available, kmalloc-Answers, Grows, Grows-trans, behind-Grows}

-- What the walk over the memory does, beside that over the list.
abbrev Walks : Cells → List Qset → Slab → ℕ → Followed → Option (Ptr × Memory) → Type 0
Walks cells chain s n r out =
    (m : Memory) × (out ≡ some (found_ptr r n, m))
    × (m.slab ≡ r.slab)
    × (first_ptr r.chain ≡ first_ptr chain)
    × Grows cells (layout chain) m (layout r.chain)

walk_lem :
    (n : ℕ) (node : Qset) (chain : List Qset) (cells : Cells) (s : Slab)
    → Holds cells (layout (node ∷ chain))
    → Available cells s.answers
    → Walks cells
        (node ∷ chain)
        s
        n
        (lkm_sandbox.Mev.Follow.walk n node chain s)
        (walk n node.addr (at cells s))
unfolding walk lkm_sandbox.Mev.Follow.walk
walk_lem zero node chain cells s h v = (at cells s, refl, refl, refl, same-Grows cells s _ h v)
walk_lem (suc n) node (after ∷ chain) cells s h v =
    let (m, eq, e_slab, e_first, g) =
      walk_lem n after chain cells s (behind-Holds cells node (after ∷ chain) h) v in
    (
      m,
      walk_on n (at cells s) node.addr (slots_ptr node.slots) after.addr
            (load-Holds cells node (after ∷ chain) h)
            (load_ne cells after chain (behind-Holds cells node (after ∷ chain) h))
          ∙ eq,
      e_slab,
      refl,
      behind-Grows cells m node (after ∷ chain) _ h e_first g,
    )
walk_lem (suc n) node [] cells s h v = elim (kmalloc-Answers cells s v) [
  | inl (s', e, v') ↦ rw (list_lost n node s s' e) (
    at cells s',
    walk_lost n (at cells s) node.addr _ s' (load-Holds cells node [] h) e,
    refl,
    refl,
    same-Grows cells s' _ h v',
  )
  | inr (b, s', e, ne_b, e_b, v') ↦
      let linked = link-Grows cells node b s' h ne_b e_b v' in
      let cells' =
        put (put cells b.addr (some (qset 0 0))) node.addr
          (some (qset (slots_ptr node.slots) b.addr)) in
      let (m, eq, e_slab, e_first, g) =
        walk_lem n (cleared b) [] cells' s' (behind-Holds cells' node (cleared b ∷ []) linked.holds)
          linked.available in
      rw (list_fresh n node b s s' e) (
        m,
        walk_fresh n (at cells s) node.addr _ b s' (load-Holds cells node [] h) e ne_b ∙ eq,
        e_slab,
        refl,
        Grows-trans linked (behind-Grows cells' m node (cleared b ∷ []) _ linked.holds e_first g),
      )
]

-- What a call of mev_follow does, over the memory and over the list.
abbrev pub Follows :
    Cells
    → lkm_sandbox.Mev.Types.Container
    → ℕ
    → Followed
    → Option (Ptr × Container × Memory)
    → Type 0
Follows cells d n r out =
    (c : Container) × (m : Memory) × (out ≡ some (found_ptr r n, c, m))
    × Represents c m.cells (record d { chain = r.chain })
    × (m.slab ≡ r.slab)
    × Grows cells (layout d.chain) m (layout r.chain)

moved-Represents :
    (c : Container) (cells cells' : Cells) (d : lkm_sandbox.Mev.Types.Container) (chain : List Qset)
    (first : Ptr)
    → Represents c cells d
    → first ≡ first_ptr chain
    → Holds cells' (layout chain)
    → Represents (record c { chain = first }) cells' (record d { chain = chain })
moved-Represents c cells cells' d chain first r e h = record {
  first = e;
  quantum = r.quantum;
  qset = r.qset;
  size = r.size;
  sem = r.sem;
  holds = h;
}

pub by_chain :
    (n : ℕ) (c : Container) (cells : Cells) (chain : List Qset)
    (d : lkm_sandbox.Mev.Types.Container) (s : Slab)
    → Represents c cells (record d { chain = chain })
    → Available cells s.answers
    → Follows cells
        (record d { chain = chain })
        n
        (lkm_sandbox.Mev.Follow.follow chain n s)
        (follow c n (at cells s))
unfolding lkm_sandbox.Mev.Follow.follow
by_chain n c cells (node ∷ chain) d s r v =
    let (m, eq, e_slab, e_first, g) = walk_lem n node chain cells s r.holds v in
    let ne = load_ne cells node chain r.holds in
    (
      c,
      m,
      follow_on n c (at cells s) m _ (rw r.first ne) (rw r.first eq),
      moved-Represents c cells m.cells (record d { chain = node ∷ chain }) _ c.chain r
          (r.first ∙ sym e_first) g.holds,
      e_slab,
      g,
    )
by_chain n c cells [] d s r v = elim (kmalloc-Answers cells s v) [
  | inl (s', e, v') ↦ rw (list_none n s s' e) (
    c,
    at cells s',
    follow_lost n c (at cells s) s' r.first e,
    r,
    refl,
    same-Grows cells s' (layout []) r.holds v',
  )
  | inr (b, s', e, ne_b, e_b, v') ↦
      let made = fresh-Grows cells b s' ne_b e_b v' in
      let cells' = put cells b.addr (some (qset 0 0)) in
      let (m, eq, e_slab, e_first, g) =
        walk_lem n (cleared b) [] cells' s' made.holds made.available in
      rw (list_first n b s s' e) (
        record c { chain = b.addr },
        m,
        follow_fresh n c (at cells s) m b s' _ r.first e ne_b eq,
        moved-Represents c cells m.cells (record d { chain = [] }) _ b.addr r (sym e_first) g.holds,
        e_slab,
        Grows-trans made g,
      )
]

-- Where the container stands in memory as its chain says, and kmalloc gives memory that nobody
-- holds: mev_follow over the memory does not fault. It returns the pointer to the n-th set of the
-- chain that mev_follow over the list leaves, or NULL where that finds none, leaves that chain in
-- the memory, asks the allocator for the same, and changes nothing that lies outside the chain.
pub follow_refines :
    (n : ℕ) (c : Container) (m : Memory) (d : lkm_sandbox.Mev.Types.Container)
    → Represents c m.cells d
    → Available m.cells m.slab.answers
    → let r = lkm_sandbox.Mev.Follow.follow d.chain n m.slab in
      (c' : Container) × (m' : Memory) × (follow c n m ≡ some (found_ptr r n, c', m'))
      × Represents c' m'.cells (record d { chain = r.chain })
      × (m'.slab ≡ r.slab)
      × ((a : Ptr) (x : Cell)
          → m.cells a ≡ some x
          → has a (layout d.chain) ≡ false
          → m'.cells a ≡ some x)
follow_refines n c m d r v =
    let (c', m', eq, r', log, g) = by_chain n c m.cells d.chain d m.slab r v in
    (c', m', eq, r', log, λ a x e out. (g.keeps a x e out).0)
