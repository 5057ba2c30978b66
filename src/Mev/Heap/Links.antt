-- ===== src/Mev/Heap/Links.antt =====
-- lkm_mev.c: a set in the kernel's memory, read at its address and linked to a chain.
use lkm_sandbox.Base.{◌≡◌, ◌≢◌, refl, none, some, List, [], ◌∷◌, arith}
use lkm_sandbox.Kernel.Slab.{Block, Slab}
use lkm_sandbox.Mev.Types.{Qset}
use lkm_sandbox.Mev.Follow.{cleared}
use lkm_sandbox.Mev.Heap.{qset, quantum, Cells, put, load_qset}
use lkm_sandbox.Mev.Heap.Layout.{
  Places, slots_ptr, first_ptr, slots_places, layout, has, Holds, Holds-frame, Holds-live,
  Holds-split, Holds-append, has-append,
}
use lkm_sandbox.Mev.Heap.Steps.{at, load_qset_lem}
use lkm_sandbox.Mev.Heap.Grows.{Available, Available-frame, Grows}

pub same-Grows :
    (cells : Cells) (s : Slab) (xs : Places)
    → Holds cells xs
    → Available cells s.answers
    → Grows cells xs (at cells s) xs
same-Grows cells s xs h v = record { holds = h; keeps = λ a c e out. (e, out); available = v }

-- A cleared set at the end of the chain.
pub link-Grows :
    (cells : Cells) (node : Qset) (b : Block) (s' : Slab)
    → Holds cells (layout (node ∷ []))
    → b.addr ≢ 0
    → cells b.addr ≡ none
    → Available (put cells b.addr (some (quantum []))) s'.answers
    → Grows cells
        (layout (node ∷ []))
        (at
          (put
            (put cells b.addr (some (qset 0 0)))
            node.addr
            (some (qset (slots_ptr node.slots) b.addr)))
          s')
        (layout (node ∷ cleared b ∷ []))
unfolding put layout Holds has
link-Grows cells node b s' (ne, e, out, rest) ne_b e_b v =
    let parts = Holds-split cells (slots_places node.slots) [] rest in
    let apart : node.addr ≢ b.addr = λ same. absurd (ground arith) in
    let out' = has-append node.addr (slots_places node.slots) [] in
    let b_out = Holds-live cells (slots_places node.slots) b.addr parts.left e_b in
    record {
      holds = (
        ne,
        ground arith,
        rw (has-append node.addr (slots_places node.slots) (layout (cleared b ∷ [])))
            (ground arith),
        Holds-append _ (slots_places node.slots) (layout (cleared b ∷ [])) (record {
          left = Holds-frame (slots_places node.slots) (λ a i. ground arith) parts.left;
          right = (ne_b, ground arith, refl, tt);
          apart = λ a i. ground arith;
        }),
      );
      keeps = λ a c e_cell o.
          let o' = has-append a (slots_places node.slots) [] in
          (
            ground arith,
            rw (has-append a (slots_places node.slots) (layout (cleared b ∷ []))) (ground arith),
          );
      available = Available-frame _ _ s'.answers (λ a i. ground arith) v;
    }

pub behind-Holds :
    (cells : Cells) (node : Qset) (chain : List Qset)
    → Holds cells (layout (node ∷ chain))
    → Holds cells (layout chain)
unfolding Holds layout
behind-Holds cells node chain h =
    (Holds-split cells (slots_places node.slots) (layout chain) h.3).right

pub load-Holds :
    (cells : Cells) (node : Qset) (chain : List Qset)
    → Holds cells (layout (node ∷ chain))
    → load_qset cells node.addr ≡ some (slots_ptr node.slots, first_ptr chain)
unfolding Holds layout
load-Holds cells node chain h = load_qset_lem cells node.addr _ _ h.0 h.1

pub load_ne :
    (cells : Cells) (node : Qset) (chain : List Qset)
    → Holds cells (layout (node ∷ chain))
    → node.addr ≢ 0
unfolding Holds layout
load_ne cells node chain h = h.0

pub fresh-Grows :
    (cells : Cells) (b : Block) (s' : Slab)
    → b.addr ≢ 0
    → cells b.addr ≡ none
    → Available (put cells b.addr (some (quantum []))) s'.answers
    → Grows cells (layout []) (at (put cells b.addr (some (qset 0 0))) s') (layout (cleared b ∷ []))
unfolding put layout Holds has
fresh-Grows cells b s' ne_b e_b v = record {
  holds = (ne_b, ground arith, refl, tt);
  keeps = λ a c e o. (ground arith, ground arith);
  available = Available-frame _ _ s'.answers (λ a i. ground arith) v;
}
