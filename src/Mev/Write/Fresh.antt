-- ===== src/Mev/Write/Fresh.antt =====
-- lkm_mev.c, lines 472 to 497: what a quantum that mev_write allocates holds before the copy.
use mathlib.Core.Path.{subst}
use lkm_sandbox.Base.{
  set, sym, inl, inr, ℕ, zero, suc, ◌+◌, ◌<◌, ◌≡◌, refl, ap, ◌∙◌, Option, none, some, List, [], ◌∷◌,
  length, get_elem?, replicate, length-replicate, tabulate, get_elem?_of_lt, arith,
}
use lkm_sandbox.Kernel.Slab.{Block, Slab}
use lkm_sandbox.Kernel.Given.{Gives, Within, kmalloc-Given}
use lkm_sandbox.Mev.Types.{Quantum, Slots, Qset, SlotOf, SlotsOf}
use lkm_sandbox.Mev.Chain.{All-get_elem?, All-replicate}
use lkm_sandbox.Mev.Bytes.{byte_of_slot, byte_of_slots}
use lkm_sandbox.Mev.Follow.{cleared, walk, follow}
use lkm_sandbox.Mev.Write.{Grown, outside, no_memory, grown, grow_quantum, grow}

walk-Within :
    (n : ℕ) (node : Qset) (next : List Qset) (s : Slab) → Within s (walk n node next s).slab
unfolding walk
walk-Within zero node next s = λ b h. h
walk-Within (suc n) node (after ∷ next) s = walk-Within n after next s
walk-Within (suc n) node [] s = elim (kmalloc-Given s) [
  | inl (s', e, in_s) ↦ rw (e, walk) in_s
  | inr (x, s', e, gives, in_s) ↦ rw (e, walk) (λ b h. in_s b (walk-Within n (cleared x) [] s' b h))
]

pub follow-Within : (chain : List Qset) (n : ℕ) (s : Slab) → Within s (follow chain n s).slab
unfolding follow
follow-Within (node ∷ next) n s = walk-Within n node next s
follow-Within [] n s = elim (kmalloc-Given s) [
  | inl (s', e, in_s) ↦ rw (e, follow) in_s
  | inr (x, s', e, gives, in_s) ↦
      rw (e, follow) (λ b h. in_s b (walk-Within n (cleared x) [] s' b h))
]

get_elem?-tabulate :
    (f : ℕ → ℕ) (k n i : ℕ) → i < n → get_elem? (tabulate f k n) i ≡ some (f (k + i))
get_elem?-tabulate f k zero i h = absurd (omega arith)
get_elem?-tabulate f k (suc n) zero h = ap (λ (t : ℕ). some (f t)) (omega arith)
get_elem?-tabulate f k (suc n) (suc i) h =
    get_elem?-tabulate f (suc k) n i (omega arith) ∙ ap (λ (t : ℕ). some (f t)) (omega arith)

-- The bytes of a quantum are the stale ones of a block that the allocator gives.
abbrev pub IsStale : ℕ → Slab → Quantum → Type 0
IsStale quantum s q =
    (b : Block) × Gives s b × ((i : ℕ) → i < quantum → get_elem? q.bytes i ≡ some (b.stale i))

-- On success the quantum was there, or is fresh.
abbrev pub Fills : ℕ → ℕ → Option Slots → Slab → Grown → Type 0
Fills quantum s_pos slots s outside = Unit
Fills quantum s_pos slots s (no_memory slots' s') = Unit
Fills quantum s_pos slots s (grown a q s') =
    (o : ℕ) → o < quantum → byte_of_slots slots s_pos o ≡ none → IsStale quantum s q

grow_quantum-Fills :
    (quantum qset s_pos : ℕ) (a : Slots) (s : Slab) (slot : Option Quantum)
    → SlotsOf quantum qset (some a)
    → get_elem? a.quanta s_pos ≡ some slot
    → Fills quantum s_pos (some a) s (grow_quantum quantum s_pos a s)
unfolding grow_quantum
grow_quantum-Fills quantum qset s_pos a s none v e = elim (kmalloc-Given s) [
  | inl (s', em, in_s) ↦
      let no : grow_quantum quantum s_pos a s ≡ no_memory (some a) s' = ground arith in
      subst (Fills quantum s_pos (some a) s) (sym no) tt
  | inr (b, s', em, gives, in_s) ↦
      let q : Quantum = record { addr = b.addr; bytes = tabulate b.stale 0 quantum } in
      let yes : grow_quantum quantum s_pos a s
          ≡ grown (record a { quanta = set a.quanta s_pos (some q) }) q s' =
        ground arith in
      subst (Fills quantum s_pos (some a) s) (sym yes) (λ o lt hole. (
        b,
        gives,
        λ i l.
            get_elem?-tabulate b.stale 0 quantum i l
            ∙ ap (λ (t : ℕ). some (b.stale t)) (omega arith),
      ))
]
grow_quantum-Fills quantum qset s_pos a s (some q) v e =
    let there : grow_quantum quantum s_pos a s ≡ grown a q s = ground arith in
    let l : length q.bytes ≡ quantum = All-get_elem? (SlotOf quantum) a.quanta s_pos v.1 e in
    subst (Fills quantum s_pos (some a) s) (sym there)
      (λ o lt hole. let (x, at) = get_elem?_of_lt q.bytes o (omega arith) in absurd (ground arith))

-- A fresh array has no bytes.
replicate_hole : (n i o : ℕ) → byte_of_slot (get_elem? (replicate n none) i) o ≡ none
replicate_hole zero i o = refl
replicate_hole (suc n) zero o = refl
replicate_hole (suc n) (suc i) o = replicate_hole n i o

behind-Fills :
    (quantum s_pos : ℕ) (slots slots' : Option Slots) (s s' : Slab) (r : Grown)
    → Within s s'
    → ((o : ℕ) → byte_of_slots slots' s_pos o ≡ none)
    → Fills quantum s_pos slots' s' r
    → Fills quantum s_pos slots s r
behind-Fills quantum s_pos slots slots' s s' outside in_s holes h = tt
behind-Fills quantum s_pos slots slots' s s' (no_memory x t) in_s holes h = tt
behind-Fills quantum s_pos slots slots' s s' (grown a q t) in_s holes h =
    λ o lt hole. let (b, gives, stale) = h o lt (holes o) in (b, in_s b gives, stale)

grow_some-Fills :
    (quantum qset s_pos : ℕ) (a : Slots) (s : Slab)
    → s_pos < qset
    → SlotsOf quantum qset (some a)
    → Fills quantum s_pos (some a) s (grow_quantum quantum s_pos a s)
grow_some-Fills quantum qset s_pos a s lt v =
    let (slot, e) = get_elem?_of_lt a.quanta s_pos (omega (arith, v.0)) in
    grow_quantum-Fills quantum qset s_pos a s slot v e

pub grow-Fills :
    (quantum qset s_pos : ℕ) (slots : Option Slots) (s : Slab)
    → s_pos < qset
    → SlotsOf quantum qset slots
    → Fills quantum s_pos slots s (grow quantum qset s_pos slots s)
unfolding grow
grow-Fills quantum qset s_pos (some a) s lt v = grow_some-Fills quantum qset s_pos a s lt v
grow-Fills quantum qset s_pos none s lt v = elim (kmalloc-Given s) [
  | inl (s', em, in_s) ↦
      let no : grow quantum qset s_pos none s ≡ no_memory none s' = ground arith in
      subst (Fills quantum s_pos none s) (sym no) tt
  | inr (b, s', em, gives, in_s) ↦
      let a : Slots = record { addr = b.addr; quanta = replicate qset none } in
      let on : grow quantum qset s_pos none s ≡ grow_quantum quantum s_pos a s' = ground arith in
      subst (Fills quantum s_pos none s) (sym on) (
        behind-Fills quantum s_pos none (some a) s s' (grow_quantum quantum s_pos a s') in_s
          (replicate_hole qset s_pos)
          (grow_some-Fills quantum qset s_pos a s' lt
            (length-replicate qset none, All-replicate (SlotOf quantum) qset none tt)))
]
