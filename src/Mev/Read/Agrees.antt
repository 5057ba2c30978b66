-- ===== src/Mev/Read/Agrees.antt =====
-- lkm_mev.c, mev_read: what it finds at a place, against the byte map of the chain.
use lkm_sandbox.Base.{
  ℕ, zero, suc, ◌<◌, ◌≡◌, refl, ◌⊎◌, inl, inr, true, Option, none, some, List, [], ◌∷◌, All, length,
  get_elem?, arith,
}
use lkm_sandbox.Mev.Types.{Quantum, Slots, Qset, Place, SlotOf, SlotsOf, ChainOf}
use lkm_sandbox.Mev.Bytes.{byte_of_slot, byte_of_slots, byte_in}
use lkm_sandbox.Mev.Read.{Lookup, absent, present, slot_of, slots_at, lookup}

-- Either there is no quantum and there are no bytes, or the bytes are those of the quantum.
abbrev pub Agrees : ℕ → Lookup → (ℕ → Option ℕ) → Type 0
Agrees quantum l bytes =
    ((l ≡ absent) × ((o : ℕ) → bytes o ≡ none))
    ⊎ ((q : Quantum) × (l ≡ present q)
        × (length q.bytes ≡ quantum)
        × ((o : ℕ) → bytes o ≡ get_elem? q.bytes o))

slot-Agrees :
    (quantum : ℕ) (quanta : List (Option Quantum)) (i : ℕ)
    → All (SlotOf quantum) quanta
    → i < length quanta
    → Agrees quantum (slot_of (get_elem? quanta i)) (byte_of_slot (get_elem? quanta i))
slot-Agrees quantum [] i h l = elim l [ ]
slot-Agrees quantum (none ∷ quanta) zero h l = inl (refl, λ o. refl)
slot-Agrees quantum (some q ∷ quanta) zero h l = inr (q, refl, h.0, λ o. refl)
slot-Agrees quantum (_ ∷ quanta) (suc i) h l = slot-Agrees quantum quanta i h.1 (omega arith)

slots-Agrees :
    (quantum qset : ℕ) (slots : Option Slots) (i : ℕ)
    → SlotsOf quantum qset slots
    → i < qset
    → Agrees quantum (slots_at slots i) (byte_of_slots slots i)
slots-Agrees quantum qset none i h l = inl (refl, λ o. refl)
slots-Agrees quantum qset (some a) i h l = slot-Agrees quantum a.quanta i h.1 (omega arith)

pub lookup-Agrees :
    (quantum qset : ℕ) (chain : List Qset) (at : Place)
    → ChainOf quantum qset chain
    → at.item < length chain
    → at.s_pos < qset
    → Agrees quantum (lookup true chain at) (byte_in chain at.item at.s_pos)
unfolding lookup
lookup-Agrees quantum qset chain at v l k = chain-Agrees chain at.item v l
  where
    chain-Agrees :
        (chain : List Qset) (n : ℕ)
        → ChainOf quantum qset chain
        → n < length chain
        → Agrees quantum (lookup true chain (record at { item = n })) (byte_in chain n at.s_pos)
    chain-Agrees [] n v l = elim l [ ]
    chain-Agrees (node ∷ chain) zero v l = slots-Agrees quantum qset node.slots at.s_pos v.0 k
    chain-Agrees (node ∷ chain) (suc n) v l = chain-Agrees chain n v.1 (omega arith)
