-- ===== src/Mev/Write/Stores.antt =====
-- lkm_mev.c, mev_write from the copy on: which bytes of the chain it changes.
use lkm_sandbox.Base.{
  ℕ, ◌+◌, ◌≤◌, ◌<◌, ◌≡◌, sym, ◌≢◌, ◌∙◌, ◌⊎◌, inl, inr, some, List, length, get_elem?, overwrite,
  length-set, length-overwrite, get_elem?-set_self, get_elem?-set_ne, get_elem?-overwrite_outside,
  get_elem?-overwrite_inside, lt-length_of_get_elem?, arith,
}
use native.Mathlib.Decide.{ℕ_discrete}
use lkm_sandbox.Mev.Types.{Quantum, Slots, Qset, Place, SlotOf, SlotsOf, ChainOf}
use lkm_sandbox.Mev.Bytes.{byte_of_slots, byte_in}
use lkm_sandbox.Mev.Held.{held}
use lkm_sandbox.Mev.Chain.{
  All-set, held_quanta-update, set_slots-ChainOf, set_slots-byte_in, set_slots-byte_in_ne,
  set_slots-held,
}
use lkm_sandbox.Mev.Write.{stored, set_slots}

-- `chain'` is `chain` with the bytes written at a place.
pub record Stores (quantum qset : ℕ) (at : Place) (bytes : List ℕ) (chain chain' : List Qset)
    : Type 0 where
  pub shaped : ChainOf quantum qset chain'
  pub same_length : length chain' ≡ length chain
  pub same_held : (a : ℕ) → held a chain' ≡ held a chain
  pub written :
      (k : ℕ)
      → k < length bytes
      → byte_in chain' at.item at.s_pos (at.q_pos + k) ≡ get_elem? bytes k
  pub others :
      (m i o : ℕ)
      → (m ≢ at.item) ⊎ (i ≢ at.s_pos) ⊎ (o < at.q_pos) ⊎ (at.q_pos + length bytes ≤ o)
      → byte_in chain' m i o ≡ byte_in chain m i o

module _ (a : Slots) (q : Quantum) (at : Place) (bytes : List ℕ)
    (e : get_elem? a.quanta at.s_pos ≡ some (some q)) where
  stored-SlotsOf :
      (quantum qset : ℕ)
      → SlotsOf quantum qset (some a)
      → length q.bytes ≡ quantum
      → SlotsOf quantum qset (some (stored a q at bytes))
  stored-SlotsOf quantum qset v l = (
    length-set a.quanta at.s_pos _ ∙ v.0,
    All-set (SlotOf quantum) a.quanta at.s_pos _ v.1 (length-overwrite at.q_pos bytes q.bytes ∙ l),
  )

  stored-written :
      (k : ℕ)
      → k < length bytes
      → at.q_pos + length bytes ≤ length q.bytes
      → byte_of_slots (some (stored a q at bytes)) at.s_pos (at.q_pos + k) ≡ get_elem? bytes k
  stored-written k h fits =
      rw
        (get_elem?-set_self a.quanta at.s_pos
          (some (record q { bytes = overwrite at.q_pos bytes q.bytes }))
          (lt-length_of_get_elem? a.quanta at.s_pos e))
        (get_elem?-overwrite_inside at.q_pos bytes q.bytes k h (omega arith))

  stored-others :
      (i o : ℕ)
      → (i ≢ at.s_pos) ⊎ (o < at.q_pos) ⊎ (at.q_pos + length bytes ≤ o)
      → byte_of_slots (some (stored a q at bytes)) i o ≡ byte_of_slots (some a) i o
  stored-others i o h = elim (ℕ_discrete at.s_pos i) [
    | yes same ↦ elim h [
      | inl ne ↦ absurd (ne (sym same))
      | inr out ↦
          rw
            (
              ← same,
              get_elem?-set_self a.quanta at.s_pos
                  (some (record q { bytes = overwrite at.q_pos bytes q.bytes }))
                  (lt-length_of_get_elem? a.quanta at.s_pos e),
              e,
            )
            (get_elem?-overwrite_outside at.q_pos bytes q.bytes o out)
    ]
    | no other ↦ rw (
        get_elem?-set_ne a.quanta at.s_pos i
          (some (record q { bytes = overwrite at.q_pos bytes q.bytes })) other)
  ]

-- The copy into the quantum at the place, seen from the chain whose set has the grown array.
pub stored-Stores :
    (quantum qset : ℕ) (chain : List Qset) (at : Place) (node : Qset) (a : Slots) (q : Quantum)
    (bytes : List ℕ)
    → get_elem? chain at.item ≡ some node
    → get_elem? a.quanta at.s_pos ≡ some (some q)
    → ChainOf quantum qset chain
    → SlotsOf quantum qset (some a)
    → length q.bytes ≡ quantum
    → at.q_pos + length bytes ≤ quantum
    → Stores quantum qset at bytes
        (set_slots chain at.item node (some a))
        (set_slots chain at.item node (some (stored a q at bytes)))
stored-Stores quantum qset chain at node a q bytes en eq v va l fits = record {
  shaped =
      set_slots-ChainOf chain at.item node en quantum qset (some (stored a q at bytes)) v
        (stored-SlotsOf a q at bytes eq quantum qset va l);
  same_length = length-set chain at.item _ ∙ sym (length-set chain at.item _);
  same_held = λ x. omega (
    arith,
    set_slots-held x chain at.item node (some a) en,
    set_slots-held x chain at.item node (some (stored a q at bytes)) en,
    held_quanta-update x a.quanta at.s_pos q (overwrite at.q_pos bytes q.bytes) eq,
  );
  written = λ k h.
      set_slots-byte_in chain at.item node en (some (stored a q at bytes)) at.s_pos (at.q_pos + k)
      ∙ stored-written a q at bytes eq k h (omega arith);
  others = λ m i o h. elim (ℕ_discrete at.item m) [
    | yes same ↦ elim h [
      | inl ne ↦ absurd (ne (sym same))
      | inr out ↦
          rw
            (
              ← same,
              set_slots-byte_in chain at.item node en (some (stored a q at bytes)) i o,
              set_slots-byte_in chain at.item node en (some a) i o,
            )
            (stored-others a q at bytes eq i o out)
    ]
    | no other ↦
        set_slots-byte_in_ne chain at.item node en (some (stored a q at bytes)) m i o other
        ∙ sym (set_slots-byte_in_ne chain at.item node en (some a) m i o other)
  ];
}
