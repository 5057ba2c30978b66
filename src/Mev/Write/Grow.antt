-- ===== src/Mev/Write/Grow.antt =====
-- lkm_mev.c, lines 472 to 497: what the allocations of mev_write leave, also where they fail.
use lkm_sandbox.Base.{
  ℕ, ◌+◌, ◌<◌, ◌≡◌, refl, ◌∙◌, ◌⊎◌, inl, inr, Option, none, some, List, ◌∷◌, get_elem?, set,
  replicate, tabulate, length-set, length-replicate, length-tabulate, get_elem?-set_self,
  get_elem?-set_ne, lt-length_of_get_elem?, get_elem?_of_lt, arith,
}
use native.Mathlib.Decide.{ℕ_discrete}
use lkm_sandbox.Kernel.Slab.{Block, Slab, Call, kmalloc-cases, live, IsSound}
use lkm_sandbox.Mev.Types.{Quantum, Slots, SlotOf, SlotsOf}
use lkm_sandbox.Mev.Bytes.{byte_of_slot, byte_of_slots}
use lkm_sandbox.Mev.Held.{held_slots}
use lkm_sandbox.Mev.Chain.{All-set, All-replicate, held_quanta-replicate, held_quanta-fill}
use lkm_sandbox.Mev.Write.{Grown, no_memory, grown, grow_quantum, grow}

-- What holds of the slots and the allocator after some allocations.
pub record Grows (quantum qset : ℕ) (slots slots' : Option Slots) (s s' : Slab) : Type 0 where
  pub shaped : SlotsOf quantum qset slots'
  pub kept : (i o b : ℕ) → byte_of_slots slots i o ≡ some b → byte_of_slots slots' i o ≡ some b
  pub sound : IsSound s.log → IsSound s'.log
  pub accounted : (a : ℕ) → live a s'.log + held_slots a slots ≡ live a s.log + held_slots a slots'

-- The two ways in which they end; on success the quantum stands in its slot.
abbrev pub GrowEnds : ℕ → ℕ → ℕ → Option Slots → Slab → Grown → Type 0
GrowEnds quantum qset s_pos slots s r =
    ((slots' : Option Slots) × (s' : Slab) × (r ≡ no_memory slots' s')
      × Grows quantum qset slots slots' s s')
    ⊎ ((a : Slots) × (q : Quantum) × (s' : Slab) × (r ≡ grown a q s')
        × (get_elem? a.quanta s_pos ≡ some (some q))
        × Grows quantum qset slots (some a) s s')

same-Grows :
    (quantum qset : ℕ) (slots : Option Slots) (s s' : Slab)
    → SlotsOf quantum qset slots
    → s'.log ≡ s.log
    → Grows quantum qset slots slots s s'
same-Grows quantum qset slots s s' v e = record {
  shaped = v;
  kept = λ i o b h. h;
  sound = λ h. rw e h;
  accounted = λ a. rw e;
}

pub Grows-trans :
    {quantum qset : ℕ} {x y z : Option Slots} {s t u : Slab}
    → Grows quantum qset x y s t
    → Grows quantum qset y z t u
    → Grows quantum qset x z s u
Grows-trans g h = record {
  shaped = h.shaped;
  kept = λ i o b e. h.kept i o b (g.kept i o b e);
  sound = λ e. h.sound (g.sound e);
  accounted = λ a. omega (arith, g.accounted a, h.accounted a);
}

-- Filling an empty slot hides no byte.
fill-kept :
    (quanta : List (Option Quantum)) (i : ℕ) (x : Option Quantum)
    → get_elem? quanta i ≡ some none
    → (j o b : ℕ) → byte_of_slot (get_elem? quanta j) o ≡ some b
    → byte_of_slot (get_elem? (set quanta i x) j) o ≡ some b
fill-kept quanta i x e j o b h = elim (ℕ_discrete i j) [
  | yes same ↦ absurd (ground arith)
  | no other ↦ rw (get_elem?-set_ne quanta i j x other) h
]

module _ (quantum qset s_pos : ℕ) (a : Slots) (v : SlotsOf quantum qset (some a)) (s : Slab) where
  fill-Grows :
      (b : Block) (s' : Slab)
      → get_elem? a.quanta s_pos ≡ some none
      → s'.log ≡ Call.allocated b.addr ∷ s.log
      → let q : Quantum = record { addr = b.addr; bytes = tabulate b.stale 0 quantum } in
        Grows quantum qset (some a) (some (record a { quanta = set a.quanta s_pos (some q) })) s s'
  unfolding live
  fill-Grows b s' e el = record {
    shaped = (
      length-set a.quanta s_pos _ ∙ v.0,
      All-set (SlotOf quantum) a.quanta s_pos _ v.1 (length-tabulate b.stale 0 quantum),
    );
    kept = fill-kept a.quanta s_pos _ e;
    sound = λ h. rw el h;
    accounted = λ x. rw el (
        omega (
          arith,
          held_quanta-fill x a.quanta s_pos
              (record { addr = b.addr; bytes = tabulate b.stale 0 quantum }) e,
        ));
  }

  grow_quantum-Ends :
      (slot : Option Quantum)
      → get_elem? a.quanta s_pos ≡ some slot
      → GrowEnds quantum qset s_pos (some a) s (grow_quantum quantum s_pos a s)
  unfolding grow_quantum
  grow_quantum-Ends (some q) e =
      inr (a, q, s, ground arith, e, same-Grows quantum qset (some a) s s v refl)
  grow_quantum-Ends none e = elim (kmalloc-cases s) [
    | inl (s', em, el) ↦ inl (some a, s', ground arith, same-Grows quantum qset (some a) s s' v el)
    | inr (b, s', em, el) ↦ inr (
      _,
      _,
      s',
      ground arith,
      get_elem?-set_self a.quanta s_pos _ (lt-length_of_get_elem? a.quanta s_pos e),
      fill-Grows b s' e el,
    )
  ]

-- A fresh array is empty, and written down.
fresh-Grows :
    (quantum qset : ℕ) (b : Block) (s s' : Slab)
    → s'.log ≡ Call.allocated b.addr ∷ s.log
    → Grows quantum qset none (some (record { addr = b.addr; quanta = replicate qset none })) s s'
unfolding live
fresh-Grows quantum qset b s s' el = record {
  shaped = (length-replicate qset none, All-replicate (SlotOf quantum) qset none tt);
  kept = λ i o b h. absurd (ground arith);
  sound = λ h. rw el h;
  accounted = λ x. rw el (omega (arith, held_quanta-replicate x qset));
}

grow_some-Ends :
    (quantum qset s_pos : ℕ) (a : Slots) (s : Slab)
    → s_pos < qset
    → SlotsOf quantum qset (some a)
    → GrowEnds quantum qset s_pos (some a) s (grow_quantum quantum s_pos a s)
grow_some-Ends quantum qset s_pos a s lt v =
    let (slot, e) = get_elem?_of_lt a.quanta s_pos (omega (arith, v.0)) in
    grow_quantum-Ends quantum qset s_pos a v s slot e

-- The allocations of mev_write keep the shape, the bytes and the account, and on success the
-- quantum stands in its slot; they do not run past the array.
pub grow-Ends :
    (quantum qset s_pos : ℕ) (slots : Option Slots) (s : Slab)
    → s_pos < qset
    → SlotsOf quantum qset slots
    → GrowEnds quantum qset s_pos slots s (grow quantum qset s_pos slots s)
unfolding grow
grow-Ends quantum qset s_pos (some a) s lt v = grow_some-Ends quantum qset s_pos a s lt v
grow-Ends quantum qset s_pos none s lt v = elim (kmalloc-cases s) [
  | inl (s', em, el) ↦ inl (none, s', ground arith, same-Grows quantum qset none s s' v el)
  | inr (b, s', em, el) ↦
      let g = fresh-Grows quantum qset b s s' el in
      elim (grow_some-Ends quantum qset s_pos
        (record { addr = b.addr; quanta = replicate qset none }) s' lt g.shaped) [
          | inl (x, t, e, h) ↦ inl (x, t, ground arith, Grows-trans g h)
          | inr (x, q, t, e, at, h) ↦ inr (x, q, t, ground arith, at, Grows-trans g h)
        ]
]
