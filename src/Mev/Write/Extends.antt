-- ===== src/Mev/Write/Extends.antt =====
-- lkm_mev.c, mev_write up to the copy: the chain that it leaves.
use lkm_sandbox.Base.{
  ℕ, ◌+◌, ◌^◌, ◌≤◌, ◌<◌, ◌≡◌, sym, ◌∙◌, Option, some, List, length, get_elem?, length-set, arith,
}
use native.Mathlib.Decide.{ℕ_discrete}
use lkm_sandbox.Kernel.Slab.{Slab, live, IsSound}
use lkm_sandbox.Mev.Types.{Slots, Qset, ChainOf}
use lkm_sandbox.Mev.Bytes.{byte_of_slots, byte_in}
use lkm_sandbox.Mev.Held.{held}
use lkm_sandbox.Mev.Follow.{follow}
use lkm_sandbox.Mev.Walk.{
  follow-byte_in, follow-ChainOf, follow-length, follow-length_le, follow-live, follow-IsSound,
}
use lkm_sandbox.Mev.Chain.{
  set_slots-ChainOf, set_slots-byte_in, set_slots-byte_in_ne, byte_in-node, set_slots-held,
}
use lkm_sandbox.Mev.Write.{set_slots}
use lkm_sandbox.Mev.Write.Grow.{Grows}

-- What holds of the chain and the allocator after some allocations.
pub record Extends (quantum qset : ℕ) (chain chain' : List Qset) (s s' : Slab) : Type 0 where
  pub shaped : ChainOf quantum qset chain'
  pub longer : length chain ≤ length chain'
  pub counted : length chain ≤ 2 ^ 32 → length chain' ≤ 2 ^ 32
  pub kept : (m i o b : ℕ) → byte_in chain m i o ≡ some b → byte_in chain' m i o ≡ some b
  pub sound : IsSound s.log → IsSound s'.log
  pub accounted : (a : ℕ) → live a s'.log + held a chain ≡ live a s.log + held a chain'

pub Extends-trans :
    {quantum qset : ℕ} {x y z : List Qset} {s t u : Slab}
    → Extends quantum qset x y s t
    → Extends quantum qset y z t u
    → Extends quantum qset x z s u
Extends-trans g h = record {
  shaped = h.shaped;
  longer = omega (arith, g.longer, h.longer);
  counted = λ e. h.counted (g.counted e);
  kept = λ m i o b e. h.kept m i o b (g.kept m i o b e);
  sound = λ e. h.sound (g.sound e);
  accounted = λ a. omega (arith, g.accounted a, h.accounted a);
}

-- The walk of mev_follow.
pub follow-Extends :
    (quantum qset : ℕ) (chain : List Qset) (n : ℕ) (s : Slab)
    → n < 2 ^ 32
    → ChainOf quantum qset chain
    → let r = follow chain n s in Extends quantum qset chain r.chain s r.slab
follow-Extends quantum qset chain n s lt v = record {
  shaped = follow-ChainOf quantum qset chain n s v;
  longer = (follow-length chain n s).0;
  counted = follow-length_le (2 ^ 32) chain n s lt;
  kept = λ m i o b e. rw (follow-byte_in chain n s m i o) e;
  sound = follow-IsSound chain n s;
  accounted = λ a. follow-live a chain n s;
}

module _ (quantum qset : ℕ) (chain : List Qset) (n : ℕ) (node : Qset)
    (at : get_elem? chain n ≡ some node) where
  -- The bytes of the set whose slots have grown.
  slots-kept :
      (slots : Option Slots)
      → ((i o b : ℕ) → byte_of_slots node.slots i o ≡ some b → byte_of_slots slots i o ≡ some b)
      → (m i o b : ℕ) → byte_in chain m i o ≡ some b
      → byte_in (set_slots chain n node slots) m i o ≡ some b
  slots-kept slots kept m i o b e = elim (ℕ_discrete n m) [
    | yes same ↦
        rw (← same, set_slots-byte_in chain n node at slots i o)
          (kept i o b (sym (byte_in-node chain n node at i o) ∙ rw (← same) at e))
    | no other ↦ rw (set_slots-byte_in_ne chain n node at slots m i o other) e
  ]

  -- The allocations at the set that the walk has found.
  pub slots-Extends :
      (slots : Option Slots) (s s' : Slab)
      → ChainOf quantum qset chain
      → Grows quantum qset node.slots slots s s'
      → Extends quantum qset chain (set_slots chain n node slots) s s'
  slots-Extends slots s s' v g = record {
    shaped = set_slots-ChainOf chain n node at quantum qset slots v g.shaped;
    longer = omega (arith, length-set chain n (record node { slots = slots }));
    counted = omega (arith, length-set chain n (record node { slots = slots }));
    kept = slots-kept slots g.kept;
    sound = g.sound;
    accounted = λ a. omega (arith, g.accounted a, set_slots-held a chain n node slots at);
  }
