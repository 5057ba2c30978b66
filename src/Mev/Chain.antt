-- ===== src/Mev/Chain.antt =====
-- The chain with the slots of one set replaced: its shape, its bytes and its memory.
use lkm_sandbox.Base.{
  ℕ, zero, suc, ◌+◌, ◌≡◌, ◌≢◌, refl, Option, none, some, List, [], ◌∷◌, All, get_elem?, set,
  replicate, get_elem?-set_self, get_elem?-set_ne, lt-length_of_get_elem?, arith,
}
use mathlib.Core.Option.{some-injective}
use lkm_sandbox.Kernel.Slab.{one_if}
use lkm_sandbox.Mev.Types.{Quantum, Slots, Qset, SlotsOf, ChainOf}
use lkm_sandbox.Mev.Bytes.{byte_of_slots, byte_in}
use lkm_sandbox.Mev.Held.{held_quanta, held_slots, held}
use lkm_sandbox.Mev.Write.{set_slots}

pub All-set {ℓ κ} :
    {A : Type ℓ} (P : A → Type κ) (xs : List A) (i : ℕ) (x : A)
    → All P xs
    → P x
    → All P (set xs i x)
All-set P [] i x h p = h
All-set P (y ∷ xs) zero x h p = (p, h.1)
All-set P (y ∷ xs) (suc i) x h p = (h.0, All-set P xs i x h.1 p)

pub All-replicate {ℓ κ} :
    {A : Type ℓ} (P : A → Type κ) (n : ℕ) (x : A) → P x → All P (replicate n x)
All-replicate P zero x p = tt
All-replicate P (suc n) x p = (p, All-replicate P n x p)

pub All-get_elem? {ℓ κ} :
    {A : Type ℓ} (P : A → Type κ) (xs : List A) (i : ℕ) {x : A}
    → All P xs
    → get_elem? xs i ≡ some x
    → P x
All-get_elem? P [] i h e = absurd (ground arith)
All-get_elem? P (y ∷ xs) zero h e = rw (← some-injective _ _ e) h.0
All-get_elem? P (y ∷ xs) (suc i) h e = All-get_elem? P xs i h.1 e

pub held_quanta-replicate : (a n : ℕ) → held_quanta a (replicate n none) ≡ 0
unfolding held_quanta
held_quanta-replicate a zero = refl
held_quanta-replicate a (suc n) = held_quanta-replicate a n

-- Filling an empty slot adds the memory of the quantum.
pub held_quanta-fill :
    (a : ℕ) (quanta : List (Option Quantum)) (i : ℕ) (q : Quantum)
    → get_elem? quanta i ≡ some none
    → held_quanta a (set quanta i (some q)) ≡ one_if a q.addr + held_quanta a quanta
unfolding held_quanta
held_quanta-fill a [] i q e = absurd (ground arith)
held_quanta-fill a (none ∷ quanta) zero q e = refl
held_quanta-fill a (some _ ∷ quanta) zero q e = absurd (ground arith)
held_quanta-fill a (none ∷ quanta) (suc i) q e = held_quanta-fill a quanta i q e
held_quanta-fill a (some _ ∷ quanta) (suc i) q e = omega (arith, held_quanta-fill a quanta i q e)

-- New bytes in a quantum change nothing of what is held.
pub held_quanta-update :
    (a : ℕ) (quanta : List (Option Quantum)) (i : ℕ) (q : Quantum) (bytes : List ℕ)
    → get_elem? quanta i ≡ some (some q)
    → held_quanta a (set quanta i (some (record q { bytes = bytes }))) ≡ held_quanta a quanta
unfolding held_quanta
held_quanta-update a [] i q bytes e = absurd (ground arith)
held_quanta-update a (none ∷ quanta) zero q bytes e = absurd (ground arith)
held_quanta-update a (some p ∷ quanta) zero q bytes e = ground arith
held_quanta-update a (none ∷ quanta) (suc i) q bytes e = held_quanta-update a quanta i q bytes e
held_quanta-update a (some _ ∷ quanta) (suc i) q bytes e =
    omega (arith, held_quanta-update a quanta i q bytes e)

module _ (chain : List Qset) (n : ℕ) (node : Qset) (at : get_elem? chain n ≡ some node) where
  pub set_slots-ChainOf :
      (quantum qset : ℕ) (slots : Option Slots)
      → ChainOf quantum qset chain
      → SlotsOf quantum qset slots
      → ChainOf quantum qset (set_slots chain n node slots)
  set_slots-ChainOf quantum qset slots h p = All-set _ chain n _ h p

  pub set_slots-byte_in :
      (slots : Option Slots) (i o : ℕ)
      → byte_in (set_slots chain n node slots) n i o ≡ byte_of_slots slots i o
  set_slots-byte_in slots i o = rw (
      get_elem?-set_self chain n (record node { slots = slots })
        (lt-length_of_get_elem? chain n at))

  pub set_slots-byte_in_ne :
      (slots : Option Slots) (m i o : ℕ)
      → n ≢ m
      → byte_in (set_slots chain n node slots) m i o ≡ byte_in chain m i o
  set_slots-byte_in_ne slots m i o ne =
      rw (get_elem?-set_ne chain n m (record node { slots = slots }) ne)

  pub byte_in-node : (i o : ℕ) → byte_in chain n i o ≡ byte_of_slots node.slots i o
  byte_in-node i o = rw at

pub set_slots-held :
    (a : ℕ) (chain : List Qset) (n : ℕ) (node : Qset) (slots : Option Slots)
    → get_elem? chain n ≡ some node
    → held a (set_slots chain n node slots) + held_slots a node.slots
      ≡ held a chain + held_slots a slots
unfolding held
set_slots-held a [] n node slots e = absurd (ground arith)
set_slots-held a (x ∷ chain) zero node slots e = ground arith
set_slots-held a (x ∷ chain) (suc n) node slots e =
    omega (arith, set_slots-held a chain n node slots e)
