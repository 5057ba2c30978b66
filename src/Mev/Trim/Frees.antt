-- ===== src/Mev/Trim/Frees.antt =====
-- lkm_mev.c, mev_trim: what it frees, counted by address.
use lkm_sandbox.Base.{
  ℕ, zero, suc, ◌+◌, ◌≡◌, refl, Option, none, some, List, [], ◌∷◌, length, arith,
}
use lkm_sandbox.Kernel.Slab.{Slab, kfree, one_if, live, IsSound}
use lkm_sandbox.Mev.Types.{
  quantum_size, qset_size, Quantum, Slots, Qset, Container, SlotsOf, ChainOf, IsValid,
}
use lkm_sandbox.Mev.Held.{held_quanta, held_slots, held, Owns}
use lkm_sandbox.Mev.Trim.{free_quanta, free_qset, free_chain, trim}

-- The log is sound, and what is live is what `rest` counts.
abbrev Leaves : (ℕ → ℕ) → Slab → Type 0
Leaves rest s = IsSound s.log × ((a : ℕ) → live a s.log ≡ rest a)

abbrev Frees : (ℕ → ℕ) → Option Slab → Type 0
Frees rest r = (s : Slab) × (r ≡ some s) × Leaves rest s

kfree-Leaves :
    (rest : ℕ → ℕ) (p : ℕ) (s : Slab)
    → Leaves (λ a. one_if a p + rest a) s
    → Leaves rest (kfree p s)
unfolding live
kfree-Leaves rest p s (sound, counts) =
    ((ground (arith, counts p), sound), λ a. ground (arith, counts a))

free_quanta-Frees :
    (rest : ℕ → ℕ) (n : ℕ) (quanta : List (Option Quantum)) (s : Slab)
    → length quanta ≡ n
    → Leaves (λ a. held_quanta a quanta + rest a) s
    → Frees rest (free_quanta n quanta s)
unfolding free_quanta held_quanta
free_quanta-Frees rest zero [] s e h = (s, refl, (h.0, λ a. omega (arith, h.1 a)))
free_quanta-Frees rest zero (q ∷ quanta) s e h = absurd (omega arith)
free_quanta-Frees rest (suc n) [] s e h = absurd (omega arith)
free_quanta-Frees rest (suc n) (none ∷ quanta) s e h =
    free_quanta-Frees rest n quanta s (omega arith) h
free_quanta-Frees rest (suc n) (some q ∷ quanta) s e h =
    free_quanta-Frees rest n quanta (kfree q.addr s) (omega arith)
      (kfree-Leaves (λ a. held_quanta a quanta + rest a) q.addr s (h.0, λ a. omega (arith, h.1 a)))

free_slots-Frees :
    (rest : ℕ → ℕ) (quantum qset addr : ℕ) (slots : Option Slots) (s : Slab)
    → SlotsOf quantum qset slots
    → Leaves (λ a. one_if a addr + held_slots a slots + rest a) s
    → Frees rest (free_qset qset (record { addr = addr; slots = slots }) s)
unfolding free_qset
free_slots-Frees rest quantum qset addr none s v h =
    (kfree addr s, refl, kfree-Leaves rest addr s (h.0, λ a. omega (arith, h.1 a)))
free_slots-Frees rest quantum qset addr (some t) s v h =
    let (s', e, left) =
      free_quanta-Frees (λ a. one_if a t.addr + (one_if a addr + rest a)) qset t.quanta s v.0
        (h.0, λ a. omega (arith, h.1 a)) in
    (
      kfree addr (kfree t.addr s'),
      rw e,
      kfree-Leaves rest addr (kfree t.addr s')
          (kfree-Leaves (λ a. one_if a addr + rest a) t.addr s' left),
    )

free_chain-Frees :
    (rest : ℕ → ℕ) (quantum qset : ℕ) (chain : List Qset) (s : Slab)
    → ChainOf quantum qset chain
    → Leaves (λ a. held a chain + rest a) s
    → Frees rest (free_chain qset chain s)
unfolding free_chain held
free_chain-Frees rest quantum qset [] s v h = (s, refl, (h.0, λ a. omega (arith, h.1 a)))
free_chain-Frees rest quantum qset (node ∷ chain) s v h =
    let (s', e, left) =
      free_slots-Frees (λ a. held a chain + rest a) quantum qset node.addr node.slots s v.0
        (h.0, λ a. omega (arith, h.1 a)) in
    rw e (free_chain-Frees rest quantum qset chain s' v.1 left)

-- On a container whose arrays have its sizes and whose memory is accounted for, mev_trim does not
-- fault: it frees every set, array and quantum of the chain exactly once and nothing that others
-- hold, empties the container, sets the sizes to their defaults and leaves the semaphore alone.
pub trim-Owns :
    (others : ℕ → ℕ) (c : Container) (s : Slab)
    → ChainOf c.quantum c.qset c.chain
    → Owns others c.chain s.log
    → (s' : Slab) × (trim c s
        ≡ some (
          record { chain = []; quantum = quantum_size; qset = qset_size; size = 0; sem = c.sem },
          s',
        ))
      × Owns others [] s'.log
unfolding trim held
trim-Owns others c s v o =
    let (s', e, left) =
      free_chain-Frees others c.quantum c.qset c.chain s v (o.sound, o.accounted) in
    (s', rw e, record { sound = left.0; accounted = λ a. omega (arith, left.1 a) })

-- What mev_trim leaves is a valid container.
pub trim-IsValid :
    (c : Container) (s : Slab) {c' : Container} {s' : Slab} → trim c s ≡ some (c', s') → IsValid c'
unfolding trim
trim-IsValid c s h = grind arith

pub trim_size :
    (c : Container) (s : Slab) {c' : Container} {s' : Slab}
    → trim c s ≡ some (c', s')
    → (c'.size ≡ 0) × (c'.sem ≡ c.sem)
unfolding trim
trim_size c s h = ground arith
