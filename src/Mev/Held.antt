-- ===== src/Mev/Held.antt =====
-- The memory that the chain of a container holds, counted by address.
use lkm_sandbox.Base.{ℕ, ◌+◌, ◌≡◌, Option, none, some, List, [], ◌∷◌}
use lkm_sandbox.Kernel.Slab.{Call, one_if, live, IsSound}
use lkm_sandbox.Mev.Types.{Quantum, Slots, Qset}

unfoldable pub held_quanta : ℕ → List (Option Quantum) → ℕ
held_quanta a [] = 0
held_quanta a (none ∷ quanta) = held_quanta a quanta
held_quanta a (some q ∷ quanta) = one_if a q.addr + held_quanta a quanta

abbrev pub held_slots : ℕ → Option Slots → ℕ
held_slots a none = 0
held_slots a (some s) = one_if a s.addr + held_quanta a s.quanta

-- How many pieces of memory of the chain stand at the address.
unfoldable pub held : ℕ → List Qset → ℕ
held a [] = 0
held a (node ∷ chain) = one_if a node.addr + held_slots a node.slots + held a chain

-- The log is sound, and what is live is the chain and what others hold.
pub record Owns (others : ℕ → ℕ) (chain : List Qset) (log : List Call) : Type 0 where
  pub sound : IsSound log
  pub accounted : (a : ℕ) → live a log ≡ held a chain + others a
