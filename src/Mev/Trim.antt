-- ===== src/Mev/Trim.antt =====
-- lkm_mev.c, mev_trim: frees all that the container holds, and resets it.
pub mod Frees
use lkm_sandbox.Base.{ℕ, zero, suc, Option, none, some, List, [], ◌∷◌, ◌>>=◌}
use lkm_sandbox.Kernel.Slab.{Slab, kfree}
use lkm_sandbox.Mev.Types.{quantum_size, qset_size, Quantum, Qset, Container}

-- The inner loop, which reads `qset` slots of the array; kfree(NULL) does nothing.
unfoldable pub free_quanta : ℕ → List (Option Quantum) → Slab → Option Slab
free_quanta zero quanta s = some s
free_quanta (suc n) [] s = none
free_quanta (suc n) (none ∷ quanta) s = free_quanta n quanta s
free_quanta (suc n) (some q ∷ quanta) s = free_quanta n quanta (kfree q.addr s)

-- One round of the outer loop.
unfoldable pub free_qset : ℕ → Qset → Slab → Option Slab
free_qset qset node s = elim node.slots [
  | none ↦ some (kfree node.addr s)
  | some a ↦ do s' ← free_quanta qset a.quanta s; some (kfree node.addr (kfree a.addr s'))
]

unfoldable pub free_chain : ℕ → List Qset → Slab → Option Slab
free_chain qset [] s = some s
free_chain qset (node ∷ chain) s = free_qset qset node s >>= free_chain qset chain

unfoldable pub trim : Container → Slab → Option (Container × Slab)
trim c s = do
  s' ← free_chain c.qset c.chain s
  some (record c { size = 0; quantum = quantum_size; qset = qset_size; chain = [] }, s')
