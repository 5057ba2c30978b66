-- ===== src/Mev/Heap/Runs/Answers.antt =====
-- lkm_mev.c, mev_trim: what kmalloc still has to give is as before.
use lkm_sandbox.Base.{
  ℕ, zero, suc, ◌≡◌, ◌∙◌, Option, none, some, List, [], ◌∷◌, Option-cases, inl, inr, arith,
}
use lkm_sandbox.Kernel.Slab.{Slab, kfree}
use lkm_sandbox.Mev.Types.{Quantum, Slots, Qset, Container}
use lkm_sandbox.Mev.Trim.{free_quanta, free_qset, free_chain, trim}

free_quanta-answers :
    (n : ℕ) (quanta : List (Option Quantum)) (s : Slab) {s' : Slab}
    → free_quanta n quanta s ≡ some s'
    → s'.answers ≡ s.answers
unfolding free_quanta
free_quanta-answers zero quanta s e = ground arith
free_quanta-answers (suc n) [] s e = absurd (ground arith)
free_quanta-answers (suc n) (none ∷ quanta) s e = free_quanta-answers n quanta s e
free_quanta-answers (suc n) (some q ∷ quanta) s e = free_quanta-answers n quanta (kfree q.addr s) e

free_qset-answers :
    (n : ℕ) (addr : ℕ) (slots : Option Slots) (s : Slab) {s' : Slab}
    → free_qset n (record { addr = addr; slots = slots }) s ≡ some s'
    → s'.answers ≡ s.answers
unfolding free_qset
free_qset-answers n addr none s e = ground arith
free_qset-answers n addr (some a) s e = elim (Option-cases (free_quanta n a.quanta s)) [
  | inl lost ↦ absurd (ground arith)
  | inr (t, there) ↦ ground (arith, free_quanta-answers n a.quanta s there)
]

free_chain-answers :
    (n : ℕ) (chain : List Qset) (s : Slab) {s' : Slab}
    → free_chain n chain s ≡ some s'
    → s'.answers ≡ s.answers
unfolding free_chain
free_chain-answers n [] s e = ground arith
free_chain-answers n (node ∷ chain) s {s'} e = elim (Option-cases (free_qset n node s)) [
  | inl lost ↦ absurd (ground arith)
  | inr (t, there) ↦
      let rest : free_chain n chain t ≡ some s' = ground arith in
      free_chain-answers n chain t rest ∙ free_qset-answers n node.addr node.slots s there
]

pub trim-answers :
    (c : Container) (s : Slab) {c' : Container} {s' : Slab}
    → trim c s ≡ some (c', s')
    → s'.answers ≡ s.answers
unfolding trim
trim-answers c s e = elim (Option-cases (free_chain c.qset c.chain s)) [
  | inl lost ↦ absurd (ground arith)
  | inr (t, there) ↦ ground (arith, free_chain-answers c.qset c.chain s there)
]
