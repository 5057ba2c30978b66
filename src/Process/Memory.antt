-- ===== src/Process/Memory.antt =====
-- lkm_process.c: the buffer, allocated and freed.
use lkm_sandbox.Base.{
  ℕ, zero, suc, ◌+◌, ◌≡◌, ◌≢◌, refl, ◌⊎◌, inl, inr, ℤ, pos, negsuc, none, some, arith,
}
use lkm_sandbox.Kernel.Slab.{Block, Slab, null, block, kmalloc, kfree, live, IsSound, kmalloc-cases}
use lkm_sandbox.Process.{Printed, get_process_information, print_process_information}

zero-cases : (z : ℤ) → (z ≡ pos 0) ⊎ (z ≢ pos 0)
zero-cases (pos zero) = inl refl
zero-cases (pos (suc n)) = inr (λ e. absurd (ground arith))
zero-cases (negsuc n) = inr (λ e. absurd (ground arith))

-- Where nothing was freed before that was not live: where kmalloc gives no memory, printing prints
-- nothing and calls nothing else. Where kmalloc gives a block and snprintf does not answer 0, it
-- prints the text and frees that block, so that nothing is freed that is not live and every address
-- is as live as it was; where kmalloc gives a block and snprintf answers 0, it prints nothing and
-- never frees the block.
pub print_lem :
    (w : Printed) (s : Slab)
    → IsSound s.log
    → let r = print_process_information w s in
      ((s' : Slab) × (kmalloc s ≡ null s') × (r.0 ≡ none) × (r.1 ≡ s') × (r.1.log ≡ s.log))
      ⊎ ((b : Block) × (s' : Slab) × (kmalloc s ≡ block b s')
          × (w.written ≢ pos 0)
          × (r.0 ≡ some w.text)
          × (r.1 ≡ kfree b.addr s')
          × IsSound r.1.log
          × ((a : ℕ) → live a r.1.log ≡ live a s.log))
      ⊎ ((b : Block) × (s' : Slab) × (kmalloc s ≡ block b s')
          × (w.written ≡ pos 0)
          × (r.0 ≡ none)
          × (r.1 ≡ s')
          × (live b.addr r.1.log ≡ live b.addr s.log + 1))
unfolding print_process_information get_process_information live
print_lem w s sound = elim (kmalloc-cases s) [
  | inl (s', e, el) ↦ inl (s', e, ground arith, ground arith, ground arith)
  | inr (b, s', e, el) ↦ elim (zero-cases w.written) [
    | inl z ↦ inr (inr (b, s', e, z, ground arith, ground arith, ground arith))
    | inr ne ↦ inr (inl (b, s', e, ne, ground arith, ground arith, ground arith, λ a. ground arith))
  ]
]
