-- ===== src/Process/Tests.antt =====
-- The theorems on lkm_process.c at concrete states.
use lkm_sandbox.Base.{ℕ, ◌+◌, ◌≡◌, ◌≢◌, ◌⊎◌, pos, none, some, [], ◌∷◌}
use lkm_sandbox.Kernel.Slab.{Block, Slab, null, block, kmalloc, kfree, live, IsSound}
use lkm_sandbox.Process.{Printed, print_process_information}
use lkm_sandbox.Process.Memory.{print_lem}

abbrev slab : Slab
slab = record { answers = some (record { addr = 7; stale = λ i. 0 }) ∷ []; log = [] }

abbrev printed : Printed
printed = record { written = pos 2; text = 104 ∷ 105 ∷ [] }

print_lem_example :
    let r = print_process_information printed slab in
    ((s' : Slab) × (kmalloc slab ≡ null s') × (r.0 ≡ none) × (r.1 ≡ s') × (r.1.log ≡ []))
    ⊎ ((b : Block) × (s' : Slab) × (kmalloc slab ≡ block b s')
        × (pos 2 ≢ pos 0)
        × (r.0 ≡ some (104 ∷ 105 ∷ []))
        × (r.1 ≡ kfree b.addr s')
        × IsSound r.1.log
        × ((a : ℕ) → live a r.1.log ≡ live a []))
    ⊎ ((b : Block) × (s' : Slab) × (kmalloc slab ≡ block b s')
        × (pos 2 ≡ pos 0)
        × (r.0 ≡ none)
        × (r.1 ≡ s')
        × (live b.addr r.1.log ≡ live b.addr [] + 1))
print_lem_example = print_lem printed slab tt
