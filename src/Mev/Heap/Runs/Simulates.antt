-- ===== src/Mev/Heap/Runs/Simulates.antt =====
-- lkm_mev.c: a sequence of calls over the kernel's memory, beside the same one over the list.
use lkm_sandbox.Base.{ℕ, ℤ, ◌≡◌, refl, some, List, [], ◌∷◌, All}
use lkm_sandbox.Kernel.Uaccess.{Uaccess, IsLawful}
use lkm_sandbox.Mev.Types
use lkm_sandbox.Mev.Heap.{Cells, Container}
use lkm_sandbox.Mev.Heap.Io.Agrees.{beside}
use lkm_sandbox.Mev.Heap.Runs.{Request, Fits, list_run, heap_run}
use lkm_sandbox.Mev.Heap.Runs.Calls.{Between, call_refines}

-- On a valid device whose semaphore is free, which stands in the kernel's memory as its chain says,
-- and where kmalloc gives memory that nobody holds: any sequence of opens, and of reads and writes
-- below 4 gigabytes, one after the other and not interrupted, does not fault in the
-- kernel's memory. Each call has the result and the position that it has over the list, and at the
-- end the allocator and the user's memory are those of the run over the list, the device is valid,
-- its semaphore is free, it stands in memory as its chain says, and what kmalloc still has to give
-- is memory that nobody holds.
pub run_refines :
    (U : Uaccess)
    → IsLawful U
    → (qs : List Request) → All Fits qs
    → (c : Container) (cells : Cells) (s : lkm_sandbox.Mev.Types.State U) → Between U c cells s
    → (outs : List (ℤ × ℕ)) × (s' : lkm_sandbox.Mev.Types.State U) × (c' : Container)
      × (cells' : Cells) × (list_run U qs s ≡ some (outs, s'))
      × (heap_run U qs (beside U c cells s) ≡ some (outs, beside U c' cells' s'))
      × Between U c' cells' s'
unfolding list_run heap_run
run_refines U L [] fits c cells s b = ([], s, c, cells, refl, refl, b)
run_refines U L (q ∷ qs) (fit, fits) c cells s b =
    let (r, c', cells', e, e', b') = call_refines U L q fit c cells s b in
    let (outs, s', c'', cells'', d, d', b'') = run_refines U L qs fits c' cells' r.state b' in
    ((r.ret, r.f_pos) ∷ outs, s', c'', cells'', rw (e, d) refl, rw (e', d') refl, b'')
