-- ===== src/Mem/Loads.antt =====
-- lkm_mem.c: what is left when the module was loaded and unloaded.
use lkm_sandbox.Base.{ℕ, ◌≡◌, refl, List, [], ◌∷◌, arith}
use lkm_sandbox.Kernel.Ledger.{Resource, entry, held, IsFair}
use lkm_sandbox.Kernel.Batches.{create_all, remove_all, create-remove}
use lkm_sandbox.Mem.{
  Mem, Answers, lkm_name, mem_name, swap_name, buffer_name, free_name, shared_name, total_name,
  proc_mkdir, proc_create_single_data, remove_proc_entry, init, exit,
}

-- The entries in the order in which init makes them, and in that in which exit removes them.
abbrev made : Answers → List (ℕ × Resource)
made w =
    (w.lkm, entry 0 lkm_name)
    ∷ (w.mem, entry w.lkm mem_name)
    ∷ (w.buffer, entry w.mem buffer_name)
    ∷ (w.free, entry w.mem free_name)
    ∷ (w.shared, entry w.mem shared_name)
    ∷ (w.total, entry w.mem total_name)
    ∷ (w.swap, entry w.lkm swap_name)
    ∷ (w.swap_free, entry w.swap free_name)
    ∷ (w.swap_total, entry w.swap total_name)
    ∷ []

abbrev unmade : Answers → List (ℕ × Resource)
unmade w =
    (w.buffer, entry w.mem buffer_name)
    ∷ (w.free, entry w.mem free_name)
    ∷ (w.shared, entry w.mem shared_name)
    ∷ (w.total, entry w.mem total_name)
    ∷ (w.mem, entry w.lkm mem_name)
    ∷ (w.swap_free, entry w.swap free_name)
    ∷ (w.swap_total, entry w.swap total_name)
    ∷ (w.swap, entry w.lkm swap_name)
    ∷ (w.lkm, entry 0 lkm_name)
    ∷ []

exit-init_ledger :
    (w : Answers) (s : Mem)
    → (exit (init w s).1).ledger ≡ remove_all (unmade w) (create_all (made w) s.ledger)
unfolding init exit proc_mkdir proc_create_single_data remove_proc_entry
exit-init_ledger w s = refl

-- Where nothing was taken back before that was not registered: whichever of the calls that make
-- directories and files fail while the module is loaded, unloading it takes back what was made and
-- nothing else.
pub load-unload_all :
    (w : Answers) (s : Mem)
    → IsFair s.ledger
    → IsFair (exit (init w s).1).ledger
      × ((r : Resource) → held r (exit (init w s).1).ledger ≡ held r s.ledger)
load-unload_all w s fair =
    rw (exit-init_ledger w s) (create-remove (made w) (unmade w) s.ledger (λ r. omega arith) fair)
