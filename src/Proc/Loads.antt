-- ===== src/Proc/Loads.antt =====
-- lkm_proc.c: what loading and unloading the module leave behind.
use lkm_sandbox.Base.{◌≡◌, refl, ◌↔◌, Bool, true, false, List, arith}
use lkm_sandbox.Kernel.Ledger.{Event, Resource, entry, held, IsFair, same_refl}
use lkm_sandbox.Proc.{file_name, init, exit}

-- Where no other file of the name exists, unloading the module takes back only what it has if and
-- only if its file was made, and then leaves what was registered before.
pub exit-IsFair :
    (made : Bool) (ledger : List Event)
    → IsFair ledger
    → held (entry 0 file_name) ledger ≡ 0
    → (IsFair (exit (init made ledger).1) ↔ (made ≡ true))
      × (made ≡ true → (r : Resource) → held r (exit (init made ledger).1) ≡ held r ledger)
unfolding init exit held
exit-IsFair true ledger fair free =
    ((λ _. refl, λ _. ground (arith, same_refl (entry 0 file_name))), λ _ r. ground arith)
exit-IsFair false ledger fair free =
    ((λ h. absurd (omega (arith, h.0)), λ e. absurd (ground arith)), λ e. absurd (ground arith))
