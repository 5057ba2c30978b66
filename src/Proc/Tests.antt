-- ===== src/Proc/Tests.antt =====
-- Runs of lkm_proc.c.
use lkm_sandbox.Base.{◌≡◌, refl, pos, true, false, [], ◌∷◌, ◌++◌}
use lkm_sandbox.Kernel.Ledger.{acquired, released, entry}
use lkm_sandbox.Proc.{message, show, init, exit}

shows : show [] ≡ (pos 0, message ++ 10 ∷ [])
unfolding show
shows = refl

loads_and_unloads : exit (init true []).1 ≡ released (entry 0 1) ∷ acquired (entry 0 1) ∷ []
unfolding init exit
loads_and_unloads = refl

unloads_what_was_not_made : exit (init false []).1 ≡ released (entry 0 1) ∷ []
unfolding init exit
unloads_what_was_not_made = refl
