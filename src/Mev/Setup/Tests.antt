-- ===== src/Mev/Setup/Tests.antt =====
-- The theorems on loading, opening and unloading lkm_mev.c at concrete states.
use lkm_sandbox.Base.{ℕ, ◌≡◌, refl, none, some, [], ◌∷◌, pos, neg, arith}
use lkm_sandbox.Kernel.Ledger.{Resource, acquired, region, cdev, IsFair, held}
use lkm_sandbox.Kernel.Slab.{Call, live}
use lkm_sandbox.Kernel.Flat.{flat, flat-IsLawful}
use lkm_sandbox.Mev.Types.{Container, State, Io}
use lkm_sandbox.Mev.Held.{held as owned, Owns}
use lkm_sandbox.Mev.Trim.{free_chain, trim}
use lkm_sandbox.Mev.Read.{down, read_locked}
use lkm_sandbox.Mev.Callers.{Request, reading, body, enters, leaves, here, next}
use lkm_sandbox.Mev.Lifetime.{lifetime}
use lkm_sandbox.Mev.Setup.{Module, Answers, setup_cdev, init, exit, io_is_wronly, open_device}

-- Memory that happens to be cleared stands where the container is put.
abbrev zeros : Container
zeros = record { chain = []; quantum = 0; qset = 0; size = 0; sem = 0 }

abbrev good : Answers
good = record { region_rc = pos 0; device = 261; stale = zeros; cdev_rc = pos 0 }

abbrev unloaded : Module
unloaded = record {
  device = 0;
  container = none;
  ledger = [];
  slab = record { answers = some (record { addr = 7; stale = λ i. 0 }) ∷ []; log = [] };
}

abbrev loaded : Module
loaded = record {
  device = 261;
  container = some (7, record zeros { sem = 1 });
  ledger = acquired (cdev 7) ∷ acquired (region 261 1) ∷ [];
  slab = record { answers = []; log = Call.allocated 7 ∷ [] };
}

abbrev nobody : ℕ → ℕ
nobody a = 0

init_runs : init good unloaded ≡ (pos 0, loaded)
unfolding init setup_cdev
init_runs = refl

unloaded-Owns : Owns nobody [] unloaded.slab.log
unfolding live owned
unloaded-Owns = record { sound = tt; accounted = λ a. refl }

fails : (init (record good { cdev_rc = neg 12 }) unloaded).0 ≡ neg 12
unfolding init setup_cdev
fails = refl

abbrev reset : Container
reset = record { chain = []; quantum = 4000; qset = 1000; size = 0; sem = 1 }

-- The module is loaded and opened, a read of eight bytes at 2 comes and goes, and it is unloaded.
abbrev fresh : State flat
fresh = record { dev = reset; slab = loaded.slab; user = λ a. a }

abbrev reads : Request
reads = reading 100 8 2

abbrev at_end : Io flat
at_end = record { ret = pos 0; f_pos = 2; state = record fresh { dev = down reset } }

first_opened :
    open_device (some (record zeros { sem = 1 })) 1 loaded.slab
    ≡ some (pos 0, some reset, loaded.slab)
unfolding open_device io_is_wronly trim free_chain
first_opened = refl

reads_nothing : body flat reads (record fresh { dev = down reset }) ≡ some at_end
unfolding read_locked
reads_nothing = refl

lifetime_example :
    (m'' : Module) × (exit (record loaded { container = some (7, reset) }) ≡ some m'')
    × IsFair m''.ledger
    × ((r : Resource) → held r m''.ledger ≡ held r [])
    × Owns nobody [] m''.slab.log
lifetime_example =
    lifetime flat flat-IsLawful nobody good unloaded loaded 7 reset 1 loaded.slab (λ a. a)
      (record { state = fresh; inside = [] }) (omega arith) refl tt unloaded-Owns init_runs refl
      refl first_opened
      (next (next here (enters fresh [] reads (omega arith) (omega arith))) (
        leaves (record fresh { dev = down reset }) (reads ∷ []) [] [] reads at_end refl
          reads_nothing))
      refl
