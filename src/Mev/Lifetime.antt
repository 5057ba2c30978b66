-- ===== src/Mev/Lifetime.antt =====
-- lkm_mev.c: from loading the module to unloading it.
use lkm_sandbox.Base.{ℕ, ◌+◌, ◌%◌, ◌≡◌, ◌≢◌, refl, sym, ap, ◌∙◌, pos, Option, some, [], arith}
use mathlib.Core.Path.{subst}
use lkm_sandbox.Kernel.Ledger.{Resource, held, IsFair}
use lkm_sandbox.Kernel.Slab.{Slab, one_if}
use lkm_sandbox.Kernel.Uaccess.{Uaccess, IsLawful}
use lkm_sandbox.Mev.Types.{Container, IsValid}
use lkm_sandbox.Mev.Held.{Owns}
use lkm_sandbox.Mev.Trim.{trim}
use lkm_sandbox.Mev.Trim.Frees.{trim-Owns, trim-IsValid}
use lkm_sandbox.Mev.Setup.{Module, Answers, init, exit, io_is_wronly, open_device}
use lkm_sandbox.Mev.Setup.Open.{emptied}
use lkm_sandbox.Mev.Setup.Lifecycle.{init-IsLoaded, exit_lem}
use lkm_sandbox.Mev.Callers.{System, Reach, IsSafe}
use lkm_sandbox.Mev.Callers.Exclusive.{opened_as, Reach-IsSafe}

same_place :
    (a b : ℕ) (c : Container) → ◌≡◌ {A = Option (ℕ × Container)} (some (a, c)) (some (b, c)) → a ≡ b
same_place a b c h = ground arith

-- Opening for writing only is trimming, whatever the container holds.
open_wronly :
    (c c' : Container) (f_flags : ℕ) (s s' : Slab)
    → f_flags % 4 ≡ 1
    → trim c s ≡ some (c', s')
    → open_device (some c) f_flags s ≡ some (pos 0, some c', s')
unfolding open_device io_is_wronly
open_wronly c c' f_flags s s' wronly e = ground arith

module _ (U : Uaccess) (L : IsLawful U) (others : ℕ → ℕ) where
  -- The first open for writing only makes the container of a loaded module safe to be used.
  first_open :
      (c₀ c : Container) (f_flags : ℕ) (s slab : Slab) (user : U.Memory)
      → c₀.chain ≡ []
      → c₀.sem ≡ 1
      → Owns others c₀.chain s.log
      → f_flags % 4 ≡ 1
      → open_device (some c₀) f_flags s ≡ some (pos 0, some c, slab)
      → IsSafe U others
          (record { state = record { dev = c; slab = slab; user = user }; inside = [] })
  first_open c₀ c f_flags s slab user empty one o wronly e =
      let (s', t, owns) = trim-Owns others c₀ s (rw empty tt) o in
      let (same_dev, same_slab) =
        opened_as (emptied c₀) c s' slab
          (sym (open_wronly c₀ (emptied c₀) f_flags s s' wronly t) ∙ e) in
      record {
        valid = subst IsValid same_dev (trim-IsValid c₀ s t);
        owns = rw (sym same_slab, ap (λ (x : Container). x.chain) (sym same_dev)) owns;
        counted = ap (λ (x : Container). x.sem + 0) (sym same_dev) ∙ omega arith;
        fit = tt;
      }

-- Where memory is accounted for, nothing was taken back before that was not registered, the number
-- of the device that alloc_chrdev_region gives is not 0 (an exit takes 0 for a device that was never
-- registered), and the memory of the container happens to hold a NULL pointer as its chain: after an init that returns 0
-- and a first open for writing only, whatever reads and writes below 4 gigabytes run beside each
-- other, and opens while none is under way, the exit that follows when all have ended does not
-- fault, frees all that was allocated and nothing that others hold, and leaves registered what was
-- registered before.
pub lifetime :
    (U : Uaccess) (L : IsLawful U) (others : ℕ → ℕ) (w : Answers) (m m' : Module) (addr : ℕ)
    (c : Container) (f_flags : ℕ) (slab : Slab) (user : U.Memory) (y : System U)
    → w.device ≢ 0
    → w.stale.chain ≡ []
    → IsFair m.ledger
    → Owns others [] m.slab.log
    → init w m ≡ (pos 0, m')
    → m'.container ≡ some (addr, record w.stale { sem = 1 })
    → f_flags % 4 ≡ 1
    → open_device (some (record w.stale { sem = 1 })) f_flags m'.slab ≡ some (pos 0, some c, slab)
    → Reach U (record { state = record { dev = c; slab = slab; user = user }; inside = [] }) y
    → y.inside ≡ []
    → (m'' : Module) × (exit
          (record m' { container = some (addr, y.state.dev); slab = y.state.slab })
        ≡ some m'')
      × IsFair m''.ledger
      × ((r : Resource) → held r m''.ledger ≡ held r m.ledger)
      × Owns others [] m''.slab.log
lifetime U L others w m m' addr c f_flags slab user y set empty fair o loaded there wronly opened
      run ended =
    let (addr', l) = init-IsLoaded others w m set empty o loaded in
    let same : addr' ≡ addr = same_place addr' addr _ (sym l.there ∙ there) in
    let owns : Owns (λ a. one_if a addr + others a) w.stale.chain m'.slab.log =
      subst (λ (p : ℕ). Owns (λ a. one_if a p + others a) w.stale.chain m'.slab.log) same l.owns in
    let safe =
      first_open U L (λ a. one_if a addr + others a) (record w.stale { sem = 1 }) c f_flags m'.slab
        slab user empty refl owns wronly opened in
    let done = Reach-IsSafe U L (λ a. one_if a addr + others a) safe run in
    exit_lem m.ledger others
      (record m' { container = some (addr, y.state.dev); slab = y.state.slab }) addr y.state.dev
      fair
      (record {
        there = refl;
        device_set = l.device_set;
        registered = rw (sym same) l.registered;
        shaped = done.valid.shaped;
        owns = done.owns;
      })
