-- ===== src/Mev/Setup/Lifecycle.antt =====
-- lkm_mev.c: what loading and unloading leave behind.
use lkm_sandbox.Base.{
  ℕ, ◌+◌, ◌≡◌, ◌≢◌, inl, inr, true, false, some, List, [], ◌∷◌, pos, is_neg, arith,
}
use lkm_sandbox.Kernel.Ledger.{
  Event, Resource, acquired, released, region, cdev, IsFair, held, same_refl,
}
use lkm_sandbox.Kernel.Slab.{one_if, live, kfree, kmalloc-cases}
use lkm_sandbox.Mev.Types.{Container, ChainOf}
use lkm_sandbox.Mev.Held.{held as owned, Owns}
use lkm_sandbox.Mev.Trim.Frees.{trim-Owns}
use lkm_sandbox.Mev.Setup.{Module, Answers, setup_cdev, init, drop_container, exit}

-- A loaded module: what it has registered is its region and its cdev and what others had, and what
-- is live is the container, its chain, and what others hold.
pub record IsLoaded (before : List Event) (others : ℕ → ℕ) (m : Module) (addr : ℕ) (c : Container)
    : Type 0 where
  pub there : m.container ≡ some (addr, c)
  pub device_set : m.device ≢ 0
  pub registered : m.ledger ≡ acquired (cdev addr) ∷ acquired (region m.device 1) ∷ before
  pub shaped : ChainOf c.quantum c.qset c.chain
  pub owns : Owns (λ a. one_if a addr + others a) c.chain m.slab.log

-- Unloading a loaded module, before which nothing was taken back that was not registered, does not
-- fault, frees the container and all that its chain holds and nothing else, and takes back the cdev
-- and the region of device numbers and nothing else.
pub exit_lem :
    (before : List Event) (others : ℕ → ℕ) (m : Module) (addr : ℕ) (c : Container)
    → IsFair before
    → IsLoaded before others m addr c
    → (m' : Module) × (exit m ≡ some m')
      × IsFair m'.ledger
      × ((r : Resource) → held r m'.ledger ≡ held r before)
      × Owns others [] m'.slab.log
unfolding exit drop_container live owned held
exit_lem before others m addr c fair l =
    let (s', e, o) = trim-Owns (λ a. one_if a addr + others a) c m.slab l.shaped l.owns in
    let ledger =
      released (region m.device 1)
      ∷ released (cdev addr)
      ∷ acquired (cdev addr)
      ∷ acquired (region m.device 1)
      ∷ before in
    (
      record m {
        container = some (addr, record c { chain = []; quantum = 4000; qset = 1000; size = 0 });
        ledger = ledger;
        slab = kfree addr s';
      },
      ground arith,
      ground (arith, same_refl (cdev addr), same_refl (region m.device 1)),
      λ r. ground arith,
      record {
        sound = (ground (arith, o.accounted addr), o.sound);
        accounted = λ a. omega (arith, o.accounted a);
      },
    )

-- Where memory is accounted for and the device number is not 0, an init that returns 0 leaves a
-- loaded module, if the stale memory of the container happens to hold a NULL pointer as its chain.
pub init-IsLoaded :
    (others : ℕ → ℕ) (w : Answers) (m : Module) {m' : Module}
    → w.device ≢ 0
    → w.stale.chain ≡ []
    → Owns others [] m.slab.log
    → init w m ≡ (pos 0, m')
    → (addr : ℕ) × IsLoaded m.ledger others m' addr (record w.stale { sem = 1 })
unfolding init setup_cdev live owned
init-IsLoaded others w m ne empty o loaded = elim (kmalloc-cases m.slab) [
  | inl (s, e, _) ↦ absurd (ground arith)
  | inr (b, s, e, el) ↦ (
    b.addr,
    record {
      there = ground arith;
      device_set = ground arith;
      registered = ground arith;
      shaped = rw empty tt;
      owns = record { sound = ground arith; accounted = λ a. ground (arith, o.accounted a) };
    },
  )
]

-- An init that fails takes back nothing: a region that alloc_chrdev_region has registered stays,
-- for the kernel does not call the exit function of a module whose init has failed.
pub init_leaks :
    (w : Answers) (m : Module)
    → is_neg w.region_rc ≡ false
    → is_neg (init w m).0 ≡ true
    → (init w m).1.ledger ≡ acquired (region w.device 1) ∷ m.ledger
unfolding init setup_cdev
init_leaks w m r c = ground arith
