-- ===== src/Mev/Setup.antt =====
-- lkm_mev.c: loading and unloading the module, and the operations of the device that move no data.
-- What the kernel keeps for the module is a part of the state, so that leaks are statements.
pub mod Lifecycle
pub mod Open
mod Tests
use lkm_sandbox.Base.{
  ℕ, ◌%◌, ℤ, Bool, true, false, Option, none, some, List, ◌∷◌, ◌>>=◌, ◌==◌, if◌then◌else◌, pos, neg,
  is_neg,
}
use lkm_sandbox.Kernel.Errno.{enomem, efault}
use lkm_sandbox.Kernel.Ledger.{Event, Resource, acquired, released, region, cdev}
use lkm_sandbox.Kernel.Slab.{Slab, null, block, kmalloc, kfree}
use lkm_sandbox.Mev.Types.{Container}
use lkm_sandbox.Mev.Trim.{trim}

-- `mev_device` and `dev_container` with its address, the calls that register something with the
-- kernel, and the allocator.
pub record Module : Type 0 where
  pub device : ℕ
  pub container : Option (ℕ × Container)
  pub ledger : List Event
  pub slab : Slab

-- What the kernel answers while the module is loaded: alloc_chrdev_region with the device number,
-- the stale words that stand where the container is put, and cdev_add.
pub record Answers : Type 0 where
  pub region_rc : ℤ
  pub device : ℕ
  pub stale : Container
  pub cdev_rc : ℤ

-- lkm_mev_setup_cdev: the semaphore is initialised only after the cdev was added, which has the
-- address of the container here.
unfoldable pub setup_cdev : ℤ → ℕ → Container → List Event → ℤ × Container × List Event
setup_cdev rc addr c ledger =
    if is_neg rc
    then (rc, c, ledger)
    else (pos 0, record c { sem = 1 }, acquired (cdev addr) ∷ ledger)

unfoldable pub init : Answers → Module → ℤ × Module
init w m =
    if is_neg w.region_rc
    then (w.region_rc, m)
    else let ledger = acquired (region w.device 1) ∷ m.ledger in
      elim (kmalloc m.slab) [
        | null s ↦
            (neg enomem, record { device = w.device; container = none; ledger = ledger; slab = s })
        | block b s ↦
            let (rc, c, ledger') = setup_cdev w.cdev_rc b.addr w.stale ledger in
            let m' : Module = record {
              device = w.device;
              container = some (b.addr, c);
              ledger = ledger';
              slab = s;
            } in
            if is_neg rc then (rc, m') else (pos 0, m')
      ]

-- The branch for a container that is not NULL; the pointer itself is left as it is.
unfoldable pub drop_container : Option (ℕ × Container) → Module → Option Module
drop_container none m = some m
drop_container (some (addr, c)) m = do
  (c', s) ← trim c m.slab
  some (record m {
    container = some (addr, c');
    ledger = released (cdev addr) ∷ m.ledger;
    slab = kfree addr s;
  })

unfoldable pub exit : Module → Option Module
exit m = do
  m' ← drop_container m.container m
  some (
      if m'.device == 0
      then m'
      else record m' { ledger = released (region m'.device 1) ∷ m'.ledger })

-- mev_io_is_wronly: O_ACCMODE is 3, and O_WRONLY is 1.
unfoldable pub io_is_wronly : ℕ → Bool
io_is_wronly f_flags = f_flags % 4 == 1

-- mev_open; `container` is what container_of finds, which becomes the file's private data.
unfoldable pub open_device : Option Container → ℕ → Slab → Option (ℤ × Option Container × Slab)
open_device none f_flags s = some (neg efault, none, s)
open_device (some c) f_flags s =
    if io_is_wronly f_flags
    then (trim c s >>= λ (c', s'). some (pos 0, some c', s'))
    else some (pos 0, some c, s)

-- mev_release, mev_ioctl and mev_llseek do nothing yet.
unfoldable pub release : ℤ
release = pos 0

unfoldable pub ioctl : ℕ → ℕ → ℤ
ioctl cmd arg = pos 0

unfoldable pub llseek : ℕ → ℕ → ℕ
llseek offset whence = 0
