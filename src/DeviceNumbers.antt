-- ===== src/DeviceNumbers.antt =====
-- lkm_device_numbers.c: one region of device numbers that the kernel picks, and one that the module
-- picks.
pub mod Loads
mod Tests
use lkm_sandbox.Base.{ℕ, ◌+◌, ◌*◌, ◌/◌, ◌%◌, ◌^◌, ℤ, pos, is_neg, List, ◌∷◌, ◌==◌, if◌then◌else◌}
use lkm_sandbox.Kernel.DevT.{DevT}
use lkm_sandbox.Kernel.Ledger.{Event, acquired, released, region}

abbrev pub dynamic_dev_count : ℕ
dynamic_dev_count = 1

abbrev pub static_dev_count : ℕ
static_dev_count = 1

abbrev pub static_dev_major : ℕ
static_dev_major = 300

abbrev pub static_dev_minor : ℕ
static_dev_minor = 0

-- The static variables, what was registered, and the pairs of numbers that were printed.
pub record Numbers : Type 0 where
  pub ddev : ℕ
  pub sdev : ℕ
  pub ledger : List Event
  pub printed : List (ℕ × ℕ)

-- What the kernel answers: alloc_chrdev_region, with the number, and register_chrdev_region.
pub record Answers : Type 0 where
  pub dynamic_rc : ℤ
  pub device : ℕ
  pub static_rc : ℤ

module _ (T : DevT) where
  -- lkm_device_numbers_print
  unfoldable pub print : ℕ → Numbers → Numbers
  print dev s = record s { printed = (T.major dev, T.minor dev) ∷ s.printed }

  unfoldable pub init : Answers → Numbers → ℤ × Numbers
  init w s =
      if is_neg w.dynamic_rc
      then (w.dynamic_rc, s)
      else let s₁ = print w.device (record s {
        ddev = w.device;
        ledger = acquired (region w.device dynamic_dev_count) ∷ s.ledger;
      }) in
        let sdev = T.mkdev static_dev_major static_dev_minor in
        let s₂ = record s₁ { sdev = sdev } in
        if is_neg w.static_rc then (w.static_rc, s₂) else (
          pos 0,
          print sdev (record s₂ { ledger = acquired (region sdev static_dev_count) ∷ s₂.ledger }),
        )

-- A number that is 0 was never set.
abbrev pub unregister : ℕ → ℕ → List Event → List Event
unregister dev count ledger = if dev == 0 then ledger else released (region dev count) ∷ ledger

unfoldable pub exit : Numbers → Numbers
exit s = record s {
  ledger = unregister s.sdev static_dev_count (unregister s.ddev dynamic_dev_count s.ledger);
}
