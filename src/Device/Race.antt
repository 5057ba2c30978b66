-- ===== src/Device/Race.antt =====
-- lkm_device.c: device_open tests the count and increments it later, with nothing that keeps two
-- callers apart.
use lkm_sandbox.Base.{◌≡◌, refl, pos, neg, is_pos, inc, Bool, true, false, ◌∷◌, if◌then◌else◌}
use lkm_sandbox.Kernel.Errno.{ebusy}
use lkm_sandbox.Kernel.Ledger.{acquired, module_ref}
use lkm_sandbox.Device.{Device, open_device}

-- The test at the start of device_open.
unfoldable pub busy : Device → Bool
busy d = is_pos d.device_open_count

-- What device_open does after the test; `got` is what try_module_get answers.
unfoldable pub enter : Bool → Device → Device
enter got d = record d {
  device_open_count = inc d.device_open_count;
  ledger = if got then acquired module_ref ∷ d.ledger else d.ledger;
}

-- Without a second caller the two parts are device_open.
open_device-enter :
    (got : Bool) (d : Device)
    → open_device got d ≡ (if busy d then (neg ebusy, d) else (pos 0, enter got d))
unfolding open_device busy enter
open_device-enter got d = refl

-- How far a caller has come.
pub data Stage : Type 0 where
  called : Stage
  tested : Stage
  opened : Stage
  refused : Stage

-- The device and its two callers.
pub record Callers : Type 0 where
  pub device : Device
  pub first : Stage
  pub second : Stage

-- One step of one caller: the test, or what follows it.
pub data Advance (got : Bool) (d : Device) : Stage → Stage → Device → Type 0 where
  passes : busy d ≡ false → Advance got d called tested d
  fails : busy d ≡ true → Advance got d called refused d
  enters : Advance got d tested opened (enter got d)

pub data Move (got : Bool) : Callers → Callers → Type 0 where
  moves_first :
      {d d' : Device} {x y z : Stage}
      → Advance got d x y d'
      → Move got
          (record { device = d; first = x; second = z })
          (record { device = d'; first = y; second = z })
  moves_second :
      {d d' : Device} {x y z : Stage}
      → Advance got d x y d'
      → Move got
          (record { device = d; first = z; second = x })
          (record { device = d'; first = z; second = y })

pub data Moves (got : Bool) (s : Callers) : Callers → Type 0 where
  stay : Moves got s s
  then_move : {t u : Callers} → Moves got s t → Move got t u → Moves got s u

-- Two callers of a device that is not open can both pass the test and both open it; the count is
-- then 2.
pub both_open :
    (got : Bool) (d : Device)
    → d.device_open_count ≡ pos 0
    → (d' : Device) × Moves got
        (record { device = d; first = called; second = called })
        (record { device = d'; first = opened; second = opened })
      × (d'.device_open_count ≡ pos 2)
unfolding busy enter
both_open got d closed =
    let free : busy d ≡ false = rw closed refl in
    (
      enter got (enter got d),
      then_move
          (then_move
            (then_move (then_move stay (moves_first (passes free))) (moves_second (passes free)))
            (moves_first enters))
          (moves_second enters),
      rw closed refl,
    )
