-- ===== src/Device/Opens.antt =====
-- lkm_device.c: opening, reading and closing the device, in any order.
use lkm_sandbox.Base.{
  ℕ, suc, ◌≤◌, ◌≡◌, refl, ℤ, pos, neg, Bool, true, false, ◌⊎◌, inl, inr, some, ◌∷◌, arith, ap, sym,
  ◌∙◌,
}
use mathlib.Core.Path.{subst}
use native.Mathlib.Decide.{ℕ_discrete}
use lkm_sandbox.Kernel.Errno.{ebusy}
use lkm_sandbox.Kernel.Ledger.{Resource, released, module_ref, held, IsFair}
use lkm_sandbox.Kernel.PutUser.{PutUser, IsLawful}
use lkm_sandbox.Device.{Device, open_device, release, read}
use lkm_sandbox.Device.Message.{IsReadable}
use lkm_sandbox.Device.Reads.{read_lem}

-- The device, and how many files are open on it.
pub record System : Type 0 where
  pub device : Device
  pub files : ℕ

-- One call after the other; the kernel releases only what is open.
pub data Step (P : PutUser) : System → System → Type 0 where
  opens :
      (d : Device) (n : ℕ) (got : Bool) (d' : Device)
      → open_device got d ≡ (pos 0, d')
      → Step P (record { device = d; files = n }) (record { device = d'; files = suc n })
  refused :
      (d : Device) (n : ℕ) (got : Bool) (e : ℕ) (d' : Device)
      → open_device got d ≡ (neg (suc e), d')
      → Step P (record { device = d; files = n }) (record { device = d'; files = n })
  releases :
      (d : Device) (n : ℕ)
      → Step P (record { device = d; files = suc n }) (record { device = (release d).1; files = n })
  reads :
      (d : Device) (n buffer len : ℕ) (mem mem' : P.Memory) (ret : ℤ) (d' : Device)
      → read P buffer len d mem ≡ some (ret, d', mem')
      → Step P (record { device = d; files = n }) (record { device = d'; files = n })

pub data Reach (P : PutUser) (s : System) : System → Type 0 where
  here : Reach P s s
  next : {t u : System} → Reach P s t → Step P t u → Reach P s u

-- The count is that of the open files, of which there is at most one.
pub record IsCounted (s : System) : Type 0 where
  pub count : s.device.device_open_count ≡ pos s.files
  pub single : s.files ≤ 1
  pub readable : IsReadable s.device

module _ (P : PutUser) (L : IsLawful P) where
  read_keeps :
      (d : Device) (buffer len : ℕ) (mem : P.Memory) {ret : ℤ} {d' : Device} {mem' : P.Memory}
      → IsReadable d
      → read P buffer len d mem ≡ some (ret, d', mem')
      → (d'.device_open_count ≡ d.device_open_count) × IsReadable d'
  read_keeps d buffer len mem {d' = d'} v e =
      let (j, ptr', mem'', e', v', _) = read_lem P L buffer len d mem v in
      let same : record d { message_ptr = ptr' } ≡ d' = ground arith in
      (ap (λ (x : Device). x.device_open_count) (sym same), subst IsReadable same v')

  Step-IsCounted : {s t : System} → Step P s t → IsCounted s → IsCounted t
  unfolding open_device release
  Step-IsCounted (opens d n got d' e) v = record {
    count = ground (arith, v.count);
    single = ground (arith, v.count, v.single);
    readable = ground (arith, v.readable);
  }
  Step-IsCounted (refused d n got k d' e) v = record {
    count = ground (arith, v.count);
    single = v.single;
    readable = ground (arith, v.readable);
  }
  Step-IsCounted (releases d n) v = record {
    count = rw (v.count) refl;
    single = omega (arith, v.single);
    readable = record { filled = v.readable.filled; within = v.readable.within };
  }
  Step-IsCounted (reads d n buffer len mem mem' ret d' e) v =
      let (counts, v') = read_keeps d buffer len mem v.readable e in
      record { count = counts ∙ v.count; single = v.single; readable = v' }

  Reach-IsCounted : {s t : System} → IsCounted s → Reach P s t → IsCounted t
  Reach-IsCounted v here = v
  Reach-IsCounted v (next r step) = Step-IsCounted step (Reach-IsCounted v r)

  -- Whatever calls are made one after the other, from a state on in which the count is that of the
  -- open files, at most one, and the message can be read: this stays so, and the next open succeeds
  -- where no file is open, and fails with -EBUSY and changes nothing where one is.
  pub open_exclusive :
      {s t : System} (got : Bool)
      → IsCounted s
      → Reach P s t
      → IsCounted t
        × (((t.files ≡ 0) × ((open_device got t.device).0 ≡ pos 0))
            ⊎ ((t.files ≡ 1) × (open_device got t.device ≡ (neg ebusy, t.device))))
  unfolding open_device
  open_exclusive {t = t} got v r =
      let v' = Reach-IsCounted v r in
      (
        v',
        elim (ℕ_discrete t.files 0) [
          | yes closed ↦ inl (closed, ground (arith, v'.count))
          | no opened ↦ inr (omega (arith, v'.single), ground (arith, v'.count, v'.single))
        ],
      )

-- On a device that is not open, and where nothing was taken back before that was not registered, an
-- open whose try_module_get succeeds, and the release after it, leave the count and what is
-- registered as they were. Where try_module_get fails, the open succeeds all the same, and the
-- release gives back a reference that was not taken.
pub open-release :
    (s : Device)
    → s.device_open_count ≡ pos 0
    → IsFair s.ledger
    → let s' = (release (open_device true s).1).1 in
      let s'' = (release (open_device false s).1).1 in
      ((s'.device_open_count ≡ s.device_open_count)
        × IsFair s'.ledger
        × ((r : Resource) → held r s'.ledger ≡ held r s.ledger))
      × ((open_device false s).0 ≡ pos 0)
      × (s''.ledger ≡ released module_ref ∷ s.ledger)
unfolding open_device release held
open-release s closed fair =
    ((ground arith, ground arith, λ r. ground arith), ground arith, ground arith)
