-- ===== src/Device/Loads.antt =====
-- lkm_device.c: what loading and unloading the module leave behind.
use lkm_sandbox.Base.{
  ℕ, zero, suc, ◌+◌, ◌≡◌, refl, ℤ, pos, negsuc, neg, is_neg, true, false, ◌⊎◌, inl, inr, List, [],
  ◌∷◌, Bool-cases, arith,
}
use lkm_sandbox.Kernel.Ledger.{Event, Resource, acquired, chrdev, entry, held, IsFair, same_refl}
use lkm_sandbox.Device.{
  Device, Answers, proc_file_name, proc_show, registered_major, device_init_sub, proc_init_sub,
  init, exit,
}
use lkm_sandbox.Device.Message.{IsReadable, strncpy-message}

-- A register_chrdev that fails registers nothing.
registered_major_neg :
    (p : ℕ) (rc : ℤ) (ledger : List Event)
    → is_neg rc ≡ true
    → registered_major p rc ledger ≡ ledger
registered_major_neg zero (negsuc e) ledger h = refl
registered_major_neg (suc p) (negsuc e) ledger h = refl
registered_major_neg p (pos m) ledger h = absurd (ground arith)

-- An init returns -1 with nothing registered where register_chrdev fails, -2 with the major number
-- still registered where the file of /proc is not made, and 0 with both registered otherwise; in
-- the last case the message is ready to be read from its start.
pub init_result :
    (w : Answers) (s : Device)
    → (((init w s).0 ≡ neg 1) × (is_neg w.chrdev_rc ≡ true) × ((init w s).1.ledger ≡ s.ledger))
      ⊎ (((init w s).0 ≡ neg 2)
          × (is_neg w.chrdev_rc ≡ false)
          × (w.proc_made ≡ false)
          × ((init w s).1.ledger ≡ registered_major s.param_major_num w.chrdev_rc s.ledger))
      ⊎ (((init w s).0 ≡ pos 0)
          × (is_neg w.chrdev_rc ≡ false)
          × (w.proc_made ≡ true)
          × ((init w s).1.ledger
              ≡ acquired (entry 0 proc_file_name)
                ∷ registered_major s.param_major_num w.chrdev_rc s.ledger)
          × ((init w s).1.message_ptr ≡ 0)
          × IsReadable (init w s).1)
unfolding init device_init_sub proc_init_sub
init_result w s = elim (Bool-cases (is_neg w.chrdev_rc)) [
  | inl bad ↦ inl (
    ground arith,
    bad,
    ground (arith, registered_major_neg s.param_major_num w.chrdev_rc s.ledger bad),
  )
  | inr good ↦ elim (Bool-cases w.proc_made) [
    | inl made ↦ inr (
        inr (
          ground arith,
          good,
          made,
          ground arith,
          ground arith,
          record { filled = ground (arith, strncpy-message); within = ground arith },
        ))
    | inr missing ↦ inr (inl (ground arith, good, missing, ground arith))
  ]
]

-- Asked to pick a major number, and where nothing was taken back before that was not registered, a
-- module that was loaded with success and is then unloaded has registered what was registered
-- before, and has taken back nothing that it did not have.
pub init-exit :
    (w : Answers) (s : Device) {s' : Device}
    → s.param_major_num ≡ 0
    → IsFair s.ledger
    → init w s ≡ (pos 0, s')
    → IsFair (exit s').ledger × ((r : Resource) → held r (exit s').ledger ≡ held r s.ledger)
unfolding init device_init_sub proc_init_sub exit held
init-exit w s dynamic fair loaded =
    ground (arith, same_refl (entry 0 proc_file_name), same_refl (chrdev 0))

-- Asked for a certain major number, and where register_chrdev answers 0 and the file of /proc is
-- made, the module is loaded with success, shows 0 as its major number, and leaves the number
-- registered when it is unloaded.
pub init_explicit :
    (w : Answers) (s : Device) (p : ℕ)
    → s.param_major_num ≡ suc p
    → w.chrdev_rc ≡ pos 0
    → w.proc_made ≡ true
    → (s' : Device) × (init w s ≡ (pos 0, s'))
      × (proc_show s' ≡ (pos 0, pos 0 ∷ []))
      × (held (chrdev (suc p)) (exit s').ledger ≡ held (chrdev (suc p)) s.ledger + 1)
unfolding init device_init_sub proc_init_sub exit held proc_show
init_explicit w s p asked given made =
    ((init w s).1, ground arith, ground arith, ground (arith, same_refl (chrdev (suc p))))
