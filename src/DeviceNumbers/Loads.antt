-- ===== src/DeviceNumbers/Loads.antt =====
-- lkm_device_numbers.c: what loading and unloading the module leave behind.
use lkm_sandbox.Base.{◌≡◌, ◌≢◌, pos, is_neg, true, false, ◌⊎◌, inl, inr, ◌∷◌, Bool-cases, arith}
use lkm_sandbox.Kernel.Ledger.{Resource, acquired, region, held, IsFair, same_refl}
use lkm_sandbox.Kernel.DevT.{DevT, IsLawful}
use lkm_sandbox.DeviceNumbers.{Numbers, Answers, print, init, exit}

module _ (T : DevT) (L : IsLawful T) where
  -- An init returns the error of alloc_chrdev_region with nothing registered, or the error of
  -- register_chrdev_region with the region that the kernel has picked still registered, or 0 with
  -- both registered, and with both pairs of major and minor number printed.
  pub load_result :
      (w : Answers) (s : Numbers)
      → ((is_neg w.dynamic_rc ≡ true) × (init T w s ≡ (w.dynamic_rc, s)))
        ⊎ ((is_neg w.dynamic_rc ≡ false)
            × (is_neg w.static_rc ≡ true)
            × ((init T w s).0 ≡ w.static_rc)
            × ((init T w s).1.ledger ≡ acquired (region w.device 1) ∷ s.ledger))
        ⊎ ((is_neg w.dynamic_rc ≡ false)
            × (is_neg w.static_rc ≡ false)
            × ((init T w s).0 ≡ pos 0)
            × ((init T w s).1.ledger
                ≡ acquired (region (T.mkdev 300 0) 1) ∷ acquired (region w.device 1) ∷ s.ledger)
            × ((init T w s).1.printed
                ≡ (300, 0) ∷ (T.major w.device, T.minor w.device) ∷ s.printed))
  unfolding init print
  load_result w s =
      let a = L.major-mkdev 300 0 (omega arith) (omega arith) in
      let b = L.minor-mkdev 300 0 (omega arith) (omega arith) in
      elim (Bool-cases (is_neg w.dynamic_rc)) [
        | inl bad ↦ inl (bad, ground arith)
        | inr good ↦ elim (Bool-cases (is_neg w.static_rc)) [
          | inl bad ↦ inr (inl (good, bad, ground arith, ground arith))
          | inr fine ↦ inr (inr (good, fine, ground arith, ground arith, ground arith))
        ]
      ]

  mkdev_ne_zero : T.mkdev 300 0 ≢ 0
  mkdev_ne_zero e =
      let a : T.major (T.mkdev 300 0) ≡ 300 = L.major-mkdev 300 0 (omega arith) (omega arith) in
      let b : T.major (T.mkdev 300 0) ≡ 0 = rw e L.major_zero in omega arith

  -- Where nothing was taken back before that was not registered and the number that the kernel
  -- picks is not 0, a module that was loaded with success and is then unloaded has registered what
  -- was registered before, and has taken back nothing that it did not have.
  pub load-unload :
      (w : Answers) (s : Numbers) {s' : Numbers}
      → w.device ≢ 0
      → IsFair s.ledger
      → init T w s ≡ (pos 0, s')
      → IsFair (exit s').ledger × ((r : Resource) → held r (exit s').ledger ≡ held r s.ledger)
  unfolding init exit print held
  load-unload w s set fair loaded =
      let mine = same_refl (region w.device 1) in
      let chosen = same_refl (region (T.mkdev 300 0) 1) in
      let set' = mkdev_ne_zero in
      elim (Bool-cases (is_neg w.dynamic_rc)) [
        | inl bad ↦ absurd (ground arith)
        | inr good ↦ elim (Bool-cases (is_neg w.static_rc)) [
          | inl bad ↦ absurd (ground arith)
          | inr fine ↦ (ground arith, λ r. ground arith)
        ]
      ]
