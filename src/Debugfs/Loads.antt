-- ===== src/Debugfs/Loads.antt =====
-- lkm_debugfs.c: what loading and unloading the module leave behind.
use native.Mathlib.Decide.{ℕ_discrete}
use lkm_sandbox.Base.{
  ◌+◌, ◌-◌, ◌≡◌, ◌≢◌, pos, neg, true, false, ◌⊎◌, inl, inr, [], ◌∷◌, ◌++◌, replicate, if◌then◌else◌,
  Bool-cases, arith,
}
use lkm_sandbox.Kernel.Errno.{eio, enodev}
use lkm_sandbox.Kernel.Ledger.{Resource, acquired, entry, held, IsFair, same_refl}
use lkm_sandbox.Debugfs.{
  Debug, Answers, greeting, content_len, dir_name, is_err, is_made, init, exit,
}

-- What the documentation of debugfs promises: without a directory no file is made in it.
abbrev pub IsInside : Answers → Type 0
IsInside w =
    is_made w.dir ≡ false → (is_made w.number_file ≡ false) × (is_made w.message_file ≡ false)

-- What the module has left behind after it was loaded and unloaded: no file, nothing that was not
-- registered before, and nothing taken back that was not registered.
pub record Balances (s s' : Debug) : Type 0 where
  pub fair : IsFair s'.ledger
  pub same_held : (r : Resource) → held r s'.ledger ≡ held r s.ledger
  pub no_files : s'.files ≡ []

module _ (w : Answers) (s : Debug) (fair : IsFair s.ledger) (none_yet : s.files ≡ [])
    (inside : IsInside w) (ready : w.initialized ≡ true) (dir : w.dir ≢ 0)
    (file : w.message_file ≢ 0) where
  made-Balances : is_made w.dir ≡ true → Balances s (exit (init w s).1)
  unfolding init exit held
  made-Balances made =
      let mine = same_refl (entry 0 dir_name) in
      record { fair = ground arith; same_held = λ r. ground arith; no_files = ground arith }

  bad-Balances : is_made w.dir ≡ false → Balances s (exit (init w s).1)
  unfolding init exit held
  bad-Balances bad =
      let (no_number, no_message) = inside bad in
      record { fair = ground arith; same_held = λ r. ground arith; no_files = ground arith }

-- Where the module has no file before, nothing was taken back before that was not registered, and
-- without a directory no file is made in it: an init returns -ENODEV where debugfs is not
-- initialised or answers NULL for the directory, and then nothing is registered. It returns -EIO
-- where debugfs answers NULL for the file of the message, and then the directory is left behind, if
-- it was made. Otherwise it returns 0, with the number 42 and the greeting, filled up with NULs, as
-- the contents; an exit after that takes back what was registered and nothing else, and leaves no
-- file. But it also returns 0 where debugfs answers an error for the directory, and then nothing is
-- registered and there is no file.
pub init_outcome :
    (w : Answers) (s : Debug)
    → IsFair s.ledger
    → s.files ≡ []
    → IsInside w
    → let (rc, s') = init w s in
      (((w.initialized ≡ false) ⊎ (w.dir ≡ 0))
        × (rc ≡ neg enodev)
        × (s'.ledger ≡ s.ledger)
        × (s'.files ≡ []))
      ⊎ ((w.initialized ≡ true)
          × (w.dir ≢ 0)
          × (w.message_file ≡ 0)
          × (rc ≡ neg eio)
          × (held (entry 0 dir_name) s'.ledger
              ≡ held (entry 0 dir_name) s.ledger + (if is_made w.dir then 1 else 0)))
      ⊎ ((w.initialized ≡ true)
          × (w.dir ≢ 0)
          × (w.message_file ≢ 0)
          × (rc ≡ pos 0)
          × (s'.number ≡ 42)
          × (s'.content ≡ greeting ++ replicate (content_len - 16) 0)
          × Balances s (exit s')
          × (((is_err w.dir ≡ false) × (s'.ledger ≡ acquired (entry 0 dir_name) ∷ s.ledger))
              ⊎ ((is_err w.dir ≡ true) × (s'.ledger ≡ s.ledger) × (s'.files ≡ []))))
unfolding init held
init_outcome w s fair none_yet inside = elim (Bool-cases w.initialized) [
  | inr never ↦ inl (inl never, ground arith, ground arith, ground arith)
  | inl ready ↦ elim (ℕ_discrete w.dir 0) [
    | yes no_dir ↦ inl (inr no_dir, ground arith, ground arith, ground arith)
    | no dir ↦ elim (ℕ_discrete w.message_file 0) [
      | yes no_file ↦
          let mine = same_refl (entry 0 dir_name) in
          inr (inl (ready, dir, no_file, ground arith, ground arith))
      | no file ↦ inr (
          inr (
            ready,
            dir,
            file,
            ground arith,
            ground arith,
            ground arith,
            elim (Bool-cases (is_made w.dir)) [
              | inl made ↦ made-Balances w s fair none_yet inside ready dir file made
              | inr bad ↦ bad-Balances w s fair none_yet inside ready dir file bad
            ],
            elim (Bool-cases (is_err w.dir)) [
              | inl bad ↦
                  let lost : is_made w.dir ≡ false = ground arith in
                  let (no_number, no_message) = inside lost in inr (bad, ground arith, ground arith)
              | inr made ↦ inl (made, ground arith)
            ],
          ))
    ]
  ]
]
