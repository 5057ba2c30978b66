-- ===== src/Device/Tests.antt =====
-- The theorems on lkm_device.c at concrete states.
use lkm_sandbox.Base.{
  ℕ, ◌^◌, ◌≡◌, ◌≢◌, refl, sym, ap, pos, neg, is_neg, true, false, ◌⊎◌, none, some, [], ◌∷◌, ltb,
  ◌==◌, if◌then◌else◌, arith,
}
use mathlib.Core.Option.{some-injective}
use lkm_sandbox.Kernel.Errno.{ebusy}
use lkm_sandbox.Kernel.Ledger.{Resource, acquired, chrdev, entry, module_ref, held, IsFair}
use lkm_sandbox.Kernel.PutUser.{PutUser, IsLawful}
use lkm_sandbox.Device.{
  Device, message, Answers, proc_file_name, registered_major, device_init_sub, proc_init_sub, init,
  exit, copy, read, open_device,
}
use lkm_sandbox.Device.Message.{IsReadable}
use lkm_sandbox.Device.Copies.{Copied}
use lkm_sandbox.Device.Reads.{rewound, read_lem}
use lkm_sandbox.Device.Loads.{init_result, init-exit}
use lkm_sandbox.Device.Opens.{System, opens, here, next, IsCounted, open_exclusive}

-- A memory of which every address below 2 ^ 20 can be written.
abbrev flat : PutUser
flat = record {
  Memory = ℕ → ℕ;
  char_at = λ m a. m a;
  put_user = λ m a x. if ltb a (2 ^ 20) then some (λ b. if b == a then x else m b) else none;
}

patched :
    (m : ℕ → ℕ) (a x b : ℕ) {m' : ℕ → ℕ}
    → flat.put_user m a x ≡ some m'
    → m' b ≡ (if b == a then x else m b)
patched m a x b {m'} h =
    let f : ℕ → ℕ = λ b. if b == a then x else m b in
    let same : f ≡ m' = some-injective f m' (ground arith) in sym (ap (λ (g : ℕ → ℕ). g b) same)

put_self : (m : ℕ → ℕ) (a x : ℕ) {m' : ℕ → ℕ} → flat.put_user m a x ≡ some m' → m' a ≡ x
put_self m a x {m'} h = ground (arith, patched m a x a h)

put_other :
    (m : ℕ → ℕ) (a x b : ℕ) {m' : ℕ → ℕ} → flat.put_user m a x ≡ some m' → b ≢ a → m' b ≡ m b
put_other m a x b {m'} h ne = ground (arith, patched m a x b h)

flat-IsLawful : IsLawful flat
flat-IsLawful = record { put_self = put_self; put_other = put_other }

abbrev unloaded : Device
unloaded = record {
  major_num = pos 0;
  param_major_num = 0;
  device_open_count = pos 0;
  message_buffer = [];
  message_ptr = 0;
  ledger = [];
}

abbrev good : Answers
good = record { chrdev_rc = pos 240; proc_made = true }

abbrev loaded : Device
loaded = record unloaded {
  major_num = pos 240;
  message_buffer = message;
  ledger = acquired (entry 0 proc_file_name) ∷ acquired (chrdev 240) ∷ [];
}

loads : init good unloaded ≡ (pos 0, loaded)
unfolding init device_init_sub proc_init_sub
loads = refl

loaded-IsReadable : IsReadable loaded
loaded-IsReadable = record { filled = refl; within = omega arith }

abbrev blank : ℕ → ℕ
blank a = 0

read_lem_example :
    (j : ℕ) × (ptr' : ℕ) × (mem' : ℕ → ℕ) × (read flat 100 5 loaded blank
      ≡ some (pos j, record loaded { message_ptr = ptr' }, mem'))
    × IsReadable (record loaded { message_ptr = ptr' })
    × Copied flat message 14 5 100 (rewound 0) blank j ptr' mem'
read_lem_example = read_lem flat flat-IsLawful 100 5 loaded blank loaded-IsReadable

-- At the end of the message a read starts over.
abbrev at_end : Device
at_end = record loaded { message_ptr = 14 }

writable : (m : ℕ → ℕ) (c : ℕ) → flat.put_user m 100 c ≢ none
writable m c h = ground arith

again :
    (mem' : ℕ → ℕ) × (read flat 100 1 at_end blank
      ≡ some (pos 1, record loaded { message_ptr = 1 }, mem'))
unfolding read copy
again = (_, refl)

init_result_example :
    (((init good unloaded).0 ≡ neg 1)
      × (is_neg (pos 240) ≡ true)
      × ((init good unloaded).1.ledger ≡ []))
    ⊎ (((init good unloaded).0 ≡ neg 2)
        × (is_neg (pos 240) ≡ false)
        × (true ≡ false)
        × ((init good unloaded).1.ledger ≡ registered_major 0 (pos 240) []))
    ⊎ (((init good unloaded).0 ≡ pos 0)
        × (is_neg (pos 240) ≡ false)
        × (true ≡ true)
        × ((init good unloaded).1.ledger
            ≡ acquired (entry 0 proc_file_name) ∷ registered_major 0 (pos 240) [])
        × ((init good unloaded).1.message_ptr ≡ 0)
        × IsReadable (init good unloaded).1)
init_result_example = init_result good unloaded

init-exit_example :
    IsFair (exit loaded).ledger × ((r : Resource) → held r (exit loaded).ledger ≡ held r [])
init-exit_example = init-exit good unloaded refl tt loads

abbrev asked : Device
asked = record unloaded { param_major_num = 240 }

abbrev start : System
start = record { device = loaded; files = 0 }

start-IsCounted : IsCounted start
start-IsCounted = record { count = refl; single = omega arith; readable = loaded-IsReadable }

abbrev one_file : System
one_file = record {
  device = record loaded {
    device_open_count = pos 1;
    ledger = acquired module_ref ∷ loaded.ledger;
  };
  files = 1;
}

open_runs : open_device true loaded ≡ (pos 0, one_file.device)
unfolding open_device
open_runs = refl

open_exclusive_example :
    IsCounted one_file
    × (((one_file.files ≡ 0) × ((open_device true one_file.device).0 ≡ pos 0))
        ⊎ ((one_file.files ≡ 1)
            × (open_device true one_file.device ≡ (neg ebusy, one_file.device))))
open_exclusive_example =
    open_exclusive flat flat-IsLawful true start-IsCounted
      (next here (opens loaded 0 true one_file.device open_runs))
