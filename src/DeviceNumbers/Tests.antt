-- ===== src/DeviceNumbers/Tests.antt =====
-- The theorems on lkm_device_numbers.c at concrete states.
use lkm_sandbox.Base.{
  ◌+◌, ◌*◌, ◌/◌, ◌%◌, ◌^◌, ◌≡◌, refl, pos, neg, is_neg, true, false, ◌⊎◌, [], ◌∷◌, arith,
}
use lkm_sandbox.Kernel.DevT.{DevT, IsLawful}
use lkm_sandbox.Kernel.Ledger.{Resource, acquired, region, held, IsFair}
use lkm_sandbox.DeviceNumbers.{Numbers, Answers, print, init, exit}
use lkm_sandbox.DeviceNumbers.Loads.{load_result, load-unload}

-- The minor number has the lower 20 bits.
abbrev packed : DevT
packed = record { mkdev = λ a b. a * 2 ^ 20 + b; major = λ n. n / 2 ^ 20; minor = λ n. n % 2 ^ 20 }

packed-IsLawful : IsLawful packed
packed-IsLawful = record {
  major-mkdev = λ a b h h'. omega arith;
  minor-mkdev = λ a b h h'. omega arith;
  major_zero = refl;
}

abbrev unloaded : Numbers
unloaded = record { ddev = 0; sdev = 0; ledger = []; printed = [] }

abbrev taken : Answers
taken = record { dynamic_rc = pos 0; device = 240 * 2 ^ 20; static_rc = neg 16 }

abbrev free : Answers
free = record taken { static_rc = pos 0 }

abbrev loaded : Numbers
loaded = record {
  ddev = 240 * 2 ^ 20;
  sdev = 300 * 2 ^ 20;
  ledger = acquired (region (300 * 2 ^ 20) 1) ∷ acquired (region (240 * 2 ^ 20) 1) ∷ [];
  printed = (300, 0) ∷ (240, 0) ∷ [];
}

loads : init packed free unloaded ≡ (pos 0, loaded)
unfolding init print
loads = refl

load_result_example :
    ((is_neg (pos 0) ≡ true) × (init packed taken unloaded ≡ (pos 0, unloaded)))
    ⊎ ((is_neg (pos 0) ≡ false)
        × (is_neg (neg 16) ≡ true)
        × ((init packed taken unloaded).0 ≡ neg 16)
        × ((init packed taken unloaded).1.ledger ≡ acquired (region taken.device 1) ∷ []))
    ⊎ ((is_neg (pos 0) ≡ false)
        × (is_neg (neg 16) ≡ false)
        × ((init packed taken unloaded).0 ≡ pos 0)
        × ((init packed taken unloaded).1.ledger
            ≡ acquired (region (packed.mkdev 300 0) 1) ∷ acquired (region taken.device 1) ∷ [])
        × ((init packed taken unloaded).1.printed
            ≡ (300, 0) ∷ (packed.major taken.device, packed.minor taken.device) ∷ []))
load_result_example = load_result packed packed-IsLawful taken unloaded

load-unload_example :
    IsFair (exit loaded).ledger × ((r : Resource) → held r (exit loaded).ledger ≡ held r [])
load-unload_example = load-unload packed packed-IsLawful free unloaded (omega arith) tt loads
