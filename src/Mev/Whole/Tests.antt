-- ===== src/Mev/Whole/Tests.antt =====
-- lkm_mev.c: callers that read and write all of a small device.
use lkm_sandbox.Base.{
  ap, ap₂, ◌∙◌, ◌++◌, tabulate, length-tabulate, ℤ, List, length, zero, suc, ℕ, ◌+◌, ◌≡◌, ◌<◌, ◌≢◌,
  ◌⊎◌, refl, none, some, [], ◌∷◌, neg, arith, Option,
}
use lkm_sandbox.Kernel.Errno.{enomem, efault}
use lkm_sandbox.Kernel.Slab.{Block}
use lkm_sandbox.Kernel.Flat.{flat, flat-IsLawful}
use lkm_sandbox.Mev.Types.{State, IsValid, locate}
use lkm_sandbox.Mev.Bytes.{byte_at, Holds}
use lkm_sandbox.Mev.Follow.{walk, follow}
use lkm_sandbox.Mev.Read.{lookup, deliver, read_at, read_locked, read}
use lkm_sandbox.Mev.Write.{grow_quantum, grow, receive, write_node, write_at, write_locked, write}
use lkm_sandbox.Mev.Whole.{gathered, read_all, read_all_lem}
use lkm_sandbox.Mev.Whole.Copy.{IsSplit, stored, failed, goes_on, write_all}
use lkm_sandbox.Mev.Whole.Trip.{read_all-write_all}

abbrev memory : ℕ → Option Block
memory a = some (record { addr = a; stale = λ i. 70 + i })

-- A device of five bytes, in quanta of two, and a caller that asks for three bytes each time.
abbrev five : State flat
five = record {
  dev = record {
    chain =
        record {
          addr = 1;
          slots = some (record {
            addr = 2;
            quanta =
                some (record { addr = 3; bytes = 20 ∷ 21 ∷ [] })
                ∷ some (record { addr = 4; bytes = 22 ∷ 23 ∷ [] })
                ∷ some (record { addr = 5; bytes = 24 ∷ 25 ∷ [] })
                ∷ [];
          });
        }
        ∷ [];
    quantum = 2;
    qset = 3;
    size = 5;
    sem = 1;
  };
  slab = record { answers = []; log = [] };
  user = λ a. 0;
}

five-IsValid : IsValid five.dev
five-IsValid = omega arith

five_full : (p : ℕ) → p < 5 → byte_at five.dev p ≢ none
unfolding byte_at
five_full zero h e = absurd (ground arith)
five_full (suc zero) h e = absurd (ground arith)
five_full (suc (suc zero)) h e = absurd (ground arith)
five_full (suc (suc (suc zero))) h e = absurd (ground arith)
five_full (suc (suc (suc (suc zero)))) h e = absurd (ground arith)
five_full (suc (suc (suc (suc (suc p))))) h e = absurd (omega arith)

all_runs : read_all flat 6 100 3 0 five ≡ some (20 ∷ 21 ∷ 22 ∷ 23 ∷ 24 ∷ [])
unfolding read_all gathered read read_locked read_at lookup deliver follow walk locate
all_runs = refl

read_all_lem_example :
    (xs : List ℕ) × (read_all flat 6 100 3 0 five ≡ some xs)
    × (0 + length xs ≡ 5)
    × Holds five.dev 0 xs
read_all_lem_example =
    read_all_lem flat flat-IsLawful 6 100 3 0 five (λ m xs. refl) five-IsValid (omega arith)
      five_full (omega arith) (omega arith) (omega arith) (omega arith)

-- Five bytes at the address 5 are written to an empty device, a quantum at a time, and read back.
tabulate-append :
    (m : ℕ → ℕ) (p k n : ℕ) → tabulate m p (k + n) ≡ tabulate m p k ++ tabulate m (p + k) n
tabulate-append m p zero n =
    let none_more : 0 + n ≡ n = omega arith in
    let here : p ≡ p + 0 = omega arith in ap₂ (λ i c. tabulate m i c) here none_more
tabulate-append m p (suc k) n =
    let one_more : suc k + n ≡ suc (k + n) = omega arith in
    let there : suc p + k ≡ p + suc k = omega arith in
    ap (tabulate m p) one_more
    ∙ ap (λ (xs : List ℕ). m p ∷ xs)
        (tabulate-append m (suc p) k n
          ∙ ap (λ (i : ℕ). tabulate m (suc p) k ++ tabulate m i n) there)

flat-IsSplit : IsSplit flat
flat-IsSplit = (λ m p n. length-tabulate m p n, tabulate-append)

abbrev plenty : State flat
plenty = record {
  dev = record { chain = []; quantum = 2; qset = 3; size = 0; sem = 1 };
  slab = record { answers = memory 1 ∷ memory 2 ∷ memory 3 ∷ memory 4 ∷ memory 5 ∷ []; log = [] };
  user = λ a. a + 10;
}

plenty-IsValid : IsValid plenty.dev
plenty-IsValid = omega arith

copy_runs :
    (s' : State flat) × (write_all flat 6 5 5 0 plenty ≡ some (stored s'))
    × (read_all flat 6 100 3 0 s' ≡ some (15 ∷ 16 ∷ 17 ∷ 18 ∷ 19 ∷ []))
unfolding read_all gathered read read_locked read_at lookup deliver follow walk locate write_all
    goes_on write write_locked write_at write_node receive grow grow_quantum
copy_runs = (_, refl, refl)

read_all-write_all_example :
    ((s' : State flat) × (write_all flat 6 5 5 0 plenty ≡ some (stored s'))
      × (read_all flat 6 100 3 0 s' ≡ some (flat.bytes plenty.user 5 5)))
    ⊎ ((ret : ℤ) × (s' : State flat) × (write_all flat 6 5 5 0 plenty ≡ some (failed ret s'))
        × ((ret ≡ neg enomem) ⊎ (ret ≡ neg efault)))
read_all-write_all_example =
    read_all-write_all flat flat-IsLawful flat-IsSplit 6 5 5 plenty plenty-IsValid (omega arith)
      refl (omega arith) (omega arith) 6 100 3 (λ m xs. refl) (omega arith) (omega arith)
      (omega arith)
