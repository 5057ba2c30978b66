-- ===== src/Kernel/Batches.antt =====
-- Several entries that are made one after the other, each of which may fail, and taken back in any
-- order.
use lkm_sandbox.Base.{ℕ, ◌+◌, ◌-◌, ◌≤◌, ◌≡◌, List, [], ◌∷◌, arith}
use lkm_sandbox.Kernel.Ledger.{
  Event, Resource, created, removed, share, held, IsFair, held-created, held-removed,
  created-IsFair, removed-IsFair,
}

-- The handles, 0 where a call has failed, and what they stand for, the first call first.
abbrev pub create_all : List (ℕ × Resource) → List Event → List Event
create_all [] log = log
create_all ((h, r) ∷ xs) log = create_all xs (created h r log)

abbrev pub remove_all : List (ℕ × Resource) → List Event → List Event
remove_all [] log = log
remove_all ((h, r) ∷ xs) log = remove_all xs (removed h r log)

-- How many of them stand for a resource.
abbrev pub total : Resource → List (ℕ × Resource) → ℕ
total r [] = 0
total r ((h, q) ∷ xs) = share h q r + total r xs

held-create_all :
    (r : Resource) (xs : List (ℕ × Resource)) (log : List Event)
    → held r (create_all xs log) ≡ held r log + total r xs
held-create_all r [] log = omega arith
held-create_all r ((h, q) ∷ xs) log =
    omega (arith, held-create_all r xs (created h q log), held-created h q r log)

create_all-IsFair :
    (xs : List (ℕ × Resource)) (log : List Event) → IsFair log → IsFair (create_all xs log)
create_all-IsFair [] log f = f
create_all-IsFair ((h, q) ∷ xs) log f =
    create_all-IsFair xs (created h q log) (created-IsFair h q log f)

held-remove_all :
    (r : Resource) (xs : List (ℕ × Resource)) (log : List Event)
    → held r (remove_all xs log) ≡ held r log - total r xs
held-remove_all r [] log = omega arith
held-remove_all r ((h, q) ∷ xs) log =
    omega (arith, held-remove_all r xs (removed h q log), held-removed h q r log)

remove_all-IsFair :
    (xs : List (ℕ × Resource)) (log : List Event)
    → ((r : Resource) → total r xs ≤ held r log)
    → IsFair log
    → IsFair (remove_all xs log)
remove_all-IsFair [] log le f = f
remove_all-IsFair ((h, q) ∷ xs) log le f =
    remove_all-IsFair xs (removed h q log) (λ r. omega (arith, le r, held-removed h q r log))
      (removed-IsFair h q log (omega (arith, le q)) f)

-- What was made and is then taken back, in whatever order, leaves what was there before.
pub create-remove :
    (xs ys : List (ℕ × Resource)) (log : List Event)
    → ((r : Resource) → total r ys ≡ total r xs)
    → IsFair log
    → IsFair (remove_all ys (create_all xs log))
      × ((r : Resource) → held r (remove_all ys (create_all xs log)) ≡ held r log)
create-remove xs ys log same f = (
  remove_all-IsFair ys (create_all xs log) (λ r. omega (arith, same r, held-create_all r xs log))
      (create_all-IsFair xs log f),
  λ r. omega (arith, same r, held-create_all r xs log, held-remove_all r ys (create_all xs log)),
)
