-- ===== src/Kernel/Ledger.antt =====
-- What a module registers with the kernel and takes back: regions of device numbers, character
-- devices, entries of /proc and of debugfs, references to itself. Each call that succeeds is written down, so that what
-- is left behind, and what is taken back without having been registered, are statements about the
-- log.
use lkm_sandbox.Base.{
  ℕ, ◌+◌, ◌-◌, ◌≤◌, ◌<◌, ◌≡◌, refl, arith, Bool, true, false, List, [], ◌∷◌, ◌==◌, if◌then◌else◌,
}

pub data Resource : Type 0 where
  -- alloc_chrdev_region and register_chrdev_region: the first number, and how many
  region : ℕ → ℕ → Resource
  -- register_chrdev: the major number
  chrdev : ℕ → Resource
  -- cdev_add: the address of the cdev
  cdev : ℕ → Resource
  -- a file or a directory of /proc or of debugfs, by the handle of the directory in which it
  -- stands, 0 for the root, and the number that stands for its name
  entry : ℕ → ℕ → Resource
  -- try_module_get
  module_ref : Resource

pub data Event : Type 0 where
  acquired : Resource → Event
  released : Resource → Event

abbrev pub same : Resource → Resource → Bool
same (region a n) (region b k) = if a == b then n == k else false
same (chrdev a) (chrdev b) = a == b
same (cdev a) (cdev b) = a == b
same (entry d a) (entry e b) = if d == e then a == b else false
same module_ref module_ref = true
same _ _ = false

abbrev pub one_of : Resource → Resource → ℕ
one_of r q = if same r q then 1 else 0

-- How often a resource was acquired and not yet released; the last event stands first.
unfoldable pub held : Resource → List Event → ℕ
held r [] = 0
held r (acquired q ∷ log) = held r log + one_of r q
held r (released q ∷ log) = held r log - one_of r q

-- Nothing was released but what was held at that moment.
abbrev pub IsFair : List Event → Type 0
IsFair [] = Unit
IsFair (acquired q ∷ log) = IsFair log
IsFair (released q ∷ log) = (0 < held q log) × IsFair log

pub same_refl : (r : Resource) → same r r ≡ true
same_refl (region a n) = ground arith
same_refl (chrdev a) = ground arith
same_refl (cdev a) = ground arith
same_refl (entry d a) = ground arith
same_refl module_ref = refl

-- What was acquired last is held.
pub held_acquired : (r : Resource) (log : List Event) → 0 < held r (acquired r ∷ log)
unfolding held
held_acquired r log = ground (arith, same_refl r)

-- A call that registers a resource where the handle that it answers is not NULL.
abbrev pub created : ℕ → Resource → List Event → List Event
created h r log = if h == 0 then log else acquired r ∷ log

-- A call that takes a resource back, made where the handle is not NULL.
abbrev pub removed : ℕ → Resource → List Event → List Event
removed h r log = if h == 0 then log else released r ∷ log

-- What such a call adds to, or takes from, how often a resource is held.
unfoldable pub share : ℕ → Resource → Resource → ℕ
share h q r = if h == 0 then 0 else one_of r q

pub held-created :
    (h : ℕ) (q r : Resource) (log : List Event)
    → held r (created h q log) ≡ held r log + share h q r
unfolding held share
held-created h q r log = ground arith

pub held-removed :
    (h : ℕ) (q r : Resource) (log : List Event)
    → held r (removed h q log) ≡ held r log - share h q r
unfolding held share
held-removed h q r log = ground arith

pub created-IsFair :
    (h : ℕ) (q : Resource) (log : List Event) → IsFair log → IsFair (created h q log)
created-IsFair h q log f = ground arith

-- A removal is fair where what it takes is held.
pub removed-IsFair :
    (h : ℕ) (q : Resource) (log : List Event)
    → share h q q ≤ held q log
    → IsFair log
    → IsFair (removed h q log)
unfolding share
removed-IsFair h q log le f = ground (arith, same_refl q)
