-- ===== src/Kernel/Slab.antt =====
-- The calls of kmalloc and kfree. What kmalloc answers is an input, and each call is written down,
-- so that leaks, double frees and frees of foreign memory are statements about the log.
use lkm_sandbox.Base.{
  ℕ, ◌+◌, ◌-◌, ◌<◌, ◌≡◌, refl, ◌⊎◌, inl, inr, Option, none, some, List, [], ◌∷◌, ◌==◌,
  if◌then◌else◌,
}

-- A piece of memory: its address, and the stale bytes that stand in it.
pub record Block : Type 0 where
  pub addr : ℕ
  pub stale : ℕ → ℕ

pub data Call : Type 0 where
  allocated : ℕ → Call
  freed : ℕ → Call

-- The answers that are still to come, and the calls so far, the last one first.
pub record Slab : Type 0 where
  pub answers : List (Option Block)
  pub log : List Call

pub data Answer : Type 0 where
  null : Slab → Answer
  block : Block → Slab → Answer

-- An allocator with no answer left is out of memory.
abbrev answer : List (Option Block) → List Call → Answer
answer [] log = null (record { answers = []; log = log })
answer (none ∷ more) log = null (record { answers = more; log = log })
answer (some b ∷ more) log = block b (record { answers = more; log = allocated b.addr ∷ log })

abbrev pub kmalloc : Slab → Answer
kmalloc s = answer s.answers s.log

-- kfree of an address other than NULL
abbrev pub kfree : ℕ → Slab → Slab
kfree a s = record s { log = freed a ∷ s.log }

abbrev pub one_if : ℕ → ℕ → ℕ
one_if a b = if a == b then 1 else 0

-- How often the address is allocated and not yet freed.
unfoldable pub live : ℕ → List Call → ℕ
live a [] = 0
live a (allocated b ∷ log) = live a log + one_if a b
live a (freed b ∷ log) = live a log - one_if a b

-- Nothing was freed but what was live at that moment.
abbrev pub IsSound : List Call → Type 0
IsSound [] = Unit
IsSound (allocated b ∷ log) = IsSound log
IsSound (freed b ∷ log) = (0 < live b log) × IsSound log

answer-cases :
    (answers : List (Option Block)) (log : List Call)
    → ((s : Slab) × (answer answers log ≡ null s) × (s.log ≡ log))
      ⊎ ((b : Block) × (s : Slab) × (answer answers log ≡ block b s)
          × (s.log ≡ allocated b.addr ∷ log))
answer-cases [] log = inl (_, refl, refl)
answer-cases (none ∷ more) log = inl (_, refl, refl)
answer-cases (some b ∷ more) log = inr (b, _, refl, refl)

-- A kmalloc fails and is not written down, or gives a block and is.
pub kmalloc-cases :
    (s : Slab)
    → ((s' : Slab) × (kmalloc s ≡ null s') × (s'.log ≡ s.log))
      ⊎ ((b : Block) × (s' : Slab) × (kmalloc s ≡ block b s') × (s'.log ≡ allocated b.addr ∷ s.log))
kmalloc-cases s = answer-cases s.answers s.log
