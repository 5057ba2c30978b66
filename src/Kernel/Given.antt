-- ===== src/Kernel/Given.antt =====
-- The answers of kmalloc: which blocks an allocator may give.
use lkm_sandbox.Base.{
  ℕ, suc, ◌≡◌, refl, ◌⊎◌, inl, inr, Option, none, some, List, [], ◌∷◌, get_elem?,
}
use lkm_sandbox.Kernel.Slab.{Block, Slab, null, block, kmalloc, Call}

-- The block is among the answers that are still to come.
abbrev pub Gives : Slab → Block → Type 0
Gives s b = (j : ℕ) × (get_elem? s.answers j ≡ some (some b))

-- What the second allocator may give, the first one may give.
abbrev pub Within : Slab → Slab → Type 0
Within s s' = (b : Block) → Gives s' b → Gives s b

answer-Given :
    (answers : List (Option Block)) (log : List Call)
    → let s : Slab = record { answers = answers; log = log } in
      ((s' : Slab) × (kmalloc s ≡ null s') × Within s s')
      ⊎ ((b : Block) × (s' : Slab) × (kmalloc s ≡ block b s') × Gives s b × Within s s')
answer-Given [] log = inl (_, refl, λ b h. h)
answer-Given (none ∷ more) log = inl (_, refl, λ b (j, h). (suc j, h))
answer-Given (some x ∷ more) log = inr (x, _, refl, (0, refl), λ b (j, h). (suc j, h))

-- A kmalloc gives one of those blocks, if any, and leaves the others.
pub kmalloc-Given :
    (s : Slab)
    → ((s' : Slab) × (kmalloc s ≡ null s') × Within s s')
      ⊎ ((b : Block) × (s' : Slab) × (kmalloc s ≡ block b s') × Gives s b × Within s s')
kmalloc-Given s = answer-Given s.answers s.log
