-- ===== src/Mev/Walk.antt =====
-- lkm_mev.c, mev_follow: what it does to the chain.
use lkm_sandbox.Base.{ℕ, zero, suc, ◌+◌, ◌≤◌, ◌<◌, ◌≡◌, refl, true, List, [], ◌∷◌, length, arith}
use lkm_sandbox.Kernel.Slab.{Slab, live, IsSound}
use lkm_sandbox.Mev.Types.{Qset, ChainOf}
use lkm_sandbox.Mev.Follow.{walk, follow}
use lkm_sandbox.Mev.Held.{held}
use lkm_sandbox.Mev.Bytes.{byte_in}

-- Once the walk has reached a node in the chain, nothing is allocated and nothing changes.
walk_inside :
    (n : ℕ) (node : Qset) (next : List Qset) (s : Slab)
    → n ≤ length next
    → walk n node next s ≡ record { found = true; chain = node ∷ next; slab = s }
unfolding walk
walk_inside zero node next s h = refl
walk_inside (suc n) node [] s h = absurd (omega arith)
walk_inside (suc n) node (after ∷ next) s h = rw (walk_inside n after next s (omega arith))

pub follow_inside :
    (chain : List Qset) (n : ℕ) (s : Slab)
    → n < length chain
    → follow chain n s ≡ record { found = true; chain = chain; slab = s }
unfolding follow
follow_inside [] n s h = absurd (omega arith)
follow_inside (node ∷ next) n s h = walk_inside n node next s (omega arith)

-- The bytes of the chain stay where they are, and the new sets have none.
walk-byte_in :
    (n : ℕ) (node : Qset) (next : List Qset) (s : Slab) (i a o : ℕ)
    → byte_in (walk n node next s).chain i a o ≡ byte_in (node ∷ next) i a o
unfolding walk
walk-byte_in zero node next s i a o = refl
walk-byte_in (suc n) node (after ∷ next) s zero a o = refl
walk-byte_in (suc n) node (after ∷ next) s (suc i) a o = walk-byte_in n after next s i a o
walk-byte_in (suc n) node [] s zero a o = grind (arith, walk-byte_in n)
walk-byte_in (suc n) node [] s (suc i) a o = grind (arith, walk-byte_in n)

pub follow-byte_in :
    (chain : List Qset) (n : ℕ) (s : Slab) (i a o : ℕ)
    → byte_in (follow chain n s).chain i a o ≡ byte_in chain i a o
unfolding follow
follow-byte_in (node ∷ next) n s i a o = walk-byte_in n node next s i a o
follow-byte_in [] n s zero a o = grind (arith, walk-byte_in)
follow-byte_in [] n s (suc i) a o = grind (arith, walk-byte_in)

-- The new sets are empty, so the arrays keep their sizes.
walk-ChainOf :
    (quantum qset n : ℕ) (node : Qset) (next : List Qset) (s : Slab)
    → ChainOf quantum qset (node ∷ next)
    → ChainOf quantum qset (walk n node next s).chain
unfolding walk
walk-ChainOf quantum qset zero node next s h = h
walk-ChainOf quantum qset (suc n) node (after ∷ next) s h =
    (h.0, walk-ChainOf quantum qset n after next s h.1)
walk-ChainOf quantum qset (suc n) node [] s h = grind (arith, walk-ChainOf quantum qset n)

pub follow-ChainOf :
    (quantum qset : ℕ) (chain : List Qset) (n : ℕ) (s : Slab)
    → ChainOf quantum qset chain
    → ChainOf quantum qset (follow chain n s).chain
unfolding follow
follow-ChainOf quantum qset (node ∷ next) n s h = walk-ChainOf quantum qset n node next s h
follow-ChainOf quantum qset [] n s h = grind (arith, walk-ChainOf)

-- The chain grows; where the walk arrives, it arrives in the chain.
walk-length :
    (n : ℕ) (node : Qset) (next : List Qset) (s : Slab)
    → let r = walk n node next s in
      (suc (length next) ≤ length r.chain) × (r.found ≡ true → n < length r.chain)
unfolding walk
walk-length zero node next s = (omega arith, λ h. omega arith)
walk-length (suc n) node (after ∷ next) s = ground (arith, walk-length n after next s)
walk-length (suc n) node [] s = grind (arith, walk-length n)

pub follow-length :
    (chain : List Qset) (n : ℕ) (s : Slab)
    → let r = follow chain n s in
      (length chain ≤ length r.chain) × (r.found ≡ true → n < length r.chain)
unfolding follow
follow-length (node ∷ next) n s = walk-length n node next s
follow-length [] n s = grind (arith, walk-length)

-- It grows no further than to the set that is looked for.
walk-length_le :
    (k n : ℕ) (node : Qset) (next : List Qset) (s : Slab)
    → n < k
    → suc (length next) ≤ k
    → length (walk n node next s).chain ≤ k
unfolding walk
walk-length_le k zero node next s h l = l
walk-length_le zero (suc n) node next s h l = absurd (omega arith)
walk-length_le (suc k) (suc n) node (after ∷ next) s h l =
    omega (arith, walk-length_le k n after next s (omega arith) (omega arith))
walk-length_le (suc k) (suc n) node [] s h l = grind (arith, walk-length_le k n)

pub follow-length_le :
    (k : ℕ) (chain : List Qset) (n : ℕ) (s : Slab)
    → n < k
    → length chain ≤ k
    → length (follow chain n s).chain ≤ k
unfolding follow
follow-length_le k (node ∷ next) n s h l = walk-length_le k n node next s h l
follow-length_le k [] n s h l = grind (arith, walk-length_le k n)

-- Each set that is added to the chain is one that kmalloc gave, and nothing else was allocated.
walk-live :
    (a n : ℕ) (node : Qset) (next : List Qset) (s : Slab)
    → let r = walk n node next s in
      live a r.slab.log + held a (node ∷ next) ≡ live a s.log + held a r.chain
unfolding walk live held
walk-live a zero node next s = refl
walk-live a (suc n) node (after ∷ next) s = ground (arith, walk-live a n after next s)
walk-live a (suc n) node [] s = grind (arith, walk-live a n)

pub follow-live :
    (a : ℕ) (chain : List Qset) (n : ℕ) (s : Slab)
    → let r = follow chain n s in live a r.slab.log + held a chain ≡ live a s.log + held a r.chain
unfolding follow live held
follow-live a (node ∷ next) n s = walk-live a n node next s
follow-live a [] n s = grind (arith, walk-live a)

walk-IsSound :
    (n : ℕ) (node : Qset) (next : List Qset) (s : Slab)
    → IsSound s.log
    → IsSound (walk n node next s).slab.log
unfolding walk
walk-IsSound zero node next s h = h
walk-IsSound (suc n) node (after ∷ next) s h = walk-IsSound n after next s h
walk-IsSound (suc n) node [] s h = grind (arith, walk-IsSound n)

pub follow-IsSound :
    (chain : List Qset) (n : ℕ) (s : Slab) → IsSound s.log → IsSound (follow chain n s).slab.log
unfolding follow
follow-IsSound (node ∷ next) n s h = walk-IsSound n node next s h
follow-IsSound [] n s h = grind (arith, walk-IsSound)
