-- ===== src/Mev/Follow.antt =====
-- lkm_mev.c, mev_follow: the walk to the n-th quantum set, which allocates the sets that are not
-- there yet.
use lkm_sandbox.Base.{ℕ, zero, suc, Bool, true, false, none, List, [], ◌∷◌}
use lkm_sandbox.Kernel.Slab.{Block, Slab, null, block, kmalloc}
use lkm_sandbox.Mev.Types.{Qset}

-- The result: whether the pointer is not NULL, the chain and the allocator afterwards. The pointer
-- is then that of the n-th set of the chain.
pub record Followed : Type 0 where
  pub found : Bool
  pub chain : List Qset
  pub slab : Slab

-- A set that memset has cleared.
abbrev pub cleared : Block → Qset
cleared b = record { addr = b.addr; slots = none }

abbrev behind : Qset → Followed → Followed
behind node r = record r { chain = node ∷ r.chain }

-- `while (n--)`, with the current set and those behind it.
unfoldable pub walk : ℕ → Qset → List Qset → Slab → Followed
walk zero node next s = record { found = true; chain = node ∷ next; slab = s }
walk (suc n) node (after ∷ next) s = behind node (walk n after next s)
walk (suc n) node [] s = elim (kmalloc s) [
  | null s' ↦ record { found = false; chain = node ∷ []; slab = s' }
  | block b s' ↦ behind node (walk n (cleared b) [] s')
]

unfoldable pub follow : List Qset → ℕ → Slab → Followed
follow (node ∷ next) n s = walk n node next s
follow [] n s = elim (kmalloc s) [
  | null s' ↦ record { found = false; chain = []; slab = s' }
  | block b s' ↦ walk n (cleared b) [] s'
]
