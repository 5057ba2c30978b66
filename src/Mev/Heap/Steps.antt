-- ===== src/Mev/Heap/Steps.antt =====
-- lkm_mev.c, mev_follow: one round of the walk, over the memory and over the list.
use lkm_sandbox.Base.{
  ℕ, zero, suc, ◌≡◌, ◌≢◌, refl, false, Option, none, some, [], ◌∷◌, if◌then◌else◌, get_elem?, arith,
}
use lkm_sandbox.Kernel.Slab.{Block, Slab, null, block, kmalloc}
use lkm_sandbox.Mev.Types.{Qset}
use lkm_sandbox.Mev.Follow.{Followed, cleared}
use lkm_sandbox.Mev.Follow
use lkm_sandbox.Mev.Heap.{
  Ptr, qset, Cells, Memory, Container, put, load_qset, new_qset, walk, follow,
}

abbrev pub at : Cells → Slab → Memory
at cells s = record { cells = cells; slab = s }

abbrev pub node_ptr : Option Qset → Ptr
node_ptr none = 0
node_ptr (some node) = node.addr

-- The pointer that mev_follow returns.
abbrev pub found_ptr : Followed → ℕ → Ptr
found_ptr r n = if r.found then node_ptr (get_elem? r.chain n) else 0

pub load_qset_lem :
    (cells : Cells) (p slots next : Ptr)
    → p ≢ 0
    → cells p ≡ some (qset slots next)
    → load_qset cells p ≡ some (slots, next)
unfolding load_qset
load_qset_lem cells zero slots next ne e = absurd (ne refl)
load_qset_lem cells (suc p) slots next ne e = rw e refl

pub walk_on :
    (n : ℕ) (m : Memory) (p slots next : Ptr)
    → load_qset m.cells p ≡ some (slots, next)
    → next ≢ 0
    → walk (suc n) p m ≡ walk n next m
unfolding walk
walk_on n m p slots next e ne = ground arith

pub walk_lost :
    (n : ℕ) (m : Memory) (p slots : Ptr) (s : Slab)
    → load_qset m.cells p ≡ some (slots, 0)
    → kmalloc m.slab ≡ null s
    → walk (suc n) p m ≡ some (0, at m.cells s)
unfolding walk new_qset
walk_lost n m p slots s e e' = ground arith

pub walk_fresh :
    (n : ℕ) (m : Memory) (p slots : Ptr) (b : Block) (s : Slab)
    → load_qset m.cells p ≡ some (slots, 0)
    → kmalloc m.slab ≡ block b s
    → b.addr ≢ 0
    → walk (suc n) p m
      ≡ walk n b.addr
          (at (put (put m.cells b.addr (some (qset 0 0))) p (some (qset slots b.addr))) s)
unfolding walk new_qset
walk_fresh n m p slots b s e e' ne = ground arith

pub list_lost :
    (n : ℕ) (node : Qset) (s s' : Slab)
    → kmalloc s ≡ null s'
    → lkm_sandbox.Mev.Follow.walk (suc n) node [] s
      ≡ record { found = false; chain = node ∷ []; slab = s' }
unfolding lkm_sandbox.Mev.Follow.walk
list_lost n node s s' e = ground arith

pub list_fresh :
    (n : ℕ) (node : Qset) (b : Block) (s s' : Slab)
    → kmalloc s ≡ block b s'
    → let r = lkm_sandbox.Mev.Follow.walk n (cleared b) [] s' in
      lkm_sandbox.Mev.Follow.walk (suc n) node [] s ≡ record r { chain = node ∷ r.chain }
unfolding lkm_sandbox.Mev.Follow.walk
list_fresh n node b s s' e = ground arith

pub follow_on :
    (n : ℕ) (c : Container) (m m' : Memory) (p : Ptr)
    → c.chain ≢ 0
    → walk n c.chain m ≡ some (p, m')
    → follow c n m ≡ some (p, c, m')
unfolding follow
follow_on n c m m' p ne e = ground arith

pub follow_lost :
    (n : ℕ) (c : Container) (m : Memory) (s : Slab)
    → c.chain ≡ 0
    → kmalloc m.slab ≡ null s
    → follow c n m ≡ some (0, c, at m.cells s)
unfolding follow new_qset
follow_lost n c m s e e' = ground arith

pub follow_fresh :
    (n : ℕ) (c : Container) (m m' : Memory) (b : Block) (s : Slab) (p : Ptr)
    → c.chain ≡ 0
    → kmalloc m.slab ≡ block b s
    → b.addr ≢ 0
    → walk n b.addr (at (put m.cells b.addr (some (qset 0 0))) s) ≡ some (p, m')
    → follow c n m ≡ some (p, record c { chain = b.addr }, m')
unfolding follow new_qset
follow_fresh n c m m' b s p e e' ne h = ground arith

pub list_none :
    (n : ℕ) (s s' : Slab)
    → kmalloc s ≡ null s'
    → lkm_sandbox.Mev.Follow.follow [] n s ≡ record { found = false; chain = []; slab = s' }
unfolding lkm_sandbox.Mev.Follow.follow
list_none n s s' e = ground arith

pub list_first :
    (n : ℕ) (b : Block) (s s' : Slab)
    → kmalloc s ≡ block b s'
    → lkm_sandbox.Mev.Follow.follow [] n s ≡ lkm_sandbox.Mev.Follow.walk n (cleared b) [] s'
unfolding lkm_sandbox.Mev.Follow.follow
list_first n b s s' e = ground arith
