-- ===== src/Mev/Heap/Io/Agrees.antt =====
-- lkm_mev.c: the state over the kernel's memory beside that over the list, and calls that agree.
use mathlib.Core.Path.{subst}
use lkm_sandbox.Kernel.Slab.{Slab}
use lkm_sandbox.Base.{ℕ, ◌+◌, ◌-◌, ◌≡◌, refl, ap, ap₂, [], ◌∙◌, Option, none, some, ◌>>=◌}
use lkm_sandbox.Kernel.Uaccess.{Uaccess}
use lkm_sandbox.Mev.Types
use lkm_sandbox.Mev.Follow
use lkm_sandbox.Mev.Types.{Place, locate}
use lkm_sandbox.Mev.Read
use lkm_sandbox.Mev.Heap.{Cells, Container, follow}
use lkm_sandbox.Mev.Heap.Layout.{Represents, layout}
use lkm_sandbox.Mev.Heap.Grows.{Available, Grows}
use lkm_sandbox.Mev.Heap.Steps.{at, found_ptr}
use lkm_sandbox.Mev.Heap.Follows.{by_chain}
use lkm_sandbox.Mev.Heap.Io.{State, Io, sizes, released}

module _ (U : Uaccess) where
  -- The same allocator and the same user's memory, with a container and cells in place of the list.
  abbrev pub beside : Container → Cells → lkm_sandbox.Mev.Types.State U → State U
  beside c cells s = record { dev = c; memory = at cells s.slab; user = s.user }

  abbrev pub result : Container → Cells → lkm_sandbox.Mev.Types.Io U → Io U
  result c cells r = record { ret = r.ret; f_pos = r.f_pos; state = beside c cells r.state }

  -- Where the call over the list does not fault, the one over the memory has the same result, and
  -- leaves the list that the other leaves, in memory, and memory that nobody holds to the allocator.
  abbrev pub Agrees : Option (lkm_sandbox.Mev.Types.Io U) → Option (Io U) → Type 0
  Agrees none out = Unit
  Agrees (some r) out =
      (c : Container) × (cells : Cells) × (out ≡ some (result c cells r))
      × Represents c cells r.state.dev
      × Available cells r.state.slab.answers

  up-Represents :
      (c : Container) (cells : Cells) (d : lkm_sandbox.Mev.Types.Container)
      → Represents c cells d
      → Represents (record c { sem = c.sem + 1 }) cells (lkm_sandbox.Mev.Read.up d)
  up-Represents c cells d r = record {
    first = r.first;
    quantum = r.quantum;
    qset = r.qset;
    size = r.size;
    sem = ap (λ n. n + 1) r.sem;
    holds = r.holds;
  }

  pub down-Represents :
      (c : Container) (cells : Cells) (d : lkm_sandbox.Mev.Types.Container)
      → Represents c cells d
      → Represents (record c { sem = c.sem - 1 }) cells (lkm_sandbox.Mev.Read.down d)
  down-Represents c cells d r = record {
    first = r.first;
    quantum = r.quantum;
    qset = r.qset;
    size = r.size;
    sem = ap (λ n. n - 1) r.sem;
    holds = r.holds;
  }

  -- The end of a call gives the semaphore back, in both.
  pub released-Agrees :
      (o : Option (lkm_sandbox.Mev.Types.Io U)) (out : Option (Io U))
      → Agrees o out
      → Agrees
          (o >>= λ r. some (lkm_sandbox.Mev.Read.released U r))
          (out >>= λ r. some (released U r))
  released-Agrees none out h = tt
  released-Agrees (some r) out (c, cells, e, rep, v) =
      (record c { sem = c.sem + 1 }, cells, rw e refl, up-Represents c cells r.state.dev rep, v)

  -- mev_follow, with the allocator that it leaves written out.
  pub follow_lem :
      (n : ℕ) (c : Container) (cells : Cells) (s : lkm_sandbox.Mev.Types.State U)
      → Represents c cells s.dev
      → Available cells s.slab.answers
      → let r = lkm_sandbox.Mev.Follow.follow s.dev.chain n s.slab in
        (c' : Container) × (cells' : Cells) × (follow c n (at cells s.slab)
          ≡ some (found_ptr r n, c', at cells' r.slab))
        × Represents c' cells' (record (s.dev) { chain = r.chain })
        × Grows cells (layout s.dev.chain) (at cells' r.slab) (layout r.chain)
  follow_lem n c cells s rep v =
      let (c', m, eq, rep', log, g) = by_chain n c cells s.dev.chain s.dev s.slab rep v in
      let r = lkm_sandbox.Mev.Follow.follow s.dev.chain n s.slab in
      (
        c',
        m.cells,
        eq ∙ ap (λ (t : Slab). some (found_ptr r n, c', at m.cells t)) log,
        rep',
        subst (λ (t : Slab). Grows cells (layout s.dev.chain) (at m.cells t) (layout r.chain)) log
            g,
      )

-- Both containers put a position at the same place.
pub sizes_lem :
    (c : Container) (cells : Cells) (d : lkm_sandbox.Mev.Types.Container) (f_pos : ℕ)
    → Represents c cells d
    → locate (sizes c) f_pos ≡ locate d f_pos
unfolding locate
sizes_lem c cells d f_pos rep =
    ap₂ (λ q n. locate (record { chain = []; quantum = q; qset = n; size = 0; sem = 0 }) f_pos)
      rep.quantum rep.qset
