-- ===== src/Mev/Heap/Race.antt =====
-- lkm_mev.c: mev_open frees memory without the semaphore, which a mev_read holds meanwhile.
use lkm_sandbox.Base.{ℕ, ◌<◌, ◌≡◌, ◌-◌, ◌>>=◌, false, Option, some}
use lkm_sandbox.Kernel.Uaccess.{Uaccess}
use lkm_sandbox.Mev.Types.{Slots, Qset, Place, IsValid, locate}
use lkm_sandbox.Mev.Types
use lkm_sandbox.Mev.Follow
use lkm_sandbox.Mev.Place.{place}
use lkm_sandbox.Mev.Read.{slots_at, to_file_end}
use lkm_sandbox.Mev.Read
use lkm_sandbox.Mev.Heap.{Ptr, Cells, Container}
use lkm_sandbox.Mev.Heap.Layout.{Represents}
use lkm_sandbox.Mev.Heap.Grows.{Available}
use lkm_sandbox.Mev.Heap.Io.{State, Io, released, read_quantum, read}
use lkm_sandbox.Mev.Heap.Io.Agrees.{beside}

module _ (U : Uaccess) (buf count f_pos : ℕ) (c : Container) (cells : Cells)
    (s : lkm_sandbox.Mev.Types.State U) (rep : Represents c cells s.dev)
    (avail : Available cells s.slab.answers) (v : IsValid s.dev) (before : f_pos < s.dev.size) where
  abbrev held : lkm_sandbox.Mev.Types.State U
  held = record s { dev = lkm_sandbox.Mev.Read.down s.dev }

  abbrev c₁ : Container
  c₁ = record c { sem = c.sem - 1 }

  abbrev length_left : ℕ
  length_left = to_file_end s.dev.size f_pos count

  -- Under the semaphore, a read stands at the pointer to its quantum.
  abbrev pub StandsAt : Ptr → State U → Type 0
  StandsAt p t =
      read U false buf count f_pos (beside U c cells s)
      ≡ (read_quantum U buf length_left f_pos (place s.dev f_pos) p t >>= λ r. some (released U r))
