-- ===== src/Mev/Heap/Io/Tests.antt =====
-- lkm_mev.c, mev_read and mev_write over the kernel's memory: a run, and the theorems there.
use lkm_sandbox.Base.{◌≡◌, refl, false, some, List, [], ◌∷◌, pos, arith}
use lkm_sandbox.Kernel.Flat.{flat, flat-IsLawful}
use lkm_sandbox.Kernel.Slab.{Call}
use lkm_sandbox.Mev.Types.{IsValid, locate}
use lkm_sandbox.Mev.Types
use lkm_sandbox.Mev.Read
use lkm_sandbox.Mev.Write
use lkm_sandbox.Mev.Heap.{
  qset, array, quantum, Cells, Container, put, load_qset, new_qset, walk, follow,
}
use lkm_sandbox.Mev.Heap.Layout.{Represents}
use lkm_sandbox.Mev.Heap.Grows.{Available}
use lkm_sandbox.Mev.Heap.Access.{alloc, load_bytes, load_array, grow_array, grow_quantum, grow}
use lkm_sandbox.Mev.Heap.Io.{read, write, write_locked, write_at, write_node, receive}
use lkm_sandbox.Mev.Heap.Io.Agrees.{beside, result}
use lkm_sandbox.Mev.Heap.Io.Reads.{read_refines}
use lkm_sandbox.Mev.Heap.Io.Writes.{write_refines}
use lkm_sandbox.Mev.Heap.Io.Sample.{
  listed, cells, device, device-Represents, cells-Available, listed-IsValid,
}

-- A write of one byte at the position 9 links a set, an array and a quantum.
write_runs :
    (c : Container) × (m : Cells) × (l : List Call) × (write flat false 5 1 9
        (beside flat device cells listed)
      ≡ some (record {
        ret = pos 1;
        f_pos = 10;
        state = record {
          dev = record c { size = 10 };
          memory = record { cells = m; slab = record { answers = []; log = l } };
          user = listed.user;
        };
      }))
    × (m 1 ≡ some (qset 2 4))
    × (m 4 ≡ some (qset 5 0))
    × (m 5 ≡ some (array (0 ∷ 6 ∷ 0 ∷ [])))
    × (m 6 ≡ some (quantum (90 ∷ 15 ∷ [])))
unfolding write write_locked write_at write_node receive grow grow_array grow_quantum alloc
    load_bytes load_array load_qset new_qset walk follow locate put
write_runs = (device, _, _, refl, refl, refl, refl, refl)

write_refines_example :
    (r : lkm_sandbox.Mev.Types.Io flat) × (c' : Container) × (cells' : Cells)
    × (lkm_sandbox.Mev.Write.write flat false 5 1 9 listed ≡ some r)
    × (write flat false 5 1 9 (beside flat device cells listed) ≡ some (result flat c' cells' r))
    × Represents c' cells' r.state.dev
    × Available cells' r.state.slab.answers
write_refines_example =
    write_refines flat flat-IsLawful listed listed-IsValid (omega arith) 5 1 9 (omega arith) device
      cells device-Represents cells-Available

read_refines_example :
    (r : lkm_sandbox.Mev.Types.Io flat) × (c' : Container) × (cells' : Cells)
    × (lkm_sandbox.Mev.Read.read flat false 5 9 1 listed ≡ some r)
    × (read flat false 5 9 1 (beside flat device cells listed) ≡ some (result flat c' cells' r))
    × Represents c' cells' r.state.dev
    × Available cells' r.state.slab.answers
read_refines_example =
    read_refines flat listed listed-IsValid (omega arith) 5 9 1 (omega arith) device cells
      device-Represents cells-Available
