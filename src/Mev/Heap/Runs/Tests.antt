-- ===== src/Mev/Heap/Runs/Tests.antt =====
-- lkm_mev.c, several calls over the kernel's memory: a run, and the theorem there.
use lkm_sandbox.Base.{none, ℤ, ℕ, ◌≡◌, some, List, [], ◌∷◌, pos, refl, arith}
use lkm_sandbox.Kernel.Flat.{flat, flat-IsLawful}
use lkm_sandbox.Kernel.Slab.{Call}
use lkm_sandbox.Mev.Types.{locate}
use lkm_sandbox.Mev.Types
use lkm_sandbox.Mev.Setup.{io_is_wronly}
use lkm_sandbox.Mev.Heap.{
  Container, Cells, put, load_qset, new_qset, walk, follow, trim, free_sets, free_data, free_items,
  free, load_item,
}
use lkm_sandbox.Mev.Heap.Access.{
  alloc, load_bytes, load_array, find, grow_array, grow_quantum, grow,
}
use lkm_sandbox.Mev.Heap.Io.{
  deliver, read_quantum, read_at, read_locked, read, write, write_locked, write_at, write_node,
  receive,
}
use lkm_sandbox.Mev.Heap.Io.Agrees.{beside}
use lkm_sandbox.Mev.Heap.Io.Sample.{
  listed, cells, device, device-Represents, cells-Available, listed-IsValid,
}
use lkm_sandbox.Mev.Heap.Io.{State, Io}
use lkm_sandbox.Mev.Heap.Runs.{
  Request, reading, writing, opening, list_run, open_device, heap_call, heap_run,
}
use lkm_sandbox.Mev.Heap.Runs.Calls.{Between}
use lkm_sandbox.Mev.Heap.Runs.Simulates.{run_refines}

-- A write links a set, an array and a quantum, a read sees the byte, an open for writing only frees
-- all of them, one for both frees nothing, and a read finds nothing.
abbrev requests : List Request
requests = writing 5 1 9 ∷ reading 40 4 8 ∷ opening 1 ∷ opening 2 ∷ reading 40 4 8 ∷ []

sample-Between : Between flat device cells listed
sample-Between = record {
  valid = listed-IsValid;
  free = omega arith;
  represents = device-Represents;
  available = cells-Available;
}

requests_run :
    (c : Container) × (m : Cells) × (l : List Call) × (u : ℕ → ℕ) × (heap_run flat requests
        (beside flat device cells listed)
      ≡ some (
        (pos 1, 10) ∷ (pos 2, 10) ∷ (pos 0, 0) ∷ (pos 0, 0) ∷ (pos 0, 8) ∷ [],
        record {
          dev = c;
          memory = record { cells = m; slab = record { answers = []; log = l } };
          user = u;
        },
      ))
    × (u 40 ≡ 90)
    × (u 41 ≡ 15)
    × (m 1 ≡ none)
    × (m 6 ≡ none)
    × (c.chain ≡ 0)
unfolding heap_run heap_call open_device io_is_wronly read read_locked read_at read_quantum deliver
    trim free_sets free_data free_items free load_item write write_locked write_at write_node
    receive grow grow_array grow_quantum alloc load_bytes load_array load_qset new_qset walk follow
    locate put find
requests_run = (_, _, _, _, refl, refl, refl, refl, refl, refl)

run_refines_example :
    (outs : List (ℤ × ℕ)) × (s' : lkm_sandbox.Mev.Types.State flat) × (c' : Container)
    × (cells' : Cells) × (list_run flat requests listed ≡ some (outs, s'))
    × (heap_run flat requests (beside flat device cells listed)
        ≡ some (outs, beside flat c' cells' s'))
    × Between flat c' cells' s'
run_refines_example =
    run_refines flat flat-IsLawful requests
      (omega arith, (omega arith, (tt, (tt, (omega arith, tt))))) device cells listed sample-Between
