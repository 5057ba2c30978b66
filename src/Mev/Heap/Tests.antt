-- ===== src/Mev/Heap/Tests.antt =====
-- lkm_mev.c over the kernel's memory: runs on a small chain, and the theorems there.
use lkm_sandbox.Base.{◌≡◌, refl, none, some, [], ◌∷◌, ◌==◌, if◌then◌else◌, arith}
use lkm_sandbox.Kernel.Slab.{Call}
use lkm_sandbox.Mev.Types.{Quantum, Qset}
use lkm_sandbox.Mev.Types
use lkm_sandbox.Mev.Trim
use lkm_sandbox.Mev.Heap.{
  qset, array, quantum, Cells, Memory, Container, put, load_qset, load_item, free, new_qset, walk,
  follow, free_items, free_data, free_sets, trim,
}
use lkm_sandbox.Mev.Heap.Layout.{quanta_places, layout, has, Holds, Represents}
use lkm_sandbox.Mev.Heap.Grows.{Available}
use lkm_sandbox.Mev.Heap.Items.{IsRest}
use lkm_sandbox.Mev.Heap.Trims.{trim_refines}

-- Two sets, the second one with an array of three and a quantum of two bytes.
abbrev second : Qset
second = record {
  addr = 2;
  slots = some (record {
    addr = 3;
    quanta = none ∷ some (record { addr = 4; bytes = 70 ∷ 15 ∷ [] }) ∷ none ∷ [];
  });
}

abbrev listed : lkm_sandbox.Mev.Types.Container
listed = record {
  chain = record { addr = 1; slots = none } ∷ second ∷ [];
  quantum = 2;
  qset = 3;
  size = 10;
  sem = 1;
}

abbrev cells : Cells
cells a =
    if a == 1
    then some (qset 0 2)
    else if a == 2
    then some (qset 3 0)
    else if a == 3
    then some (array (0 ∷ 4 ∷ 0 ∷ []))
    else if a == 4
    then some (quantum (70 ∷ 15 ∷ []))
    else if a == 9
    then some (quantum [])
    else none

abbrev memory : Memory
memory = record {
  cells = cells;
  slab = record { answers = some (record { addr = 5; stale = λ i. 0 }) ∷ none ∷ []; log = [] };
}

abbrev device : Container
device = record { chain = 1; quantum = 2; qset = 3; size = 10; sem = 1 }

device-Represents : Represents device cells listed
unfolding Holds layout quanta_places has
device-Represents = record {
  first = refl;
  quantum = refl;
  qset = refl;
  size = refl;
  sem = refl;
  holds = (
    λ e. absurd (ground arith),
    refl,
    refl,
    (
      λ e. absurd (ground arith),
      refl,
      refl,
      (λ e. absurd (ground arith), refl, refl, (λ e. absurd (ground arith), refl, refl, tt)),
    ),
  );
}

memory-Available : Available memory.cells memory.slab.answers
unfolding Available
memory-Available = (λ e. absurd (ground arith), refl, tt)

-- One set more than there are is linked behind the last one.
follow_two :
    (m : Memory) × (follow device 2 memory ≡ some (5, device, m)) × (m.cells 2 ≡ some (qset 3 5))
unfolding follow walk load_qset new_qset put
follow_two = (_, refl, refl)

trim_log :
    (c : Container) × (m : Memory) × (trim 3 device memory ≡ some (c, m))
    × (m.slab.log ≡ Call.freed 2 ∷ Call.freed 3 ∷ Call.freed 4 ∷ Call.freed 1 ∷ [])
    × (m.cells 9 ≡ some (quantum []))
unfolding trim free_sets free_data free_items load_qset load_item free put
trim_log = (_, _, refl, refl, refl)

trim_refines_example :
    (c' : Container) × (m' : Memory) × (d' : lkm_sandbox.Mev.Types.Container) × (trim 3 device
        memory
      ≡ some (c', m'))
    × (lkm_sandbox.Mev.Trim.trim listed memory.slab ≡ some (d', m'.slab))
    × Represents c' m'.cells d'
    × IsRest (layout listed.chain) memory.cells m'.cells
trim_refines_example =
    trim_refines 3 device memory listed device-Represents (tt, ((refl, (tt, (refl, (tt, tt)))), tt))
      (omega arith)
