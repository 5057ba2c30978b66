-- ===== src/Mev/Heap/Io/Sample.antt =====
-- lkm_mev.c: a device in the kernel's memory, for tests.
use lkm_sandbox.Base.{refl, none, some, [], ◌∷◌, ◌+◌, ◌==◌, if◌then◌else◌, arith}
use lkm_sandbox.Kernel.Flat.{flat}
use lkm_sandbox.Mev.Types.{IsValid, locate}
use lkm_sandbox.Mev.Types
use lkm_sandbox.Mev.Heap.{qset, array, quantum, Cells, Container, put}
use lkm_sandbox.Mev.Heap.Layout.{layout, quanta_places, has, Holds, Represents}
use lkm_sandbox.Mev.Heap.Grows.{Available}

-- One set with one quantum of two bytes, in an array of three.
abbrev pub listed : lkm_sandbox.Mev.Types.State flat
listed = record {
  dev = record {
    chain =
        record {
          addr = 1;
          slots = some (record {
            addr = 2;
            quanta = some (record { addr = 3; bytes = 70 ∷ 15 ∷ [] }) ∷ none ∷ none ∷ [];
          });
        }
        ∷ [];
    quantum = 2;
    qset = 3;
    size = 2;
    sem = 1;
  };
  slab = record {
    answers =
        some (record { addr = 4; stale = λ i. 0 })
        ∷ some (record { addr = 5; stale = λ i. 0 })
        ∷ some (record { addr = 6; stale = λ i. 90 + i })
        ∷ [];
    log = [];
  };
  user = λ a. a + 10;
}

abbrev pub cells : Cells
cells a =
    if a == 1
    then some (qset 2 0)
    else if a == 2
    then some (array (3 ∷ 0 ∷ 0 ∷ []))
    else if a == 3
    then some (quantum (70 ∷ 15 ∷ []))
    else none

abbrev pub device : Container
device = record { chain = 1; quantum = 2; qset = 3; size = 2; sem = 1 }

pub device-Represents : Represents device cells listed.dev
unfolding Holds layout quanta_places has
device-Represents = record {
  first = refl;
  quantum = refl;
  qset = refl;
  size = refl;
  sem = refl;
  holds = (
    λ e. absurd (ground arith),
    refl,
    refl,
    (λ e. absurd (ground arith), refl, refl, (λ e. absurd (ground arith), refl, refl, tt)),
  );
}

pub cells-Available : Available cells listed.slab.answers
unfolding Available put
cells-Available = (
  λ e. absurd (ground arith),
  refl,
  (λ e. absurd (ground arith), refl, (λ e. absurd (ground arith), refl, tt)),
)

pub listed-IsValid : IsValid listed.dev
listed-IsValid = omega arith
