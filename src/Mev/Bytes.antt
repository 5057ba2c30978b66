-- ===== src/Mev/Bytes.antt =====
-- The contents of the device as a partial function on positions: what mev_read and mev_write are
-- measured against. A position whose quantum is not allocated has no byte.
use lkm_sandbox.Base.{ℕ, ◌+◌, ◌*◌, ◌/◌, ◌%◌, ◌<◌, ◌≡◌, Option, none, some, List, length, get_elem?}
use lkm_sandbox.Mev.Types.{Quantum, Slots, Qset, Container}

abbrev pub byte_of_slot : Option (Option Quantum) → ℕ → Option ℕ
byte_of_slot none o = none
byte_of_slot (some none) o = none
byte_of_slot (some (some q)) o = get_elem? q.bytes o

abbrev pub byte_of_slots : Option Slots → ℕ → ℕ → Option ℕ
byte_of_slots none i o = none
byte_of_slots (some a) i o = byte_of_slot (get_elem? a.quanta i) o

abbrev pub byte_of_qset : Option Qset → ℕ → ℕ → Option ℕ
byte_of_qset none i o = none
byte_of_qset (some node) i o = byte_of_slots node.slots i o

-- The byte at an offset of a slot of a set of the chain.
abbrev pub byte_in : List Qset → ℕ → ℕ → ℕ → Option ℕ
byte_in chain n i o = byte_of_qset (get_elem? chain n) i o

-- The byte at a position.
unfoldable pub byte_at : Container → ℕ → Option ℕ
byte_at c p =
    let itemsize = c.quantum * c.qset in
    byte_in c.chain (p / itemsize) (p % itemsize / c.quantum) (p % itemsize % c.quantum)

-- The bytes from a position on are those of the list.
abbrev pub Holds : Container → ℕ → List ℕ → Type 0
Holds c p xs = (i : ℕ) → i < length xs → byte_at c (p + i) ≡ get_elem? xs i
