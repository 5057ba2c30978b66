-- ===== src/Proc.antt =====
-- lkm_proc.c: a file of /proc that shows a greeting.
pub mod Loads
mod Tests
use lkm_sandbox.Base.{ℕ, ℤ, pos, Bool, List, [], ◌∷◌, ◌++◌, if◌then◌else◌}
use lkm_sandbox.Kernel.Ledger.{Event, acquired, released, entry}

-- "Hello, /proc!"
abbrev pub message : List ℕ
message = 72 ∷ 101 ∷ 108 ∷ 108 ∷ 111 ∷ 44 ∷ 32 ∷ 47 ∷ 112 ∷ 114 ∷ 111 ∷ 99 ∷ 33 ∷ []

-- The number that stands for LKM_PROC_FILE_NAME.
abbrev pub file_name : ℕ
file_name = 1

-- lkm_proc_show
unfoldable pub show : List ℕ → ℤ × List ℕ
show seq = (pos 0, (seq ++ message) ++ 10 ∷ [])

-- lkm_proc_init; `made` says whether proc_create_single has made the file. The module is loaded
-- either way.
unfoldable pub init : Bool → List Event → ℤ × List Event
init made ledger = (pos 0, if made then acquired (entry 0 file_name) ∷ ledger else ledger)

-- lkm_proc_exit
unfoldable pub exit : List Event → List Event
exit ledger = released (entry 0 file_name) ∷ ledger
