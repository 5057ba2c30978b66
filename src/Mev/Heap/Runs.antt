-- ===== src/Mev/Heap/Runs.antt =====
-- lkm_mev.c: several calls one after the other, over the kernel's memory and over the list.
pub mod Answers
pub mod Calls
pub mod Simulates
mod Tests
use lkm_sandbox.Base.{
  ℕ, ◌+◌, ◌^◌, ◌<◌, ℤ, pos, false, Option, none, some, if◌then◌else◌, List, [], ◌∷◌, ◌>>=◌,
}
use lkm_sandbox.Kernel.Uaccess.{Uaccess}
use lkm_sandbox.Mev.Types
use lkm_sandbox.Mev.Read
use lkm_sandbox.Mev.Write
use lkm_sandbox.Mev.Setup.{io_is_wronly}
use lkm_sandbox.Mev.Setup
use lkm_sandbox.Kernel.Slab.{Slab}
use lkm_sandbox.Mev.Heap.{trim}
use lkm_sandbox.Mev.Heap.Io.{State, Io, read, write}

-- A call that is not interrupted: mev_read or mev_write with the buffer, the count and the position,
-- or mev_open with the flags of the file.
pub data Request : Type 0 where
  reading : ℕ → ℕ → ℕ → Request
  writing : ℕ → ℕ → ℕ → Request
  opening : ℕ → Request

-- A call that ends below 4 gigabytes.
abbrev pub Fits : Request → Type 0
Fits (reading buf count f_pos) = f_pos + count < 2 ^ 32
Fits (writing buf count f_pos) = f_pos + count < 2 ^ 32
Fits (opening f_flags) = Unit

-- An int counts the sets of a chain, so one round more than 2 ^ 32 is enough for the outer loop of
-- mev_trim.
abbrev pub rounds : ℕ
rounds = 2 ^ 32 + 1

module _ (U : Uaccess) where
  -- What mev_open leaves, beside the user's memory; a file that was opened stands at 0.
  abbrev pub of_open :
      lkm_sandbox.Mev.Types.State U
      → ℤ × Option lkm_sandbox.Mev.Types.Container × Slab
      → Option (lkm_sandbox.Mev.Types.Io U)
  of_open s (ret, none, slab) = none
  of_open s (ret, some d, slab) =
      some (record { ret = ret; f_pos = 0; state = record s { dev = d; slab = slab } })

  -- mev_open over the kernel's memory, on the container that container_of found.
  unfoldable pub open_device : ℕ → State U → Option (Io U)
  open_device f_flags s =
      if io_is_wronly f_flags
      then (trim rounds s.dev s.memory >>= λ (c, m).
          some (record { ret = pos 0; f_pos = 0; state = record s { dev = c; memory = m } }))
      else some (record { ret = pos 0; f_pos = 0; state = s })

  unfoldable pub list_call :
      Request → lkm_sandbox.Mev.Types.State U → Option (lkm_sandbox.Mev.Types.Io U)
  list_call (reading buf count f_pos) s = lkm_sandbox.Mev.Read.read U false buf count f_pos s
  list_call (writing buf count f_pos) s = lkm_sandbox.Mev.Write.write U false buf count f_pos s
  list_call (opening f_flags) s =
      lkm_sandbox.Mev.Setup.open_device (some s.dev) f_flags s.slab >>= of_open s

  unfoldable pub heap_call : Request → State U → Option (Io U)
  heap_call (reading buf count f_pos) s = read U false buf count f_pos s
  heap_call (writing buf count f_pos) s = write U false buf count f_pos s
  heap_call (opening f_flags) s = open_device f_flags s

  -- The results and the positions of the calls, and the state after them.
  unfoldable pub list_run :
      List Request
      → lkm_sandbox.Mev.Types.State U
      → Option (List (ℤ × ℕ) × lkm_sandbox.Mev.Types.State U)
  list_run [] s = some ([], s)
  list_run (q ∷ qs) s = do
    r ← list_call q s
    (outs, s') ← list_run qs r.state
    some ((r.ret, r.f_pos) ∷ outs, s')

  unfoldable pub heap_run : List Request → State U → Option (List (ℤ × ℕ) × State U)
  heap_run [] s = some ([], s)
  heap_run (q ∷ qs) s = do
    r ← heap_call q s
    (outs, s') ← heap_run qs r.state
    some ((r.ret, r.f_pos) ∷ outs, s')
