-- ===== src/Rehearsals/Files/Tests.antt =====
-- The theorems on rehearsals/read.c and rehearsals/write.c at concrete files.
use lkm_sandbox.Base.{ℕ, ◌≤◌, ◌≡◌, pos, true, false, none, some, List, [], ◌∷◌, length, arith}
use lkm_sandbox.Rehearsals.Files.{Stream, read, main_read, write, main_write}
use lkm_sandbox.Rehearsals.Files.Copies.{read_ends, read-write_file}

abbrev broken : Stream
broken = record { left = 104 ∷ []; fails = true }

read_ends_example :
    (true ≡ false → 1 ≤ 1000 → read 1000 broken ≡ some (104 ∷ []))
    × (true ≡ true → read 1000 broken ≡ none)
read_ends_example = read_ends 1000 broken

enough : length (write (104 ∷ 10 ∷ []) (105 ∷ [])) ≤ 10
unfolding write
enough = omega arith

read-write_file_example :
    (new : List ℕ) × (main_write 3 (some (104 ∷ 10 ∷ [])) (105 ∷ []) ≡ (pos 0, some new))
    × (main_read 10 2 (some (record { left = new; fails = false }))
        ≡ some (pos 0, 104 ∷ 10 ∷ 105 ∷ 10 ∷ []))
read-write_file_example = read-write_file 10 (104 ∷ 10 ∷ []) (105 ∷ []) enough
