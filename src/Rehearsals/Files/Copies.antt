-- ===== src/Rehearsals/Files/Copies.antt =====
-- rehearsals/read.c and rehearsals/write.c: what is copied, and when the loop ends.
use lkm_sandbox.Base.{
  ℕ, zero, suc, ◌≤◌, ◌≡◌, refl, ℤ, pos, negsuc, Bool, true, false, none, some, List, [], ◌∷◌, ◌++◌,
  length, arith,
}
use lkm_sandbox.Rehearsals.Files.{Stream, copy, read, main_read, write, main_write}

-- The loop with a char in hand and those that are left.
copy_whole :
    (fuel c : ℕ) (chars : List ℕ)
    → suc (length chars) ≤ fuel
    → copy fuel (pos c) false (record { left = chars; fails = false }) ≡ some (c ∷ chars)
unfolding copy
copy_whole zero c chars h = absurd (omega arith)
copy_whole (suc fuel) c [] h = refl
copy_whole (suc fuel) c (x ∷ chars) h = rw (copy_whole fuel x chars (omega arith)) refl

copy_failing :
    (fuel : ℕ) (ch : ℤ) (chars : List ℕ)
    → copy fuel ch false (record { left = chars; fails = true }) ≡ none
unfolding copy
copy_failing zero ch chars = refl
copy_failing (suc fuel) ch [] = rw (copy_failing fuel (negsuc 0) []) refl
copy_failing (suc fuel) ch (c ∷ chars) = rw (copy_failing fuel (pos c) chars) refl

read_whole :
    (fuel : ℕ) (chars : List ℕ)
    → length chars ≤ fuel
    → read fuel (record { left = chars; fails = false }) ≡ some chars
unfolding read copy
read_whole fuel [] h = refl
read_whole fuel (c ∷ chars) h = copy_whole fuel c chars (omega arith)

read_failing :
    (fuel : ℕ) (chars : List ℕ) → read fuel (record { left = chars; fails = true }) ≡ none
unfolding read
read_failing fuel [] = copy_failing fuel (negsuc 0) []
read_failing fuel (c ∷ chars) = copy_failing fuel (pos c) chars

-- Where no read of the file fails, read.c puts out the contents of the file and ends, after at most
-- as many rounds as there are chars. Where a read fails, its loop never ends.
pub read_ends :
    (fuel : ℕ) (s : Stream)
    → (s.fails ≡ false → length s.left ≤ fuel → read fuel s ≡ some s.left)
      × (s.fails ≡ true → read fuel s ≡ none)
read_ends fuel s = go s.left s.fails
  where
    go :
        (chars : List ℕ) (b : Bool)
        → (b ≡ false
            → length chars ≤ fuel
            → read fuel (record { left = chars; fails = b }) ≡ some chars)
          × (b ≡ true → read fuel (record { left = chars; fails = b }) ≡ none)
    go chars false = (λ _ h. read_whole fuel chars h, λ e. absurd (ground arith))
    go chars true = ((λ e _. absurd (ground arith)), λ _. read_failing fuel chars)

-- A file to which write.c has appended a message is copied by read.c, where no read fails, with the
-- message and a newline behind what it held before, and both exit with 0; one round for each char
-- is enough.
pub read-write_file :
    (fuel : ℕ) (contents message : List ℕ)
    → length (write contents message) ≤ fuel
    → (new : List ℕ) × (main_write 3 (some contents) message ≡ (pos 0, some new))
      × (main_read fuel 2 (some (record { left = new; fails = false }))
          ≡ some (pos 0, contents ++ message ++ 10 ∷ []))
unfolding main_write main_read write
read-write_file fuel contents message enough = (
  contents ++ message ++ 10 ∷ [],
  refl,
  rw
      ((read_ends fuel (record { left = contents ++ message ++ 10 ∷ []; fails = false })).0 refl
        enough)
      refl,
)
