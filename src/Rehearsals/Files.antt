-- ===== src/Rehearsals/Files.antt =====
-- rehearsals/read.c and rehearsals/write.c: copying a file to the output, and appending a line to
-- one. What fopen answers is an input: NULL, or the stream.
pub mod Copies
mod Tests
use lkm_sandbox.Base.{
  ℕ, zero, suc, ◌-◌, ℤ, pos, negsuc, neg, Bool, true, false, Option, none, some, List, [], ◌∷◌,
  ◌++◌, ◌>>=◌, ◌==◌, if◌then◌else◌,
}
use lkm_sandbox.Kernel.Errno.{einval, enoent, eacces}

-- A stream that is read: the chars that are left, and whether an error stands behind them instead
-- of the end of the file.
pub record Stream : Type 0 where
  pub left : List ℕ
  pub fails : Bool

-- fgetc and feof: the char or EOF, and whether the end was met; an error does not set feof.
abbrev pub fgetc : Stream → ℤ × Bool × Stream
fgetc s = elim s.left [
  | [] ↦ (neg 1, if s.fails then false else true, s)
  | c ∷ more ↦ (pos c, false, record s { left = more })
]

-- putc writes the char as an unsigned char.
abbrev pub unsigned_char : ℤ → ℕ
unsigned_char (pos c) = c
unsigned_char (negsuc n) = 255 - n

-- The loop of read.c, `while (!feof(fp))`, with `ch` and feof, on fuel.
unfoldable pub copy : ℕ → ℤ → Bool → Stream → Option (List ℕ)
copy fuel ch true s = some []
copy zero ch false s = none
copy (suc fuel) ch false s =
    let (next, ended, s') = fgetc s in
    do more ← copy fuel next ended s'; some (unsigned_char ch ∷ more)

-- read of read.c: what is put to the output
unfoldable pub read : ℕ → Stream → Option (List ℕ)
read fuel s = let (ch, ended, s') = fgetc s in copy fuel ch ended s'

-- main of read.c: the code of exit, and the output
unfoldable pub main_read : ℕ → ℕ → Option Stream → Option (ℤ × List ℕ)
main_read fuel argc opened =
    if argc == 2
    then elim opened [
      | none ↦ some (neg enoent, [])
      | some s ↦ do out ← read fuel s; some (pos 0, out)
    ]
    else some (neg einval, [])

-- write of write.c: the contents of the file that was opened to append, with the message and a
-- newline behind them
unfoldable pub write : List ℕ → List ℕ → List ℕ
write contents message = contents ++ message ++ 10 ∷ []

-- main of write.c: the code of exit, and the contents of the file where it was opened
unfoldable pub main_write : ℕ → Option (List ℕ) → List ℕ → ℤ × Option (List ℕ)
main_write argc opened message =
    if argc == 3
    then elim opened [
      | none ↦ (neg eacces, none)
      | some contents ↦ (pos 0, some (write contents message))
    ]
    else (neg einval, opened)
