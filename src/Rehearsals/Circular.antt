-- ===== src/Rehearsals/Circular.antt =====
-- rehearsals/circular-buffers/simple_circular_buffer.c: a ring of eight ints in static variables.
-- `none` is an access outside the array.
pub mod Represents
pub mod Refines
mod Tests
use lkm_sandbox.Base.{
  ℕ, zero, suc, ◌+◌, ◌-◌, ℤ, pos, neg, Option, none, some, List, [], ◌∷◌, ◌++◌, ◌>>=◌, ltb, ◌==◌,
  if◌then◌else◌, length, get_elem?, set, replicate,
}

abbrev pub buffer_size : ℕ
buffer_size = 8

-- The static variables.
pub record Buffer : Type 0 where
  pub buffer : List ℤ
  pub buffer_length : ℕ
  pub index_read : ℕ
  pub index_write : ℕ

-- Static variables begin as zeros.
abbrev pub initial : Buffer
initial = record {
  buffer = replicate buffer_size (pos 0);
  buffer_length = 0;
  index_read = 0;
  index_write = 0;
}

-- An index after its increment, back at the start where it has reached the end.
abbrev pub wrap : ℕ → ℕ
wrap i = if i == buffer_size then 0 else i

unfoldable pub read : Buffer → Option (ℤ × Buffer)
read s = if s.buffer_length == 0 then some (neg 1, s) else do
  value ← get_elem? s.buffer s.index_read
  some (
    value,
    record s { index_read = wrap (s.index_read + 1); buffer_length = s.buffer_length - 1 },
  )

unfoldable pub write : ℤ → Buffer → Option Buffer
write value s =
    if s.buffer_length == buffer_size
    then some s
    else if ltb s.index_write (length s.buffer)
    then some (record s {
      buffer = set s.buffer s.index_write value;
      index_write = wrap (s.index_write + 1);
      buffer_length = s.buffer_length + 1;
    })
    else none

-- What the program prints.
pub data Line : Type 0 where
  contents : List (Option ℤ) → Line
  writing : ℕ → Line
  reading : ℕ → Line
  values : List ℤ → Line
  another : Line

-- print_buffer: the loop reads the slots from `i` on.
unfoldable pub slots_from : List ℤ → ℕ → ℕ → List (Option ℤ)
slots_from buffer i zero = []
slots_from buffer i (suc n) = get_elem? buffer i ∷ slots_from buffer (suc i) n

unfoldable pub print_buffer : Buffer → Line
print_buffer s = contents (slots_from s.buffer 0 buffer_size)

-- `for (i = 1; i < BUFFER_SIZE + 1; i++) write(i)`, with the rounds that are left
unfoldable pub write_all : ℕ → ℕ → Buffer → Option Buffer
write_all i zero s = some s
write_all i (suc n) s = write (pos i) s >>= write_all (suc i) n

-- The loop that prints what read returns.
unfoldable pub read_all : ℕ → Buffer → Option (List ℤ × Buffer)
read_all zero s = some ([], s)
read_all (suc n) s = do (value, s') ← read s; (more, s'') ← read_all n s'; some (value ∷ more, s'')

unfoldable pub main : Buffer → Option (List Line × Buffer)
main s = do
  s₁ ← write_all 1 buffer_size s
  (read_values, s₂) ← read_all buffer_size s₁
  s₃ ← write (pos 9) s₂
  some (
    print_buffer s
        ∷ writing buffer_size
        ∷ print_buffer s₁
        ∷ reading buffer_size
        ∷ values read_values
        ∷ print_buffer s₂
        ∷ another
        ∷ print_buffer s₃
        ∷ [],
    s₃,
  )
