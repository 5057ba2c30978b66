-- ===== src/Kernel/SimpleIo.antt =====
-- simple_read_from_buffer and simple_write_to_buffer, over an unknown user memory.
use lkm_sandbox.Base.{ℕ, ◌+◌, ◌≤◌, ◌<◌, ◌≡◌, ◌⊎◌, ℤ, pos, List, length, take, drop, get_elem?}

pub record SimpleIo : Type 1 where
  pub Memory : Type 0
  pub bytes : Memory → ℕ → ℕ → List ℕ
  -- memory, buffer, count, position, source and its size; the result, the position and the memory
  pub read_from_buffer : Memory → ℕ → ℕ → ℕ → List ℕ → ℕ → ℤ × ℕ × Memory
  -- destination, its size, position, memory, buffer and count; the result, the position and the
  -- destination
  pub write_to_buffer : List ℕ → ℕ → ℕ → Memory → ℕ → ℕ → ℤ × ℕ × List ℕ

-- What their documentation promises: the number of bytes that were copied is returned, the position
-- is advanced by it, and no more is copied than fits. Where a copy to the destination breaks off,
-- what stands behind the bytes that were copied, up to `count`, is left open: it is cleared.
pub record IsLawful (S : SimpleIo) : Type 0 where
  pub length-bytes : (m : S.Memory) (buf n : ℕ) → length (S.bytes m buf n) ≡ n
  pub read_done :
      (m : S.Memory) (buf count p : ℕ) (from : List ℕ) (size n : ℕ)
      → length from ≡ size
      → (S.read_from_buffer m buf count p from size).0 ≡ pos n
      → let r = S.read_from_buffer m buf count p from size in
        (n ≤ count)
        × ((n ≡ 0) ⊎ (p + n ≤ size))
        × (r.1 ≡ p + n)
        × (S.bytes r.2 buf n ≡ take n (drop p from))
  pub length-write_to_buffer :
      (to : List ℕ) (size p : ℕ) (m : S.Memory) (buf count : ℕ)
      → length to ≡ size
      → length (S.write_to_buffer to size p m buf count).2 ≡ size
  pub write_done :
      (to : List ℕ) (size p : ℕ) (m : S.Memory) (buf count n : ℕ)
      → length to ≡ size
      → (S.write_to_buffer to size p m buf count).0 ≡ pos n
      → let r = S.write_to_buffer to size p m buf count in
        (n ≤ count)
        × ((n ≡ 0) ⊎ (p + n ≤ size))
        × (r.1 ≡ p + n)
        × ((k : ℕ) → k < n → get_elem? r.2 (p + k) ≡ get_elem? (S.bytes m buf n) k)
  pub write_frame :
      (to : List ℕ) (size p : ℕ) (m : S.Memory) (buf count i : ℕ)
      → length to ≡ size
      → (i < p) ⊎ (p + count ≤ i)
      → get_elem? (S.write_to_buffer to size p m buf count).2 i ≡ get_elem? to i
