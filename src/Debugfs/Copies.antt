-- ===== src/Debugfs/Copies.antt =====
-- lkm_debugfs.c: reading and writing the message.
use native.Mathlib.Decide.{dec_lt}
use lkm_sandbox.Base.{
  ◌-◌, get_elem?, get_elem?-take, get_elem?-drop, ℕ, ◌+◌, ◌≤◌, ◌<◌, ◌≡◌, sym, ap, ◌∙◌, ◌⊎◌, inl,
  inr, pos, neg, List, length, drop, ltb, Bool-cases, arith,
}
use lkm_sandbox.Kernel.Errno.{einval}
use lkm_sandbox.Kernel.SimpleIo.{SimpleIo, IsLawful}
use lkm_sandbox.Debugfs.{Debug, content_len, debug_read, debug_write}

module _ (S : SimpleIo) (L : IsLawful S) where
  -- Where the contents are of 200 bytes: a write of more than 200 bytes fails with -EINVAL and
  -- changes nothing. Any other write leaves contents of 200 bytes, and where it returns `n`, the
  -- position has advanced by `n`, which is at most `count`, and is not beyond the contents, unless
  -- `n` is 0.
  pub write_bounds :
      (mem : S.Memory) (buffer count position : ℕ) (s : Debug)
      → length s.content ≡ content_len
      → ((content_len < count)
          × (debug_write S mem buffer count position s ≡ (neg einval, position, s)))
        ⊎ ((count ≤ content_len)
            × (length (debug_write S mem buffer count position s).2.content ≡ content_len)
            × ((n : ℕ)
                → (debug_write S mem buffer count position s).0 ≡ pos n
                → (n ≤ count)
                  × ((debug_write S mem buffer count position s).1 ≡ position + n)
                  × ((n ≡ 0) ⊎ (position + n ≤ content_len))))
  unfolding debug_write
  write_bounds mem buffer count position s full = elim (Bool-cases (ltb content_len count)) [
    | inl large ↦ inl (ground arith, ground arith)
    | inr small ↦ inr (
      ground arith,
      rw small (L.length-write_to_buffer s.content content_len position mem buffer count full),
      λ n. rw small (λ h.
          let (le, fits, at, _) =
            L.write_done s.content content_len position mem buffer count n full h in
          (le, at, fits)),
    )
  ]

  -- A write that is not too large is that of simple_write_to_buffer.
  write_small :
      (mem : S.Memory) (buffer count position : ℕ) (s : Debug)
      → count ≤ content_len
      → ((debug_write S mem buffer count position s).0
          ≡ (S.write_to_buffer s.content content_len position mem buffer count).0)
        × ((debug_write S mem buffer count position s).2.content
            ≡ (S.write_to_buffer s.content content_len position mem buffer count).2)
  unfolding debug_write
  write_small mem buffer count position s small = (ground arith, ground arith)

  -- A write of which some bytes were copied was not too large.
  write_fits :
      (mem : S.Memory) (buffer count position n : ℕ) (s : Debug)
      → (debug_write S mem buffer count position s).0 ≡ pos n
      → count ≤ content_len
  unfolding debug_write
  write_fits mem buffer count position n s wrote = elim (Bool-cases (ltb content_len count)) [
    | inl large ↦ absurd (ground arith)
    | inr small ↦ ground arith
  ]

  -- What a read that returns `m` has put at the `i`-th place of the buffer.
  read_byte :
      (mem : S.Memory) (buffer count position m i : ℕ) (s : Debug)
      → length s.content ≡ content_len
      → (debug_read S mem buffer count position s).0 ≡ pos m
      → i < m
      → get_elem? (S.bytes (debug_read S mem buffer count position s).2 buffer m) i
        ≡ get_elem? s.content (position + i)
  unfolding debug_read
  read_byte mem buffer count position m i s whole got lt =
      let (_, _, _, read) =
        L.read_done mem buffer count position s.content content_len m whole got in
      ap (λ (xs : List ℕ). get_elem? xs i) read
      ∙ get_elem?-take m (drop position s.content) i lt
      ∙ get_elem?-drop position s.content i

  -- Where the contents are of 200 bytes: let a write of `count` bytes return `n`, and then a read,
  -- at any position, return `m`. Then `n` is at most `count`, and `count` at most 200. Each of the
  -- `m` bytes that the user's buffer begins with is the one that was written, where it stands at one
  -- of the `n` positions from that of the write on; the one that stood there before the write, where
  -- it stands before the write's position or at least `count` behind it; or it stands behind the
  -- `n` bytes, before `count`, of a write that was broken off.
  pub read-write_message :
      (mem mem₁ : S.Memory) (buffer count position buffer₁ count₁ position₁ n m i : ℕ) (s : Debug)
      → length s.content ≡ content_len
      → (debug_write S mem buffer count position s).0 ≡ pos n
      → (debug_read S mem₁ buffer₁ count₁ position₁ (debug_write S mem buffer count position s).2).0
        ≡ pos m
      → i < m
      → let s' = (debug_write S mem buffer count position s).2 in
        let byte =
          get_elem? (S.bytes (debug_read S mem₁ buffer₁ count₁ position₁ s').2 buffer₁ m) i in
        (n ≤ count)
        × (count ≤ content_len)
        × (((k : ℕ) × (position₁ + i ≡ position + k)
              × (k < n)
              × (byte ≡ get_elem? (S.bytes mem buffer n) k))
            ⊎ (((position₁ + i < position) ⊎ (position + count ≤ position₁ + i))
                × (byte ≡ get_elem? s.content (position₁ + i)))
            ⊎ ((position + n ≤ position₁ + i) × (position₁ + i < position + count)))
  read-write_message mem mem₁ buffer count position buffer₁ count₁ position₁ n m i s full wrote got
        lt =
      let small = write_fits mem buffer count position n s wrote in
      let (same_ret, same_content) = write_small mem buffer count position s small in
      let s' = (debug_write S mem buffer count position s).2 in
      let whole : length s'.content ≡ content_len =
        ap length same_content
        ∙ L.length-write_to_buffer s.content content_len position mem buffer count full in
      let (le, _, _, stored) =
        L.write_done s.content content_len position mem buffer count n full
          (sym same_ret ∙ wrote) in
      let read =
        read_byte mem₁ buffer₁ count₁ position₁ m i s' whole got lt
        ∙ ap (λ (xs : List ℕ). get_elem? xs (position₁ + i)) same_content in
      let kept = λ (out : (position₁ + i < position) ⊎ (position + count ≤ position₁ + i)).
        L.write_frame s.content content_len position mem buffer count (position₁ + i) full out in
      (
        le,
        small,
        elim (dec_lt (position₁ + i) position) [
          | yes before ↦ inr (inl (inl before, read ∙ kept (inl before)))
          | no after ↦ elim (dec_lt (position₁ + i) (position + n)) [
            | yes inside ↦
                let k = position₁ + i - position in
                let at : position₁ + i ≡ position + k = omega arith in
                inl (k, at, omega arith, read ∙ ap (get_elem? _) at ∙ stored k (omega arith))
            | no behind ↦ elim (dec_lt (position₁ + i) (position + count)) [
              | yes cleared ↦ inr (inr (omega arith, cleared))
              | no past ↦ inr (inl (inr (omega arith), read ∙ kept (inr (omega arith))))
            ]
          ]
        ],
      )
