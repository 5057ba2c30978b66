-- ===== src/Rehearsals/Circular/Represents.antt =====
-- simple_circular_buffer.c: when the ring stands for a queue, and how its two operations act on
-- the queue.
use lkm_sandbox.Base.{
  ℕ, zero, suc, ◌+◌, ◌%◌, ◌≤◌, ◌<◌, ◌≡◌, ◌≢◌, refl, ◌∙◌, sym, ℤ, neg, some, List, [], ◌∷◌, ◌++◌,
  length, get_elem?, set, length-append, length-set, get_elem?-set_self, get_elem?-set_ne, arith,
}
use native.Mathlib.Decide.{ℕ_discrete}
use lkm_sandbox.Rehearsals.Circular.{buffer_size, Buffer, wrap, read, write}

-- The ring holds the queue from the read index on, around the end of the array.
pub record Represents (s : Buffer) (q : List ℤ) : Type 0 where
  pub whole : length s.buffer ≡ buffer_size
  pub counted : s.buffer_length ≡ length q
  pub bounded : length q ≤ buffer_size
  pub reads : s.index_read < buffer_size
  pub writes : s.index_write ≡ (s.index_read + length q) % buffer_size
  pub holds :
      (k : ℕ) → k < length q → get_elem? s.buffer ((s.index_read + k) % buffer_size) ≡ get_elem? q k

get_elem?-append_left :
    (q : List ℤ) (v : ℤ) (k : ℕ) → k < length q → get_elem? (q ++ v ∷ []) k ≡ get_elem? q k
get_elem?-append_left [] v k h = absurd (omega arith)
get_elem?-append_left (x ∷ q) v zero h = refl
get_elem?-append_left (x ∷ q) v (suc k) h = get_elem?-append_left q v k (omega arith)

get_elem?-append_last : (q : List ℤ) (v : ℤ) → get_elem? (q ++ v ∷ []) (length q) ≡ some v
get_elem?-append_last [] v = refl
get_elem?-append_last (x ∷ q) v = get_elem?-append_last q v

at_front : (i : ℕ) → i < buffer_size → i ≡ (i + 0) % buffer_size
at_front i h = omega arith

-- An empty ring returns -1 and stays as it is.
pub read_empty : (s : Buffer) → Represents s [] → read s ≡ some (neg 1, s)
unfolding read
read_empty s r = ground (arith, r.counted)

-- A ring that is not empty returns the front of the queue and holds the rest.
pub read_front :
    (s : Buffer) (x : ℤ) (q : List ℤ)
    → Represents s (x ∷ q)
    → (s' : Buffer) × (read s ≡ some (x, s')) × Represents s' q
unfolding read
read_front s x q r =
    let front : get_elem? s.buffer s.index_read ≡ some x =
      rw (at_front s.index_read r.reads) (r.holds 0 (omega arith)) in
    (
      record s { index_read = wrap (s.index_read + 1); buffer_length = length q },
      ground (arith, r.counted),
      record {
        whole = r.whole;
        counted = refl;
        bounded = omega (arith, r.bounded);
        reads = ground (arith, r.reads);
        writes = ground (arith, r.reads, r.writes);
        holds = λ k h. shifted k h;
      },
    )
  where
    shifted :
        (k : ℕ)
        → k < length q
        → get_elem? s.buffer ((wrap (s.index_read + 1) + k) % buffer_size) ≡ get_elem? q k
    shifted k h =
        let same : (wrap (s.index_read + 1) + k) % buffer_size
            ≡ (s.index_read + suc k) % buffer_size =
          ground (arith, r.reads) in
        rw same (r.holds (suc k) (omega arith))

-- A full ring drops what is written.
pub write_full :
    (s : Buffer) (q : List ℤ) (v : ℤ) → Represents s q → length q ≡ buffer_size → write v s ≡ some s
unfolding write
write_full s q v r full = ground (arith, r.counted)

-- A ring that is not full holds the queue with the value behind it.
pub write_back :
    (s : Buffer) (q : List ℤ) (v : ℤ)
    → Represents s q
    → length q ≢ buffer_size
    → (s' : Buffer) × (write v s ≡ some s') × Represents s' (q ++ v ∷ [])
unfolding write
write_back s q v r space = (
  record s {
    buffer = set s.buffer s.index_write v;
    index_write = wrap (s.index_write + 1);
    buffer_length = s.buffer_length + 1;
  },
  ground (arith, r.counted, r.writes, r.whole, r.reads),
  record {
    whole = omega (arith, r.whole, length-set s.buffer s.index_write v);
    counted = omega (arith, r.counted, length-append q (v ∷ []));
    bounded = omega (arith, r.bounded, length-append q (v ∷ []));
    reads = r.reads;
    writes = ground (arith, r.writes, r.reads, r.bounded, length-append q (v ∷ []));
    holds = λ k h. added k h;
  },
)
  where
    added :
        (k : ℕ)
        → k < length (q ++ v ∷ [])
        → get_elem? (set s.buffer s.index_write v) ((s.index_read + k) % buffer_size)
          ≡ get_elem? (q ++ v ∷ []) k
    added k h = elim (ℕ_discrete k (length q)) [
      | yes last ↦
          let at : (s.index_read + k) % buffer_size ≡ s.index_write = omega (arith, r.writes) in
          rw (at, last)
            (get_elem?-set_self s.buffer s.index_write v (omega (arith, r.writes, r.whole))
              ∙ sym (get_elem?-append_last q v))
      | no other ↦
          let lt : k < length q = omega (arith, length-append q (v ∷ [])) in
          get_elem?-set_ne s.buffer s.index_write ((s.index_read + k) % buffer_size) v
            (omega (arith, r.writes, r.bounded, r.reads))
          ∙ r.holds k lt
          ∙ sym (get_elem?-append_left q v k lt)
    ]
