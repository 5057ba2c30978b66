-- ===== src/Mev/Read/Ends.antt =====
-- lkm_mev.c, mev_read: how a read on a valid device ends.
use lkm_sandbox.Base.{
  ℕ, ◌+◌, ◌-◌, ◌*◌, ◌/◌, ◌%◌, ◌^◌, ◌≤◌, ◌<◌, ◌≡◌, ◌≢◌, ap, ◌⊎◌, inl, inr, true, false, Option, none,
  some, List, length, get_elem?, take, drop, length-take, length-drop, get_elem?-take,
  get_elem?-drop, get_elem?_of_lt, min, pos, arith, ◌>>=◌,
}
use native.Mathlib.Decide.{dec_lt}
use lkm_sandbox.Kernel.Uaccess.{Uaccess}
use lkm_sandbox.Mev.Types.{Quantum, Container, State, Io, Place, IsValid, sem-IsValid}
use lkm_sandbox.Mev.Place.{place, slot-lt, offset-lt, advance, locate_lem, item-lt}
use lkm_sandbox.Mev.Walk.{follow_inside}
use lkm_sandbox.Mev.Bytes.{byte_in, byte_at, Holds}
use lkm_sandbox.Mev.Read.{
  absent, present, lookup, slice, to_quantum_end, to_file_end, down, deliver, read_at, read_locked,
  released, read,
}
use lkm_sandbox.Mev.Read.Agrees.{Agrees, lookup-Agrees}

-- How many bytes a read of `count` bytes at a position below the end is cut to.
abbrev pub read_length : Container → ℕ → ℕ → ℕ
read_length c f_pos count =
    min count (min (c.size - f_pos) (c.quantum - f_pos % (c.quantum * c.qset) % c.quantum))

cut_lem :
    (size quantum q_pos f_pos count : ℕ)
    → f_pos < size
    → f_pos + count < 2 ^ 64
    → to_quantum_end quantum q_pos (to_file_end size f_pos count)
      ≡ min count (min (size - f_pos) (quantum - q_pos))
cut_lem size quantum q_pos f_pos count h k = ground arith

slice_lem : (i n : ℕ) (xs : List ℕ) → i + n ≤ length xs → slice i n xs ≡ some (take n (drop i xs))
slice_lem i n xs h = ground arith

-- The slice of a quantum that agrees with the byte map holds the bytes of its positions.
slice-Holds :
    (c : Container) (p n : ℕ) (q : Quantum)
    → IsValid c
    → p % (c.quantum * c.qset) % c.quantum + n ≤ c.quantum
    → ((o : ℕ)
        → byte_in c.chain (p / (c.quantum * c.qset)) (p % (c.quantum * c.qset) / c.quantum) o
          ≡ get_elem? q.bytes o)
    → Holds c p (take n (drop (p % (c.quantum * c.qset) % c.quantum) q.bytes))
unfolding byte_at
slice-Holds c p n q v h same i l =
    let lt : i < n =
      omega (arith, length-take n (drop (p % (c.quantum * c.qset) % c.quantum) q.bytes)) in
    let (e₀, e₁, e₂) = advance c.quantum c.qset v.quantum_pos v.qset_pos p i (omega arith) in
    rw (e₀, e₁, e₂, get_elem?-take n _ i lt, get_elem?-drop _ q.bytes i) (same _)

module _ (U : Uaccess) (s : State U) where
  abbrev nothing : ℕ → Io U
  nothing f_pos = record { ret = pos 0; f_pos = f_pos; state = s }

  restore :
      (f_pos : ℕ)
      → 0 < s.dev.sem
      → released U (record (nothing f_pos) { state = record s { dev = down s.dev } })
        ≡ nothing f_pos
  restore f_pos free = ground arith

  released-deliver :
      (buf f_pos : ℕ) (xs : List ℕ)
      → 0 < s.dev.sem
      → released U (deliver U buf f_pos xs (record s { dev = down s.dev }))
        ≡ deliver U buf f_pos xs s
  unfolding deliver
  released-deliver buf f_pos xs free = ground arith

module _ (U : Uaccess) (buf count f_pos : ℕ) (at : Place) (s : State U)
    (lt : at.item < length s.dev.chain) where
  read_at-present :
      (q : Quantum)
      → lookup true s.dev.chain at ≡ present q
      → at.q_pos + to_quantum_end s.dev.quantum at.q_pos count ≤ length q.bytes
      → read_at U buf count f_pos at s
        ≡ some (
            deliver U buf f_pos
              (take (to_quantum_end s.dev.quantum at.q_pos count) (drop at.q_pos q.bytes))
              s)
  unfolding read_at
  read_at-present q e h = ground (
    arith,
    follow_inside s.dev.chain at.item s.slab lt,
    slice_lem at.q_pos (to_quantum_end s.dev.quantum at.q_pos count) q.bytes,
  )

  read_at-absent :
      lookup true s.dev.chain at ≡ absent
      → read_at U buf count f_pos at s ≡ some (record { ret = pos 0; f_pos = f_pos; state = s })
  unfolding read_at
  read_at-absent e = ground (arith, follow_inside s.dev.chain at.item s.slab lt)

module _ (U : Uaccess) (s : State U) (v : IsValid s.dev) (free : 0 < s.dev.sem) where
  read_past :
      (buf count f_pos : ℕ)
      → s.dev.size ≤ f_pos
      → read U false buf count f_pos s ≡ some (nothing U s f_pos)
  unfolding read read_locked
  read_past buf count f_pos h = ground arith

  read_before :
      (buf count f_pos : ℕ)
      → f_pos < s.dev.size
      → read U false buf count f_pos s ≡ (
          read_at U buf
            (to_file_end s.dev.size f_pos count)
            f_pos
            (place s.dev f_pos)
            (record s { dev = down s.dev })
          >>= λ r. some (released U r))
  unfolding read read_locked
  read_before buf count f_pos h = ground (
    arith,
    locate_lem (down s.dev) f_pos (sem-IsValid s.dev (s.dev.sem - 1) v),
    v.counted,
    item-lt s.dev f_pos v h,
  )

  -- The three ways in which a read ends: at the end of the file, at a hole, or with a copy.
  abbrev pub Ends : ℕ → ℕ → ℕ → Option (Io U) → Type 0
  Ends buf count f_pos r =
      ((s.dev.size ≤ f_pos) × (r ≡ some (nothing U s f_pos)))
      ⊎ ((f_pos < s.dev.size) × (byte_at s.dev f_pos ≡ none) × (r ≡ some (nothing U s f_pos)))
      ⊎ ((xs : List ℕ) × (f_pos < s.dev.size)
          × (byte_at s.dev f_pos ≢ none)
          × (length xs ≡ read_length s.dev f_pos count)
          × Holds s.dev f_pos xs
          × (r ≡ some (deliver U buf f_pos xs s)))

  read_before-Ends :
      (buf count f_pos : ℕ)
      → f_pos < s.dev.size
      → f_pos + count < 2 ^ 64
      → Agrees s.dev.quantum
          (lookup true s.dev.chain (place s.dev f_pos))
          (byte_in s.dev.chain (place s.dev f_pos).item (place s.dev f_pos).s_pos)
      → Ends buf count f_pos (read U false buf count f_pos s)
  unfolding byte_at
  read_before-Ends buf count f_pos h small (inl (e, empty)) =
      let lt = item-lt s.dev f_pos v h in
      inr (
        inl (
          h,
          empty _,
          rw
              (
                read_before buf count f_pos h,
                read_at-absent U buf (to_file_end s.dev.size f_pos count) f_pos (place s.dev f_pos)
                    (record s { dev = down s.dev }) lt e,
              )
              (ap some (restore U s f_pos free)),
        ))
  read_before-Ends buf count f_pos h small (inr (q, e, l, same)) =
      let lt = item-lt s.dev f_pos v h in
      let in_quantum = offset-lt s.dev.quantum s.dev.qset v.quantum_pos v.qset_pos f_pos in
      let xs = take (read_length s.dev f_pos count) (drop (place s.dev f_pos).q_pos q.bytes) in
      let cut = cut_lem s.dev.size s.dev.quantum (place s.dev f_pos).q_pos f_pos count h small in
      let (b, eb) = get_elem?_of_lt q.bytes (place s.dev f_pos).q_pos (omega arith) in
      inr (
        inr (
          xs,
          h,
          λ hole. ground (arith, same (place s.dev f_pos).q_pos),
          omega (
            arith,
            length-take (read_length s.dev f_pos count) (drop (place s.dev f_pos).q_pos q.bytes),
            length-drop (place s.dev f_pos).q_pos q.bytes,
          ),
          slice-Holds s.dev f_pos (read_length s.dev f_pos count) q v (omega arith) same,
          rw
              (
                read_before buf count f_pos h,
                read_at-present U buf (to_file_end s.dev.size f_pos count) f_pos (place s.dev f_pos)
                    (record s { dev = down s.dev }) lt q e (omega arith),
                cut,
              )
              (ap some (released-deliver U s buf f_pos xs free)),
        ))

  pub read-Ends :
      (buf count f_pos : ℕ)
      → f_pos + count < 2 ^ 64
      → Ends buf count f_pos (read U false buf count f_pos s)
  read-Ends buf count f_pos small = elim (dec_lt f_pos s.dev.size) [
    | yes h ↦ read_before-Ends buf count f_pos h small (
        lookup-Agrees s.dev.quantum s.dev.qset s.dev.chain (place s.dev f_pos) v.shaped
          (item-lt s.dev f_pos v h)
          (slot-lt s.dev.quantum s.dev.qset v.quantum_pos v.qset_pos f_pos))
    | no h ↦ inl (omega arith, read_past buf count f_pos (omega arith))
  ]
