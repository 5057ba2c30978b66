-- ===== src/Mev/Place.antt =====
-- lkm_mev.c, lines 337 to 344 and 450 to 456: how a file position falls into a set, a slot and an
-- offset.
use native.Mathlib.Nat.{mod-lt, div-add-mod, div-eq_of_lt-le, div-lt_iff_lt-mul, mul_comm}
use lkm_sandbox.Base.{ℕ, ◌+◌, ◌*◌, ◌/◌, ◌%◌, ◌^◌, ◌≤◌, ◌<◌, ◌≡◌, ap, some, length, arith}
use lkm_sandbox.Mev.Types.{Container, Place, IsValid, locate}

-- Quotient and remainder are determined by what they make up.
div_mod_unique : (d i r p : ℕ) → r < d → p ≡ i * d + r → (p / d ≡ i) × (p % d ≡ r)
div_mod_unique d i r p h e = (quotient, remainder)
  where
    quotient : p / d ≡ i
    quotient = div-eq_of_lt-le d (omega arith) (grind arith)

    remainder : p % d ≡ r
    remainder = omega (arith, div-add-mod p d, ap (λ (t : ℕ). d * t) quotient, mul_comm d i)

module _ (quantum qset : ℕ) (hq : 0 < quantum) (hs : 0 < qset) where
  pub itemsize_pos : 0 < quantum * qset
  itemsize_pos = grind arith

  -- The slot lies in the array.
  pub slot-lt : (p : ℕ) → p % (quantum * qset) / quantum < qset
  slot-lt p =
      (div-lt_iff_lt-mul {k = quantum} {x = p % (quantum * qset)} {y = qset} hq).1
        (omega (arith, mod-lt p itemsize_pos, mul_comm quantum qset))

  -- The offset lies in the quantum.
  pub offset-lt : (p : ℕ) → p % (quantum * qset) % quantum < quantum
  offset-lt p = mod-lt (p % (quantum * qset)) hq

  -- Set, slot and offset make up the position again.
  pub recompose :
      (p : ℕ)
      → p / (quantum * qset) * (quantum * qset)
          + p % (quantum * qset) / quantum * quantum
          + p % (quantum * qset) % quantum
        ≡ p
  recompose p = omega (
    arith,
    div-add-mod p (quantum * qset),
    div-add-mod (p % (quantum * qset)) quantum,
    mul_comm (quantum * qset) (p / (quantum * qset)),
    mul_comm quantum (p % (quantum * qset) / quantum),
  )

  -- Any set, slot and offset within bounds are those of their position.
  pub decompose :
      (i a o p : ℕ)
      → a < qset
      → o < quantum
      → p ≡ i * (quantum * qset) + (a * quantum + o)
      → (p / (quantum * qset) ≡ i)
        × (p % (quantum * qset) / quantum ≡ a)
        × (p % (quantum * qset) % quantum ≡ o)
  decompose i a o p ha ho e =
      let outer = div_mod_unique (quantum * qset) i (a * quantum + o) p within e in
      let inner = div_mod_unique quantum a o (p % (quantum * qset)) ho outer.1 in
      (outer.0, inner.0, inner.1)
    where
      within : a * quantum + o < quantum * qset
      within = grind arith

  -- The next positions, as long as they stay in the quantum, have the same set and slot.
  pub advance :
      (p k : ℕ)
      → p % (quantum * qset) % quantum + k < quantum
      → ((p + k) / (quantum * qset) ≡ p / (quantum * qset))
        × ((p + k) % (quantum * qset) / quantum ≡ p % (quantum * qset) / quantum)
        × ((p + k) % (quantum * qset) % quantum ≡ p % (quantum * qset) % quantum + k)
  advance p k h =
      decompose (p / (quantum * qset)) (p % (quantum * qset) / quantum)
        (p % (quantum * qset) % quantum + k) (p + k) (slot-lt p) h (omega (arith, recompose p))

  -- What ends in the quantum of a position ends in its set.
  pub end-le :
      (p k : ℕ)
      → p % (quantum * qset) % quantum + k ≤ quantum
      → p + k ≤ (p / (quantum * qset) + 1) * (quantum * qset)
  end-le p k h =
      let slot : p % (quantum * qset) / quantum * quantum + quantum ≤ qset * quantum =
        next (p % (quantum * qset) / quantum) (slot-lt p) in
      omega (arith, recompose p, mul_comm quantum qset)
    where
      next : (a : ℕ) → a < qset → a * quantum + quantum ≤ qset * quantum
      next a l = grind arith

-- The place of a position, as the code computes it.
abbrev pub place : Container → ℕ → Place
place c p = record {
  item = p / (c.quantum * c.qset);
  s_pos = p % (c.quantum * c.qset) / c.quantum;
  q_pos = p % (c.quantum * c.qset) % c.quantum;
}

-- In a valid container a position has a place; below 2 ^ 32 sets its item is not cut.
pub locate_lem :
    (c : Container) (p : ℕ)
    → IsValid c
    → p / (c.quantum * c.qset) < 2 ^ 32
    → locate c p ≡ some (place c p)
unfolding locate
locate_lem c p v h = ground (arith, itemsize_pos c.quantum c.qset v.quantum_pos v.qset_pos)

-- A position before the end of the file lies in a set of the chain.
pub item-lt :
    (c : Container) (p : ℕ) → IsValid c → p < c.size → p / (c.quantum * c.qset) < length c.chain
item-lt c p v h =
    (div-lt_iff_lt-mul (itemsize_pos c.quantum c.qset v.quantum_pos v.qset_pos)).1
      (omega (arith, v.covered))
