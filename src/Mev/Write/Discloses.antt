-- ===== src/Mev/Write/Discloses.antt =====
-- lkm_mev.c, mev_write into a quantum that it allocates: the bytes around those that it copies.
use lkm_sandbox.Base.{
  ℕ, ◌+◌, ◌*◌, ◌/◌, ◌^◌, ◌≤◌, ◌<◌, ◌≡◌, ◌≢◌, refl, sym, ap, ◌∙◌, ◌⊎◌, inl, inr, true, false, Bool,
  none, some, List, if◌then◌else◌, pos, neg, get_elem?, arith,
}
use mathlib.Core.Option.{some-injective}
use lkm_sandbox.Kernel.Errno.{enomem, efault}
use lkm_sandbox.Kernel.Slab.{Block, Slab}
use lkm_sandbox.Kernel.Given.{Gives}
use lkm_sandbox.Kernel.Uaccess.{Uaccess, IsLawful}
use lkm_sandbox.Mev.Types.{Qset, Container, State, Io, IsValid}
use lkm_sandbox.Mev.Place.{place, offset-lt}
use lkm_sandbox.Mev.Bytes.{byte_at}
use lkm_sandbox.Mev.Read.{read}
use lkm_sandbox.Mev.Read.Delivers.{read_bytes}
use lkm_sandbox.Mev.Write.{write}
use lkm_sandbox.Mev.Write.Ends.{write_length, write-Ends}
use lkm_sandbox.Mev.Write.Nodes.{failed, finished}
use lkm_sandbox.Mev.Write.Effect.{apart}
use lkm_sandbox.Mev.Write.Writes.{of_run}

-- Two positions in the same quantum of the same set.
abbrev pub SameQuantum : Container → ℕ → ℕ → Type 0
SameQuantum c p p' =
    ((place c p).item ≡ (place c p').item) × ((place c p).s_pos ≡ (place c p').s_pos)

module _ (U : Uaccess) (L : IsLawful U) (s : State U) (v : IsValid s.dev) (free : 0 < s.dev.sem)
    (buf count f_pos : ℕ) (near : f_pos / (s.dev.quantum * s.dev.qset) < 2 ^ 32) where
  -- The bytes of the quantum outside those that are copied are the stale ones of the block.
  abbrev Stale : Io U → Block → Type 0
  Stale r b =
      (p : ℕ)
      → SameQuantum s.dev p f_pos
      → (p < f_pos) ⊎ (f_pos + write_length s.dev f_pos count ≤ p)
      → byte_at r.state.dev p ≡ some (b.stale (place s.dev p).q_pos)

  either_byte :
      (whole : Bool) (n p : ℕ) (chain : List Qset) (slab : Slab)
      → byte_at
          (if whole
            then finished U f_pos s n chain slab
            else failed U f_pos s efault chain slab).state.dev
          p
        ≡ byte_at (record (s.dev) { chain = chain }) p
  unfolding byte_at
  either_byte true n p chain slab = refl
  either_byte false n p chain slab = refl

  around :
      (p : ℕ)
      → SameQuantum s.dev p f_pos
      → (p < f_pos) ⊎ (f_pos + write_length s.dev f_pos count ≤ p)
      → let at = place s.dev f_pos in
        let to = place s.dev p in
        (to.q_pos < at.q_pos) ⊎ (at.q_pos + write_length s.dev f_pos count ≤ to.q_pos)
  around p (item, slot) out = elim (apart s.dev v f_pos (write_length s.dev f_pos count) p out) [
    | inl ne ↦ absurd (ne item)
    | inr (inl ne) ↦ absurd (ne slot)
    | inr (inr h) ↦ h
  ]

  write-Stale :
      {r : Io U}
      → write U false buf count f_pos s ≡ some r
      → r.ret ≢ neg enomem
      → byte_at s.dev f_pos ≡ none
      → (b : Block) × Gives s.slab b × Stale r b
  unfolding byte_at
  write-Stale {r} e memory hole = elim (write-Ends U L s v free buf count f_pos near) [
    | inl (chain, slab, e', x) ↦
        absurd (memory (ap (λ (r : Io U). r.ret) (some-injective _ _ (sym e ∙ e'))))
    | inr (mid, chain, slab, e', lt, x, t, fresh) ↦
        let (b, gives, stale) =
          fresh (place s.dev f_pos).q_pos
            (offset-lt s.dev.quantum s.dev.qset v.quantum_pos v.qset_pos f_pos) hole in
        let n = write_length s.dev f_pos count in
        (
          b,
          gives,
          λ p same out.
              let to = place s.dev p in
              ap (λ (r : Io U). byte_at r.state.dev p) (some-injective _ _ (sym e ∙ e'))
              ∙ either_byte _ n p chain slab
              ∙ t.others to.item to.s_pos to.q_pos
                  (inr (inr (rw (L.length-from_user s.user buf n) (around p same out))))
              ∙ rw (same.0, same.1)
                  (stale to.q_pos (offset-lt s.dev.quantum s.dev.qset v.quantum_pos v.qset_pos p)),
        )
  ]

  -- On a valid device whose semaphore is free, let a write below 2 ^ 32 sets, at a position where no
  -- quantum stands, not return -ENOMEM. Then a read of what the write leaves, that ends below
  -- 2 ^ 64 and returns `m`, has put into the user's buffer, for each of the `m` positions that lies
  -- in the same quantum as the write, before or behind the bytes that the write copies, the byte
  -- that stood at that offset of a block when kmalloc gave it.
  pub write-read_stale :
      {r r' : Io U} (p buf' count' m i : ℕ)
      → write U false buf count f_pos s ≡ some r
      → r.ret ≢ neg enomem
      → byte_at s.dev f_pos ≡ none
      → read U false buf' count' p r.state ≡ some r'
      → r'.ret ≡ pos m
      → p + count' < 2 ^ 64
      → i < m
      → SameQuantum s.dev (p + i) f_pos
      → (p + i < f_pos) ⊎ (f_pos + write_length s.dev f_pos count ≤ p + i)
      → (b : Block) × Gives s.slab b
        × (get_elem? (U.bytes r'.state.user buf' m) i ≡ some (b.stale (place s.dev (p + i)).q_pos))
  write-read_stale {r} p buf' count' m i e memory hole e' ret small lt same out =
      let (b, gives, stale) = write-Stale e memory hole in
      let keeps = (of_run U L s v free buf count f_pos near e).0 in
      (
        b,
        gives,
        read_bytes U r.state keeps.valid (omega (arith, keeps.same_sem)) buf' count' p small e' L m
              i ret lt
            ∙ stale (p + i) same out,
      )
