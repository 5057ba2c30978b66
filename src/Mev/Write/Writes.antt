-- ===== src/Mev/Write/Writes.antt =====
-- lkm_mev.c, mev_write on a valid device: its results, the account of the memory, and the bytes
-- before and after.
use lkm_sandbox.Base.{
  ℕ, ◌+◌, ◌*◌, ◌/◌, ◌^◌, ◌≤◌, ◌<◌, ◌≡◌, ◌≢◌, none, length, get_elem?_of_lt, refl, sym, ◌∙◌, ◌⊎◌,
  inl, inr, false, some, get_elem?, ◌==◌, ltb, if◌then◌else◌, pos, neg, arith, Bool-cases,
}
use Prim.Native.Nat.{max}
use mathlib.Core.Path.{subst}
use mathlib.Core.Option.{some-injective}
use lkm_sandbox.Kernel.Errno.{enomem, efault}
use lkm_sandbox.Kernel.Uaccess.{Uaccess, IsLawful}
use lkm_sandbox.Mev.Types.{State, Io, IsValid}
use lkm_sandbox.Mev.Bytes.{byte_at}
use lkm_sandbox.Mev.Held.{Owns}
use lkm_sandbox.Mev.Write.{write}
use lkm_sandbox.Mev.Write.Ends.{write_length, write-Ends}
use lkm_sandbox.Mev.Write.Nodes.{failed, finished}
use lkm_sandbox.Mev.Write.Effect.{
  Keeps, grown-Keeps, copied-bytes, copied-Keeps, old_covered, new_covered,
}

module _ (U : Uaccess) (L : IsLawful U) (s : State U) (v : IsValid s.dev) (free : 0 < s.dev.sem)
    (buf count f_pos : ℕ) (near : f_pos / (s.dev.quantum * s.dev.qset) < 2 ^ 32) where
  -- How a write changes the position, the size and the bytes, by its result.
  abbrev pub Outcome : Io U → Type 0
  Outcome r =
      ((r.ret ≡ neg enomem)
        × (r.f_pos ≡ f_pos)
        × (r.state.dev.size ≡ s.dev.size)
        × ((p b : ℕ) → byte_at s.dev p ≡ some b → byte_at r.state.dev p ≡ some b))
      ⊎ ((r.ret ≡ neg efault) × (r.f_pos ≡ f_pos) × (r.state.dev.size ≡ s.dev.size))
      ⊎ (let n = write_length s.dev f_pos count in
          (r.ret ≡ pos n)
          × (r.f_pos ≡ f_pos + n)
          × (r.state.dev.size ≡ (if ltb s.dev.size (f_pos + n) then f_pos + n else s.dev.size))
          × ((k : ℕ) → k < n → byte_at r.state.dev (f_pos + k) ≡ get_elem? (U.bytes s.user buf n) k)
          × (length (U.bytes s.user buf n) ≡ n))

  size_covered : (a b c : ℕ) → a ≤ c → b ≤ c → (if ltb a b then b else a) ≤ c
  size_covered a b c h k = ground arith

  write_lem :
      (r : Io U) × (write U false buf count f_pos s ≡ some r)
      × Keeps U L s v free buf count f_pos near r
      × Outcome r
  unfolding byte_at
  write_lem = elim (write-Ends U L s v free buf count f_pos near) [
    | inl (chain, slab, e, x) ↦ (
      failed U f_pos s enomem chain slab,
      e,
      grown-Keeps U L s v free buf count f_pos near chain slab x,
      inl (refl, refl, refl, λ p b h. x.kept _ _ _ b h),
    )
    | inr (mid, chain, slab, e, lt, x, t, _) ↦
        let n = write_length s.dev f_pos count in
        elim (Bool-cases ((U.from_user s.user buf n).0 == 0)) [
          | inl whole ↦ (
            finished U f_pos s n chain slab,
            e ∙ rw whole,
            copied-Keeps U L s v free buf count f_pos near mid chain slab x t (pos n) (f_pos + n) _
                (size_covered s.dev.size (f_pos + n) _
                  (old_covered U L s v free buf count f_pos near mid chain slab x t)
                  (new_covered U L s v free buf count f_pos near mid chain slab x t lt)),
            inr (
                inr (
                  refl,
                  refl,
                  refl,
                  copied-bytes U L s v free buf count f_pos near mid chain slab x t (ground arith),
                  rw (← L.from_user_all s.user buf n (ground arith))
                      (L.length-from_user s.user buf n),
                )),
          )
          | inr part ↦ (
            failed U f_pos s efault chain slab,
            e ∙ rw part,
            copied-Keeps U L s v free buf count f_pos near mid chain slab x t (neg efault) f_pos
                s.dev.size (old_covered U L s v free buf count f_pos near mid chain slab x t),
            inr (inl (refl, refl, refl)),
          )
        ]
  ]

  -- What the run that returns `r` does: the facts above, for that run.
  pub of_run :
      {r : Io U}
      → write U false buf count f_pos s ≡ some r
      → Keeps U L s v free buf count f_pos near r × Outcome r
  of_run e =
      let (r', e', keeps, out) = write_lem in
      let same = some-injective _ _ (sym e' ∙ e) in
      (subst (Keeps U L s v free buf count f_pos near) same keeps, subst Outcome same out)

  -- On a valid device whose semaphore is free, a write below 2 ^ 32 sets that is not interrupted
  -- does not fault: it leaves a valid device, gives the semaphore back, and changes neither the
  -- sizes of quantum and set nor the user's memory.
  pub write_total :
      (r : Io U) × (write U false buf count f_pos s ≡ some r)
      × IsValid r.state.dev
      × (r.state.dev.sem ≡ s.dev.sem)
      × (r.state.dev.quantum ≡ s.dev.quantum)
      × (r.state.dev.qset ≡ s.dev.qset)
      × (r.state.user ≡ s.user)
  write_total =
      let (r, e, keeps, _) = write_lem in
      (r, e, keeps.valid, keeps.same_sem, keeps.same_quantum, keeps.same_qset, keeps.same_user)

  module _ {r : Io U} (e : write U false buf count f_pos s ≡ some r) where
    -- On a valid device whose semaphore is free, a write below 2 ^ 32 sets fails with -ENOMEM or
    -- -EFAULT and leaves the position and the size alone, or returns `count` cut to the end of the
    -- quantum, advances the position by it, and lets the size reach to the new position.
    pub write_result :
        (((r.ret ≡ neg enomem) ⊎ (r.ret ≡ neg efault))
          × (r.f_pos ≡ f_pos)
          × (r.state.dev.size ≡ s.dev.size))
        ⊎ (let n = write_length s.dev f_pos count in
            (r.ret ≡ pos n)
            × (r.f_pos ≡ f_pos + n)
            × (r.state.dev.size ≡ max s.dev.size (f_pos + n)))
    write_result = elim ((of_run e).1) [
      | inl (ret, at, size, _) ↦ inl (inl ret, at, size)
      | inr (inl (ret, at, size)) ↦ inl (inr ret, at, size)
      | inr (inr (ret, at, size, _, _)) ↦ inr (ret, at, ground arith)
    ]

    -- On a valid device whose semaphore is free, a write below 2 ^ 32 sets keeps the account of the
    -- memory, whatever it returns: what is live is what the chain holds and what others hold, and
    -- nothing was freed that was not live.
    pub write-Owns :
        (others : ℕ → ℕ)
        → Owns others s.dev.chain s.slab.log
        → Owns others r.state.dev.chain r.state.slab.log
    write-Owns others o = (of_run e).0.owns others o

    -- On a valid device whose semaphore is free, a write below 2 ^ 32 sets that returns `m` has put
    -- the first `m` bytes of the user's buffer at the position.
    pub write_bytes :
        (m k : ℕ)
        → r.ret ≡ pos m
        → k < m
        → byte_at r.state.dev (f_pos + k) ≡ get_elem? (U.bytes s.user buf m) k
    write_bytes m k ret lt = elim ((of_run e).1) [
      | inl (bad, _, _, _) ↦ absurd (ground arith)
      | inr (inl (bad, _, _)) ↦ absurd (ground arith)
      | inr (inr (good, _, _, bytes, _)) ↦
          let same : m ≡ write_length s.dev f_pos count = ground arith in
          rw same (bytes k (omega arith))
    ]

    -- Where a write has stored a byte, there is one.
    pub write_present : (m k : ℕ) → r.ret ≡ pos m → k < m → byte_at r.state.dev (f_pos + k) ≢ none
    write_present m k ret lt none_there = elim ((of_run e).1) [
      | inl (bad, _, _, _) ↦ absurd (ground arith)
      | inr (inl (bad, _, _)) ↦ absurd (ground arith)
      | inr (inr (good, _, _, bytes, whole)) ↦
          let same : m ≡ write_length s.dev f_pos count = ground arith in
          let (b, there) =
            get_elem?_of_lt (U.bytes s.user buf (write_length s.dev f_pos count)) k (omega arith) in
          absurd (ground (arith, bytes k (omega arith)))
    ]

    -- On a valid device whose semaphore is free, no write below 2 ^ 32 sets changes a byte outside
    -- the `n` bytes from the position on, `n` being `count` cut to the end of the quantum; and one
    -- that returns -ENOMEM changes no byte at all.
    pub write_frame :
        (p b : ℕ)
        → (p < f_pos) ⊎ (f_pos + write_length s.dev f_pos count ≤ p) ⊎ (r.ret ≡ neg enomem)
        → byte_at s.dev p ≡ some b
        → byte_at r.state.dev p ≡ some b
    write_frame p b out h = elim out [
      | inl below ↦ (of_run e).0.frame p b (inl below) h
      | inr (inl above) ↦ (of_run e).0.frame p b (inr above) h
      | inr (inr no_memory) ↦ elim ((of_run e).1) [
        | inl (_, _, _, kept) ↦ kept p b h
        | inr (inl (bad, _, _)) ↦ absurd (ground arith)
        | inr (inr (good, _, _, _, _)) ↦ absurd (ground arith)
      ]
    ]
