-- ===== src/Mev/Write/Effect.antt =====
-- lkm_mev.c, mev_write: what each way in which a write ends does to the device.
use lkm_sandbox.Base.{
  ℕ, ℤ, ◌+◌, ◌*◌, ◌/◌, ◌^◌, ◌≤◌, ◌<◌, ◌≡◌, ◌≢◌, refl, ap, ◌∙◌, ◌⊎◌, inl, inr, some, List, length,
  get_elem?, arith,
}
use native.Mathlib.Decide.{ℕ_discrete}
use lkm_sandbox.Kernel.Errno.{enomem}
use lkm_sandbox.Kernel.Slab.{Slab}
use lkm_sandbox.Kernel.Uaccess.{Uaccess, IsLawful}
use lkm_sandbox.Mev.Types.{Qset, Container, State, Io, ChainOf, IsValid}
use lkm_sandbox.Mev.Place.{place, offset-lt, recompose, advance, end-le}
use lkm_sandbox.Mev.Bytes.{byte_at}
use lkm_sandbox.Mev.Held.{held, Owns}
use lkm_sandbox.Mev.Write.Extends.{Extends}
use lkm_sandbox.Mev.Write.Stores.{Stores}
use lkm_sandbox.Mev.Write.Ends.{write_length}
use lkm_sandbox.Mev.Write.Nodes.{failed}

mul_le_right : (a b c : ℕ) → a ≤ b → a * c ≤ b * c
mul_le_right a b c h = grind arith

Extends-Owns :
    {quantum qset : ℕ} {chain chain' : List Qset} {s s' : Slab} (others : ℕ → ℕ)
    → Extends quantum qset chain chain' s s'
    → Owns others chain s.log
    → Owns others chain' s'.log
Extends-Owns others x o = record {
  sound = x.sound o.sound;
  accounted = λ a. omega (arith, x.accounted a, o.accounted a);
}

Stores-Owns :
    {chain chain' : List Qset} (others : ℕ → ℕ) (s : Slab)
    → ((a : ℕ) → held a chain' ≡ held a chain)
    → Owns others chain s.log
    → Owns others chain' s.log
Stores-Owns others s same o = record {
  sound = o.sound;
  accounted = λ a. omega (arith, same a, o.accounted a);
}

module _ (c : Container) (v : IsValid c) (chain : List Qset) where
  resized-IsValid :
      (size : ℕ)
      → ChainOf c.quantum c.qset chain
      → length chain ≤ 2 ^ 32
      → size ≤ length chain * (c.quantum * c.qset)
      → IsValid (record c { chain = chain; size = size })
  resized-IsValid size shaped counted covered = record {
    quantum_pos = v.quantum_pos;
    qset_pos = v.qset_pos;
    fits_int = v.fits_int;
    shaped = shaped;
    counted = counted;
    covered = covered;
  }

  still_covered : length c.chain ≤ length chain → c.size ≤ length chain * (c.quantum * c.qset)
  still_covered h =
      omega (arith, v.covered, mul_le_right (length c.chain) (length chain) (c.quantum * c.qset) h)

-- A position outside the written range lies in another set or slot, or outside the range there.
pub apart :
    (c : Container)
    → IsValid c
    → (f_pos n p : ℕ) → (p < f_pos) ⊎ (f_pos + n ≤ p)
    → let at = place c f_pos in
      let to = place c p in
      (to.item ≢ at.item)
      ⊎ (to.s_pos ≢ at.s_pos)
      ⊎ (to.q_pos < at.q_pos)
      ⊎ (at.q_pos + n ≤ to.q_pos)
apart c v f_pos n p h = elim (ℕ_discrete (place c p).item (place c f_pos).item) [
  | no ne ↦ inl ne
  | yes e ↦ elim (ℕ_discrete (place c p).s_pos (place c f_pos).s_pos) [
    | no ne ↦ inr (inl ne)
    | yes e' ↦
        let level : (place c p).q_pos + f_pos ≡ (place c f_pos).q_pos + p = omega (
          arith,
          recompose c.quantum c.qset v.quantum_pos v.qset_pos p,
          recompose c.quantum c.qset v.quantum_pos v.qset_pos f_pos,
          ap (λ (t : ℕ). t * (c.quantum * c.qset)) e,
          ap (λ (t : ℕ). t * c.quantum) e',
        ) in
        elim h [
          | inl below ↦ inr (inr (inl (omega arith)))
          | inr above ↦ inr (inr (inr (omega arith)))
        ]
  ]
]

module _ (U : Uaccess) (L : IsLawful U) (s : State U) (v : IsValid s.dev) (free : 0 < s.dev.sem)
    (buf count f_pos : ℕ) (near : f_pos / (s.dev.quantum * s.dev.qset) < 2 ^ 32) where
  abbrev pub n : ℕ
  n = write_length s.dev f_pos count

  in_quantum : (place s.dev f_pos).q_pos + n ≤ s.dev.quantum
  in_quantum = ground (arith, offset-lt s.dev.quantum s.dev.qset v.quantum_pos v.qset_pos f_pos)

  -- What every write keeps.
  pub record Keeps (r : Io U) : Type 0 where
    pub valid : IsValid r.state.dev
    pub owns :
        (others : ℕ → ℕ)
        → Owns others s.dev.chain s.slab.log
        → Owns others r.state.dev.chain r.state.slab.log
    pub same_sem : r.state.dev.sem ≡ s.dev.sem
    pub same_quantum : r.state.dev.quantum ≡ s.dev.quantum
    pub same_qset : r.state.dev.qset ≡ s.dev.qset
    pub same_user : r.state.user ≡ s.user
    pub frame :
        (p b : ℕ)
        → (p < f_pos) ⊎ (f_pos + n ≤ p)
        → byte_at s.dev p ≡ some b
        → byte_at r.state.dev p ≡ some b

  -- No memory: the chain may have grown.
  pub grown-Keeps :
      (chain : List Qset) (slab : Slab)
      → Extends s.dev.quantum s.dev.qset s.dev.chain chain s.slab slab
      → Keeps (failed U f_pos s enomem chain slab)
  unfolding byte_at
  grown-Keeps chain slab x = record {
    valid =
        resized-IsValid s.dev v chain s.dev.size x.shaped (x.counted v.counted)
          (still_covered s.dev v chain x.longer);
    owns = λ others. Extends-Owns others x;
    same_sem = refl;
    same_quantum = refl;
    same_qset = refl;
    same_user = refl;
    frame = λ p b out e. x.kept _ _ _ b e;
  }

  module _ (mid chain : List Qset) (slab : Slab)
      (x : Extends s.dev.quantum s.dev.qset s.dev.chain mid s.slab slab)
      (t : Stores s.dev.quantum s.dev.qset
        (place s.dev f_pos)
        (U.from_user s.user buf n).1
        mid
        chain) where
    copied-frame :
        (p b : ℕ)
        → (p < f_pos) ⊎ (f_pos + n ≤ p)
        → byte_at s.dev p ≡ some b
        → byte_at (record (s.dev) { chain = chain }) p ≡ some b
    unfolding byte_at
    copied-frame p b out e =
        t.others (place s.dev p).item (place s.dev p).s_pos (place s.dev p).q_pos
          (rw (L.length-from_user s.user buf n) (apart s.dev v f_pos n p out))
        ∙ x.kept _ _ _ b e

    pub copied-bytes :
        (U.from_user s.user buf n).0 ≡ 0
        → (k : ℕ) → k < n
        → byte_at (record (s.dev) { chain = chain }) (f_pos + k)
          ≡ get_elem? (U.bytes s.user buf n) k
    unfolding byte_at
    copied-bytes whole k lt =
        let (e₀, e₁, e₂) =
          advance s.dev.quantum s.dev.qset v.quantum_pos v.qset_pos f_pos k
            (omega (arith, in_quantum)) in
        rw (e₀, e₁, e₂, ← L.from_user_all s.user buf n whole)
          (t.written k (omega (arith, L.length-from_user s.user buf n)))

    pub copied-Keeps :
        (ret : ℤ) (end size : ℕ)
        → size ≤ length chain * (s.dev.quantum * s.dev.qset)
        → Keeps (record {
          ret = ret;
          f_pos = end;
          state = record s { dev = record (s.dev) { chain = chain; size = size }; slab = slab };
        })
    unfolding byte_at
    copied-Keeps ret end size covered = record {
      valid =
          resized-IsValid s.dev v chain size t.shaped (rw t.same_length (x.counted v.counted))
            covered;
      owns = λ others o. Stores-Owns others slab t.same_held (Extends-Owns others x o);
      same_sem = refl;
      same_quantum = refl;
      same_qset = refl;
      same_user = refl;
      frame = copied-frame;
    }

    pub old_covered : s.dev.size ≤ length chain * (s.dev.quantum * s.dev.qset)
    old_covered = still_covered s.dev v chain (omega (arith, x.longer, t.same_length))

    pub new_covered :
        (place s.dev f_pos).item < length mid
        → f_pos + n ≤ length chain * (s.dev.quantum * s.dev.qset)
    new_covered lt = omega (
      arith,
      end-le s.dev.quantum s.dev.qset v.quantum_pos v.qset_pos f_pos n in_quantum,
      mul_le_right ((place s.dev f_pos).item + 1) (length chain) (s.dev.quantum * s.dev.qset)
          (omega (arith, t.same_length)),
    )
