-- ===== src/Mev/Callers/Calls.antt =====
-- lkm_mev.c: a caller between down and up beside a whole call that nobody interrupts.
use native.Mathlib.Nat.{div-le_self}
use lkm_sandbox.Base.{
  ℕ, ◌+◌, ◌*◌, ◌/◌, ◌^◌, ◌<◌, ◌≡◌, refl, sym, ap, ◌∙◌, some, ◌>>=◌, Option-cases, arith, inl, inr,
}
use mathlib.Core.Path.{subst}
use mathlib.Core.Option.{some-injective}
use lkm_sandbox.Kernel.Uaccess.{Uaccess, IsLawful}
use lkm_sandbox.Mev.Types.{Container, State, Io, IsValid, sem-IsValid}
use lkm_sandbox.Mev.Held.{Owns}
use lkm_sandbox.Mev.Read.{down, up, read, released}
use lkm_sandbox.Mev.Read.Delivers.{read_total}
use lkm_sandbox.Mev.Write.{write}
use lkm_sandbox.Mev.Write.Writes.{write_total, write-Owns}
use lkm_sandbox.Mev.Callers.{Request, reading, writing, Fits, body, call}

down-up : (c : Container) → down (up c) ≡ c
down-up c = ap (λ (k : ℕ). record c { sem = k }) (omega arith)

-- Below 2 ^ 32 bytes there are fewer sets.
pub near_lem : (p d : ℕ) → p < 2 ^ 32 → p / d < 2 ^ 32
near_lem p d h = omega (arith, div-le_self p d)

module _ (U : Uaccess) where
  -- The state before the down.
  abbrev pub raise : State U → State U
  raise s = record s { dev = up s.dev }

  pub call-body :
      (q : Request) (s : State U) → call U q (raise s) ≡ (body U q s >>= λ r. some (released U r))
  unfolding read write
  call-body (reading buf count f_pos) s = rw (down-up s.dev) refl
  call-body (writing buf count f_pos) s = rw (down-up s.dev) refl

  module _ (L : IsLawful U) (others : ℕ → ℕ) where
    -- A whole call on a valid device that is free does not fault, and keeps what is to be kept.
    pub record IsKept (s : State U) (r : Io U) : Type 0 where
      pub valid : IsValid r.state.dev
      pub owns : Owns others r.state.dev.chain r.state.slab.log
      pub same_sem : r.state.dev.sem ≡ s.dev.sem

    pub call_total :
        (q : Request) (s : State U)
        → Fits q
        → IsValid s.dev
        → 0 < s.dev.sem
        → Owns others s.dev.chain s.slab.log
        → (r : Io U) × (call U q s ≡ some r) × IsKept s r
    call_total (reading buf count f_pos) s fit v free o =
        let (r, e, same_dev, same_slab, _) = read_total U s v free buf count f_pos (omega arith) in
        (
          r,
          e,
          record {
            valid = rw same_dev v;
            owns = rw (same_dev, same_slab) o;
            same_sem = rw same_dev refl;
          },
        )
    call_total (writing buf count f_pos) s fit v free o =
        let near = near_lem f_pos (s.dev.quantum * s.dev.qset) (omega arith) in
        let (r, e, valid, same_sem, _, _, _) = write_total U L s v free buf count f_pos near in
        (
          r,
          e,
          record {
            valid = valid;
            owns = write-Owns U L s v free buf count f_pos near e others o;
            same_sem = same_sem;
          },
        )

    -- A caller that is inside does not fault, and what it leaves is kept.
    pub body_total :
        (q : Request) (s : State U)
        → Fits q
        → IsValid s.dev
        → Owns others s.dev.chain s.slab.log
        → (r : Io U) × (body U q s ≡ some r) × IsKept (raise s) (released U r)
    body_total q s fit v o =
        let (r', e', kept) =
          call_total q (raise s) fit (sem-IsValid s.dev (s.dev.sem + 1) v) (omega arith) o in
        elim (Option-cases (body U q s)) [
          | inl fault ↦ absurd (ground (arith, call-body q s))
          | inr (r, e) ↦
              let same : r' ≡ released U r =
                some-injective r' (released U r) (sym e' ∙ call-body q s ∙ rw e refl) in
              (r, e, subst (IsKept (raise s)) same kept)
        ]
