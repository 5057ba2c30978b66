-- ===== src/Mev/Whole/Copy.antt =====
-- lkm_mev.c, mev_write: a caller that writes until everything is written, as the write of cp does.
use Prim.Native.Nat.{max}
use mathlib.Core.Path.{subst}
use lkm_sandbox.Base.{
  ℕ, zero, suc, ◌+◌, ◌-◌, ◌*◌, ◌^◌, ◌≤◌, ◌<◌, ◌≡◌, refl, sym, ap, ◌∙◌, ◌⊎◌, inl, inr, false, Option,
  none, some, List, ◌++◌, length, get_elem?, ℤ, pos, neg, negsuc, ◌>>=◌, arith, get_elem?_of_lt,
}
use lkm_sandbox.Kernel.Errno.{enomem, efault}
use lkm_sandbox.Kernel.Uaccess.{Uaccess, IsLawful}
use lkm_sandbox.Mev.Types.{State, Io, IsValid}
use lkm_sandbox.Mev.Place.{offset-lt}
use lkm_sandbox.Mev.Bytes.{byte_at}
use lkm_sandbox.Mev.Callers.Calls.{near_lem}
use lkm_sandbox.Mev.Whole.{get_elem?-append}
use lkm_sandbox.Mev.Write.{write}
use lkm_sandbox.Mev.Write.Ends.{write_length}
use lkm_sandbox.Mev.Write.Writes.{of_run, write_total, write_result, write_bytes}

-- What is read of user memory is as long as was asked for, and is read byte by byte.
abbrev pub IsSplit : Uaccess → Type 0
IsSplit U =
    ((m : U.Memory) (p n : ℕ) → length (U.bytes m p n) ≡ n)
    × ((m : U.Memory) (p k n : ℕ) → U.bytes m p (k + n) ≡ U.bytes m p k ++ U.bytes m (p + k) n)

module _ (U : Uaccess) where
  -- How the writes end: everything is written, or a write has failed.
  pub data Copied : Type 0 where
    stored : State U → Copied
    failed : ℤ → State U → Copied

  -- A write that has stored some bytes goes on; an error number ends the writes.
  unfoldable pub goes_on : ℤ → State U → (ℕ → Option Copied) → Option Copied
  goes_on (pos m) s more = more m
  goes_on (negsuc e) s more = some (failed (negsuc e) s)

  -- Each write takes up where the last one has stopped, up to `fuel` of them.
  unfoldable pub write_all : ℕ → ℕ → ℕ → ℕ → State U → Option Copied
  write_all zero buf count f_pos s = none
  write_all (suc fuel) buf zero f_pos s = some (stored s)
  write_all (suc fuel) buf (suc n) f_pos s = do
    r ← write U false buf (suc n) f_pos s
    goes_on r.ret r.state (λ m. write_all fuel (buf + m) (suc n - m) r.f_pos r.state)

  -- What a run that ends with everything written leaves.
  pub record Writes (buf count f_pos : ℕ) (s s' : State U) : Type 0 where
    pub valid : IsValid s'.dev
    pub same_sem : s'.dev.sem ≡ s.dev.sem
    pub same_user : s'.user ≡ s.user
    pub size :
        ((count ≡ 0) × (s'.dev.size ≡ s.dev.size))
        ⊎ ((0 < count) × (s'.dev.size ≡ max s.dev.size (f_pos + count)))
    pub bytes :
        (i : ℕ) → i < count → byte_at s'.dev (f_pos + i) ≡ get_elem? (U.bytes s.user buf count) i
    pub before : (p b : ℕ) → p < f_pos → byte_at s.dev p ≡ some b → byte_at s'.dev p ≡ some b

  abbrev pub Outcome : ℕ → ℕ → ℕ → State U → Copied → Type 0
  Outcome buf count f_pos s (stored s') = Writes buf count f_pos s s'
  Outcome buf count f_pos s (failed e s') = (e ≡ neg enomem) ⊎ (e ≡ neg efault)

  stops :
      (ret : ℤ) (s : State U) (more : ℕ → Option Copied)
      → (ret ≡ neg enomem) ⊎ (ret ≡ neg efault)
      → goes_on ret s more ≡ some (failed ret s)
  unfolding goes_on
  stops ret s more (inl e) = rw e refl
  stops ret s more (inr e) = rw e refl

  continues :
      (fuel buf n f_pos m : ℕ) (s : State U) {r : Io U}
      → write U false buf (suc n) f_pos s ≡ some r
      → r.ret ≡ pos m
      → r.f_pos ≡ f_pos + m
      → write_all (suc fuel) buf (suc n) f_pos s
        ≡ write_all fuel (buf + m) (suc n - m) (f_pos + m) r.state
  unfolding write_all goes_on
  continues fuel buf n f_pos m s e ret at = rw (e, ret, at) refl

  nothing-Writes : (buf f_pos : ℕ) (s : State U) → IsValid s.dev → Writes buf 0 f_pos s s
  nothing-Writes buf f_pos s v = record {
    valid = v;
    same_sem = refl;
    same_user = refl;
    size = inl (refl, refl);
    bytes = λ i h. absurd (omega arith);
    before = λ p b h e. e;
  }

  module _ (L : IsLawful U) (split : IsSplit U) where
    -- A first write of `m` bytes, and what writes the rest.
    step-Writes :
        (buf m n f_pos : ℕ) (s s' : State U) {r : Io U}
        → IsValid s.dev
        → 0 < s.dev.sem
        → f_pos + (m + n) < 2 ^ 32
        → 0 < m
        → write U false buf (m + n) f_pos s ≡ some r
        → r.ret ≡ pos m
        → r.state.dev.size ≡ max s.dev.size (f_pos + m)
        → Writes (buf + m) n (f_pos + m) r.state s'
        → Writes buf (m + n) f_pos s s'
    step-Writes buf m n f_pos s s' {r} v free fit moves e ret size w =
        let near = near_lem f_pos (s.dev.quantum * s.dev.qset) (omega arith) in
        let keeps = (of_run U L s v free buf (m + n) f_pos near e).0 in
        let first : (i : ℕ)
            → i < m
            → byte_at r.state.dev (f_pos + i) ≡ get_elem? (U.bytes s.user buf m) i =
          λ i h. write_bytes U L s v free buf (m + n) f_pos near e m i ret h in
        record {
          valid = w.valid;
          same_sem = w.same_sem ∙ keeps.same_sem;
          same_user = w.same_user ∙ keeps.same_user;
          size = inr (
            omega arith,
            elim w.size [ inl (none_left, same) ↦ omega arith | inr (left, grown) ↦ omega arith ],
          );
          bytes = λ i h.
              elim (get_elem?-append (U.bytes s.user buf m) (U.bytes s.user (buf + m) n) i) [
                | inl (lt, eq) ↦
                    let (b, there) = get_elem?_of_lt (U.bytes s.user buf m) i lt in
                    w.before (f_pos + i) b (omega (arith, split.0 s.user buf m))
                      (first i (omega (arith, split.0 s.user buf m)) ∙ there)
                    ∙ sym there
                    ∙ sym eq
                    ∙ ap (λ (xs : List ℕ). get_elem? xs i) (sym (split.1 s.user buf m n))
                | inr (j, at, eq) ↦
                    let past : i ≡ m + j = omega (arith, split.0 s.user buf m) in
                    ap (byte_at s'.dev) (omega arith)
                    ∙ w.bytes j (omega arith)
                    ∙ ap (λ (u : U.Memory). get_elem? (U.bytes u (buf + m) n) j) keeps.same_user
                    ∙ sym eq
                    ∙ ap (λ (xs : List ℕ). get_elem? xs i) (sym (split.1 s.user buf m n))
              ];
          before = λ p b h there. w.before p b (omega arith) (keeps.frame p b (inl h) there);
        }

    step-Outcome :
        (buf m n f_pos : ℕ) (s : State U) {r : Io U} (out : Copied)
        → IsValid s.dev
        → 0 < s.dev.sem
        → f_pos + (m + n) < 2 ^ 32
        → 0 < m
        → write U false buf (m + n) f_pos s ≡ some r
        → r.ret ≡ pos m
        → r.state.dev.size ≡ max s.dev.size (f_pos + m)
        → Outcome (buf + m) n (f_pos + m) r.state out
        → Outcome buf (m + n) f_pos s out
    step-Outcome buf m n f_pos s (stored s') v free fit moves e ret size w =
        step-Writes buf m n f_pos s s' v free fit moves e ret size w
    step-Outcome buf m n f_pos s (failed x s') v free fit moves e ret size w = w

    pub write_all_lem :
        (fuel buf count f_pos : ℕ) (s : State U)
        → IsValid s.dev
        → 0 < s.dev.sem
        → f_pos + count < 2 ^ 32
        → count < fuel
        → (out : Copied) × (write_all fuel buf count f_pos s ≡ some out)
          × Outcome buf count f_pos s out
    unfolding write_all
    write_all_lem zero buf count f_pos s v free fit enough = absurd (omega arith)
    write_all_lem (suc fuel) buf zero f_pos s v free fit enough =
        (stored s, refl, nothing-Writes buf f_pos s v)
    write_all_lem (suc fuel) buf (suc n) f_pos s v free fit enough =
        let near = near_lem f_pos (s.dev.quantum * s.dev.qset) (omega arith) in
        let (r, e, valid, same_sem, _, _, _) = write_total U L s v free buf (suc n) f_pos near in
        elim (write_result U L s v free buf (suc n) f_pos near e) [
          | inl (bad, _, _) ↦ (failed r.ret r.state, rw e (stops r.ret r.state _ bad), bad)
          | inr (good, at, size) ↦
              let m = write_length s.dev f_pos (suc n) in
              let offset = offset-lt s.dev.quantum s.dev.qset v.quantum_pos v.qset_pos f_pos in
              let moves : 0 < m = ground arith in
              let cut : m ≤ suc n = ground arith in
              let k = suc n - m in
              let whole : suc n ≡ m + k = omega arith in
              let (out, e', ends) =
                write_all_lem fuel (buf + m) k (f_pos + m) r.state valid (omega arith) (omega arith)
                  (omega arith) in
              (
                out,
                continues fuel buf n f_pos m s e good at ∙ e',
                subst (λ (c : ℕ). Outcome buf c f_pos s out) (sym whole)
                    (step-Outcome buf m k f_pos s out v free (omega arith) moves
                      (subst (λ (c : ℕ). write U false buf c f_pos s ≡ some r) whole e) good size
                      ends),
              )
        ]
