-- ===== src/Mev/Callers/Exclusive.antt =====
-- lkm_mev.c: what holds of the device and its callers, however they run beside each other.
use lkm_sandbox.Base.{
  ℕ, ◌+◌, ◌-◌, ◌≤◌, ◌≡◌, refl, ℤ, sym, ap, ◌∙◌, ◌⊎◌, inl, inr, pos, some, List, [], ◌∷◌, ◌++◌,
  length, length-append, All, Option, arith,
}
use mathlib.Core.Path.{subst}
use mathlib.Core.Option.{some-injective}
use lkm_sandbox.Kernel.Slab.{Slab}
use lkm_sandbox.Kernel.Uaccess.{Uaccess, IsLawful}
use lkm_sandbox.Mev.Types.{Container, State, Io, IsValid, sem-IsValid}
use lkm_sandbox.Mev.Read.{released}
use lkm_sandbox.Mev.Setup.{open_device}
use lkm_sandbox.Mev.Setup.Open.{emptied, open_lem}
use lkm_sandbox.Mev.Callers.{
  Request, Fits, body, System, Step, enters, leaves, opens, Reach, here, next, IsSafe,
}
use lkm_sandbox.Mev.Callers.Calls.{IsKept, raise, body_total}

-- A list of one element that is cut around an element has nothing else.
alone :
    (before after inside : List Request) (q : Request)
    → inside ≡ before ++ q ∷ after
    → length inside ≤ 1
    → (before ≡ []) × (after ≡ [])
alone [] [] inside q e h = (refl, refl)
alone [] (x ∷ after) inside q e h = absurd (omega (arith, ap (length {A = Request}) e))
alone (x ∷ before) after inside q e h =
    absurd (omega (arith, ap (length {A = Request}) e, length-append before (q ∷ after)))

abbrev Opened : Type 0
Opened = Option (ℤ × Option Container × Slab)

pub opened_as :
    (x c : Container) (t slab : Slab)
    → ◌≡◌ {A = Opened} (some (pos 0, some x, t)) (some (pos 0, some c, slab))
    → (x ≡ c) × (t ≡ slab)
opened_as x c t slab h = (ground arith, ground arith)

occupied :
    (inside : List Request)
    → length inside ≤ 1
    → (inside ≡ []) ⊎ ((q : Request) × (inside ≡ q ∷ []))
occupied [] h = inl refl
occupied (q ∷ []) h = inr (q, refl)
occupied (q ∷ x ∷ more) h = absurd (omega arith)

module _ (U : Uaccess) (L : IsLawful U) (others : ℕ → ℕ) where
  open_IsSafe :
      (s : State U) (f_flags : ℕ) (c : Container) (slab : Slab)
      → open_device (some s.dev) f_flags s.slab ≡ some (pos 0, some c, slab)
      → IsSafe U others (record { state = s; inside = [] })
      → IsSafe U others (record { state = record s { dev = c; slab = slab }; inside = [] })
  open_IsSafe s f_flags c slab e v = elim (open_lem others s.dev f_flags s.slab v.valid v.owns) [
    | inl (_, (s', e', valid, owns)) ↦
        let (same_dev, same_slab) = opened_as (emptied s.dev) c s' slab (sym e' ∙ e) in
        record {
          valid = subst IsValid same_dev valid;
          owns = rw (sym same_slab, ap (λ (x : Container). x.chain) (sym same_dev)) owns;
          counted = ap (λ (x : Container). x.sem + 0) (sym same_dev) ∙ v.counted;
          fit = tt;
        }
    | inr (_, e') ↦
        let (same_dev, same_slab) = opened_as s.dev c s.slab slab (sym e' ∙ e) in
        record {
          valid = subst IsValid same_dev v.valid;
          owns = rw (sym same_slab, ap (λ (x : Container). x.chain) (sym same_dev)) v.owns;
          counted = ap (λ (x : Container). x.sem + 0) (sym same_dev) ∙ v.counted;
          fit = tt;
        }
  ]

  leave_IsSafe :
      (s : State U) (inside before after : List Request) (q : Request) (r : Io U)
      → inside ≡ before ++ q ∷ after
      → body U q s ≡ some r
      → IsSafe U others (record { state = s; inside = inside })
      → IsSafe U others (record { state = (released U r).state; inside = before ++ after })
  leave_IsSafe s inside before after q r cut e v =
      let (b, a) = alone before after inside q cut (omega (arith, v.counted)) in
      let one : inside ≡ q ∷ [] = cut ∙ rw (b, a) refl in
      let fit : Fits q × Unit = subst (All Fits) one v.fit in
      let (r', e', kept) = body_total U L others q s fit.0 v.valid v.owns in
      let same : r' ≡ r = some-injective r' r (sym e' ∙ e) in
      let kept' = subst (λ (x : Io U). IsKept U L others (raise U s) (released U x)) same kept in
      record {
        valid = kept'.valid;
        owns = kept'.owns;
        counted =
            rw (b, a) (omega (arith, kept'.same_sem, v.counted, ap (length {A = Request}) one));
        fit = rw (b, a) tt;
      }

  Step-IsSafe : {x y : System U} → Step U x y → IsSafe U others x → IsSafe U others y
  Step-IsSafe (enters s inside q fit free) v = record {
    valid = sem-IsValid s.dev (s.dev.sem - 1) v.valid;
    owns = v.owns;
    counted = omega (arith, v.counted);
    fit = (fit, v.fit);
  }
  Step-IsSafe (leaves s inside before after q r cut e) v =
      leave_IsSafe s inside before after q r cut e v
  Step-IsSafe (opens s f_flags c slab e) v = open_IsSafe s f_flags c slab e v

  pub Reach-IsSafe : {x y : System U} → IsSafe U others x → Reach U x y → IsSafe U others y
  Reach-IsSafe v here = v
  Reach-IsSafe v (next r step) = Step-IsSafe step (Reach-IsSafe v r)

  -- From a valid device whose memory is accounted for and whose semaphore is 1, with no caller
  -- inside: however reads and writes below 4 gigabytes run beside each other, with opens while no
  -- call is under way, the device stays valid and its memory accounted for, at most one caller is
  -- between down and up, and the one that is does not fault.
  pub callers_exclusive :
      {x y : System U}
      → IsSafe U others x
      → Reach U x y
      → IsSafe U others y
        × ((y.inside ≡ [])
            ⊎ ((q : Request) × (r : Io U) × (y.inside ≡ q ∷ []) × (body U q y.state ≡ some r)))
  callers_exclusive v r =
      let v' = Reach-IsSafe v r in
      (
        v',
        elim (occupied _ (omega (arith, v'.counted))) [
          | inl none ↦ inl none
          | inr (q, one) ↦
              let fit : Fits q × Unit = subst (All Fits) one v'.fit in
              let (r, e, _) = body_total U L others q _ fit.0 v'.valid v'.owns in inr (q, r, one, e)
        ],
      )
