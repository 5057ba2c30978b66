-- ===== src/Kernel/Flat.antt =====
-- A user memory that the tests run on: every address can be read and written below 2 ^ 20, and no
-- copy that starts there breaks off.
use lkm_sandbox.Base.{
  ℕ, Bool, ◌∙◌, zero, suc, ◌^◌, ◌<◌, ◌≡◌, refl, ap₂, List, [], ◌∷◌, length, tabulate, replicate,
  length-tabulate, length-replicate, ltb, ◌==◌, if◌then◌else◌, arith,
}
use lkm_sandbox.Kernel.Uaccess.{Uaccess, IsLawful}

abbrev pub patch : ℕ → List ℕ → (ℕ → ℕ) → ℕ → ℕ
patch p [] m a = m a
patch p (x ∷ xs) m a = if a == p then x else patch (suc p) xs m a

abbrev pub mapped : ℕ → Bool
mapped p = ltb p (2 ^ 20)

abbrev pub flat : Uaccess
flat = record {
  Memory = ℕ → ℕ;
  bytes = tabulate;
  from_user = λ m p n. if mapped p then (0, tabulate m p n) else (n, replicate n 0);
  to_user = λ m p xs. if mapped p then (0, patch p xs m) else (length xs, m);
}

tabulate_above :
    (x p : ℕ) (f : ℕ → ℕ) (i n : ℕ)
    → p < i
    → tabulate (λ a. if a == p then x else f a) i n ≡ tabulate f i n
tabulate_above x p f i zero h = refl
tabulate_above x p f i (suc n) h =
    ap₂ ◌∷◌ (ground arith) (tabulate_above x p f (suc i) n (omega arith))

pub tabulate-patch : (p : ℕ) (xs : List ℕ) (m : ℕ → ℕ) → tabulate (patch p xs m) p (length xs) ≡ xs
tabulate-patch p [] m = refl
tabulate-patch p (x ∷ xs) m = ap₂ ◌∷◌ (ground arith) (
    tabulate_above x p (patch (suc p) xs m) (suc p) (length xs) (omega arith)
    ∙ tabulate-patch (suc p) xs m)

bytes-from_user :
    (m : ℕ → ℕ) (p n : ℕ) → (flat.from_user m p n).0 ≡ 0 → (flat.from_user m p n).1 ≡ tabulate m p n
bytes-from_user m p zero h = ground arith
bytes-from_user m p (suc n) h = ground arith

bytes-to_user :
    (m : ℕ → ℕ) (p : ℕ) (xs : List ℕ)
    → (flat.to_user m p xs).0 ≡ 0
    → tabulate (flat.to_user m p xs).1 p (length xs) ≡ xs
bytes-to_user m p [] h = ground arith
bytes-to_user m p (x ∷ xs) h = ground (arith, tabulate-patch p (x ∷ xs) m)

pub flat-IsLawful : IsLawful flat
flat-IsLawful = record {
  length-from_user = λ m p n. ground (arith, length-tabulate m p n, length-replicate {A = ℕ} n 0);
  from_user_all = bytes-from_user;
  to_user_all = bytes-to_user;
}
