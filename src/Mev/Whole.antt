-- ===== src/Mev/Whole.antt =====
-- lkm_mev.c, mev_read: a caller that reads until there is nothing left, as the read of cat does.
pub mod Copy
pub mod Trip
mod Tests
use lkm_sandbox.Base.{
  ℕ, zero, suc, ◌+◌, ◌^◌, ◌≤◌, ◌<◌, ◌≡◌, ◌≢◌, refl, sym, ap, ◌∙◌, ◌⊎◌, inl, inr, false, Option,
  none, some, List, [], ◌∷◌, ◌++◌, length, length-append, get_elem?, ℤ, pos, negsuc, ◌>>=◌, arith,
}
use lkm_sandbox.Kernel.Uaccess.{Uaccess, IsLawful}
use lkm_sandbox.Mev.Types.{Container, State, IsValid}
use lkm_sandbox.Mev.Place.{offset-lt}
use lkm_sandbox.Mev.Bytes.{byte_at, Holds}
use lkm_sandbox.Mev.Read.{read}
use lkm_sandbox.Mev.Read.Ends.{read-Ends}
use lkm_sandbox.Mev.Read.Delivers.{deliver_whole}

-- What was given so far goes in front of the rest; 0 ends the reads, and an error number fails.
unfoldable pub gathered : ℤ → (ℕ → List ℕ) → Option (List ℕ) → Option (List ℕ)
gathered (pos zero) given rest = some []
gathered (pos (suc n)) given rest = rest >>= λ ys. some (given (suc n) ++ ys)
gathered (negsuc e) given rest = none

-- Reads into the same buffer, each from the position that the last one left, up to `fuel` of them.
unfoldable pub read_all : (U : Uaccess) → ℕ → ℕ → ℕ → ℕ → State U → Option (List ℕ)
read_all U zero buf count f_pos s = none
read_all U (suc fuel) buf count f_pos s = do
  r ← read U false buf count f_pos s
  gathered r.ret (U.bytes r.state.user buf) (read_all U fuel buf count r.f_pos r.state)

gathered-pos : (given : ℕ → List ℕ) (rest : Option (List ℕ)) → gathered (pos 0) given rest ≡ some []
unfolding gathered
gathered-pos given rest = refl

gathered-append :
    (n : ℕ) (given : ℕ → List ℕ) (ys : List ℕ)
    → 0 < n
    → gathered (pos n) given (some ys) ≡ some (given n ++ ys)
unfolding gathered
gathered-append zero given ys h = absurd (omega arith)
gathered-append (suc n) given ys h = refl

pub get_elem?-append :
    (xs ys : List ℕ) (i : ℕ)
    → ((i < length xs) × (get_elem? (xs ++ ys) i ≡ get_elem? xs i))
      ⊎ ((j : ℕ) × (i ≡ length xs + j) × (get_elem? (xs ++ ys) i ≡ get_elem? ys j))
get_elem?-append [] ys i = inr (i, omega arith, refl)
get_elem?-append (x ∷ xs) ys zero = inl (omega arith, refl)
get_elem?-append (x ∷ xs) ys (suc i) = elim (get_elem?-append xs ys i) [
  | inl (lt, e) ↦ inl (omega arith, e)
  | inr (j, e, e') ↦ inr (j, omega arith, e')
]

append-Holds :
    (c : Container) (p : ℕ) (xs ys : List ℕ)
    → Holds c p xs
    → Holds c (p + length xs) ys
    → Holds c p (xs ++ ys)
append-Holds c p xs ys h k i lt = elim (get_elem?-append xs ys i) [
  | inl (l, e) ↦ h i l ∙ sym e
  | inr (j, e, e') ↦
      ap (byte_at c) (omega arith) ∙ k j (omega (arith, length-append xs ys)) ∙ sym e'
]

-- A caller reads a valid device, whose semaphore is free and which has a byte at each position below
-- its size, into a buffer to which every copy succeeds, from a position not behind the size, asking
-- for at least one byte each time, the size and that count together below 2 ^ 64. With more reads
-- than there are bytes left, the reads come to an end without an error, and what they gave, one
-- after the other, is the bytes of the device from the position to the size, in order.
pub read_all_lem :
    (U : Uaccess)
    → IsLawful U
    → (fuel buf count f_pos : ℕ) (s : State U)
    → ((m : U.Memory) (xs : List ℕ) → (U.to_user m buf xs).0 ≡ 0)
    → IsValid s.dev
    → 0 < s.dev.sem
    → ((p : ℕ) → p < s.dev.size → byte_at s.dev p ≢ none)
    → 0 < count
    → s.dev.size + count < 2 ^ 64
    → f_pos ≤ s.dev.size
    → s.dev.size < f_pos + fuel
    → (xs : List ℕ) × (read_all U fuel buf count f_pos s ≡ some xs)
      × (f_pos + length xs ≡ s.dev.size)
      × Holds s.dev f_pos xs
unfolding read_all
read_all_lem U L zero buf count f_pos s whole v free full some_asked small at enough =
    absurd (omega arith)
read_all_lem U L (suc fuel) buf count f_pos s whole v free full some_asked small at enough =
    elim (read-Ends U s v free buf count f_pos (omega arith)) [
      | inl (past, e) ↦ (
        [],
        rw e (gathered-pos (U.bytes s.user buf) (read_all U fuel buf count f_pos s)),
        omega arith,
        λ i lt. absurd (omega arith),
      )
      | inr (inl (before, hole, e)) ↦ absurd (full f_pos before hole)
      | inr (inr (xs, before, _, l, holds, e)) ↦
          let moves : 0 < length xs =
            omega (arith, offset-lt s.dev.quantum s.dev.qset v.quantum_pos v.qset_pos f_pos) in
          let s' : State U = record s { user = (U.to_user s.user buf xs).1 } in
          let (ys, e', l', holds') =
            read_all_lem U L fuel buf count (f_pos + length xs) s' whole v free full some_asked
              small (omega arith) (omega arith) in
          (
            xs ++ ys,
            rw (e, deliver_whole U buf f_pos xs s (omega arith) (whole s.user xs), e')
                (gathered-append (length xs) (U.bytes (U.to_user s.user buf xs).1 buf) ys moves
                  ∙ ap (λ (zs : List ℕ). some (zs ++ ys))
                      (L.to_user_all s.user buf xs (whole s.user xs))),
            omega (arith, length-append xs ys),
            append-Holds s.dev f_pos xs ys holds holds',
          )
    ]
