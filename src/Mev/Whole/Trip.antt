-- ===== src/Mev/Whole/Trip.antt =====
-- lkm_mev.c: a caller that reads back all that a caller has written.
use mathlib.Core.Option.{some-injective}
use lkm_sandbox.Base.{
  ℕ, suc, ◌+◌, ◌^◌, ◌<◌, ◌≡◌, ◌≢◌, refl, sym, ap, ap₂, ◌∙◌, ◌⊎◌, inl, inr, ℤ, neg, none, some, List,
  [], ◌∷◌, length, get_elem?, get_elem?_of_lt, arith,
}
use lkm_sandbox.Kernel.Errno.{enomem, efault}
use lkm_sandbox.Kernel.Uaccess.{Uaccess, IsLawful}
use lkm_sandbox.Mev.Types.{State, IsValid}
use lkm_sandbox.Mev.Bytes.{byte_at}
use lkm_sandbox.Mev.Whole.{read_all, read_all_lem}
use lkm_sandbox.Mev.Whole.Copy.{
  IsSplit, Copied, stored, failed, write_all, Writes, Outcome, write_all_lem,
}

-- Lists of one length with the same elements.
same_elements :
    (xs ys : List ℕ)
    → length xs ≡ length ys
    → ((i : ℕ) → i < length xs → get_elem? xs i ≡ get_elem? ys i)
    → xs ≡ ys
same_elements [] [] l h = refl
same_elements [] (y ∷ ys) l h = absurd (omega arith)
same_elements (x ∷ xs) [] l h = absurd (omega arith)
same_elements (x ∷ xs) (y ∷ ys) l h =
    ap₂ ◌∷◌ (some-injective x y (h 0 (omega arith)))
      (same_elements xs ys (omega arith) (λ i lt. h (suc i) (omega arith)))

module _ (U : Uaccess) (L : IsLawful U) (split : IsSplit U) (fuel buf count : ℕ) (s : State U)
    (v : IsValid s.dev) (free : 0 < s.dev.sem) (empty : s.dev.size ≡ 0) (fit : count < 2 ^ 32)
    (enough : count < fuel) where
  reads_back :
      (s' : State U) (fuel' buf' count' : ℕ)
      → Writes U buf count 0 s s'
      → ((m : U.Memory) (xs : List ℕ) → (U.to_user m buf' xs).0 ≡ 0)
      → 0 < count'
      → count + count' < 2 ^ 64
      → count < fuel'
      → read_all U fuel' buf' count' 0 s' ≡ some (U.bytes s.user buf count)
  reads_back s' fuel' buf' count' w whole some_asked small asked_enough =
      let l = split.0 s.user buf count in
      let size : s'.dev.size ≡ count = elim w.size [
        | inl (none_left, same) ↦ omega arith
        | inr (left, grown) ↦ omega arith
      ] in
      let there : (p : ℕ) → p < count → byte_at s'.dev p ≡ get_elem? (U.bytes s.user buf count) p =
        λ p lt. ap (byte_at s'.dev) (omega arith) ∙ w.bytes p lt in
      let full : (p : ℕ) → p < s'.dev.size → byte_at s'.dev p ≢ none = λ p lt hole.
        let (b, at) = get_elem?_of_lt (U.bytes s.user buf count) p (omega arith) in
        absurd (ground (arith, there p (omega arith))) in
      let (xs, all, long, holds) =
        read_all_lem U L fuel' buf' count' 0 s' whole w.valid (omega (arith, w.same_sem)) full
          some_asked (omega arith) (omega arith) (omega arith) in
      all
      ∙ ap some (
          same_elements xs (U.bytes s.user buf count) (omega arith)
            (λ i lt. sym (holds i lt) ∙ ap (byte_at s'.dev) (omega arith) ∙ there i (omega arith)))

  -- What is written comes back, or the writes have failed.
  abbrev pub ComesBack : ℕ → ℕ → ℕ → Type 0
  ComesBack fuel' buf' count' =
      ((s' : State U) × (write_all U fuel buf count 0 s ≡ some (stored s'))
        × (read_all U fuel' buf' count' 0 s' ≡ some (U.bytes s.user buf count)))
      ⊎ ((ret : ℤ) × (s' : State U) × (write_all U fuel buf count 0 s ≡ some (failed ret s'))
          × ((ret ≡ neg enomem) ⊎ (ret ≡ neg efault)))

  either :
      (fuel' buf' count' : ℕ) (out : Copied U)
      → ((m : U.Memory) (xs : List ℕ) → (U.to_user m buf' xs).0 ≡ 0)
      → 0 < count'
      → count + count' < 2 ^ 64
      → count < fuel'
      → write_all U fuel buf count 0 s ≡ some out
      → Outcome U buf count 0 s out
      → ComesBack fuel' buf' count'
  either fuel' buf' count' (stored s') whole some_asked small asked_enough e w =
      inl (s', e, reads_back s' fuel' buf' count' w whole some_asked small asked_enough)
  either fuel' buf' count' (failed ret s') whole some_asked small asked_enough e bad =
      inr (ret, s', e, bad)

  -- Let the device be valid, its semaphore free and its size 0, as an open for writing only leaves
  -- it, and the count below 2 ^ 32. A caller that writes `count` bytes of its buffer from position
  -- 0 on, taking up where a write has stopped, ends within `count` writes; and either a write fails
  -- with -ENOMEM or -EFAULT, or a caller that then reads from position 0 on, into a buffer to which
  -- every copy succeeds, asking for at least one byte each time (this count and the first together
  -- below 2 ^ 64), within `count` reads and one more that returns 0, is given all the bytes that the
  -- first buffer held, in order. The user's
  -- memory is taken to be read byte by byte.
  pub read_all-write_all :
      (fuel' buf' count' : ℕ)
      → ((m : U.Memory) (xs : List ℕ) → (U.to_user m buf' xs).0 ≡ 0)
      → 0 < count'
      → count + count' < 2 ^ 64
      → count < fuel'
      → ComesBack fuel' buf' count'
  read_all-write_all fuel' buf' count' whole some_asked small asked_enough =
      let (out, e, w) = write_all_lem U L split fuel buf count 0 s v free (omega arith) enough in
      either fuel' buf' count' out whole some_asked small asked_enough e w
