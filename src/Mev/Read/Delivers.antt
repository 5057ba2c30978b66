-- ===== src/Mev/Read/Delivers.antt =====
-- lkm_mev.c, mev_read on a valid device: its results, and the bytes that it delivers.
use lkm_sandbox.Base.{
  ℕ, pos-injective, negsuc-ne-pos, ap, sym, ◌∙◌, ◌+◌, ◌^◌, ◌≤◌, ◌<◌, ◌≡◌, ◌≢◌, refl, ◌⊎◌, inl, inr,
  false, none, some, List, length, get_elem?, pos, neg, arith,
}
use mathlib.Core.Option.{some-injective}
use native.Mathlib.Decide.{ℕ_discrete}
use lkm_sandbox.Kernel.Errno.{efault}
use lkm_sandbox.Kernel.Uaccess.{Uaccess, IsLawful}
use lkm_sandbox.Mev.Types.{State, Io, IsValid}
use lkm_sandbox.Mev.Bytes.{byte_at}
use lkm_sandbox.Mev.Read.{deliver, read}
use lkm_sandbox.Mev.Read.Ends.{read_length, read-Ends}

module _ (U : Uaccess) (buf f_pos : ℕ) (xs : List ℕ) (s : State U) where
  pub deliver_whole :
      f_pos + length xs < 2 ^ 64
      → (U.to_user s.user buf xs).0 ≡ 0
      → deliver U buf f_pos xs s ≡ record {
        ret = pos (length xs);
        f_pos = f_pos + length xs;
        state = record s { user = (U.to_user s.user buf xs).1 };
      }
  unfolding deliver
  deliver_whole h e = ground arith

  deliver_part :
      (U.to_user s.user buf xs).0 ≢ 0
      → deliver U buf f_pos xs s ≡ record {
        ret = neg efault;
        f_pos = f_pos;
        state = record s { user = (U.to_user s.user buf xs).1 };
      }
  unfolding deliver
  deliver_part ne = ground arith

module _ (U : Uaccess) (s : State U) (v : IsValid s.dev) (free : 0 < s.dev.sem)
    (buf count f_pos : ℕ) (small : f_pos + count < 2 ^ 64) where
  -- On a valid device whose semaphore is free, a read that is not interrupted and ends below 2 ^ 64
  -- does not fault, gives the semaphore back, and leaves the contents, the size and the allocator
  -- as they were. It fails with -EFAULT and the old position, or returns the number of bytes by
  -- which the position has advanced.
  pub read_total :
      (r : Io U) × (read U false buf count f_pos s ≡ some r)
      × (r.state.dev ≡ s.dev)
      × (r.state.slab ≡ s.slab)
      × ((r.ret ≡ neg efault) × (r.f_pos ≡ f_pos)
          ⊎ ((k : ℕ) × (r.ret ≡ pos k) × (r.f_pos ≡ f_pos + k)))
  read_total = elim (read-Ends U s v free buf count f_pos small) [
    | inl (_, e) ↦ (_, e, refl, refl, inr (0, refl, omega arith))
    | inr (inl (_, _, e)) ↦ (_, e, refl, refl, inr (0, refl, omega arith))
    | inr (inr (xs, _, _, l, _, e)) ↦ elim (ℕ_discrete (U.to_user s.user buf xs).0 0) [
      | yes all ↦ (
        _,
        e ∙ ap some (deliver_whole U buf f_pos xs s (omega arith) all),
        refl,
        refl,
        inr (length xs, refl, refl),
      )
      | no part ↦
          (_, e ∙ ap some (deliver_part U buf f_pos xs s part), refl, refl, inl (refl, refl))
    ]
  ]

  -- On a valid device whose semaphore is free, a read that ends below 2 ^ 64 and begins at or
  -- behind the end of the file, or at a hole, returns 0 and changes nothing at all.
  pub read_nothing :
      (s.dev.size ≤ f_pos) ⊎ (byte_at s.dev f_pos ≡ none)
      → read U false buf count f_pos s ≡ some (record { ret = pos 0; f_pos = f_pos; state = s })
  read_nothing h = elim (read-Ends U s v free buf count f_pos small) [
    | inl (_, e) ↦ e
    | inr (inl (_, _, e)) ↦ e
    | inr (inr (xs, lt, ne, _, _, _)) ↦ elim h [
      | inl le ↦ absurd (omega arith)
      | inr hole ↦ absurd (ne hole)
    ]
  ]

  module _ {r : Io U} (e : read U false buf count f_pos s ≡ some r) where
    -- On a valid device whose semaphore is free, a read that ends below 2 ^ 64, and begins below
    -- the end of the file and where a quantum stands, fails with -EFAULT or returns the least of
    -- `count`, the bytes up to the end of the file and those up to the end of the quantum.
    pub read_count :
        f_pos < s.dev.size
        → byte_at s.dev f_pos ≢ none
        → (r.ret ≡ neg efault) ⊎ (r.ret ≡ pos (read_length s.dev f_pos count))
    read_count lt ne = elim (read-Ends U s v free buf count f_pos small) [
      | inl (le, _) ↦ absurd (omega arith)
      | inr (inl (_, hole, _)) ↦ absurd (ne hole)
      | inr (inr (xs, _, _, l, _, e')) ↦
          let same = some-injective _ _ (sym e ∙ e') in
          elim (ℕ_discrete (U.to_user s.user buf xs).0 0) [
            | yes all ↦ inr (
                ap (λ (x : Io U). x.ret) (same ∙ deliver_whole U buf f_pos xs s (omega arith) all)
                ∙ ap pos l)
            | no part ↦ inl (ap (λ (x : Io U). x.ret) (same ∙ deliver_part U buf f_pos xs s part))
          ]
    ]

    -- On a valid device whose semaphore is free, a read that ends below 2 ^ 64 and returns `m` has
    -- put the device's `m` bytes from the position on into the user's buffer.
    pub read_bytes :
        IsLawful U
        → (m i : ℕ) → r.ret ≡ pos m
        → i < m
        → get_elem? (U.bytes r.state.user buf m) i ≡ byte_at s.dev (f_pos + i)
    read_bytes L m i ret lt = elim (read-Ends U s v free buf count f_pos small) [
      | inl (_, e') ↦ absurd (ground arith)
      | inr (inl (_, _, e')) ↦ absurd (ground arith)
      | inr (inr (xs, _, _, l, holds, e')) ↦
          let same = some-injective _ _ (sym e ∙ e') in
          elim (ℕ_discrete (U.to_user s.user buf xs).0 0) [
            | yes all ↦
                let whole = same ∙ deliver_whole U buf f_pos xs s (omega arith) all in
                let size : m ≡ length xs =
                  pos-injective (sym ret ∙ ap (λ (x : Io U). x.ret) whole) in
                rw (whole, size, L.to_user_all s.user buf xs all) (sym (holds i (omega arith)))
            | no part ↦ absurd (
                negsuc-ne-pos (
                  sym (ap (λ (x : Io U). x.ret) (same ∙ deliver_part U buf f_pos xs s part)) ∙ ret))
          ]
    ]
