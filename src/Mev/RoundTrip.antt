-- ===== src/Mev/RoundTrip.antt =====
-- lkm_mev.c: mev_read after mev_write.
use lkm_sandbox.Base.{
  ℕ, ap, ◌-◌, ◌%◌, ◌+◌, ◌*◌, ◌/◌, ◌^◌, ◌≤◌, ◌<◌, ◌≡◌, ◌≢◌, ◌∙◌, inl, inr, false, some, none,
  get_elem?, pos, arith,
}
use lkm_sandbox.Kernel.Uaccess.{Uaccess, IsLawful}
use lkm_sandbox.Mev.Types.{State, Io, IsValid}
use lkm_sandbox.Mev.Bytes.{byte_at}
use lkm_sandbox.Mev.Read.{read}
use lkm_sandbox.Mev.Read.Delivers.{read_bytes, read_count}
use lkm_sandbox.Mev.Write.{write}
use lkm_sandbox.Mev.Write.Writes.{of_run, write_result, write_bytes, write_present}
use lkm_sandbox.Mev.Write.Ends.{write_length}
use lkm_sandbox.Mev.Read.Ends.{read_length}
use lkm_sandbox.Mev.Place.{offset-lt}

module _ (U : Uaccess) (L : IsLawful U) (s : State U) (v : IsValid s.dev) (free : 0 < s.dev.sem)
    (buf count f_pos : ℕ) (near : f_pos / (s.dev.quantum * s.dev.qset) < 2 ^ 32) where
  -- The length of a read at the position of a write that stored `m` bytes.
  read_length-ge :
      {r : Io U} (m count' : ℕ)
      → write U false buf count f_pos s ≡ some r
      → r.ret ≡ pos m
      → m ≤ count'
      → (m ≤ read_length r.state.dev f_pos count') × (0 < m → f_pos < r.state.dev.size)
  read_length-ge {r} m count' e ret enough =
      let keeps = (of_run U L s v free buf count f_pos near e).0 in
      elim (write_result U L s v free buf count f_pos near e) [
        | inl (bad, _, _) ↦ absurd (ground arith)
        | inr (good, _, size) ↦
            let same : m ≡ write_length s.dev f_pos count = ground arith in
            let offset = offset-lt s.dev.quantum s.dev.qset v.quantum_pos v.qset_pos f_pos in
            let cut : m ≤ s.dev.quantum - f_pos % (s.dev.quantum * s.dev.qset) % s.dev.quantum =
              ground arith in
            (rw (keeps.same_quantum, keeps.same_qset) (omega arith), λ h. omega arith)
      ]

  -- On a valid device whose semaphore is free, after a write below 2 ^ 32 sets that returns `m`,
  -- not 0, a read of `count'` bytes at the same position, `count'` being at least `m` and ending
  -- below 2 ^ 64, that returns `m'` returns at least `m`, and the user's buffer then begins with
  -- the `m` bytes that were written.
  pub read-write :
      {r r' : Io U} (m m' buf' count' k : ℕ)
      → write U false buf count f_pos s ≡ some r
      → r.ret ≡ pos m
      → read U false buf' count' f_pos r.state ≡ some r'
      → r'.ret ≡ pos m'
      → m ≤ count'
      → f_pos + count' < 2 ^ 64
      → k < m
      → (m ≤ m')
        × (get_elem? (U.bytes r'.state.user buf' m') k ≡ get_elem? (U.bytes s.user buf m) k)
  read-write {r} {r'} m m' buf' count' k ew retw er retr enough small lt =
      let keeps = (of_run U L s v free buf count f_pos near ew).0 in
      let (longer, inside) = read_length-ge m count' ew retw enough in
      let free' : 0 < r.state.dev.sem = omega (arith, keeps.same_sem) in
      let there : byte_at r.state.dev f_pos ≢ none = λ hole.
        write_present U L s v free buf count f_pos near ew m 0 retw (omega arith)
          (ap (byte_at r.state.dev) (omega arith) ∙ hole) in
      let counted =
        read_count U r.state keeps.valid free' buf' count' f_pos small er (inside (omega arith))
          there in
      let ge : m ≤ m' = elim counted [
        | inl bad ↦ absurd (ground arith)
        | inr good ↦ ground arith
      ] in
      (
        ge,
        read_bytes U r.state keeps.valid free' buf' count' f_pos small er L m' k retr (omega arith)
            ∙ write_bytes U L s v free buf count f_pos near ew m k retw lt,
      )
