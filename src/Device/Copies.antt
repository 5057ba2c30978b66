-- ===== src/Device/Copies.antt =====
-- lkm_device.c: what the loop of device_read copies, and why it ends.
use lkm_sandbox.Base.{
  ℕ, zero, suc, ◌+◌, ◌≤◌, ◌<◌, ◌≡◌, refl, ap, ◌∙◌, ◌⊎◌, inl, inr, none, some, List, get_elem?,
  Option-cases, arith,
}
use native.Mathlib.Decide.{ℕ_discrete}
use lkm_sandbox.Kernel.PutUser.{PutUser, IsLawful}
use lkm_sandbox.Device.{copy}
use lkm_sandbox.Device.Message.{IsText}

-- Why the loop has ended: `len` or the message is used up, or put_user has failed at the next char,
-- over which the pointer has moved all the same.
pub data Stop (P : PutUser) (len n buffer ptr j ptr' : ℕ) (mem' : P.Memory) : Type 0 where
  used_up : (j ≡ len) ⊎ (ptr + j ≡ n) → ptr' ≡ ptr + j → Stop P len n buffer ptr j ptr' mem'
  failed :
      (c : ℕ)
      → P.put_user mem' (buffer + j) c ≡ none
      → j < len
      → ptr + j < n
      → ptr' ≡ ptr + j + 1
      → Stop P len n buffer ptr j ptr' mem'

-- `j` chars of a text that ends at `n` were copied, from `ptr` on, to `buffer` and nowhere else.
pub record Copied (P : PutUser) (chars : List ℕ) (n len buffer ptr : ℕ) (mem : P.Memory)
    (j ptr' : ℕ) (mem' : P.Memory) : Type 0 where
  pub fits : j ≤ len
  pub inside : ptr + j ≤ n
  pub delivered : (i : ℕ) → i < j → get_elem? chars (ptr + i) ≡ some (P.char_at mem' (buffer + i))
  pub elsewhere : (b : ℕ) → (b < buffer) ⊎ (buffer + j ≤ b) → P.char_at mem' b ≡ P.char_at mem b
  pub stop : Stop P len n buffer ptr j ptr' mem'

module _ (P : PutUser) (L : IsLawful P) (chars : List ℕ) (n : ℕ) (text : IsText chars n) where
  -- The loop ends for the reason for which it ends one char later.
  stop_one :
      {len buffer ptr j ptr' : ℕ} {mem' : P.Memory}
      → Stop P len n (suc buffer) (suc ptr) j ptr' mem'
      → Stop P (suc len) n buffer ptr (suc j) ptr' mem'
  stop_one (used_up done at) = used_up (omega arith) (omega arith)
  stop_one {buffer = buffer} {j = j} (failed c put few before at) =
      let e : buffer + suc j ≡ suc buffer + j = omega arith in
      failed c (rw e put) (omega arith) (omega arith) (omega arith)

  -- One more char before those that were copied.
  Copied-one :
      (len buffer ptr c : ℕ) (mem mem₁ : P.Memory) (j ptr' : ℕ) (mem' : P.Memory)
      → get_elem? chars ptr ≡ some (suc c)
      → P.put_user mem buffer (suc c) ≡ some mem₁
      → Copied P chars n len (suc buffer) (suc ptr) mem₁ j ptr' mem'
      → Copied P chars n (suc len) buffer ptr mem (suc j) ptr' mem'
  Copied-one len buffer ptr c mem mem₁ j ptr' mem' here put r = record {
    fits = omega (arith, r.fits);
    inside = omega (arith, r.inside);
    delivered = λ i h. first i h;
    elsewhere =
        λ b h. r.elsewhere b (omega arith) ∙ L.put_other mem buffer (suc c) b put (omega arith);
    stop = stop_one r.stop;
  }
    where
      first : (i : ℕ) → i < suc j → get_elem? chars (ptr + i) ≡ some (P.char_at mem' (buffer + i))
      first zero h =
          let a : ptr + 0 ≡ ptr = omega arith in
          let b : buffer + 0 ≡ buffer = omega arith in
          rw (a, b, here, r.elsewhere buffer (inl (omega arith)), L.put_self mem buffer (suc c) put)
            refl
      first (suc i) h =
          let a : ptr + suc i ≡ suc ptr + i = omega arith in
          let b : buffer + suc i ≡ suc buffer + i = omega arith in
          rw (a, b) (r.delivered i (omega arith))

  Copied-none :
      (len buffer ptr ptr' : ℕ) (mem : P.Memory)
      → ptr ≤ n
      → Stop P len n buffer ptr 0 ptr' mem
      → Copied P chars n len buffer ptr mem 0 ptr' mem
  Copied-none len buffer ptr ptr' mem h stop = record {
    fits = omega arith;
    inside = omega arith;
    delivered = λ i h. elim h [ ];
    elsewhere = λ b h. refl;
    stop = stop;
  }

  copy_step :
      (len buffer k ptr c : ℕ) (mem : P.Memory) {mem₁ : P.Memory}
      → get_elem? chars ptr ≡ some (suc c)
      → P.put_user mem buffer (suc c) ≡ some mem₁
      → copy P chars (suc len) buffer k ptr mem
        ≡ copy P chars len (suc buffer) (suc k) (suc ptr) mem₁
  unfolding copy
  copy_step len buffer k ptr c mem here put = ground (arith, here, put)

  pub copy_lem :
      (len buffer k ptr : ℕ) (mem : P.Memory)
      → ptr ≤ n
      → (j : ℕ) × (ptr' : ℕ) × (mem' : P.Memory) × (copy P chars len buffer k ptr mem
          ≡ some (k + j, ptr', mem'))
        × Copied P chars n len buffer ptr mem j ptr' mem'
  unfolding copy
  copy_lem zero buffer k ptr mem h = (
    0,
    ptr,
    mem,
    ground arith,
    Copied-none zero buffer ptr ptr mem h (used_up (inl refl) (omega arith)),
  )
  copy_lem (suc len) buffer k ptr mem h = elim (ℕ_discrete ptr n) [
    | yes last ↦ (
      0,
      ptr,
      mem,
      ground (arith, text.ends),
      Copied-none (suc len) buffer ptr ptr mem h (used_up (inr (omega arith)) (omega arith)),
    )
    | no before ↦
        let (c, here) = text.starts ptr (omega arith) in
        elim (Option-cases (P.put_user mem buffer (suc c))) [
          | inl fails ↦ (
            0,
            suc ptr,
            mem,
            ground (arith, here),
            Copied-none (suc len) buffer ptr (suc ptr) mem h (
                failed (suc c) (let e : buffer + 0 ≡ buffer = omega arith in rw e fails)
                  (omega arith) (omega arith) (omega arith)),
          )
          | inr (mem₁, put) ↦
              let (j, ptr', mem', e, r) =
                copy_lem len (suc buffer) (suc k) (suc ptr) mem₁ (omega arith) in
              (
                suc j,
                ptr',
                mem',
                copy_step len buffer k ptr c mem here put
                    ∙ e
                    ∙ ap (λ (x : ℕ). some (x, ptr', mem')) (omega arith),
                Copied-one len buffer ptr c mem mem₁ j ptr' mem' here put r,
              )
        ]
  ]
