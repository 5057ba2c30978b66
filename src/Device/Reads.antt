-- ===== src/Device/Reads.antt =====
-- lkm_device.c: what device_read delivers.
use lkm_sandbox.Base.{
  ℕ, suc, ◌+◌, ◌≤◌, ◌<◌, ◌≡◌, ◌≢◌, refl, sym, ◌∙◌, ℤ, pos, pos-injective, none, some, get_elem?,
  ◌==◌, if◌then◌else◌, arith,
}
use native.Mathlib.Decide.{ℕ_discrete}
use lkm_sandbox.Kernel.PutUser.{PutUser, IsLawful}
use lkm_sandbox.Device.{message, Device, copy, read}
use lkm_sandbox.Device.Message.{message-IsText, IsReadable}
use lkm_sandbox.Device.Copies.{Stop, used_up, failed, Copied, copy_lem}

-- Where a read begins.
abbrev pub rewound : ℕ → ℕ
rewound ptr = if ptr == 14 then 0 else ptr

module _ (P : PutUser) where
  -- The pointer is still in the message when the loop ends.
  pub ends_within :
      {len buffer ptr : ℕ} {mem : P.Memory} {j ptr' : ℕ} {mem' : P.Memory}
      → Copied P message 14 len buffer ptr mem j ptr' mem'
      → ptr' ≤ 14
  ends_within r = elim r.stop [
    | used_up done at ↦ omega (arith, r.inside)
    | failed c put few before at ↦ omega arith
  ]

  -- The copy begins where `rewound` says.
  read_start :
      (buffer len : ℕ) (s : Device) (mem : P.Memory) {j ptr' : ℕ} {mem' : P.Memory}
      → IsReadable s
      → copy P message len buffer 0 (rewound s.message_ptr) mem ≡ some (0 + j, ptr', mem')
      → read P buffer len s mem ≡ some (pos j, record s { message_ptr = ptr' }, mem')
  unfolding read
  read_start buffer len s mem v e = elim (ℕ_discrete s.message_ptr 14) [
    | yes last ↦
        let here : get_elem? s.message_buffer s.message_ptr ≡ some 0 = rw (v.filled, last) refl in
        ground (arith, v.filled)
    | no before ↦
        let (c, here) = message-IsText.starts s.message_ptr (omega (arith, v.within)) in
        let here' : get_elem? s.message_buffer s.message_ptr ≡ some (suc c) = rw v.filled here in
        ground (arith, v.filled)
  ]

  module _ (L : IsLawful P) where
    -- A read of an initialised device does not fault: it copies the message from the pointer on, or
    -- from its start where the pointer is at the NUL, to the user's buffer and nowhere else, until
    -- `len` or the message is used up or put_user fails, returns the number of chars that were
    -- copied, and leaves the pointer behind them, or, where put_user has failed, one further.
    pub read_lem :
        (buffer len : ℕ) (s : Device) (mem : P.Memory)
        → IsReadable s
        → (j : ℕ) × (ptr' : ℕ) × (mem' : P.Memory) × (read P buffer len s mem
            ≡ some (pos j, record s { message_ptr = ptr' }, mem'))
          × IsReadable (record s { message_ptr = ptr' })
          × Copied P message 14 len buffer (rewound s.message_ptr) mem j ptr' mem'
    read_lem buffer len s mem v =
        let (j, ptr', mem', e, r) =
          copy_lem P L message 14 message-IsText len buffer 0 (rewound s.message_ptr) mem
            (ground (arith, v.within)) in
        (
          j,
          ptr',
          mem',
          read_start buffer len s mem v e,
          record { filled = v.filled; within = ends_within r },
          r,
        )

    -- From an initialised device, a read of at least one char to an address at which put_user does
    -- not fail never returns 0: there is no end of the file.
    pub read_never_ends :
        (buffer len : ℕ) (s : Device) (mem : P.Memory) {ret : ℤ} {s' : Device} {mem' : P.Memory}
        → IsReadable s
        → 0 < len
        → ((m : P.Memory) (c : ℕ) → P.put_user m buffer c ≢ none)
        → read P buffer len s mem ≡ some (ret, s', mem')
        → ret ≢ pos 0
    read_never_ends buffer len s mem {ret} v room works e end =
        let (j, ptr', mem', e', v', r) = read_lem buffer len s mem v in
        let same : pos j ≡ ret = ground arith in
        no_end j (rewound s.message_ptr) ptr' mem' (pos-injective (same ∙ end))
          (ground (arith, v.within)) r.stop
      where
        no_end :
            (j ptr ptr' : ℕ) (mem' : P.Memory)
            → j ≡ 0
            → ptr < 14
            → Stop P len 14 buffer ptr j ptr' mem'
            → ⊥
        no_end j ptr ptr' mem' e lt (used_up done at) = omega arith
        no_end j ptr ptr' mem' e lt (failed c put few before at) =
            let a : buffer + j ≡ buffer = omega arith in works mem' c (rw (sym a) put)
