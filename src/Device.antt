-- ===== src/Device.antt =====
-- lkm_device.c: a character device that reads out a message, one file at a time, and a file of
-- /proc that shows its major number. `none` is an access outside the message buffer.
pub mod Message
pub mod Copies
pub mod Reads
pub mod Loads
pub mod Opens
pub mod Race
mod Tests
use lkm_sandbox.Base.{
  ℕ, zero, suc, ◌-◌, ◌^◌, ◌+◌, ℤ, pos, negsuc, neg, is_neg, is_pos, inc, dec, Bool, true, false,
  Option, none, some, List, [], ◌∷◌, ◌++◌, ◌>>=◌, ◌==◌, if◌then◌else◌, length, get_elem?, take,
  replicate,
}
use lkm_sandbox.Kernel.Errno.{ebusy, einval}
use lkm_sandbox.Kernel.Ledger.{Event, acquired, released, chrdev, entry, module_ref}
use lkm_sandbox.Kernel.Text.{strncpy}
use lkm_sandbox.Kernel.PutUser.{PutUser}

-- MESSAGE: "Hello, Linux!\n" with the NUL at its end
abbrev pub message : List ℕ
message = 72 ∷ 101 ∷ 108 ∷ 108 ∷ 111 ∷ 44 ∷ 32 ∷ 76 ∷ 105 ∷ 110 ∷ 117 ∷ 120 ∷ 33 ∷ 10 ∷ 0 ∷ []

abbrev pub message_buffer_length : ℕ
message_buffer_length = 15

-- The number that stands for PROC_FILE_NAME.
abbrev pub proc_file_name : ℕ
proc_file_name = 1

-- The static variables, with `message_ptr` as an offset into `message_buffer`, and the calls that
-- register something with the kernel.
pub record Device : Type 0 where
  pub major_num : ℤ
  pub param_major_num : ℕ
  pub device_open_count : ℤ
  pub message_buffer : List ℕ
  pub message_ptr : ℕ
  pub ledger : List Event

module _ (P : PutUser) where
  -- The loop of device_read, with `len`, `buffer`, `bytes_read` and `message_ptr`; the pointer has
  -- moved on where put_user fails.
  unfoldable pub copy : List ℕ → ℕ → ℕ → ℕ → ℕ → P.Memory → Option (ℕ × ℕ × P.Memory)
  copy chars zero buffer bytes_read ptr mem = some (bytes_read, ptr, mem)
  copy chars (suc len) buffer bytes_read ptr mem = elim (get_elem? chars ptr) [
    | none ↦ none
    | some zero ↦ some (bytes_read, ptr, mem)
    | some (suc c) ↦ elim (P.put_user mem buffer (suc c)) [
      | none ↦ some (bytes_read, suc ptr, mem)
      | some mem' ↦ copy chars len (suc buffer) (suc bytes_read) (suc ptr) mem'
    ]
  ]

  -- device_read: a pointer at the NUL goes back to the start.
  unfoldable pub read : ℕ → ℕ → Device → P.Memory → Option (ℤ × Device × P.Memory)
  read buffer len s mem = do
    c ← get_elem? s.message_buffer s.message_ptr
    (n, ptr, mem') ← copy s.message_buffer len buffer 0 (if c == 0 then 0 else s.message_ptr) mem
    some (pos n, record s { message_ptr = ptr }, mem')

-- device_write
unfoldable pub write : ℤ
write = neg einval

-- device_open; `got` is what try_module_get answers, and the code does not look at it.
unfoldable pub open_device : Bool → Device → ℤ × Device
open_device got s = if is_pos s.device_open_count then (neg ebusy, s) else (
  pos 0,
  record s {
    device_open_count = inc s.device_open_count;
    ledger = if got then acquired module_ref ∷ s.ledger else s.ledger;
  },
)

-- device_release
unfoldable pub release : Device → ℤ × Device
release s = (
  pos 0,
  record s { device_open_count = dec s.device_open_count; ledger = released module_ref ∷ s.ledger },
)

-- proc_show: the numbers that a read of the file of /proc shows.
unfoldable pub proc_show : Device → ℤ × List ℤ
proc_show s = (pos 0, s.major_num ∷ [])

-- What the kernel answers while the module is loaded: register_chrdev, and whether
-- proc_create_single has made the file.
pub record Answers : Type 0 where
  pub chrdev_rc : ℤ
  pub proc_made : Bool

-- The major number that a register_chrdev which answers `rc` has registered: asked for 0 it picks
-- one and answers it, asked for another it takes that one and answers 0.
abbrev pub registered_major : ℕ → ℤ → List Event → List Event
registered_major zero (pos m) ledger = acquired (chrdev m) ∷ ledger
registered_major (suc p) (pos m) ledger = acquired (chrdev (suc p)) ∷ ledger
registered_major p (negsuc e) ledger = ledger

-- device_init_sub
unfoldable pub device_init_sub : Answers → Device → ℤ × Device
device_init_sub w s = (
  if is_neg w.chrdev_rc then neg 1 else pos 0,
  record s {
    message_buffer = strncpy message message_buffer_length;
    message_ptr = 0;
    major_num = w.chrdev_rc;
    ledger = registered_major s.param_major_num w.chrdev_rc s.ledger;
  },
)

-- proc_init_sub
unfoldable pub proc_init_sub : Answers → Device → ℤ × Device
proc_init_sub w s =
    if w.proc_made
    then (pos 0, record s { ledger = acquired (entry 0 proc_file_name) ∷ s.ledger })
    else (neg 1, s)

-- lkm_device_init
unfoldable pub init : Answers → Device → ℤ × Device
init w s =
    let (device_rc, s') = device_init_sub w s in
    let (proc_rc, s'') = proc_init_sub w s' in
    if is_neg device_rc then (neg 1, s') else if is_neg proc_rc then (neg 2, s'') else (pos 0, s'')

-- unregister_chrdev takes an unsigned int: the bit pattern of `major_num`
abbrev pub bits : ℤ → ℕ
bits (pos n) = n
bits (negsuc n) = 2 ^ 32 - 1 - n

-- lkm_device_exit
unfoldable pub exit : Device → Device
exit s = record s {
  ledger = released (entry 0 proc_file_name) ∷ released (chrdev (bits s.major_num)) ∷ s.ledger;
}
