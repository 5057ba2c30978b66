-- ===== src/Debugfs.antt =====
-- lkm_debugfs.c: a directory of debugfs with a number and a message that can be read and written.
-- A handle is a pointer as a number: 0 is NULL, and the last 4095 numbers of 64 bits are errors.
pub mod Copies
pub mod Loads
mod Tests
use lkm_sandbox.Base.{
  ℕ, ℤ, pos, neg, Bool, false, true, ◌^◌, ◌-◌, leb, List, [], ◌∷◌, ltb, ◌==◌, if◌then◌else◌,
  replicate,
}
use lkm_sandbox.Kernel.Errno.{eio, enodev, einval}
use lkm_sandbox.Kernel.Text.{strncpy}
use lkm_sandbox.Kernel.SimpleIo.{SimpleIo}
use lkm_sandbox.Kernel.Ledger.{Event, acquired, released, entry}

abbrev pub content_len : ℕ
content_len = 200

-- "Hello, debugfs!\n"
abbrev pub greeting : List ℕ
greeting =
    72 ∷ 101 ∷ 108 ∷ 108 ∷ 111 ∷ 44 ∷ 32 ∷ 100 ∷ 101 ∷ 98 ∷ 117 ∷ 103 ∷ 102 ∷ 115 ∷ 33 ∷ 10 ∷ []

-- Numbers that stand for the names "lkm", "number" and "message".
abbrev pub dir_name : ℕ
dir_name = 1

abbrev pub number_name : ℕ
number_name = 2

abbrev pub message_name : ℕ
message_name = 3

-- The variables of the module, the names of the files in its directory, and the calls that register
-- something.
pub record Debug : Type 0 where
  pub content : List ℕ
  pub debug_root : ℕ
  pub debug_file_entry : ℕ
  pub number : ℕ
  pub files : List ℕ
  pub ledger : List Event

module _ (S : SimpleIo) where
  -- debug_read
  unfoldable pub debug_read : S.Memory → ℕ → ℕ → ℕ → Debug → ℤ × ℕ × S.Memory
  debug_read mem buffer count position s =
      S.read_from_buffer mem buffer count position s.content content_len

  -- debug_write
  unfoldable pub debug_write : S.Memory → ℕ → ℕ → ℕ → Debug → ℤ × ℕ × Debug
  debug_write mem buffer count position s =
      if ltb content_len count
      then (neg einval, position, s)
      else let r = S.write_to_buffer s.content content_len position mem buffer count in
        (r.0, r.1, record s { content = r.2 })

-- What the kernel answers: debugfs_initialized, and the handles of the directory and of the two
-- files.
pub record Answers : Type 0 where
  pub initialized : Bool
  pub dir : ℕ
  pub number_file : ℕ
  pub message_file : ℕ

-- IS_ERR. Kernels from 5.0 on answer such a pointer where a file or a directory is not made, older
-- ones NULL.
abbrev pub is_err : ℕ → Bool
is_err handle = leb (2 ^ 64 - 4095) handle

abbrev pub is_made : ℕ → Bool
is_made handle = if handle == 0 then false else if is_err handle then false else true

-- A file that is made stands in the directory.
abbrev pub with_file : ℕ → ℕ → List ℕ → List ℕ
with_file handle name files = if is_made handle then name ∷ files else files

-- The tests are for NULL only.
unfoldable pub init : Answers → Debug → ℤ × Debug
init w s =
    let s₁ = record s {
      debug_root = w.dir;
      ledger = if is_made w.dir then acquired (entry 0 dir_name) ∷ s.ledger else s.ledger;
    } in
    let s₂ = record s₁ {
      number = 42;
      debug_file_entry = w.message_file;
      files = with_file w.message_file message_name (with_file w.number_file number_name s.files);
      content = strncpy greeting content_len;
    } in
    if w.initialized
    then if w.dir == 0
      then (neg enodev, s₁)
      else if w.message_file == 0
      then (neg eio, s₂)
      else (pos 0, s₂)
    else (neg enodev, s)

-- debugfs_remove_recursive takes the files with the directory, and does nothing with an error.
abbrev pub remove_recursive : ℕ → Debug → Debug
remove_recursive handle s =
    if is_made handle
    then record s { files = []; ledger = released (entry 0 dir_name) ∷ s.ledger }
    else s

unfoldable pub exit : Debug → Debug
exit s =
    if s.debug_root == 0
    then s
    else record (remove_recursive s.debug_root s) { debug_file_entry = 0; debug_root = 0 }
