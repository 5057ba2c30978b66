-- ===== src/Mem.antt =====
-- lkm_mem.c: a tree of files in /proc that show the memory statistics. A handle is a number, and 0
-- is NULL.
pub mod Loads
pub mod Shows
mod Tests
use lkm_sandbox.Base.{ℕ, List, [], ◌∷◌, ◌++◌, ℤ, pos, ◌==◌, if◌then◌else◌}
use lkm_sandbox.Kernel.Ledger.{Event, Resource, entry, created, removed}

-- Numbers that stand for the names: LKM_PROC_PARENT and so on.
abbrev pub lkm_name : ℕ
lkm_name = 1

abbrev pub mem_name : ℕ
mem_name = 2

abbrev pub swap_name : ℕ
swap_name = 3

abbrev pub buffer_name : ℕ
buffer_name = 4

abbrev pub free_name : ℕ
free_name = 5

abbrev pub shared_name : ℕ
shared_name = 6

abbrev pub total_name : ℕ
total_name = 7

-- What the module reads of struct sysinfo.
pub record Sysinfo : Type 0 where
  pub bufferram : ℕ
  pub freeram : ℕ
  pub sharedram : ℕ
  pub totalram : ℕ
  pub freeswap : ℕ
  pub totalswap : ℕ

-- The pointer to a value that a file keeps as its data.
pub data Value : Type 0 where
  bufferram_of : Value
  freeram_of : Value
  sharedram_of : Value
  totalram_of : Value
  freeswap_of : Value
  totalswap_of : Value

abbrev pub load : Value → Sysinfo → ℕ
load bufferram_of si = si.bufferram
load freeram_of si = si.freeram
load sharedram_of si = si.sharedram
load totalram_of si = si.totalram
load freeswap_of si = si.freeswap
load totalswap_of si = si.totalswap

-- A file of /proc: the directory in which it stands, its name, and its data.
pub record File : Type 0 where
  pub parent : ℕ
  pub name : ℕ
  pub value : Value

-- The static variables, the files that were made, and the calls that register something.
pub record Mem : Type 0 where
  pub si : Sysinfo
  pub lkm_proc_parent : ℕ
  pub mem_proc_parent : ℕ
  pub mem_proc_buffer_entry : ℕ
  pub mem_proc_free_entry : ℕ
  pub mem_proc_shared_entry : ℕ
  pub mem_proc_total_entry : ℕ
  pub swap_proc_parent : ℕ
  pub swap_proc_free_entry : ℕ
  pub swap_proc_total_entry : ℕ
  pub files : List File
  pub ledger : List Event

-- The handles that the kernel answers to the calls of init, in their order, and what si_meminfo
-- makes of the variable.
pub record Answers : Type 0 where
  pub lkm : ℕ
  pub mem : ℕ
  pub buffer : ℕ
  pub free : ℕ
  pub shared : ℕ
  pub total : ℕ
  pub swap : ℕ
  pub swap_free : ℕ
  pub swap_total : ℕ
  pub si_meminfo : Sysinfo → Sysinfo

-- lkm_value_show: the digits of the value, and a newline; `decimal` is seq_put_decimal_ull.
unfoldable pub value_show : (ℕ → List ℕ) → Sysinfo → Value → ℤ × List ℕ
value_show decimal si value = (pos 0, decimal (load value si) ++ 10 ∷ [])

-- lkm_proc_mkdir, with the handle that proc_mkdir answers
unfoldable pub proc_mkdir : ℕ → ℕ → ℕ → List Event → List Event
proc_mkdir handle name parent ledger = created handle (entry parent name) ledger

-- lkm_proc_create_single_data, with the handle that proc_create_single_data answers
unfoldable pub proc_create_single_data : ℕ → ℕ → Value → ℕ → Mem → Mem
proc_create_single_data handle name value parent s = record s {
  files =
      if handle == 0
      then s.files
      else record { parent = parent; name = name; value = value } ∷ s.files;
  ledger = created handle (entry parent name) s.ledger;
}

-- lkm_remove_proc_entry
unfoldable pub remove_proc_entry : ℕ → ℕ → ℕ → List Event → List Event
remove_proc_entry handle name parent ledger = removed handle (entry parent name) ledger

unfoldable pub init : Answers → Mem → ℤ × Mem
init w s =
    let s₁ = record s {
      lkm_proc_parent = w.lkm;
      ledger = proc_mkdir w.lkm lkm_name 0 s.ledger;
      si = w.si_meminfo s.si;
    } in
    let s₂ = record s₁ {
      mem_proc_parent = w.mem;
      ledger = proc_mkdir w.mem mem_name w.lkm s₁.ledger;
    } in
    let s₃ = record (proc_create_single_data w.buffer buffer_name bufferram_of w.mem s₂) {
      mem_proc_buffer_entry = w.buffer;
    } in
    let s₄ = record (proc_create_single_data w.free free_name freeram_of w.mem s₃) {
      mem_proc_free_entry = w.free;
    } in
    let s₅ = record (proc_create_single_data w.shared shared_name sharedram_of w.mem s₄) {
      mem_proc_shared_entry = w.shared;
    } in
    let s₆ = record (proc_create_single_data w.total total_name totalram_of w.mem s₅) {
      mem_proc_total_entry = w.total;
    } in
    let s₇ = record s₆ {
      swap_proc_parent = w.swap;
      ledger = proc_mkdir w.swap swap_name w.lkm s₆.ledger;
    } in
    let s₈ = record (proc_create_single_data w.swap_free free_name freeswap_of w.swap s₇) {
      swap_proc_free_entry = w.swap_free;
    } in
    let s₉ = record (proc_create_single_data w.swap_total total_name totalswap_of w.swap s₈) {
      swap_proc_total_entry = w.swap_total;
    } in
    (pos 0, s₉)

-- lkm_mem_exit removes the files of a directory before the directory.
unfoldable pub exit : Mem → Mem
exit s =
    let mem = s.mem_proc_parent in
    let swap = s.swap_proc_parent in
    let l₁ = remove_proc_entry s.mem_proc_buffer_entry buffer_name mem s.ledger in
    let l₂ = remove_proc_entry s.mem_proc_free_entry free_name mem l₁ in
    let l₃ = remove_proc_entry s.mem_proc_shared_entry shared_name mem l₂ in
    let l₄ = remove_proc_entry s.mem_proc_total_entry total_name mem l₃ in
    let l₅ = remove_proc_entry mem mem_name s.lkm_proc_parent l₄ in
    let l₆ = remove_proc_entry s.swap_proc_free_entry free_name swap l₅ in
    let l₇ = remove_proc_entry s.swap_proc_total_entry total_name swap l₆ in
    let l₈ = remove_proc_entry swap swap_name s.lkm_proc_parent l₇ in
    record s { ledger = remove_proc_entry s.lkm_proc_parent lkm_name 0 l₈ }
