-- ===== src/Process.antt =====
-- lkm_process.c: printing which process loads and unloads the module.
pub mod Memory
mod Tests
use lkm_sandbox.Base.{ℕ, ℤ, pos, Option, none, some, List, ◌∷◌, [], Bool}
use lkm_sandbox.Kernel.Slab.{Slab, null, block, kmalloc, kfree}

-- What snprintf answers, and the text that it writes: the format is not modelled.
pub record Printed : Type 0 where
  pub written : ℤ
  pub text : List ℕ

-- The buffer: its address and its text.
pub record Info : Type 0 where
  pub addr : ℕ
  pub text : List ℕ

-- get_process_information
unfoldable pub get_process_information : Printed → Slab → Option Info × Slab
get_process_information w s = elim (kmalloc s) [
  | null s' ↦ (none, s')
  | block b s' ↦ elim w.written [
    | pos ℕ.zero ↦ (none, s')
    | _ ↦ (some (record { addr = b.addr; text = w.text }), s')
  ]
]

-- print_process_information: what printk prints with the text
unfoldable pub print_process_information : Printed → Slab → Option (List ℕ) × Slab
print_process_information w s =
    let (info, s') = get_process_information w s in
    elim info [ none ↦ (none, s') | some i ↦ (some i.text, kfree i.addr s') ]

unfoldable pub init : Printed → Slab → ℤ × Slab
init w s = (pos 0, (print_process_information w s).1)

unfoldable pub exit : Printed → Slab → Slab
exit w s = (print_process_information w s).1
