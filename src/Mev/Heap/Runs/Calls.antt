-- ===== src/Mev/Heap/Runs/Calls.antt =====
-- lkm_mev.c: one call over the kernel's memory, beside the one over the list.
use mathlib.Core.Path.{subst}
use mathlib.Core.Option.{some-injective}
use lkm_sandbox.Mev.Callers.Calls.{near_lem}
use lkm_sandbox.Base.{
  Bool-cases, inl, inr, pos, ◌∙◌, ℕ, ◌*◌, ◌<◌, ◌≡◌, refl, sym, ap, none, some, arith,
}
use lkm_sandbox.Kernel.Uaccess.{Uaccess, IsLawful}
use lkm_sandbox.Mev.Types.{IsValid}
use lkm_sandbox.Mev.Types
use lkm_sandbox.Mev.Read.Delivers.{read_total}
use lkm_sandbox.Mev.Write.Writes.{write_total}
use lkm_sandbox.Mev.Setup.{io_is_wronly}
use lkm_sandbox.Mev.Setup
use lkm_sandbox.Mev.Trim.Frees.{trim-IsValid, trim_size}
use lkm_sandbox.Mev.Heap.{Ptr, Cells, Container}
use lkm_sandbox.Mev.Heap.Layout.{Places, layout, Represents}
use lkm_sandbox.Mev.Heap.Grows.{Available, Available-frame}
use lkm_sandbox.Mev.Heap.Steps.{at}
use lkm_sandbox.Mev.Heap.Items.{IsRest}
use lkm_sandbox.Mev.Heap.Trims.{trim_refines}
use lkm_sandbox.Mev.Heap.Io.Agrees.{beside, result}
use lkm_sandbox.Mev.Heap.Io.Reads.{read_refines}
use lkm_sandbox.Mev.Heap.Io.Writes.{write_refines}
use lkm_sandbox.Mev.Heap.Runs.{
  Request, reading, writing, opening, Fits, rounds, open_device, list_call, heap_call,
}
use lkm_sandbox.Mev.Heap.Runs.Answers.{trim-answers}

-- What holds between two calls: the device is valid and its semaphore is free, the container stands
-- in memory as the list says, and kmalloc gives memory that nobody holds.
pub record Between (U : Uaccess) (c : Container) (cells : Cells) (s : lkm_sandbox.Mev.Types.State U)
    : Type 0 where
  pub valid : IsValid s.dev
  pub free : 0 < s.dev.sem
  pub represents : Represents c cells s.dev
  pub available : Available cells s.slab.answers

-- The call over the memory has the result of the one over the list, and leaves what it leaves.
abbrev pub Follows :
    (U : Uaccess) → Request → Container → Cells → lkm_sandbox.Mev.Types.State U → Type 0
Follows U q c cells s =
    (r : lkm_sandbox.Mev.Types.Io U) × (c' : Container) × (cells' : Cells) × (list_call U q s
      ≡ some r)
    × (heap_call U q (beside U c cells s) ≡ some (result U c' cells' r))
    × Between U c' cells' r.state

-- Memory that nobody holds is held by nobody when some is given back.
rest-none :
    (xs : Places) (cells cells' : Cells)
    → IsRest xs cells cells'
    → (a : Ptr) → cells a ≡ none
    → cells' a ≡ none
rest-none xs cells cells' rest a e = ground (arith, rest a)

module _ (U : Uaccess) (c : Container) (cells : Cells) (s : lkm_sandbox.Mev.Types.State U)
    (b : Between U c cells s) where
  reading-Follows :
      (buf count f_pos : ℕ)
      → Fits (reading buf count f_pos)
      → Follows U (reading buf count f_pos) c cells s
  unfolding list_call heap_call
  reading-Follows buf count f_pos fits =
      let (r, c', cells', e, e', rep, v) =
        read_refines U s b.valid b.free buf count f_pos (omega arith) c cells b.represents
          b.available in
      let total = read_total U s b.valid b.free buf count f_pos (omega arith) in
      let same : r ≡ total.0 = some-injective _ _ (sym e ∙ total.1) in
      (
        r,
        c',
        cells',
        e,
        e',
        record {
          valid =
              subst IsValid
                (sym (ap (λ (r : lkm_sandbox.Mev.Types.Io U). r.state.dev) same ∙ total.2)) b.valid;
          free = rw (ap (λ (r : lkm_sandbox.Mev.Types.Io U). r.state.dev) same ∙ total.2) b.free;
          represents = rep;
          available = v;
        },
      )

  writing-Follows :
      IsLawful U
      → (buf count f_pos : ℕ) → Fits (writing buf count f_pos)
      → Follows U (writing buf count f_pos) c cells s
  unfolding list_call heap_call
  writing-Follows L buf count f_pos fits =
      let near = near_lem f_pos (s.dev.quantum * s.dev.qset) (omega arith) in
      let (r, c', cells', e, e', rep, v) =
        write_refines U L s b.valid b.free buf count f_pos near c cells b.represents b.available in
      let total = write_total U L s b.valid b.free buf count f_pos near in
      let same : r ≡ total.0 = some-injective _ _ (sym e ∙ total.1) in
      (
        r,
        c',
        cells',
        e,
        e',
        record {
          valid =
              subst (λ (r : lkm_sandbox.Mev.Types.Io U). IsValid r.state.dev) (sym same) total.2;
          free =
              rw (ap (λ (r : lkm_sandbox.Mev.Types.Io U). r.state.dev.sem) same ∙ total.3) b.free;
          represents = rep;
          available = v;
        },
      )

  opening-Follows : (f_flags : ℕ) → Follows U (opening f_flags) c cells s
  unfolding list_call heap_call open_device lkm_sandbox.Mev.Setup.open_device
  opening-Follows f_flags = elim (Bool-cases (io_is_wronly f_flags)) [
    | inr other ↦
        (record { ret = pos 0; f_pos = 0; state = s }, c, cells, rw other refl, rw other refl, b)
    | inl wronly ↦
        let (c', m', d', e', e, rep, rest) =
          trim_refines rounds c (at cells s.slab) s.dev b.represents b.valid.shaped
            (omega (arith, b.valid.counted)) in
        (
          record { ret = pos 0; f_pos = 0; state = record s { dev = d'; slab = m'.slab } },
          c',
          m'.cells,
          rw (wronly, e) refl,
          rw (wronly, e') refl,
          record {
            valid = trim-IsValid s.dev s.slab e;
            free = rw (trim_size s.dev s.slab e).1 (b.free);
            represents = rep;
            available =
                Available-frame cells m'.cells m'.slab.answers
                  (rest-none (layout s.dev.chain) cells m'.cells rest)
                  (rw (trim-answers s.dev s.slab e) b.available);
          },
        )
  ]

pub call_refines :
    (U : Uaccess)
    → IsLawful U
    → (q : Request) → Fits q
    → (c : Container) (cells : Cells) (s : lkm_sandbox.Mev.Types.State U) → Between U c cells s
    → Follows U q c cells s
call_refines U L (reading buf count f_pos) fits c cells s b =
    reading-Follows U c cells s b buf count f_pos fits
call_refines U L (writing buf count f_pos) fits c cells s b =
    writing-Follows U c cells s b L buf count f_pos fits
call_refines U L (opening f_flags) fits c cells s b = opening-Follows U c cells s b f_flags
