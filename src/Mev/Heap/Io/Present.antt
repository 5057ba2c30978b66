-- ===== src/Mev/Heap/Io/Present.antt =====
-- lkm_mev.c, mev_read from the test of the pointers on, over the kernel's memory, beside that over
-- the list.
use lkm_sandbox.Base.{
  ℕ, ◌≡◌, ◌≢◌, refl, ap, ◌∙◌, Option, none, some, List, ◌>>=◌, pos, Option-cases, inl, inr, arith,
}
use lkm_sandbox.Kernel.Uaccess.{Uaccess}
use lkm_sandbox.Mev.Types.{Place, Quantum, locate, IsValid}
use lkm_sandbox.Mev.Types
use lkm_sandbox.Mev.Read.{
  Lookup, outside, absent, present, lookup, slice, to_quantum_end, to_file_end,
}
use lkm_sandbox.Mev.Read
use lkm_sandbox.Mev.Heap.{Ptr, Cells, Container, quantum}
use lkm_sandbox.Mev.Heap.Layout.{Represents}
use lkm_sandbox.Mev.Heap.Grows.{Available}
use lkm_sandbox.Mev.Heap.Steps.{at}
use lkm_sandbox.Mev.Heap.Access.{load_bytes}
use lkm_sandbox.Mev.Heap.Access.Lookups.{FindAs}
use lkm_sandbox.Mev.Heap.Access.Rounds.{load_bytes_lem}
use lkm_sandbox.Mev.Heap.Io.{deliver, read_quantum}
use lkm_sandbox.Mev.Heap.Io.Agrees.{beside, result, Agrees}

module _ (U : Uaccess) where
  deliver_lem :
      (buf f_pos : ℕ) (bytes : List ℕ) (c : Container) (cells : Cells)
      (s : lkm_sandbox.Mev.Types.State U)
      → deliver U buf f_pos bytes (beside U c cells s)
        ≡ result U c cells (lkm_sandbox.Mev.Read.deliver U buf f_pos bytes s)
  unfolding deliver lkm_sandbox.Mev.Read.deliver
  deliver_lem buf f_pos bytes c cells s = ground arith

  deliver_dev :
      (buf f_pos : ℕ) (bytes : List ℕ) (s : lkm_sandbox.Mev.Types.State U)
      → (lkm_sandbox.Mev.Read.deliver U buf f_pos bytes s).state.dev ≡ s.dev
  unfolding lkm_sandbox.Mev.Read.deliver
  deliver_dev buf f_pos bytes s = ground arith

  deliver_slab :
      (buf f_pos : ℕ) (bytes : List ℕ) (s : lkm_sandbox.Mev.Types.State U)
      → (lkm_sandbox.Mev.Read.deliver U buf f_pos bytes s).state.slab ≡ s.slab
  unfolding lkm_sandbox.Mev.Read.deliver
  deliver_slab buf f_pos bytes s = ground arith

  -- What follows the test, in the list.
  abbrev after :
      ℕ
      → ℕ
      → ℕ
      → Place
      → lkm_sandbox.Mev.Types.State U
      → Lookup
      → Option (lkm_sandbox.Mev.Types.Io U)
  after buf count f_pos at s l = elim l [
    | outside ↦ none
    | absent ↦ some (record { ret = pos 0; f_pos = f_pos; state = s })
    | present q ↦ do
      bytes ← slice at.q_pos (to_quantum_end s.dev.quantum at.q_pos count) q.bytes
      some (lkm_sandbox.Mev.Read.deliver U buf f_pos bytes s)
  ]

  module _ (buf count f_pos : ℕ) (at_place : Place) (c : Container) (cells : Cells)
      (s : lkm_sandbox.Mev.Types.State U) (rep : Represents c cells s.dev)
      (v : Available cells s.slab.answers) where
    quantum_on :
        (q : Ptr) (bytes part : List ℕ)
        → q ≢ 0
        → load_bytes cells q ≡ some bytes
        → slice at_place.q_pos (to_quantum_end c.quantum at_place.q_pos count) bytes ≡ some part
        → read_quantum U buf count f_pos at_place q (beside U c cells s)
          ≡ some (deliver U buf f_pos part (beside U c cells s))
    unfolding read_quantum
    quantum_on q bytes part ne e e' = ground arith

    present_lem :
        (q : Quantum)
        → q.addr ≢ 0
        → cells q.addr ≡ some (quantum q.bytes)
        → Agrees U
            (after buf count f_pos at_place s (present q))
            (read_quantum U buf count f_pos at_place q.addr (beside U c cells s))
    present_lem q ne e =
        elim (Option-cases
          (slice at_place.q_pos (to_quantum_end s.dev.quantum at_place.q_pos count) q.bytes)) [
            | inl lost ↦ rw lost tt
            | inr (part, e') ↦ rw e' (
              c,
              cells,
              quantum_on q.addr q.bytes part ne (load_bytes_lem cells q.addr q.bytes ne e)
                    (rw rep.quantum e')
                  ∙ ap some (deliver_lem buf f_pos part c cells s),
              rw (deliver_dev buf f_pos part s) rep,
              rw (deliver_slab buf f_pos part s) v,
            )
          ]

    pub after_lem :
        (l : Lookup) (out : Option Ptr)
        → FindAs cells l out
        → Agrees U
            (after buf count f_pos at_place s l)
            (out >>= λ q. read_quantum U buf count f_pos at_place q (beside U c cells s))
    unfolding read_quantum
    after_lem outside out h = tt
    after_lem absent out h = (c, cells, rw h refl, rep, v)
    after_lem (present q) out (e, ne, e_q) = rw e (present_lem q ne e_q)
