-- ===== src/Mev/Heap/Access/Makes.antt =====
-- lkm_mev.c, mev_write: a fresh array, a fresh quantum, and new bytes in a quantum, in the kernel's
-- memory.
use lkm_sandbox.Base.{
  ℕ, zero, suc, ◌≡◌, ◌≢◌, refl, sym, ap, false, Option, none, some, List, [], ◌∷◌, get_elem?, set,
  replicate, map, arith,
}
use mathlib.Core.Option.{some-injective}
use lkm_sandbox.Kernel.Slab.{Slab}
use lkm_sandbox.Mev.Types.{Quantum, Slots}
use lkm_sandbox.Mev.Heap.{Ptr, qset, array, quantum, Cells, Memory, put}
use lkm_sandbox.Mev.Heap.Layout.{slot_ptr, quanta_places, has, Holds, Holds-put}
use lkm_sandbox.Mev.Heap.Grows.{Available, Available-frame}
use lkm_sandbox.Mev.Heap.Steps.{at}
use lkm_sandbox.Mev.Heap.Access.Quanta.{
  map-set, map-replicate, get_elem?-map, quanta_places-replicate, quantum-Holds, has-fill,
  has-update, fill-Holds, update-Holds,
}
use lkm_sandbox.Mev.Heap.Access.Fills.{Fills, Node}

set_same : (items : List Ptr) (i : ℕ) {x : Ptr} → get_elem? items i ≡ some x → set items i x ≡ items
set_same [] i e = refl
set_same (y ∷ items) zero e = ap (λ z. z ∷ items) (sym (some-injective _ _ e))
set_same (y ∷ items) (suc i) e = ap (◌∷◌ y) (set_same items i e)

-- After a step that fills the slots, the set and its slots are those of a set again.
pub Fills-Node :
    {cells : Cells} {p next : Ptr} {x y : Option Slots} {m : Memory}
    → p ≢ 0
    → Fills cells p next x m y
    → Node m.cells p next y
Fills-Node ne f = record { ne_null = ne; node = f.node; out = f.out; holds = f.holds }

pub same-Fills :
    (cells : Cells) (s : Slab) (p next : Ptr) (slots : Option Slots)
    → Node cells p next slots
    → Available cells s.answers
    → Fills cells p next slots (at cells s) slots
same-Fills cells s p next slots t v = record {
  holds = t.holds;
  node = t.node;
  out = t.out;
  keeps = λ a c e ne o. (e, o);
  available = v;
}

abbrev pub fresh_array : ℕ → Ptr → Slots
fresh_array n a = record { addr = a; quanta = replicate n none }

pub array-Fills :
    (cells : Cells) (s : Slab) (p next b n : ℕ)
    → Node cells p next none
    → b ≢ 0
    → cells b ≡ none
    → Available (put cells b (some (quantum []))) s.answers
    → Fills cells p next none
        (at (put (put cells b (some (array (replicate n 0)))) p (some (qset b next))) s)
        (some (fresh_array n b))
unfolding put has Holds
array-Fills cells s p next b n t ne free v =
    let apart : p ≢ b = λ same. absurd (ground (arith, t.node)) in
    let empty = quanta_places-replicate n in
    record {
      holds = rw (empty, map-replicate n) (ne, ground arith, refl, tt);
      node = ground arith;
      out = rw empty (ground arith);
      keeps = λ a c e other o. rw empty (ground arith, ground arith);
      available = Available-frame _ _ s.answers (λ a i. ground arith) v;
    }

module _ (cells : Cells) (s : Slab) (p next : Ptr) (a : Slots) (t : Node cells p next (some a))
    (i : ℕ) (q : Quantum) where
  pub quantum-Fills :
      get_elem? a.quanta i ≡ some none
      → q.addr ≢ 0
      → cells q.addr ≡ none
      → Available (put cells q.addr (some (quantum []))) s.answers
      → Fills cells p next
          (some a)
          (at
            (put
              (put cells q.addr (some (quantum q.bytes)))
              a.addr
              (some (array (set (map slot_ptr a.quanta) i q.addr))))
            s)
          (some (record a { quanta = set a.quanta i (some q) }))
  unfolding put has Holds
  quantum-Fills e ne free v =
      let (ne_a, e_a, out_a, h) = t.holds in
      let a_q : a.addr ≢ q.addr = λ same. absurd (ground arith) in
      let p_q : p ≢ q.addr = λ same. absurd (ground (arith, t.node)) in
      let out : has a.addr (quanta_places (set a.quanta i (some q))) ≡ false =
        ground (arith, has-fill a.quanta i q a.addr e) in
      let out_p = t.out in
      record {
        holds = (
          ne_a,
          rw (map-set a.quanta i (some q)) (ground arith),
          out,
          Holds-put (put cells q.addr (some (quantum q.bytes)))
              (quanta_places (set a.quanta i (some q))) a.addr _ out
              (fill-Holds cells a.quanta i q h e ne free),
        );
        node = ground (arith, t.node);
        out = ground (arith, has-fill a.quanta i q p e);
        keeps = λ x c e_x other o.
            let apart : x ≢ q.addr = λ same. absurd (ground arith) in
            (ground arith, ground (arith, has-fill a.quanta i q x e));
        available = Available-frame _ _ s.answers (λ x none_x. ground arith) v;
      }

  pub bytes-Fills :
      (bytes : List ℕ)
      → get_elem? a.quanta i ≡ some (some q)
      → Available cells s.answers
      → Fills cells p next
          (some a)
          (at (put cells q.addr (some (quantum bytes))) s)
          (some (record a { quanta = set a.quanta i (some (record q { bytes = bytes })) }))
  unfolding put has Holds
  bytes-Fills bytes e v =
      let (ne_a, e_a, out_a, h) = t.holds in
      let (ne_q, e_q, in_q) = quantum-Holds cells a.quanta i q h e in
      let a_q : a.addr ≢ q.addr = λ same. absurd (ground arith) in
      let out_p = t.out in
      let p_q : p ≢ q.addr = λ same. absurd (ground arith) in
      let q' : Quantum = record q { bytes = bytes } in
      record {
        holds = (
          ne_a,
          rw
              (
                map-set a.quanta i (some q'),
                set_same (map slot_ptr a.quanta) i (get_elem?-map a.quanta i e),
              )
              (ground arith),
          ground (arith, has-update a.quanta i q bytes a.addr e),
          update-Holds cells a.quanta i q bytes h e,
        );
        node = ground (arith, t.node);
        out = ground (arith, has-update a.quanta i q bytes p e);
        keeps = λ x c e_x other o.
            let apart : x ≢ q.addr = λ same. absurd (ground arith) in
            (ground arith, ground (arith, has-update a.quanta i q bytes x e));
        available = Available-frame cells _ s.answers (λ x none_x. ground arith) v;
      }
