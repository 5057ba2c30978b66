-- ===== src/Mev/Heap/Layout.antt =====
-- lkm_mev.c: where a chain of quantum sets stands in memory.
use lkm_sandbox.Base.{
  ◌≡◌, ◌≢◌, refl, Bool, true, false, ◌||◌, Option, none, some, List, [], ◌∷◌, ◌++◌, map, ◌==◌,
  arith,
}
use mathlib.Core.Bool.{or_assoc}
use native.Mathlib.Decide.{ℕ_discrete}
use lkm_sandbox.Mev.Types.{Quantum, Slots, Qset}
use lkm_sandbox.Mev.Types
use lkm_sandbox.Mev.Heap.{Container, Ptr, Cell, qset, array, quantum, Cells, put}

-- Addresses, each with what stands there.
abbrev pub Places : Type 0
Places = List (Ptr × Cell)

abbrev pub slot_ptr : Option Quantum → Ptr
slot_ptr none = 0
slot_ptr (some q) = q.addr

abbrev pub slots_ptr : Option Slots → Ptr
slots_ptr none = 0
slots_ptr (some a) = a.addr

abbrev pub first_ptr : List Qset → Ptr
first_ptr [] = 0
first_ptr (node ∷ chain) = node.addr

unfoldable pub quanta_places : List (Option Quantum) → Places
quanta_places [] = []
quanta_places (none ∷ quanta) = quanta_places quanta
quanta_places (some q ∷ quanta) = (q.addr, quantum q.bytes) ∷ quanta_places quanta

abbrev pub slots_places : Option Slots → Places
slots_places none = []
slots_places (some a) = (a.addr, array (map slot_ptr a.quanta)) ∷ quanta_places a.quanta

unfoldable pub layout : List Qset → Places
layout [] = []
layout (node ∷ chain) =
    (node.addr, qset (slots_ptr node.slots) (first_ptr chain))
    ∷ (slots_places node.slots ++ layout chain)

unfoldable pub has : Ptr → Places → Bool
has a [] = false
has a ((p, c) ∷ xs) = (a == p) || has a xs

-- Each place holds its cell, none is NULL, and none is named twice.
unfoldable pub Holds : Cells → Places → Type 0
Holds cells [] = Unit
Holds cells ((p, c) ∷ xs) = (p ≢ 0) × (cells p ≡ some c) × (has p xs ≡ false) × Holds cells xs

pub has-append : (a : Ptr) (xs ys : Places) → has a (xs ++ ys) ≡ (has a xs || has a ys)
unfolding has
has-append a [] ys = refl
has-append a (x ∷ xs) ys = rw (has-append a xs ys, or_assoc)

-- What is changed elsewhere changes nothing of the places.
pub Holds-frame :
    {cells cells' : Cells} (xs : Places)
    → ((a : Ptr) → has a xs ≡ true → cells' a ≡ cells a)
    → Holds cells xs
    → Holds cells' xs
unfolding Holds has
Holds-frame [] same h = tt
Holds-frame ((p, c) ∷ xs) same (ne, e, out, h) =
    (ne, ground (arith, same p), out, Holds-frame xs (λ a i. same a (ground arith)) h)

pub Holds-put :
    (cells : Cells) (xs : Places) (p : Ptr) (c : Option Cell)
    → has p xs ≡ false
    → Holds cells xs
    → Holds (put cells p c) xs
unfolding put
Holds-put cells xs p c out h = Holds-frame xs (λ a i. ground arith) h

pub Holds-live :
    (cells : Cells) (xs : Places) (a : Ptr) → Holds cells xs → cells a ≡ none → has a xs ≡ false
unfolding Holds has
Holds-live cells [] a h e = refl
Holds-live cells ((p, c) ∷ xs) a (ne, e', out, h) e = ground (arith, Holds-live cells xs a h e)

-- The places of two parts that do not meet.
pub record Parts (cells : Cells) (xs ys : Places) : Type 0 where
  pub left : Holds cells xs
  pub right : Holds cells ys
  pub apart : (a : Ptr) → has a xs ≡ true → has a ys ≡ false

pub Holds-split : (cells : Cells) (xs ys : Places) → Holds cells (xs ++ ys) → Parts cells xs ys
unfolding Holds has
Holds-split cells [] ys h = record { left = tt; right = h; apart = λ a i. absurd (ground arith) }
Holds-split cells ((p, c) ∷ xs) ys (ne, e, out, h) =
    let r = Holds-split cells xs ys h in
    let out' = has-append p xs ys in
    record {
      left = (ne, e, ground arith, r.left);
      right = r.right;
      apart = λ a i. ground (arith, r.apart a);
    }

pub Holds-append : (cells : Cells) (xs ys : Places) → Parts cells xs ys → Holds cells (xs ++ ys)
unfolding Holds has
Holds-append cells [] ys r = r.right
Holds-append cells ((p, c) ∷ xs) ys r = (
  r.left.0,
  r.left.1,
  rw (has-append, r.left.2) (r.apart p (ground arith)),
  Holds-append cells xs ys
      (record { left = r.left.3; right = r.right; apart = λ a i. r.apart a (ground arith) }),
)

pub Holds-cell :
    (cells : Cells) (xs : Places) (a : Ptr)
    → Holds cells xs
    → has a xs ≡ true
    → (c : Cell) × (cells a ≡ some c)
unfolding Holds has
Holds-cell cells [] a h i = absurd (ground arith)
Holds-cell cells ((p, c) ∷ xs) a (ne, e, out, h) i = elim (ℕ_discrete a p) [
  | yes same ↦ (c, rw same e)
  | no other ↦ Holds-cell cells xs a h (ground arith)
]

-- The container over the memory beside that over a list.
pub record Represents (c : Container) (cells : Cells) (d : lkm_sandbox.Mev.Types.Container)
    : Type 0 where
  pub first : c.chain ≡ first_ptr d.chain
  pub quantum : c.quantum ≡ d.quantum
  pub qset : c.qset ≡ d.qset
  pub size : c.size ≡ d.size
  pub sem : c.sem ≡ d.sem
  pub holds : Holds cells (layout d.chain)
