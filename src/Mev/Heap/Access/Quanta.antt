-- ===== src/Mev/Heap/Access/Quanta.antt =====
-- lkm_mev.c: the places of an array of quanta, of which one changes.
use lkm_sandbox.Base.{
  ℕ, zero, suc, ◌≡◌, ◌≢◌, refl, ap, true, ◌||◌, Option, none, some, List, [], ◌∷◌, ◌==◌, get_elem?,
  set, replicate, map, arith,
}
use mathlib.Core.Path.{subst}
use mathlib.Core.Option.{some-injective}
use lkm_sandbox.Mev.Types.{Quantum}
use lkm_sandbox.Mev.Heap.{Ptr, quantum, Cells, put}
use lkm_sandbox.Mev.Heap.Layout.{slot_ptr, quanta_places, has, Holds, Holds-put, Holds-live}

pub map-set :
    (quanta : List (Option Quantum)) (i : ℕ) (x : Option Quantum)
    → map slot_ptr (set quanta i x) ≡ set (map slot_ptr quanta) i (slot_ptr x)
map-set [] i x = refl
map-set (y ∷ quanta) zero x = refl
map-set (y ∷ quanta) (suc i) x = ap (◌∷◌ (slot_ptr y)) (map-set quanta i x)

pub map-replicate : (n : ℕ) → map slot_ptr (replicate n none) ≡ replicate n 0
map-replicate zero = refl
map-replicate (suc n) = ap (◌∷◌ 0) (map-replicate n)

pub quanta_places-replicate : (n : ℕ) → quanta_places (replicate n none) ≡ []
unfolding quanta_places
quanta_places-replicate zero = refl
quanta_places-replicate (suc n) = quanta_places-replicate n

pub get_elem?-map :
    (quanta : List (Option Quantum)) (i : ℕ) {x : Option Quantum}
    → get_elem? quanta i ≡ some x
    → get_elem? (map slot_ptr quanta) i ≡ some (slot_ptr x)
get_elem?-map [] i e = absurd (ground arith)
get_elem?-map (y ∷ quanta) zero e = ap (λ z. some (slot_ptr z)) (some-injective _ _ e)
get_elem?-map (y ∷ quanta) (suc i) e = get_elem?-map quanta i e

-- A quantum of the array stands at its address.
pub quantum-Holds :
    (cells : Cells) (quanta : List (Option Quantum)) (i : ℕ) (q : Quantum)
    → Holds cells (quanta_places quanta)
    → get_elem? quanta i ≡ some (some q)
    → (q.addr ≢ 0)
      × (cells q.addr ≡ some (quantum q.bytes))
      × (has q.addr (quanta_places quanta) ≡ true)
unfolding Holds quanta_places has
quantum-Holds cells [] i q h e = absurd (ground arith)
quantum-Holds cells (none ∷ quanta) zero q h e = absurd (ground arith)
quantum-Holds cells (none ∷ quanta) (suc i) q h e = quantum-Holds cells quanta i q h e
quantum-Holds cells (some p ∷ quanta) zero q h e =
    let same : p ≡ q = some-injective _ _ (some-injective _ _ e) in
    subst
      (λ (z : Quantum).
        (z.addr ≢ 0)
        × (cells z.addr ≡ some (quantum z.bytes))
        × (has z.addr (quanta_places (some p ∷ quanta)) ≡ true))
      same (h.0, h.1, ground arith)
quantum-Holds cells (some p ∷ quanta) (suc i) q h e =
    let (ne, e', i') = quantum-Holds cells quanta i q h.3 e in (ne, e', ground arith)

pub has-fill :
    (quanta : List (Option Quantum)) (i : ℕ) (q : Quantum) (a : Ptr)
    → get_elem? quanta i ≡ some none
    → has a (quanta_places (set quanta i (some q)))
      ≡ ((a == q.addr) || has a (quanta_places quanta))
unfolding quanta_places has
has-fill [] i q a e = absurd (ground arith)
has-fill (none ∷ quanta) zero q a e = refl
has-fill (none ∷ quanta) (suc i) q a e = has-fill quanta i q a e
has-fill (some p ∷ quanta) zero q a e = absurd (ground arith)
has-fill (some p ∷ quanta) (suc i) q a e = ground (arith, has-fill quanta i q a e)

pub has-update :
    (quanta : List (Option Quantum)) (i : ℕ) (q : Quantum) (bytes : List ℕ) (a : Ptr)
    → get_elem? quanta i ≡ some (some q)
    → has a (quanta_places (set quanta i (some (record q { bytes = bytes }))))
      ≡ has a (quanta_places quanta)
unfolding quanta_places has
has-update [] i q bytes a e = absurd (ground arith)
has-update (none ∷ quanta) zero q bytes a e = absurd (ground arith)
has-update (none ∷ quanta) (suc i) q bytes a e = has-update quanta i q bytes a e
has-update (some p ∷ quanta) zero q bytes a e = ground arith
has-update (some p ∷ quanta) (suc i) q bytes a e = ground (arith, has-update quanta i q bytes a e)

pub fill-Holds :
    (cells : Cells) (quanta : List (Option Quantum)) (i : ℕ) (q : Quantum)
    → Holds cells (quanta_places quanta)
    → get_elem? quanta i ≡ some none
    → q.addr ≢ 0
    → cells q.addr ≡ none
    → Holds (put cells q.addr (some (quantum q.bytes))) (quanta_places (set quanta i (some q)))
unfolding Holds quanta_places has put
fill-Holds cells [] i q h e ne free = absurd (ground arith)
fill-Holds cells (none ∷ quanta) zero q h e ne free =
    let out = Holds-live cells (quanta_places quanta) q.addr h free in
    (ne, ground arith, out, Holds-put cells (quanta_places quanta) q.addr _ out h)
fill-Holds cells (none ∷ quanta) (suc i) q h e ne free = fill-Holds cells quanta i q h e ne free
fill-Holds cells (some p ∷ quanta) zero q h e ne free = absurd (ground arith)
fill-Holds cells (some p ∷ quanta) (suc i) q h e ne free =
    let apart : p.addr ≢ q.addr = λ same. absurd (ground arith) in
    (
      h.0,
      ground arith,
      ground (arith, has-fill quanta i q p.addr e),
      fill-Holds cells quanta i q h.3 e ne free,
    )

pub update-Holds :
    (cells : Cells) (quanta : List (Option Quantum)) (i : ℕ) (q : Quantum) (bytes : List ℕ)
    → Holds cells (quanta_places quanta)
    → get_elem? quanta i ≡ some (some q)
    → Holds
        (put cells q.addr (some (quantum bytes)))
        (quanta_places (set quanta i (some (record q { bytes = bytes }))))
unfolding Holds quanta_places has put
update-Holds cells [] i q bytes h e = absurd (ground arith)
update-Holds cells (none ∷ quanta) zero q bytes h e = absurd (ground arith)
update-Holds cells (none ∷ quanta) (suc i) q bytes h e = update-Holds cells quanta i q bytes h e
update-Holds cells (some p ∷ quanta) zero q bytes h e =
    let same : p ≡ q = some-injective _ _ (some-injective _ _ e) in
    subst
      (λ (z : Quantum).
        Holds (put cells z.addr (some (quantum bytes)))
          ((z.addr, quantum bytes) ∷ quanta_places quanta))
      same (h.0, ground arith, h.2, Holds-put cells (quanta_places quanta) p.addr _ h.2 h.3)
update-Holds cells (some p ∷ quanta) (suc i) q bytes h e =
    let there = quantum-Holds cells quanta i q h.3 e in
    let apart : p.addr ≢ q.addr = λ same. absurd (ground arith) in
    (
      h.0,
      ground arith,
      ground (arith, has-update quanta i q bytes p.addr e),
      update-Holds cells quanta i q bytes h.3 e,
    )
