-- ===== src/Mev/Heap/Items.antt =====
-- lkm_mev.c, mev_trim: the rounds of its loops over the kernel's memory, and the inner loop.
use lkm_sandbox.Base.{
  ℕ, zero, suc, ◌+◌, ◌≡◌, ◌≢◌, refl, ap, ◌∙◌, false, Option, none, some, List, [], ◌∷◌,
  if◌then◌else◌, length, get_elem?, map, arith,
}
use lkm_sandbox.Kernel.Slab.{Slab, kfree}
use lkm_sandbox.Mev.Types.{Quantum}
use lkm_sandbox.Mev.Trim.{free_quanta}
use lkm_sandbox.Mev.Heap.{
  Ptr, Cell, qset, array, Cells, Memory, put, load_qset, load_item, free, free_items, free_data,
  free_sets,
}
use lkm_sandbox.Mev.Heap.Layout.{Places, slot_ptr, quanta_places, has, Holds, Holds-put}
use lkm_sandbox.Mev.Heap.Steps.{at}

-- The cells with those of some places given back.
abbrev pub IsRest : Places → Cells → Cells → Type 0
IsRest xs cells cells' = (a : Ptr) → cells' a ≡ (if has a xs then none else cells a)

-- A run that frees those places and nothing else, and logs what the list's does.
abbrev pub Drops : Places → Cells → Option Slab → Option Memory → Type 0
Drops xs cells logged out =
    (m : Memory) × (out ≡ some m) × IsRest xs cells m.cells × (logged ≡ some m.slab)

pub free_lem :
    (p : Ptr) (c : Cell) (cells : Cells) (s : Slab)
    → p ≢ 0
    → cells p ≡ some c
    → free p (at cells s) ≡ some (at (put cells p none) (kfree p s))
unfolding free
free_lem zero c cells s ne e = absurd (ne refl)
free_lem (suc p) c cells s ne e = rw e refl

pub load_item_lem :
    (p : Ptr) (items : List Ptr) (cells : Cells) (i : ℕ)
    → p ≢ 0
    → cells p ≡ some (array items)
    → load_item cells p i ≡ get_elem? items i
unfolding load_item
load_item_lem zero items cells i ne e = absurd (ne refl)
load_item_lem (suc p) items cells i ne e = rw e refl

pub items_step :
    (slots i n q : ℕ) (m m' : Memory)
    → load_item m.cells slots i ≡ some q
    → free q m ≡ some m'
    → free_items slots i (suc n) m ≡ free_items slots (suc i) n m'
unfolding free_items
items_step slots i n q m m' e e' = ground arith

pub data_step :
    (n p slots next : ℕ) (m m' m'' : Memory)
    → load_qset m.cells p ≡ some (slots, next)
    → slots ≢ 0
    → free_items slots 0 n m ≡ some m'
    → free slots m' ≡ some m''
    → load_qset m''.cells p ≡ some (slots, next)
    → free_data n p m ≡ some (record m'' { cells = put m''.cells p (some (qset 0 next)) })
unfolding free_data
data_step n p slots next m m' m'' e ne e₁ e₂ e₃ = ground arith

pub data_none :
    (n p next : ℕ) (m : Memory) → load_qset m.cells p ≡ some (0, next) → free_data n p m ≡ some m
unfolding free_data
data_none n p next m e = ground arith

pub sets_step :
    (n fuel p slots next : ℕ) (m m' m'' : Memory)
    → p ≢ 0
    → free_data n p m ≡ some m'
    → load_qset m'.cells p ≡ some (slots, next)
    → free p m' ≡ some m''
    → free_sets n (suc fuel) p m ≡ free_sets n fuel next m''
unfolding free_sets
sets_step n fuel p slots next m m' m'' ne e e₁ e₂ = ground arith

module _ (slots : Ptr) (items : List Ptr) (ne : slots ≢ 0) where
  here :
      (cells : Cells) (i : ℕ) (q : Option Ptr)
      → cells slots ≡ some (array items)
      → get_elem? items (i + 0) ≡ q
      → load_item cells slots i ≡ q
  here cells i q e same =
      load_item_lem slots items cells i ne e ∙ ap (get_elem? items) (omega arith) ∙ same

  pub free_items_lem :
      (n i : ℕ) (quanta : List (Option Quantum)) (cells : Cells) (s : Slab)
      → length quanta ≡ n
      → ((j : ℕ) → get_elem? items (i + j) ≡ get_elem? (map slot_ptr quanta) j)
      → cells slots ≡ some (array items)
      → has slots (quanta_places quanta) ≡ false
      → Holds cells (quanta_places quanta)
      → Drops
          (quanta_places quanta)
          cells
          (free_quanta n quanta s)
          (free_items slots i n (at cells s))
  unfolding free_items free_quanta quanta_places has Holds put free
  free_items_lem zero i [] cells s l same e out h = (at cells s, refl, λ a. refl, refl)
  free_items_lem zero i (q ∷ quanta) cells s l same e out h = absurd (omega arith)
  free_items_lem (suc n) i [] cells s l same e out h = absurd (omega arith)
  free_items_lem (suc n) i (none ∷ quanta) cells s l same e out h =
      let (m, eq, rest, log) =
        free_items_lem n (suc i) quanta cells s (omega arith)
          (λ j. ap (get_elem? items) (omega arith) ∙ same (suc j)) e out h in
      (
        m,
        items_step slots i n 0 (at cells s) (at cells s) (here cells i _ e (same 0)) refl ∙ eq,
        rest,
        log,
      )
  free_items_lem (suc n) i (some q ∷ quanta) cells s l same e out h =
      let cells' = put cells q.addr none in
      let (m, eq, rest, log) =
        free_items_lem n (suc i) quanta cells' (kfree q.addr s) (omega arith)
          (λ j. ap (get_elem? items) (omega arith) ∙ same (suc j)) (ground arith) (ground arith)
          (Holds-put cells (quanta_places quanta) q.addr none h.2 h.3) in
      (
        m,
        items_step slots i n q.addr (at cells s) (at cells' (kfree q.addr s))
              (here cells i _ e (same 0)) (free_lem q.addr _ cells s h.0 h.1)
            ∙ eq,
        λ a. ground (arith, rest a),
        log,
      )
