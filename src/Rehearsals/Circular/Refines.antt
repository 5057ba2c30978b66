-- ===== src/Rehearsals/Circular/Refines.antt =====
-- simple_circular_buffer.c: sequences of calls beside those of a bounded queue.
use lkm_sandbox.Base.{
  ◌≡◌, refl, ◌==◌, if◌then◌else◌, ℤ, neg, Option, some, List, [], ◌∷◌, ◌++◌, ◌>>=◌, length, arith,
}
use native.Mathlib.Decide.{ℕ_discrete}
use lkm_sandbox.Rehearsals.Circular.{buffer_size, Buffer, initial, read, write}
use lkm_sandbox.Rehearsals.Circular.Represents.{
  Represents, read_empty, read_front, write_full, write_back,
}

-- A call of one of the two functions.
pub data Op : Type 0 where
  put : ℤ → Op
  get : Op

-- The values that the reads of a sequence of calls return, in their order.
unfoldable pub run : List Op → Buffer → Option (List ℤ)
run [] s = some []
run (put v ∷ ops) s = write v s >>= run ops
run (get ∷ ops) s = do (value, s') ← read s; more ← run ops s'; some (value ∷ more)

-- The queue behind which a value is put, unless it is full.
abbrev enqueue : ℤ → List ℤ → List ℤ
enqueue v q = if length q == buffer_size then q else q ++ v ∷ []

-- The same for a queue that holds at most `buffer_size` values: a full queue drops what is put, and
-- an empty one yields -1.
unfoldable pub queue_run : List Op → List ℤ → List ℤ
queue_run [] q = []
queue_run (put v ∷ ops) q = queue_run ops (enqueue v q)
queue_run (get ∷ ops) [] = neg 1 ∷ queue_run ops []
queue_run (get ∷ ops) (x ∷ q) = x ∷ queue_run ops q

run_lem :
    (ops : List Op) (s : Buffer) (q : List ℤ) → Represents s q → run ops s ≡ some (queue_run ops q)
unfolding run queue_run
run_lem [] s q r = refl
run_lem (put v ∷ ops) s q r = elim (ℕ_discrete (length q) buffer_size) [
  | yes full ↦
      let e' : enqueue v q ≡ q = ground arith in
      rw (write_full s q v r full, e') (run_lem ops s q r)
  | no space ↦
      let (s', e, r') = write_back s q v r space in
      let e' : enqueue v q ≡ q ++ v ∷ [] = ground arith in
      rw (e, e') (run_lem ops s' (q ++ v ∷ []) r')
]
run_lem (get ∷ ops) s [] r = rw (read_empty s r, run_lem ops s [] r) refl
run_lem (get ∷ ops) s (x ∷ q) r =
    let (s', e, r') = read_front s x q r in rw (e, run_lem ops s' q r') refl

pub initial-Represents : Represents initial []
initial-Represents = record {
  whole = refl;
  counted = refl;
  bounded = omega arith;
  reads = omega arith;
  writes = omega arith;
  holds = λ k h. elim h [ ];
}

-- From the start of the program on, every sequence of calls runs without an access outside the
-- array, and its reads return what those of a queue of at most eight values return.
pub run-queue : (ops : List Op) → run ops initial ≡ some (queue_run ops [])
run-queue ops = run_lem ops initial [] initial-Represents
