-- ===== src/Debugfs/Tests.antt =====
-- The theorems on lkm_debugfs.c at concrete states.
use lkm_sandbox.Base.{
  ◌^◌, if◌then◌else◌, inl, inr, ◌<◌, get_elem?, get_elem?-overwrite_inside,
  get_elem?-overwrite_outside, ℕ, ◌+◌, ◌-◌, ◌≤◌, ◌≡◌, ◌≢◌, refl, ◌∙◌, ap, sym, ◌⊎◌, pos, neg, true,
  false, List, [], ◌∷◌, ◌++◌, length, take, drop, overwrite, tabulate, replicate, min, length-take,
  length-drop, length-tabulate, length-overwrite, pos-injective, arith,
}
use lkm_sandbox.Kernel.Errno.{eio, enodev}
use lkm_sandbox.Kernel.Ledger.{acquired, entry, held}
use lkm_sandbox.Kernel.Flat.{patch, tabulate-patch}
use lkm_sandbox.Kernel.SimpleIo.{SimpleIo, IsLawful}
use lkm_sandbox.Debugfs.{
  Debug, Answers, content_len, greeting, dir_name, debug_read, debug_write, is_err, is_made, init,
  exit,
}
use lkm_sandbox.Debugfs.Loads.{Balances, init_outcome}
use lkm_sandbox.Debugfs.Copies.{read-write_message}

-- A user memory of which every address can be read and written.
abbrev simple : SimpleIo
simple = record {
  Memory = ℕ → ℕ;
  bytes = tabulate;
  read_from_buffer = λ m buf count p from size.
      let n = min count (size - p) in (pos n, p + n, patch buf (take n (drop p from)) m);
  write_to_buffer = λ to size p m buf count.
      let n = min count (size - p) in (pos n, p + n, overwrite p (tabulate m buf n) to);
}

taken :
    (m : ℕ → ℕ) (buf p n : ℕ) (from : List ℕ)
    → n ≤ length from - p
    → tabulate (patch buf (take n (drop p from)) m) buf n ≡ take n (drop p from)
taken m buf p n from le =
    let size : length (take n (drop p from)) ≡ n =
      omega (arith, length-take n (drop p from), length-drop p from) in
    ap (tabulate (patch buf (take n (drop p from)) m) buf) (sym size)
    ∙ tabulate-patch buf (take n (drop p from)) m

apart : (p count n i l : ℕ) → n ≤ count → l ≡ n → (i < p) ⊎ (p + count ≤ i) → (i < p) ⊎ (p + l ≤ i)
apart p count n i l le e (inl before) = inl before
apart p count n i l le e (inr behind) = inr (omega arith)

simple-IsLawful : IsLawful simple
simple-IsLawful = record {
  length-bytes = λ m buf n. length-tabulate m buf n;
  read_done = λ m buf count p from size n whole ret.
      let e : min count (size - p) ≡ n = pos-injective ret in
      (omega arith, omega arith, omega arith, rw e (taken m buf p n from (omega arith)));
  length-write_to_buffer = λ to size p m buf count whole.
      length-overwrite p (tabulate m buf (min count (size - p))) to ∙ whole;
  write_done = λ to size p m buf count n whole ret.
      let e : min count (size - p) ≡ n = pos-injective ret in
      let l = length-tabulate m buf n in
      (
        omega arith,
        omega arith,
        omega arith,
        λ k lt.
            rw e (get_elem?-overwrite_inside p (tabulate m buf n) to k (omega arith) (omega arith)),
      );
  write_frame = λ to size p m buf count i whole out.
      let n = min count (size - p) in
      get_elem?-overwrite_outside p (tabulate m buf n) to i
        (apart p count n i (length (tabulate m buf n)) (omega arith) (length-tabulate m buf n) out);
}

abbrev unloaded : Debug
unloaded = record {
  content = replicate content_len 0;
  debug_root = 0;
  debug_file_entry = 0;
  number = 0;
  files = [];
  ledger = [];
}

abbrev user : ℕ → ℕ
user a = a

written : (debug_write simple user 65 4 7 unloaded).0 ≡ pos 4
unfolding debug_write
written = refl

got : (debug_read simple user 900 6 5 (debug_write simple user 65 4 7 unloaded).2).0 ≡ pos 6
unfolding debug_read debug_write
got = refl

-- A read of six bytes from two before the written ones on: the third is the first of them.
read-write_message_example :
    let s' = (debug_write simple user 65 4 7 unloaded).2 in
    let byte = get_elem? (tabulate (debug_read simple user 900 6 5 s').2 900 6) 2 in
    (4 ≤ 4)
    × (4 ≤ content_len)
    × (((k : ℕ) × (5 + 2 ≡ 7 + k) × (k < 4) × (byte ≡ get_elem? (tabulate user 65 4) k))
        ⊎ (((5 + 2 < 7) ⊎ (7 + 4 ≤ 5 + 2)) × (byte ≡ get_elem? unloaded.content (5 + 2)))
        ⊎ ((7 + 4 ≤ 5 + 2) × (5 + 2 < 7 + 4)))
read-write_message_example =
    read-write_message simple simple-IsLawful user user 65 4 7 900 6 5 4 6 2 unloaded refl written
      got (omega arith)

abbrev good : Answers
good = record { initialized = true; dir = 11; number_file = 12; message_file = 13 }

-- The directory is not made, and a kernel from 5.0 on answers -ENOMEM for it, and for the files.
abbrev refused : Answers
refused = record {
  initialized = true;
  dir = 2 ^ 64 - 12;
  number_file = 2 ^ 64 - 12;
  message_file = 2 ^ 64 - 12;
}

abbrev loaded : Debug
loaded = record {
  content = greeting ++ replicate (content_len - 16) 0;
  debug_root = 11;
  debug_file_entry = 13;
  number = 42;
  files = 3 ∷ 2 ∷ [];
  ledger = acquired (entry 0 dir_name) ∷ [];
}

loads : init good unloaded ≡ (pos 0, loaded)
unfolding init
loads = refl

loads_nothing : ((init refused unloaded).0 ≡ pos 0) × ((init refused unloaded).1.ledger ≡ [])
unfolding init
loads_nothing = (refl, refl)

init_outcome_example :
    let (rc, s') = init refused unloaded in
    (((refused.initialized ≡ false) ⊎ (refused.dir ≡ 0))
      × (rc ≡ neg enodev)
      × (s'.ledger ≡ [])
      × (s'.files ≡ []))
    ⊎ ((refused.initialized ≡ true)
        × (refused.dir ≢ 0)
        × (refused.message_file ≡ 0)
        × (rc ≡ neg eio)
        × (held (entry 0 dir_name) s'.ledger
            ≡ held (entry 0 dir_name) [] + (if is_made refused.dir then 1 else 0)))
    ⊎ ((refused.initialized ≡ true)
        × (refused.dir ≢ 0)
        × (refused.message_file ≢ 0)
        × (rc ≡ pos 0)
        × (s'.number ≡ 42)
        × (s'.content ≡ greeting ++ replicate (content_len - 16) 0)
        × Balances unloaded (exit s')
        × (((is_err refused.dir ≡ false) × (s'.ledger ≡ acquired (entry 0 dir_name) ∷ []))
            ⊎ ((is_err refused.dir ≡ true) × (s'.ledger ≡ []) × (s'.files ≡ []))))
init_outcome_example = init_outcome refused unloaded tt refl (λ e. (refl, refl))
