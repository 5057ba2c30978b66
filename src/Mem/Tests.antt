-- ===== src/Mem/Tests.antt =====
-- The theorems on lkm_mem.c at concrete states.
use lkm_sandbox.Base.{ℕ, ◌+◌, ◌≡◌, refl, List, [], ◌∷◌, arith}
use lkm_sandbox.Kernel.Ledger.{Resource, held, IsFair}
use lkm_sandbox.Mem.{
  Sysinfo, Mem, Answers, buffer_name, free_name, shared_name, total_name, init, exit,
}
use lkm_sandbox.Mem.Loads.{load-unload_all}
use lkm_sandbox.Mem.Shows.{texts, files_show}

abbrev nothing : Sysinfo
nothing = record {
  bufferram = 0;
  freeram = 0;
  sharedram = 0;
  totalram = 0;
  freeswap = 0;
  totalswap = 0;
}

abbrev unloaded : Mem
unloaded = record {
  si = nothing;
  lkm_proc_parent = 0;
  mem_proc_parent = 0;
  mem_proc_buffer_entry = 0;
  mem_proc_free_entry = 0;
  mem_proc_shared_entry = 0;
  mem_proc_total_entry = 0;
  swap_proc_parent = 0;
  swap_proc_free_entry = 0;
  swap_proc_total_entry = 0;
  files = [];
  ledger = [];
}

abbrev good : Answers
good = record {
  lkm = 11;
  mem = 12;
  buffer = 13;
  free = 14;
  shared = 15;
  total = 16;
  swap = 17;
  swap_free = 18;
  swap_total = 19;
  si_meminfo = λ si. record si { bufferram = 5; freeram = 6; sharedram = 7; totalram = 8 };
}

-- One of the directories and one of the files are not made.
abbrev partly : Answers
partly = record good { mem = 0; shared = 0 }

load-unload_all_example :
    IsFair (exit (init partly unloaded).1).ledger
    × ((r : Resource) → held r (exit (init partly unloaded).1).ledger ≡ held r [])
load-unload_all_example = load-unload_all partly unloaded tt

-- Numbers of one digit.
abbrev digit : ℕ → List ℕ
digit n = (48 + n) ∷ []

files_show_example :
    texts digit (init good unloaded).1.si (init good unloaded).1.files
    ≡ (17, total_name, 48 ∷ 10 ∷ [])
      ∷ (17, free_name, 48 ∷ 10 ∷ [])
      ∷ (12, total_name, 56 ∷ 10 ∷ [])
      ∷ (12, shared_name, 55 ∷ 10 ∷ [])
      ∷ (12, free_name, 54 ∷ 10 ∷ [])
      ∷ (12, buffer_name, 53 ∷ 10 ∷ [])
      ∷ []
files_show_example =
    files_show digit good unloaded (λ si. (refl, refl)) refl refl refl (omega arith) (omega arith)
      (omega arith) (omega arith) (omega arith) (omega arith)
