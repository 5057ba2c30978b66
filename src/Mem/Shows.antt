-- ===== src/Mem/Shows.antt =====
-- lkm_mem.c: what the files show.
use lkm_sandbox.Base.{ℕ, ◌≡◌, ◌≢◌, List, [], ◌∷◌, ◌++◌, arith}
use lkm_sandbox.Mem.{
  Sysinfo, File, Mem, Answers, buffer_name, free_name, shared_name, total_name, value_show,
  proc_create_single_data, init,
}

-- Directory, name and text of each file.
abbrev pub texts : (ℕ → List ℕ) → Sysinfo → List File → List (ℕ × ℕ × List ℕ)
texts decimal si [] = []
texts decimal si (f ∷ files) =
    (f.parent, f.name, (value_show decimal si f.value).1) ∷ texts decimal si files

-- What the documentation of si_meminfo promises: it fills in the fields of the memory, and leaves
-- those of the swap, which si_swapinfo would fill in, as they are.
abbrev pub LeavesSwap : (Sysinfo → Sysinfo) → Type 0
LeavesSwap f = (si : Sysinfo) → ((f si).freeswap ≡ si.freeswap) × ((f si).totalswap ≡ si.totalswap)

-- Where none of the calls that make the files fails, a module without files has six after it was
-- loaded. Each of the four of the memory shows, with a newline behind it, the value of its name that
-- si_meminfo gave when the module was loaded. The two of the swap show 0, whatever swap there is:
-- the static variable starts with 0 there, and si_meminfo leaves the fields of the swap alone.
pub files_show :
    (decimal : ℕ → List ℕ) (w : Answers) (s : Mem)
    → LeavesSwap w.si_meminfo
    → s.files ≡ []
    → s.si.totalswap ≡ 0
    → s.si.freeswap ≡ 0
    → w.buffer ≢ 0
    → w.free ≢ 0
    → w.shared ≢ 0
    → w.total ≢ 0
    → w.swap_free ≢ 0
    → w.swap_total ≢ 0
    → let m = (init w s).1 in
      texts decimal m.si m.files
      ≡ (w.swap, total_name, decimal 0 ++ 10 ∷ [])
        ∷ (w.swap, free_name, decimal 0 ++ 10 ∷ [])
        ∷ (w.mem, total_name, decimal (w.si_meminfo s.si).totalram ++ 10 ∷ [])
        ∷ (w.mem, shared_name, decimal (w.si_meminfo s.si).sharedram ++ 10 ∷ [])
        ∷ (w.mem, free_name, decimal (w.si_meminfo s.si).freeram ++ 10 ∷ [])
        ∷ (w.mem, buffer_name, decimal (w.si_meminfo s.si).bufferram ++ 10 ∷ [])
        ∷ []
unfolding init proc_create_single_data value_show
files_show decimal w s leaves none_yet total_zero free_zero b f h t sf st =
    ground (arith, leaves s.si)
