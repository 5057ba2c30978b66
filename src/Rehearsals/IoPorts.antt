-- ===== src/Rehearsals/IoPorts.antt =====
-- rehearsals/io_ports.c: ports that are asked for, written, read and given back. What the calls
-- answer is an input, and each call is written down in its order.
pub mod Guarded
mod Tests
use lkm_sandbox.Base.{ℕ, zero, suc, ◌+◌, ℤ, pos, negsuc, List, [], ◌∷◌, ◌++◌}

abbrev pub port : ℕ
port = 888

-- A call with its arguments; ioperm with its answer.
pub data Call : Type 0 where
  ioperm : ℕ → ℕ → ℕ → ℤ → Call
  outb : ℕ → ℕ → Call
  sleep : ℕ → Call
  inb : ℕ → Call

pub data Line : Type 0 where
  status : ℕ → Line
  failed : Line

pub record Answers : Type 0 where
  pub first_rc : ℤ
  pub status_byte : ℕ
  pub second_rc : ℤ

pub record Run : Type 0 where
  pub calls : List Call
  pub lines : List Line
  pub ret : ℤ

-- From the second call of ioperm on, with the calls and the lines before it.
abbrev pub give_back : List Call → List Line → ℤ → Run
give_back calls lines (pos zero) = record {
  calls = calls ++ ioperm port 3 0 (pos 0) ∷ [];
  lines = lines;
  ret = pos 0;
}
give_back calls lines rc = record {
  calls = calls ++ ioperm port 3 0 rc ∷ [];
  lines = lines ++ failed ∷ [];
  ret = rc;
}

-- From the answer of the first call of ioperm on.
abbrev pub use_ports : Answers → ℤ → Run
use_ports w (pos zero) =
    give_back (ioperm port 3 1 (pos 0) ∷ outb 2 port ∷ sleep 2 ∷ inb (port + 1) ∷ [])
      (status w.status_byte ∷ []) w.second_rc
use_ports w rc = record { calls = ioperm port 3 1 rc ∷ []; lines = failed ∷ []; ret = rc }

pub main : Answers → Run
main w = use_ports w w.first_rc
