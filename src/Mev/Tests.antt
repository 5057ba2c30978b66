-- ===== src/Mev/Tests.antt =====
-- Runs of lkm_mev.c on small inputs, and the theorems at concrete states.
use lkm_sandbox.Base.{
  ℕ, ◌+◌, ◌≡◌, ◌≢◌, ◌≤◌, ◌⊎◌, inl, inr, refl, true, false, none, some, [], ◌∷◌, pos, neg, arith,
  Option, get_elem?,
}
use lkm_sandbox.Kernel.Errno.{enomem, efault}
use lkm_sandbox.Kernel.Slab.{Block, Slab, Call, live}
use lkm_sandbox.Kernel.Flat.{flat, flat-IsLawful}
use lkm_sandbox.Mev.Types.{Quantum, Qset, State, Io, IsValid, locate}
use lkm_sandbox.Mev.Bytes.{byte_at}
use lkm_sandbox.Mev.Held.{held_quanta, held, Owns}
use lkm_sandbox.Mev.Follow.{walk, follow}
use lkm_sandbox.Mev.Trim.{trim}
use lkm_sandbox.Mev.Trim.Frees.{trim-Owns}
use lkm_sandbox.Mev.Read.{present, lookup, deliver, read_at, read_locked, read}
use lkm_sandbox.Mev.Read.Ends.{read_length}
use lkm_sandbox.Mev.Read.Delivers.{read_count, read_bytes}
use lkm_sandbox.Mev.Write.{grow_quantum, grow, receive, write_node, write_at, write_locked, write}
use lkm_sandbox.Mev.Write.Writes.{write_total, write_result, write-Owns, write_bytes, write_frame}
use lkm_sandbox.Kernel.Given.{Gives}
use lkm_sandbox.Mev.Write.Discloses.{write-read_stale}
use lkm_sandbox.Mev.RoundTrip.{read-write}

abbrev memory : ℕ → Option Block
memory a = some (record { addr = a; stale = λ i. 70 + i })

-- Quanta of two bytes and three to a set, so that a set holds six bytes. The user's memory holds at
-- each address its number plus ten.
abbrev empty : State flat
empty = record {
  dev = record { chain = []; quantum = 2; qset = 3; size = 0; sem = 1 };
  slab = record { answers = memory 1 ∷ memory 2 ∷ memory 3 ∷ memory 4 ∷ []; log = [] };
  user = λ a. a + 10;
}

-- The device after one byte was written at the position 9, the second byte of the second quantum
-- of the second set. The first byte of that quantum is stale memory.
abbrev quantum : Quantum
quantum = record { addr = 4; bytes = 70 ∷ 15 ∷ [] }

abbrev second : Qset
second = record {
  addr = 2;
  slots = some (record { addr = 3; quanta = none ∷ some quantum ∷ none ∷ [] });
}

abbrev full : State flat
full = record {
  dev = record {
    chain = record { addr = 1; slots = none } ∷ second ∷ [];
    quantum = 2;
    qset = 3;
    size = 10;
    sem = 1;
  };
  slab = record {
    answers = [];
    log = Call.allocated 4 ∷ Call.allocated 3 ∷ Call.allocated 2 ∷ Call.allocated 1 ∷ [];
  };
  user = λ a. a + 10;
}

abbrev written : Io flat
written = record { ret = pos 1; f_pos = 10; state = full }

-- A write of four bytes at 9 stops at the end of its quantum.
write_runs : write flat false 5 4 9 empty ≡ some written
unfolding write write_locked write_at write_node receive grow grow_quantum follow walk locate
write_runs = refl

empty-IsValid : IsValid empty.dev
empty-IsValid = omega arith

full-IsValid : IsValid full.dev
full-IsValid = omega arith

abbrev nobody : ℕ → ℕ
nobody a = 0

empty-Owns : Owns nobody empty.dev.chain empty.slab.log
unfolding live held
empty-Owns = record { sound = tt; accounted = λ a. refl }

full-Owns : Owns nobody full.dev.chain full.slab.log
unfolding live held held_quanta
full-Owns = record { sound = tt; accounted = λ a. omega arith }

write_total_example :
    (r : Io flat) × (write flat false 5 4 9 empty ≡ some r)
    × IsValid r.state.dev
    × (r.state.dev.sem ≡ 1)
    × (r.state.dev.quantum ≡ 2)
    × (r.state.dev.qset ≡ 3)
    × (r.state.user ≡ empty.user)
write_total_example =
    write_total flat flat-IsLawful empty empty-IsValid (omega arith) 5 4 9 (omega arith)

write-Owns_example : Owns nobody full.dev.chain full.slab.log
write-Owns_example =
    write-Owns flat flat-IsLawful empty empty-IsValid (omega arith) 5 4 9 (omega arith) write_runs
      nobody empty-Owns

write_bytes_example : byte_at full.dev (9 + 0) ≡ some 15
write_bytes_example =
    write_bytes flat flat-IsLawful empty empty-IsValid (omega arith) 5 4 9 (omega arith) write_runs
      1 0 refl (omega arith)

write_result_example :
    (((written.ret ≡ neg enomem) ⊎ (written.ret ≡ neg efault))
      × (written.f_pos ≡ 9)
      × (full.dev.size ≡ 0))
    ⊎ ((written.ret ≡ pos 1) × (written.f_pos ≡ 10) × (full.dev.size ≡ 10))
write_result_example =
    write_result flat flat-IsLawful empty empty-IsValid (omega arith) 5 4 9 (omega arith) write_runs

-- The second write goes to the stale byte at the position 8.
again_runs :
    write flat false 20 1 8 full
    ≡ some (record {
      ret = pos 1;
      f_pos = 9;
      state = record full {
        dev = record (full.dev) {
          chain =
              record { addr = 1; slots = none }
              ∷ record second {
                slots = some (record {
                  addr = 3;
                  quanta = none ∷ some (record quantum { bytes = 30 ∷ 15 ∷ [] }) ∷ none ∷ [];
                });
              }
              ∷ [];
        };
      };
    })
unfolding write write_locked write_at write_node receive grow grow_quantum follow walk locate
again_runs = refl

byte_before : byte_at full.dev 9 ≡ some 15
unfolding byte_at
byte_before = refl

write_frame_example :
    byte_at
      (record (full.dev) {
        chain =
            record { addr = 1; slots = none }
            ∷ record second {
              slots = some (record {
                addr = 3;
                quanta = none ∷ some (record quantum { bytes = 30 ∷ 15 ∷ [] }) ∷ none ∷ [];
              });
            }
            ∷ [];
      })
      9
    ≡ some 15
write_frame_example =
    write_frame flat flat-IsLawful full full-IsValid (omega arith) 20 1 8 (omega arith) again_runs 9
      15 (inr (inl (omega arith))) byte_before

-- A read of eight bytes at 8 delivers the stale byte and the written one.
abbrev delivered : Io flat
delivered = record {
  ret = pos 2;
  f_pos = 10;
  state = record full { user = (flat.to_user full.user 100 (70 ∷ 15 ∷ [])).1 };
}

read_runs : read flat false 100 8 8 full ≡ some delivered
unfolding read read_locked read_at lookup deliver follow walk locate
read_runs = refl

no_byte : byte_at empty.dev 9 ≡ none
unfolding byte_at
no_byte = refl

write-read_stale_example :
    (b : Block) × Gives empty.slab b
    × (get_elem? (flat.bytes delivered.state.user 100 2) 0 ≡ some (b.stale 0))
write-read_stale_example =
    write-read_stale flat flat-IsLawful empty empty-IsValid (omega arith) 5 4 9 (omega arith) 8 100
      8 2 0 write_runs (λ e. absurd (ground arith)) no_byte read_runs refl (omega arith)
      (omega arith) (refl, refl) (inl (omega arith))

byte_there : byte_at full.dev 8 ≢ none
unfolding byte_at
byte_there = λ h. ground arith

read_count_example : (delivered.ret ≡ neg efault) ⊎ (delivered.ret ≡ pos (read_length full.dev 8 8))
read_count_example =
    read_count flat full full-IsValid (omega arith) 100 8 8 (omega arith) read_runs (omega arith)
      byte_there

read_bytes_example : get_elem? (flat.bytes delivered.state.user 100 2) 1 ≡ byte_at full.dev (8 + 1)
read_bytes_example =
    read_bytes flat full full-IsValid (omega arith) 100 8 8 (omega arith) read_runs flat-IsLawful 2
      1 refl (omega arith)

-- The position 4 lies in a slot of the first set, which has none.
hole_there : byte_at full.dev 4 ≡ none
unfolding byte_at
hole_there = refl

back_runs :
    read flat false 100 1 9 full
    ≡ some (record {
      ret = pos 1;
      f_pos = 10;
      state = record full { user = (flat.to_user full.user 100 (15 ∷ [])).1 };
    })
unfolding read read_locked read_at lookup deliver follow walk locate
back_runs = refl

read-write_example :
    (1 ≤ 1)
    × (get_elem? (flat.bytes (flat.to_user full.user 100 (15 ∷ [])).1 100 1) 0
        ≡ get_elem? (flat.bytes empty.user 5 1) 0)
read-write_example =
    read-write flat flat-IsLawful empty empty-IsValid (omega arith) 5 4 9 (omega arith) 1 1 100 1 0
      write_runs refl back_runs refl (omega arith) (omega arith) (omega arith)

trim-Owns_example :
    (s' : Slab) × (trim full.dev full.slab
      ≡ some (record { chain = []; quantum = 4000; qset = 1000; size = 0; sem = 1 }, s'))
    × Owns nobody [] s'.log
trim-Owns_example = trim-Owns nobody full.dev full.slab full-IsValid.shaped full-Owns

found : lookup true full.dev.chain (record { item = 1; s_pos = 1; q_pos = 1 }) ≡ present quantum
unfolding lookup
found = refl
