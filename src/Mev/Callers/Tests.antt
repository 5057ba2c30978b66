-- ===== src/Mev/Callers/Tests.antt =====
-- Two callers of lkm_mev.c at a concrete device.
use lkm_sandbox.Base.{ℕ, ◌≡◌, ◌⊎◌, some, [], ◌∷◌, refl, arith}
use lkm_sandbox.Kernel.Slab.{live}
use lkm_sandbox.Kernel.Flat.{flat, flat-IsLawful}
use lkm_sandbox.Mev.Types.{State, Io, IsValid}
use lkm_sandbox.Mev.Held.{held, Owns}
use lkm_sandbox.Mev.Read.{down}
use lkm_sandbox.Mev.Callers.{Request, writing, body, System, enters, here, next, IsSafe}
use lkm_sandbox.Mev.Callers.Exclusive.{callers_exclusive}

abbrev empty : State flat
empty = record {
  dev = record { chain = []; quantum = 2; qset = 3; size = 0; sem = 1 };
  slab = record { answers = []; log = [] };
  user = λ a. a;
}

abbrev nobody : ℕ → ℕ
nobody a = 0

abbrev idle : System flat
idle = record { state = empty; inside = [] }

empty-IsValid : IsValid empty.dev
empty-IsValid = omega arith

empty-Owns : Owns nobody [] []
unfolding live held
empty-Owns = record { sound = tt; accounted = λ a. refl }

idle-IsSafe : IsSafe flat nobody idle
idle-IsSafe = record { valid = empty-IsValid; owns = empty-Owns; counted = omega arith; fit = tt }

-- A caller that writes four bytes at 9 is inside.
abbrev busy : System flat
busy = record { state = record empty { dev = down empty.dev }; inside = writing 5 4 9 ∷ [] }

callers_exclusive_example :
    IsSafe flat nobody busy
    × ((busy.inside ≡ [])
        ⊎ ((q : Request) × (r : Io flat) × (busy.inside ≡ q ∷ [])
            × (body flat q busy.state ≡ some r)))
callers_exclusive_example =
    callers_exclusive flat flat-IsLawful nobody idle-IsSafe
      (next here (enters empty [] (writing 5 4 9) (omega arith) (omega arith)))
