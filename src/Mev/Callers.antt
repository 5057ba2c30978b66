-- ===== src/Mev/Callers.antt =====
-- lkm_mev.c: any number of callers of mev_read and mev_write, between the down and the up of whose
-- semaphore others run.
pub mod Calls
pub mod Exclusive
mod Tests
use lkm_sandbox.Base.{
  ℕ, ◌+◌, ◌^◌, ◌<◌, ◌≡◌, pos, false, Option, some, List, [], ◌∷◌, ◌++◌, length, All,
}
use lkm_sandbox.Kernel.Slab.{Slab}
use lkm_sandbox.Kernel.Uaccess.{Uaccess}
use lkm_sandbox.Mev.Types.{Container, State, Io, IsValid}
use lkm_sandbox.Mev.Held.{Owns}
use lkm_sandbox.Mev.Read.{down, read, read_locked, released}
use lkm_sandbox.Mev.Write.{write, write_locked}
use lkm_sandbox.Mev.Setup.{open_device}

-- A call of mev_read or of mev_write: the buffer, the count and the position.
pub data Request : Type 0 where
  reading : ℕ → ℕ → ℕ → Request
  writing : ℕ → ℕ → ℕ → Request

-- A call that ends below 4 gigabytes.
abbrev pub Fits : Request → Type 0
Fits (reading buf count f_pos) = f_pos + count < 2 ^ 32
Fits (writing buf count f_pos) = f_pos + count < 2 ^ 32

module _ (U : Uaccess) where
  -- What a caller does between down and up.
  abbrev pub body : Request → State U → Option (Io U)
  body (reading buf count f_pos) s = read_locked U buf count f_pos s
  body (writing buf count f_pos) s = write_locked U buf count f_pos s

  -- The whole call, when nobody else runs.
  abbrev pub call : Request → State U → Option (Io U)
  call (reading buf count f_pos) s = read U false buf count f_pos s
  call (writing buf count f_pos) s = write U false buf count f_pos s

  -- The device, and the callers that are between down and up.
  pub record System : Type 0 where
    pub state : State U
    pub inside : List Request

  -- down waits while the count is 0; a caller that is inside may end at any time. The device is
  -- opened while no call is under way: mev_open does not ask for the semaphore, and the other two
  -- read the sizes of quantum and set before they do.
  pub data Step : System → System → Type 0 where
    enters :
        (s : State U) (inside : List Request) (q : Request)
        → Fits q
        → 0 < s.dev.sem
        → Step
            (record { state = s; inside = inside })
            (record { state = record s { dev = down s.dev }; inside = q ∷ inside })
    leaves :
        (s : State U) (inside before after : List Request) (q : Request) (r : Io U)
        → inside ≡ before ++ q ∷ after
        → body q s ≡ some r
        → Step
            (record { state = s; inside = inside })
            (record { state = (released U r).state; inside = before ++ after })
    opens :
        (s : State U) (f_flags : ℕ) (c : Container) (slab : Slab)
        → open_device (some s.dev) f_flags s.slab ≡ some (pos 0, some c, slab)
        → Step
            (record { state = s; inside = [] })
            (record { state = record s { dev = c; slab = slab }; inside = [] })

  pub data Reach (x : System) : System → Type 0 where
    here : Reach x x
    next : {y z : System} → Reach x y → Step y z → Reach x z

  -- The device is valid and its memory accounted for, and the semaphore and the callers inside make
  -- up one.
  pub record IsSafe (others : ℕ → ℕ) (x : System) : Type 0 where
    pub valid : IsValid x.state.dev
    pub owns : Owns others x.state.dev.chain x.state.slab.log
    pub counted : x.state.dev.sem + length x.inside ≡ 1
    pub fit : All Fits x.inside
