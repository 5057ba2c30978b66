-- ===== src/Pocs/Comparing.antt =====
-- pocs/io-port-permissions/comparing-iopl-ioperm.c: three threads that read a port, one of them made
-- before the permission is asked for. Each step is one of a thread's, in any order. The
-- sleep of the delayed thread is left out: it may read as soon as it is there, so its orders are all
-- those that a sleep leaves, and more. Prints are left out.
pub mod Inherits
pub mod Denies
pub mod Grants
pub mod Stages
pub mod Outcomes
mod Tests
use lkm_sandbox.Base.{
  ℕ, zero, suc, ◌≡◌, ◌≢◌, ℤ, pos, negsuc, neg, Bool, true, false, Option, none, some, List, ◌==◌,
  if◌then◌else◌,
}
use lkm_sandbox.Kernel.Text.{same_text}
use lkm_sandbox.Pocs.Permissions.{iopl_word, ioperm_word}

pub data Thread : Type 0 where
  main_thread : Thread
  delayed_thread : Thread
  thread : Thread

-- Who may read a port, as the kernel keeps it.
pub record Ports : Type 1 where
  pub Perms : Type 0
  pub at_start : Perms
  -- iopl(3) or ioperm(0, 0xFFFF, 1), called by a thread with success
  pub grant : Thread → Perms → Perms
  -- pthread_create, with the thread that calls it and the new one
  pub create : Thread → Thread → Perms → Perms
  pub allowed : Thread → Perms → Bool

-- What the documentation promises: a caller gets what it asks for, and a new thread what its
-- creator has.
pub record IsInherited (K : Ports) : Type 0 where
  pub granted : (t : Thread) (p : K.Perms) → K.allowed t (K.grant t p) ≡ true
  pub copied : (t u : Thread) (p : K.Perms) → K.allowed u (K.create t u p) ≡ K.allowed t p
  pub others : (t u v : Thread) (p : K.Perms) → v ≢ u → K.allowed v (K.create t u p) ≡ K.allowed v p

-- A kernel that gives a permission to the thread that asks for it only.
pub record IsPerThread (K : Ports) : Type 0 where
  pub denied : (t : Thread) → K.allowed t K.at_start ≡ false
  pub alone : (t u : Thread) (p : K.Perms) → u ≢ t → K.allowed u (K.grant t p) ≡ K.allowed u p

-- A kernel that gives a permission to all threads of the process.
abbrev pub IsPerProcess : Ports → Type 0
IsPerProcess K = (t u : Thread) (p : K.Perms) → K.allowed u (K.grant t p) ≡ true

-- The arguments, and what the calls answer.
pub record World : Type 0 where
  pub argc : ℕ
  pub method : List ℕ
  pub rc : ℤ
  pub delayed_created : Bool
  pub created : Bool

pub data MainPc : Type 0 where
  begins : MainPc
  asks : MainPc
  reads : MainPc
  creates : MainPc
  joins_delayed : MainPc
  joins : MainPc

pub data Pc : Type 0 where
  absent : Pc
  running : Pc
  finished : Pc

-- How the process ends: with the result of main, by a read without the permission, or with a join
-- of a thread that was not created, which is undefined.
pub data End : Type 0 where
  returns : ℤ → End
  killed : Thread → End
  undefined : End

pub record Process (K : Ports) : Type 0 where
  pub main : MainPc
  pub delayed : Pc
  pub child : Pc
  pub perms : K.Perms
  pub ended : Option End

abbrev pub is_zero : ℤ → Bool
is_zero (pos zero) = true
is_zero _ = false

module _ (K : Ports) where
  abbrev pub finish : End → Process K → Process K
  finish e s = record s { ended = some e }

  -- `inb(PORT)` of a thread, and what follows it
  abbrev pub read_port : Thread → Process K → Process K → Process K
  read_port t after s = if K.allowed t s.perms then after else finish (killed t) s

  -- read_from_sleepy_child
  pub delayed_step : Pc → Process K → Option (Process K)
  delayed_step running s = some (read_port delayed_thread (record s { delayed = finished }) s)
  delayed_step _ s = none

  -- read_from_child
  pub child_step : Pc → Process K → Option (Process K)
  child_step running s = some (read_port thread (record s { child = finished }) s)
  child_step _ s = none

  -- pthread_create
  abbrev pub started : Bool → Pc
  started created = if created then running else absent

  abbrev pub inherit : Bool → Thread → K.Perms → K.Perms
  inherit created t p = if created then K.create main_thread t p else p

  -- pthread_join, and what follows it
  abbrev pub join : Pc → Process K → Process K → Option (Process K)
  join absent after s = some (finish undefined s)
  join running after s = none
  join finished after s = some after

  -- The choice by the argument: the answer, and the permissions after it.
  pub ask : World → K.Perms → ℤ × K.Perms
  ask w p =
      let p' = if is_zero w.rc then K.grant main_thread p else p in
      if same_text w.method iopl_word
      then (w.rc, p')
      else if same_text w.method ioperm_word
      then (w.rc, p')
      else (pos 0, p)

  -- The steps of main.
  pub main_step : World → MainPc → Process K → Option (Process K)
  main_step w begins s = some (
      if w.argc == 2
      then record s {
        main = asks;
        delayed = started w.delayed_created;
        perms = inherit w.delayed_created delayed_thread s.perms;
      }
      else finish (returns (neg 2)) s)
  main_step w asks s = some (
      let (rc, p) = ask w s.perms in
      if is_zero rc then record s { main = reads; perms = p } else finish (returns rc) s)
  main_step w reads s = some (read_port main_thread (record s { main = creates }) s)
  main_step w creates s = some (record s {
    main = joins_delayed;
    child = started w.created;
    perms = inherit w.created thread s.perms;
  })
  main_step w joins_delayed s = join s.delayed (record s { main = joins }) s
  main_step w joins s = join s.child (finish (returns (pos 0)) s) s

  -- A step of a thread, if it has one: none after the end of the process.
  abbrev pub step : World → Thread → Process K → Option (Process K)
  step w t s = elim s.ended [
    | some e ↦ none
    | none ↦ elim t [
      | main_thread ↦ main_step w s.main s
      | delayed_thread ↦ delayed_step s.delayed s
      | thread ↦ child_step s.child s
    ]
  ]

  abbrev pub launched : Process K
  launched = record {
    main = begins;
    delayed = absent;
    child = absent;
    perms = K.at_start;
    ended = none;
  }

  -- The states that some order of the steps leads to.
  pub data Reach (w : World) : Process K → Type 0 where
    start : Reach w launched
    later : {s s' : Process K} → Reach w s → (t : Thread) → step w t s ≡ some s' → Reach w s'
