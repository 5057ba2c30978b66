-- ===== src/Pocs/Comparing/Tests.antt =====
-- The theorems on pocs/io-port-permissions/comparing-iopl-ioperm.c at two concrete kernels.
use lkm_sandbox.Base.{none, ◌⊎◌, ◌≡◌, ◌≢◌, refl, pos, Bool, true, false, some, if◌then◌else◌}
use lkm_sandbox.Pocs.Permissions.{iopl_word}
use lkm_sandbox.Pocs.Comparing.{
  Thread, main_thread, delayed_thread, thread, Ports, IsInherited, IsPerThread, World, asks,
  running, absent, finished, returns, killed, Process, main_step, delayed_step, Reach, start, later,
}
use lkm_sandbox.Pocs.Comparing.Denies.{never_succeeds}
use lkm_sandbox.Pocs.Comparing.Grants.{only_delayed_killed}
use lkm_sandbox.Pocs.Comparing.Outcomes.{order_decides}

abbrev same : Thread → Thread → Bool
same main_thread main_thread = true
same delayed_thread delayed_thread = true
same thread thread = true
same _ _ = false

-- Each thread has its own permission.
abbrev per_thread : Ports
per_thread = record {
  Perms = Thread → Bool;
  at_start = λ t. false;
  grant = λ t p u. if same u t then true else p u;
  create = λ t u p v. if same v u then p t else p v;
  allowed = λ t p. p t;
}

-- The process has one.
abbrev per_process : Ports
per_process = record {
  Perms = Bool;
  at_start = false;
  grant = λ t p. true;
  create = λ t u p. p;
  allowed = λ t p. p;
}

same_refl : (t : Thread) → same t t ≡ true
same_refl main_thread = refl
same_refl delayed_thread = refl
same_refl thread = refl

same_ne : (t u : Thread) → t ≢ u → same t u ≡ false
same_ne main_thread main_thread ne = absurd (ne refl)
same_ne main_thread delayed_thread ne = refl
same_ne main_thread thread ne = refl
same_ne delayed_thread main_thread ne = refl
same_ne delayed_thread delayed_thread ne = absurd (ne refl)
same_ne delayed_thread thread ne = refl
same_ne thread main_thread ne = refl
same_ne thread delayed_thread ne = refl
same_ne thread thread ne = absurd (ne refl)

per_thread-IsInherited : IsInherited per_thread
per_thread-IsInherited = record {
  granted = λ t p. rw (same_refl t) refl;
  copied = λ t u p. rw (same_refl u) refl;
  others = λ t u v p ne. rw (same_ne v u ne) refl;
}

per_thread-IsPerThread : IsPerThread per_thread
per_thread-IsPerThread = record { denied = λ t. refl; alone = λ t u p ne. rw (same_ne u t ne) refl }

per_process-IsInherited : IsInherited per_process
per_process-IsInherited = record {
  granted = λ t p. refl;
  copied = λ t u p. refl;
  others = λ t u v p ne. refl;
}

abbrev world : World
world = record { argc = 2; method = iopl_word; rc = pos 0; delayed_created = true; created = true }

-- The delayed thread reads first.
abbrev early : Process per_thread
early = record {
  main = asks;
  delayed = running;
  child = absent;
  perms = λ v. if same v delayed_thread then false else false;
  ended = some (killed delayed_thread);
}

early_reached : Reach per_thread world early
unfolding main_step delayed_step
early_reached = later (later start main_thread refl) delayed_thread refl

never_succeeds_example :
    (per_thread.allowed delayed_thread early.perms ≡ false)
    × (early.delayed ≢ finished)
    × (early.ended ≢ some (returns (pos 0)))
never_succeeds_example =
    never_succeeds per_thread per_thread-IsInherited per_thread-IsPerThread world early_reached

only_delayed_killed_example : ◌≡◌ {A = Thread} delayed_thread delayed_thread
only_delayed_killed_example =
    only_delayed_killed per_thread per_thread-IsInherited world refl early_reached delayed_thread
      refl

-- The delayed thread reads first also where the process has one permission.
abbrev early_process : Process per_process
early_process = record {
  main = asks;
  delayed = running;
  child = absent;
  perms = false;
  ended = some (killed delayed_thread);
}

early_process_reached : Reach per_process world early_process
unfolding main_step delayed_step
early_process_reached = later (later start main_thread refl) delayed_thread refl

order_decides_example :
    ((early_process.ended ≡ none)
      ⊎ (early_process.ended ≡ some (returns (pos 0)))
      ⊎ ((early_process.ended ≡ some (killed delayed_thread)) × (early_process.main ≡ asks)))
    × ((s : Process per_process) × Reach per_process world s × (s.ended ≡ some (returns (pos 0))))
order_decides_example =
    order_decides per_process per_process-IsInherited (λ t u p. refl) world
      (record { two = refl; asks_for = refl; answer = refl; delayed = refl; child = refl })
      early_process_reached
