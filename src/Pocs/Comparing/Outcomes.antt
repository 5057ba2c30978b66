-- ===== src/Pocs/Comparing/Outcomes.antt =====
-- pocs/io-port-permissions/comparing-iopl-ioperm.c: how the process ends where the permission is one
-- for the whole process.
use lkm_sandbox.Base.{◌⊎◌, ◌≡◌, refl, ◌∙◌, pos, true, none, some, arith, inl, inr}
use lkm_sandbox.Pocs.Comparing.{
  main_thread, delayed_thread, thread, Ports, IsInherited, IsPerProcess, World, MainPc, asks, reads,
  creates, joins_delayed, joins, Pc, absent, running, finished, returns, killed, Process,
  delayed_step, child_step, main_step, Reach, start, later,
}
use lkm_sandbox.Pocs.Comparing.Stages.{Succeeds, ask_lem, Reach-Outcome}

module _ (K : Ports) (I : IsInherited K) (P : IsPerProcess K) (w : World) (c : Succeeds w) where
  abbrev created : K.Perms
  created = K.create main_thread delayed_thread K.at_start

  abbrev granted : K.Perms
  granted = K.grant main_thread created

  abbrev at : MainPc → Pc → Pc → K.Perms → Process K
  at pc delayed child p = record {
    main = pc;
    delayed = delayed;
    child = child;
    perms = p;
    ended = none;
  }

  at_asks : Reach K w (at asks running absent created)
  unfolding main_step
  at_asks = later start main_thread (rw (c.two, c.delayed) refl)

  at_reads : Reach K w (at reads running absent granted)
  unfolding main_step
  at_reads = later at_asks main_thread (rw (ask_lem K I P w c created) refl)

  abbrev inherited : K.Perms
  inherited = K.create main_thread thread granted

  at_creates : Reach K w (at creates running absent granted)
  unfolding main_step
  at_creates = later at_reads main_thread (rw (I.granted main_thread created) refl)

  at_joins_delayed : Reach K w (at joins_delayed running running inherited)
  unfolding main_step
  at_joins_delayed = later at_creates main_thread (rw (c.child) refl)

  delayed_allowed : K.allowed delayed_thread inherited ≡ true
  delayed_allowed =
      I.others main_thread thread delayed_thread granted (λ e. absurd (ground arith))
      ∙ P main_thread delayed_thread created

  delayed_finished : Reach K w (at joins_delayed finished running inherited)
  unfolding delayed_step
  delayed_finished = later at_joins_delayed delayed_thread (rw delayed_allowed refl)

  at_joins : Reach K w (at joins finished running inherited)
  unfolding main_step
  at_joins = later delayed_finished main_thread refl

  child_finished : Reach K w (at joins finished finished inherited)
  unfolding child_step
  child_finished =
      later at_joins thread
        (rw (I.copied main_thread thread granted, I.granted main_thread created) refl)

  succeeds : (s : Process K) × Reach K w s × (s.ended ≡ some (returns (pos 0)))
  unfolding main_step
  succeeds = (_, later child_finished main_thread refl, refl)

-- On a kernel that gives a permission to the whole process, and a new thread the permissions of the
-- one that creates it, where the program has one argument that asks for iopl or ioperm, and where
-- that call and both of pthread_create succeed: in every state that some order of the steps leads
-- to, the process has not ended, or has ended with the result 0, or the thread that was made first
-- was killed for a read of the port before main had asked for the permission. And there is an order
-- in which the process ends with the result 0.
pub order_decides :
    (K : Ports)
    → IsInherited K
    → IsPerProcess K
    → (w : World) → Succeeds w
    → {s : Process K} → Reach K w s
    → ((s.ended ≡ none)
        ⊎ (s.ended ≡ some (returns (pos 0)))
        ⊎ ((s.ended ≡ some (killed delayed_thread)) × (s.main ≡ asks)))
      × ((s' : Process K) × Reach K w s' × (s'.ended ≡ some (returns (pos 0))))
order_decides K I P w c r = (
  elim (Reach-Outcome K I P w c r) [
    | inl (live, _) ↦ inl live
    | inr (inl e) ↦ inr (inl e)
    | inr (inr e) ↦ inr (inr e)
  ],
  succeeds K I P w c,
)
