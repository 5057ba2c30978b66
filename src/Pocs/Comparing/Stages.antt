-- ===== src/Pocs/Comparing/Stages.antt =====
-- pocs/io-port-permissions/comparing-iopl-ioperm.c: a permission for the whole process, in every
-- order of the steps.
use mathlib.Core.Path.{subst}
use lkm_sandbox.Base.{
  ◌≢◌, sym, ◌⊎◌, ◌≡◌, refl, ◌∙◌, pos, true, none, some, arith, Bool-cases, inl, inr,
}
use lkm_sandbox.Kernel.Text.{same_text}
use lkm_sandbox.Pocs.Permissions.{iopl_word, ioperm_word}
use lkm_sandbox.Pocs.Comparing.{
  Thread, main_thread, delayed_thread, thread, Ports, IsInherited, IsPerProcess, World, MainPc,
  begins, read_port, join, step, asks, reads, creates, joins_delayed, joins, Pc, absent, running,
  finished, returns, killed, Process, delayed_step, child_step, ask, main_step, Reach, start, later,
}
use lkm_sandbox.Pocs.Comparing.Grants.{asked}
use lkm_sandbox.Pocs.Comparing.Inherits.{Ensures, Ensures-some, step-Ensures, either}

-- The calls succeed, and one of them is asked for.
pub record Succeeds (w : World) : Type 0 where
  pub two : w.argc ≡ 2
  pub asks_for : asked w ≡ true
  pub answer : w.rc ≡ pos 0
  pub delayed : w.delayed_created ≡ true
  pub child : w.created ≡ true

module _ (K : Ports) (I : IsInherited K) (P : IsPerProcess K) (w : World) (c : Succeeds w) where
  pub ask_lem : (p : K.Perms) → ask K w p ≡ (pos 0, K.grant main_thread p)
  unfolding ask
  ask_lem p = elim (Bool-cases (same_text w.method iopl_word)) [
    | inl e ↦ rw (e, c.answer) refl
    | inr n ↦
        let e : same_text w.method ioperm_word ≡ true = ground (arith, c.asks_for) in
        rw (n, e, c.answer) refl
  ]

  -- What holds while main stands somewhere and the process has not ended: which threads are there,
  -- and, once main has asked, that each may read the port.
  abbrev pub Stage : MainPc → Process K → Type 0
  Stage begins s = (s.delayed ≡ absent) × (s.child ≡ absent)
  Stage asks s = (s.delayed ≢ absent) × (s.child ≡ absent)
  Stage reads s =
      (s.delayed ≢ absent) × (s.child ≡ absent) × ((u : Thread) → K.allowed u s.perms ≡ true)
  Stage creates s =
      (s.delayed ≢ absent) × (s.child ≡ absent) × ((u : Thread) → K.allowed u s.perms ≡ true)
  Stage joins_delayed s =
      (s.delayed ≢ absent) × (s.child ≢ absent) × ((u : Thread) → K.allowed u s.perms ≡ true)
  Stage joins s =
      (s.delayed ≢ absent) × (s.child ≢ absent) × ((u : Thread) → K.allowed u s.perms ≡ true)

  abbrev pub Outcome : Process K → Type 0
  Outcome s =
      ((s.ended ≡ none) × ((pc : MainPc) × (s.main ≡ pc) × Stage pc s))
      ⊎ (s.ended ≡ some (returns (pos 0)))
      ⊎ ((s.ended ≡ some (killed delayed_thread)) × (s.main ≡ asks))

  create_all :
      (p : K.Perms)
      → ((u : Thread) → K.allowed u p ≡ true)
      → (u : Thread) → K.allowed u (K.create main_thread thread p) ≡ true
  create_all p all main_thread =
      I.others main_thread thread main_thread p (λ e. absurd (ground arith)) ∙ all main_thread
  create_all p all delayed_thread =
      I.others main_thread thread delayed_thread p (λ e. absurd (ground arith)) ∙ all delayed_thread
  create_all p all thread = I.copied main_thread thread p ∙ all main_thread

  join-Outcome :
      (pc : Pc) (s after : Process K)
      → pc ≢ absent
      → Outcome after
      → Ensures Outcome (join K pc after s)
  join-Outcome absent s after there h = absurd (there refl)
  join-Outcome running s after there h = tt
  join-Outcome finished s after there h = h

  main_step-Outcome :
      (pc : MainPc) (s : Process K)
      → s.ended ≡ none
      → Stage pc s
      → Ensures Outcome (main_step K w pc s)
  unfolding main_step
  main_step-Outcome begins s live g =
      rw (c.two, c.delayed) (inl (live, (asks, refl, (λ e. absurd (ground arith), g.1))))
  main_step-Outcome asks s live g =
      rw (ask_lem s.perms) (inl (live, (reads, refl, (g.0, g.1, λ u. P main_thread u s.perms))))
  main_step-Outcome reads s live g = rw (g.2 main_thread) (inl (live, (creates, refl, g)))
  main_step-Outcome creates s live g =
      rw (c.child) (
        inl
          (live, (joins_delayed, refl, (g.0, λ e. absurd (ground arith), create_all s.perms g.2))))
  main_step-Outcome joins_delayed s live g =
      join-Outcome s.delayed s _ g.0 (inl (live, (joins, refl, g)))
  main_step-Outcome joins s live g = join-Outcome s.child s _ g.1 (inr (inl refl))

  -- A thread that may read goes on.
  delayed_reads :
      (pc : MainPc) (s : Process K)
      → s.main ≡ pc
      → s.ended ≡ none
      → K.allowed delayed_thread s.perms ≡ true
      → Stage pc (record s { delayed = finished })
      → Outcome (read_port K delayed_thread (record s { delayed = finished }) s)
  delayed_reads pc s at live allowed g = rw allowed (inl (live, (pc, at, g)))

  delayed_step-Outcome :
      (pc : MainPc) (d : Pc) (s : Process K)
      → s.delayed ≡ d
      → s.main ≡ pc
      → s.ended ≡ none
      → Stage pc s
      → Ensures Outcome (delayed_step K d s)
  unfolding delayed_step
  delayed_step-Outcome pc absent s here at live g = tt
  delayed_step-Outcome pc finished s here at live g = tt
  delayed_step-Outcome begins running s here at live g = absurd (ground arith)
  delayed_step-Outcome asks running s here at live g =
      either Outcome (K.allowed delayed_thread s.perms) _ _
        (λ _. inl (live, (asks, at, (λ e. absurd (ground arith), g.1)))) (λ _. inr (inr (refl, at)))
  delayed_step-Outcome reads running s here at live g =
      delayed_reads reads s at live (g.2 delayed_thread) (λ e. absurd (ground arith), g.1, g.2)
  delayed_step-Outcome creates running s here at live g =
      delayed_reads creates s at live (g.2 delayed_thread) (λ e. absurd (ground arith), g.1, g.2)
  delayed_step-Outcome joins_delayed running s here at live g =
      delayed_reads joins_delayed s at live (g.2 delayed_thread)
        (λ e. absurd (ground arith), g.1, g.2)
  delayed_step-Outcome joins running s here at live g =
      delayed_reads joins s at live (g.2 delayed_thread) (λ e. absurd (ground arith), g.1, g.2)

  child_reads :
      (pc : MainPc) (s : Process K)
      → s.main ≡ pc
      → s.ended ≡ none
      → K.allowed thread s.perms ≡ true
      → Stage pc (record s { child = finished })
      → Outcome (read_port K thread (record s { child = finished }) s)
  child_reads pc s at live allowed g = rw allowed (inl (live, (pc, at, g)))

  child_step-Outcome :
      (pc : MainPc) (d : Pc) (s : Process K)
      → s.child ≡ d
      → s.main ≡ pc
      → s.ended ≡ none
      → Stage pc s
      → Ensures Outcome (child_step K d s)
  unfolding child_step
  child_step-Outcome pc absent s here at live g = tt
  child_step-Outcome pc finished s here at live g = tt
  child_step-Outcome begins running s here at live g = absurd (ground arith)
  child_step-Outcome asks running s here at live g = absurd (ground arith)
  child_step-Outcome reads running s here at live g = absurd (ground arith)
  child_step-Outcome creates running s here at live g = absurd (ground arith)
  child_step-Outcome joins_delayed running s here at live g =
      child_reads joins_delayed s at live (g.2 thread) (g.0, λ e. absurd (ground arith), g.2)
  child_step-Outcome joins running s here at live g =
      child_reads joins s at live (g.2 thread) (g.0, λ e. absurd (ground arith), g.2)

  step-Outcome : (s : Process K) (t : Thread) → Outcome s → Ensures Outcome (step K w t s)
  step-Outcome s t (inl (live, (pc, here, g))) =
      step-Ensures K w Outcome s
        (subst (λ (p : MainPc). Ensures Outcome (main_step K w p s)) (sym here)
          (main_step-Outcome pc s live g))
        (delayed_step-Outcome pc s.delayed s refl here live g)
        (child_step-Outcome pc s.child s refl here live g) t
  step-Outcome s t (inr (inl e)) = rw e tt
  step-Outcome s t (inr (inr (e, _))) = rw e tt

  pub Reach-Outcome : {s : Process K} → Reach K w s → Outcome s
  Reach-Outcome start = inl (refl, (begins, refl, (refl, refl)))
  Reach-Outcome (later {s} r t e) = Ensures-some Outcome (step-Outcome s t (Reach-Outcome r)) e
