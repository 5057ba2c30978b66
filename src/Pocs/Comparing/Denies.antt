-- ===== src/Pocs/Comparing/Denies.antt =====
-- pocs/io-port-permissions/comparing-iopl-ioperm.c: a permission for one thread.
use lkm_sandbox.Base.{◌∙◌, ◌==◌, if◌then◌else◌, ◌≡◌, ◌≢◌, refl, ℤ, pos, neg, false, some, arith}
use mathlib.Core.Option.{some-injective}
use lkm_sandbox.Kernel.Text.{same_text}
use lkm_sandbox.Pocs.Permissions.{iopl_word, ioperm_word}
use lkm_sandbox.Pocs.Comparing.{
  Thread, main_thread, delayed_thread, thread, Ports, IsInherited, IsPerThread, World, MainPc,
  begins, asks, reads, creates, joins_delayed, joins, Pc, absent, running, finished, End, returns,
  killed, undefined, Process, is_zero, delayed_step, child_step, inherit, started, join, ask,
  main_step, step, launched, Reach, start, later,
}
use lkm_sandbox.Pocs.Comparing.Inherits.{
  Ensures, Ensures-some, step-Ensures, either, inherit-others,
}

-- The delayed thread has no permission, so it never finishes, and main never gets past its join.
pub record Denied (K : Ports) (s : Process K) : Type 0 where
  pub before : s.main ≡ begins → K.allowed main_thread s.perms ≡ false
  pub without : K.allowed delayed_thread s.perms ≡ false
  pub unfinished : s.delayed ≢ finished
  pub waiting : s.main ≢ joins
  pub fails : s.ended ≢ some (returns (pos 0))

module _ (K : Ports) (I : IsInherited K) (T : IsPerThread K) (w : World) where
  launched-Denied : Denied K (launched K)
  launched-Denied = record {
    before = λ e. T.denied main_thread;
    without = T.denied delayed_thread;
    unfinished = λ e. absurd (ground arith);
    waiting = λ e. absurd (ground arith);
    fails = λ e. absurd (ground arith);
  }

  -- An end that is not a success.
  finish-Denied :
      (e : End) (s : Process K)
      → Denied K s
      → e ≢ returns (pos 0)
      → Denied K (record s { ended = some e })
  finish-Denied e s d ne = record {
    before = d.before;
    without = d.without;
    unfinished = d.unfinished;
    waiting = d.waiting;
    fails = λ same. ne (some-injective _ _ same);
  }

  -- Main goes on, with other permissions and another child.
  move-Denied :
      (pc : MainPc) (child : Pc) (p : K.Perms) (s : Process K)
      → Denied K s
      → pc ≢ begins
      → pc ≢ joins
      → K.allowed delayed_thread p ≡ false
      → Denied K (record s { main = pc; child = child; perms = p })
  move-Denied pc child p s d ne ne' h = record {
    before = λ e. absurd (ne e);
    without = h;
    unfinished = d.unfinished;
    waiting = ne';
    fails = d.fails;
  }

  ask-alone : (p : K.Perms) → K.allowed delayed_thread (ask K w p).1 ≡ K.allowed delayed_thread p
  unfolding ask
  ask-alone p =
      let after : K.allowed delayed_thread (if is_zero w.rc then K.grant main_thread p else p)
          ≡ K.allowed delayed_thread p =
        either (λ q. K.allowed delayed_thread q ≡ K.allowed delayed_thread p) (is_zero w.rc) _ _
          (λ _. T.alone main_thread delayed_thread p (λ e. absurd (ground arith))) (λ _. refl) in
      either (λ (r : ℤ × K.Perms). K.allowed delayed_thread r.1 ≡ K.allowed delayed_thread p)
        (same_text w.method iopl_word) _ _ (λ _. after)
        (λ _.
          either (λ (r : ℤ × K.Perms). K.allowed delayed_thread r.1 ≡ K.allowed delayed_thread p)
            (same_text w.method ioperm_word) _ _ (λ _. after) (λ _. refl))

  join-Denied :
      (pc : Pc) (s : Process K)
      → s.delayed ≡ pc
      → Denied K s
      → Ensures (Denied K) (join K pc (record s { main = joins }) s)
  join-Denied absent s e d = finish-Denied undefined s d (λ e. absurd (ground arith))
  join-Denied running s e d = tt
  join-Denied finished s e d = absurd (d.unfinished e)

  main_step-Denied :
      (pc : MainPc) (s : Process K)
      → s.main ≡ pc
      → Denied K s
      → Ensures (Denied K) (main_step K w pc s)
  unfolding main_step
  main_step-Denied begins s at d =
      either (Denied K) (w.argc == 2) _ _
        (λ _. record {
          before = λ e. absurd (ground arith);
          without =
              either (λ q. K.allowed delayed_thread q ≡ false) w.delayed_created _ _
                (λ _. I.copied main_thread delayed_thread s.perms ∙ d.before at) (λ _. d.without);
          unfinished =
              either (λ q. q ≢ finished) w.delayed_created running absent
                (λ _ e. absurd (ground arith)) (λ _ e. absurd (ground arith));
          waiting = λ e. absurd (ground arith);
          fails = d.fails;
        })
        (λ _. finish-Denied (returns (neg 2)) s d (λ e. absurd (ground arith)))
  main_step-Denied asks s at d =
      either (Denied K) (is_zero (ask K w s.perms).0) _ _
        (λ _.
          move-Denied reads s.child (ask K w s.perms).1 s d (λ e. absurd (ground arith))
            (λ e. absurd (ground arith)) (ask-alone s.perms ∙ d.without))
        (λ nonzero. finish-Denied _ s d (λ e. absurd (ground arith)))
  main_step-Denied reads s at d =
      either (Denied K) (K.allowed main_thread s.perms) _ _
        (λ _.
          move-Denied creates s.child s.perms s d (λ e. absurd (ground arith))
            (λ e. absurd (ground arith)) d.without)
        (λ _. finish-Denied (killed main_thread) s d (λ e. absurd (ground arith)))
  main_step-Denied creates s at d =
      move-Denied joins_delayed (started K w.created) (inherit K w.created thread s.perms) s d
        (λ e. absurd (ground arith)) (λ e. absurd (ground arith))
        (inherit-others K I w.created thread delayed_thread s.perms (λ e. absurd (ground arith))
          ∙ d.without)
  main_step-Denied joins_delayed s at d = join-Denied s.delayed s refl d
  main_step-Denied joins s at d = absurd (d.waiting at)

  delayed_step-Denied :
      (pc : Pc) (s : Process K) → Denied K s → Ensures (Denied K) (delayed_step K pc s)
  unfolding delayed_step
  delayed_step-Denied absent s d = tt
  delayed_step-Denied finished s d = tt
  delayed_step-Denied running s d =
      either (Denied K) (K.allowed delayed_thread s.perms) _ _
        (λ e. absurd (ground (arith, d.without)))
        (λ _. finish-Denied (killed delayed_thread) s d (λ e. absurd (ground arith)))

  child_step-Denied :
      (pc : Pc) (s : Process K) → Denied K s → Ensures (Denied K) (child_step K pc s)
  unfolding child_step
  child_step-Denied absent s d = tt
  child_step-Denied finished s d = tt
  child_step-Denied running s d =
      either (Denied K) (K.allowed thread s.perms) _ _
        (λ _. record {
          before = d.before;
          without = d.without;
          unfinished = d.unfinished;
          waiting = d.waiting;
          fails = d.fails;
        })
        (λ _. finish-Denied (killed thread) s d (λ e. absurd (ground arith)))

  step-Denied : (t : Thread) (s : Process K) → Denied K s → Ensures (Denied K) (step K w t s)
  step-Denied t s d =
      step-Ensures K w (Denied K) s (main_step-Denied s.main s refl d)
        (delayed_step-Denied s.delayed s d) (child_step-Denied s.child s d) t

  Reach-Denied : {s : Process K} → Reach K w s → Denied K s
  Reach-Denied start = launched-Denied
  Reach-Denied (later {s} r t e) = Ensures-some (Denied K) (step-Denied t s (Reach-Denied r)) e

-- On a kernel that gives a permission to the thread that asks for it only, and to threads that it
-- makes later: whatever the arguments, the answers of the calls and the order of the steps are, the
-- thread that was made first never has the permission and never comes to its end, and the program
-- never returns 0.
pub never_succeeds :
    (K : Ports)
    → IsInherited K
    → IsPerThread K
    → (w : World) {s : Process K} → Reach K w s
    → (K.allowed delayed_thread s.perms ≡ false)
      × (s.delayed ≢ finished)
      × (s.ended ≢ some (returns (pos 0)))
never_succeeds K I T w r = let d = Reach-Denied K I T w r in (d.without, d.unfinished, d.fails)
