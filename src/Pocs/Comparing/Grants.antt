-- ===== src/Pocs/Comparing/Grants.antt =====
-- pocs/io-port-permissions/comparing-iopl-ioperm.c: a permission that was granted.
use lkm_sandbox.Base.{
  ◌∙◌, ap, ◌==◌, if◌then◌else◌, ◌≡◌, ◌≢◌, refl, ℤ, pos, neg, Bool, true, false, ◌||◌, some, arith,
}
use mathlib.Core.Option.{some-injective}
use lkm_sandbox.Kernel.Text.{same_text}
use lkm_sandbox.Pocs.Permissions.{iopl_word, ioperm_word}
use lkm_sandbox.Pocs.Comparing.{
  Thread, main_thread, delayed_thread, thread, Ports, IsInherited, World, MainPc, begins, asks,
  reads, creates, joins_delayed, joins, Pc, absent, running, finished, End, returns, killed,
  undefined, Process, is_zero, delayed_step, child_step, started, join, ask, main_step, Reach,
  start, later,
}
use lkm_sandbox.Pocs.Comparing.Inherits.{
  Ensures, Ensures-some, step-Ensures, either, inherit-others, inherit-copied,
}

-- Main is past the choice.
abbrev past : MainPc → Bool
past begins = false
past asks = false
past _ = true

abbrev pub asked : World → Bool
asked w = same_text w.method iopl_word || same_text w.method ioperm_word

-- Past the choice main has the permission, and a thread that it makes then has it too.
record Granted (K : Ports) (s : Process K) : Type 0 where
  reader : past s.main ≡ true → K.allowed main_thread s.perms ≡ true
  early : past s.main ≡ false → s.child ≡ absent
  inherited : s.child ≡ running → K.allowed thread s.perms ≡ true
  kills : (t : Thread) → s.ended ≡ some (killed t) → t ≡ delayed_thread

module _ (K : Ports) (I : IsInherited K) (w : World) (a : asked w ≡ true) where
  finish-Granted :
      (e : End) (s : Process K)
      → Granted K s
      → ((t : Thread) → e ≡ killed t → t ≡ delayed_thread)
      → Granted K (record s { ended = some e })
  finish-Granted e s g h = record {
    reader = g.reader;
    early = g.early;
    inherited = g.inherited;
    kills = λ t same. h t (some-injective _ _ same);
  }

  ask-granted :
      (p : K.Perms) → is_zero (ask K w p).0 ≡ true → K.allowed main_thread (ask K w p).1 ≡ true
  unfolding ask
  ask-granted p =
      let P = λ (r : ℤ × K.Perms). is_zero r.0 ≡ true → K.allowed main_thread r.1 ≡ true in
      let after : P (w.rc, if is_zero w.rc then K.grant main_thread p else p) =
        λ zero. rw zero (I.granted main_thread p) in
      either P (same_text w.method iopl_word) _ _ (λ _. after)
        (λ n.
          either P (same_text w.method ioperm_word) _ _ (λ _. after) (λ n'. absurd (ground arith)))

  -- Main goes on past the choice.
  move-Granted :
      (pc : MainPc) (s : Process K)
      → past pc ≡ true
      → K.allowed main_thread s.perms ≡ true
      → Granted K s
      → Granted K (record s { main = pc })
  move-Granted pc s gone h g = record {
    reader = λ e. h;
    early = λ e. absurd (ground arith);
    inherited = g.inherited;
    kills = g.kills;
  }

  no_child : (s : Process K) → s.child ≡ absent → s.child ≢ running
  no_child s e e' = absurd (ground arith)

  created_if : (created : Bool) → started K created ≡ running → created ≡ true
  created_if true e = refl
  created_if false e = absurd (ground arith)

  join-Granted :
      (pc : Pc) (s after : Process K)
      → Granted K s
      → Granted K after
      → Ensures (Granted K) (join K pc after s)
  join-Granted absent s after g h = finish-Granted undefined s g (λ t e. absurd (ground arith))
  join-Granted running s after g h = tt
  join-Granted finished s after g h = h

  main_step-Granted :
      (pc : MainPc) (s : Process K)
      → s.main ≡ pc
      → Granted K s
      → Ensures (Granted K) (main_step K w pc s)
  unfolding main_step
  main_step-Granted begins s at g =
      let none_yet : s.child ≡ absent = g.early (ap past at) in
      either (Granted K) (w.argc == 2) _ _
        (λ _. record {
          reader = λ e. absurd (ground arith);
          early = λ _. none_yet;
          inherited = λ e. absurd (no_child s none_yet e);
          kills = g.kills;
        })
        (λ _. finish-Granted (returns (neg 2)) s g (λ t e. absurd (ground arith)))
  main_step-Granted asks s at g =
      let none_yet : s.child ≡ absent = g.early (ap past at) in
      either (Granted K) (is_zero (ask K w s.perms).0) _ _
        (λ zero. record {
          reader = λ _. ask-granted s.perms zero;
          early = λ e. absurd (ground arith);
          inherited = λ e. absurd (no_child s none_yet e);
          kills = g.kills;
        })
        (λ _. finish-Granted _ s g (λ t e. absurd (ground arith)))
  main_step-Granted reads s at g =
      let allowed = g.reader (ap past at) in
      either (Granted K) (K.allowed main_thread s.perms) _ _
        (λ _. move-Granted creates s refl allowed g) (λ denied. absurd (ground arith))
  main_step-Granted creates s at g =
      let allowed = g.reader (ap past at) in
      record {
        reader = λ _.
            inherit-others K I w.created thread main_thread s.perms (λ e. absurd (ground arith))
            ∙ allowed;
        early = λ e. absurd (ground arith);
        inherited = λ e.
            inherit-copied K I w.created thread s.perms (λ _. allowed) (created_if w.created e);
        kills = g.kills;
      }
  main_step-Granted joins_delayed s at g =
      join-Granted s.delayed s _ g (move-Granted joins s refl (g.reader (ap past at)) g)
  main_step-Granted joins s at g =
      join-Granted s.child s _ g
        (finish-Granted (returns (pos 0)) s g (λ t e. absurd (ground arith)))

  delayed_step-Granted :
      (pc : Pc) (s : Process K) → Granted K s → Ensures (Granted K) (delayed_step K pc s)
  unfolding delayed_step
  delayed_step-Granted absent s g = tt
  delayed_step-Granted finished s g = tt
  delayed_step-Granted running s g =
      either (Granted K) (K.allowed delayed_thread s.perms) _ _
        (λ _. record {
          reader = g.reader;
          early = g.early;
          inherited = g.inherited;
          kills = g.kills;
        })
        (λ _. finish-Granted (killed delayed_thread) s g (λ t e. ground arith))

  child_step-Granted :
      (pc : Pc) (s : Process K)
      → s.child ≡ pc
      → Granted K s
      → Ensures (Granted K) (child_step K pc s)
  unfolding child_step
  child_step-Granted absent s e g = tt
  child_step-Granted finished s e g = tt
  child_step-Granted running s e g =
      let allowed = g.inherited e in
      either (Granted K) (K.allowed thread s.perms) _ _
        (λ _. record {
          reader = g.reader;
          early = λ before. absurd (no_child s (g.early before) e);
          inherited = λ e'. absurd (ground arith);
          kills = g.kills;
        })
        (λ denied. absurd (ground arith))

  Reach-Granted : {s : Process K} → Reach K w s → Granted K s
  Reach-Granted start = record {
    reader = λ e. absurd (ground arith);
    early = λ _. refl;
    inherited = λ e. absurd (ground arith);
    kills = λ t e. absurd (ground arith);
  }
  Reach-Granted (later {s} r t e) =
      let g = Reach-Granted r in
      Ensures-some (Granted K)
        (step-Ensures K w (Granted K) s (main_step-Granted s.main s refl g)
          (delayed_step-Granted s.delayed s g) (child_step-Granted s.child s refl g) t)
        e

-- Where iopl or ioperm is asked for, and a new thread has what its creator has: whatever the calls
-- answer and whatever the order of the steps is, no thread is killed for reading the port but the
-- one that was made before the permission was asked for.
pub only_delayed_killed :
    (K : Ports)
    → IsInherited K
    → (w : World) → asked w ≡ true
    → {s : Process K} → Reach K w s
    → (t : Thread) → s.ended ≡ some (killed t)
    → t ≡ delayed_thread
only_delayed_killed K I w a r = (Reach-Granted K I w a r).kills
