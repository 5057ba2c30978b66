-- ===== src/Rehearsals/IoPorts/Tests.antt =====
-- The theorem on rehearsals/io_ports.c at concrete answers.
use lkm_sandbox.Base.{◌≡◌, refl, pos, neg, [], ◌∷◌}
use lkm_sandbox.Rehearsals.IoPorts.{ioperm, outb, sleep, inb, status, failed, Answers, main}
use lkm_sandbox.Rehearsals.IoPorts.Guarded.{Promise, main-Guarded}

abbrev kept : Answers
kept = record { first_rc = pos 0; status_byte = 127; second_rc = neg 1 }

kept_lem : main kept ≡ record {
  calls = ioperm 888 3 1 (pos 0) ∷ outb 2 888 ∷ sleep 2 ∷ inb 889 ∷ ioperm 888 3 0 (neg 1) ∷ [];
  lines = status 127 ∷ failed ∷ [];
  ret = neg 1;
}
unfolding main
kept_lem = refl

main-Guarded_example : Promise kept (main kept)
main-Guarded_example = main-Guarded kept
