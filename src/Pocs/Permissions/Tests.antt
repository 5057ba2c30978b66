-- ===== src/Pocs/Permissions/Tests.antt =====
-- The theorem on pocs/io-port-permissions/permissions-revisited.c at concrete arguments.
use lkm_sandbox.Base.{ℕ, ◌≡◌, refl, pos, true, false, [], ◌∷◌}
use lkm_sandbox.Pocs.Permissions.{
  Answers, iopl, fork, inb, returns, iopl_word, fork_word, get_permissions, test_read,
  permissions_with_fork, create, main,
}
use lkm_sandbox.Pocs.Permissions.Guarded.{denied, IsGuarded, main-IsGuarded}

abbrev granted : Answers
granted = record {
  permission_rc = pos 0;
  stack_found = true;
  clone_pid = pos 7;
  execve_fails = false;
  fork_pid = pos 8;
}

abbrev argc : ℕ
argc = 3

forks :
    main granted argc iopl_word fork_word
    ≡ record { calls = iopl 3 (pos 0) ∷ fork (pos 8) ∷ inb 888 ∷ []; end = returns (pos 0) }
unfolding main get_permissions create permissions_with_fork test_read
forks = refl

main-IsGuarded_example :
    IsGuarded denied (main granted argc iopl_word fork_word).calls
    × ((main granted argc iopl_word fork_word).end ≡ returns (pos 0)
        → (argc ≡ 3) × (granted.permission_rc ≡ pos 0))
main-IsGuarded_example = main-IsGuarded granted argc iopl_word fork_word
