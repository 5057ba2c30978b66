-- ===== src/Kernel/Errno.antt =====
-- The error numbers that the sources name.
use lkm_sandbox.Base.{ℕ}

abbrev pub eio : ℕ
eio = 5

abbrev pub enomem : ℕ
enomem = 12

abbrev pub efault : ℕ
efault = 14

abbrev pub ebusy : ℕ
ebusy = 16

abbrev pub enodev : ℕ
enodev = 19

abbrev pub einval : ℕ
einval = 22

abbrev pub erestartsys : ℕ
erestartsys = 512

abbrev pub enoent : ℕ
enoent = 2

abbrev pub eacces : ℕ
eacces = 13
