-- ===== src/Kernel.antt =====
-- What the modules use of the kernel and of the C library: error numbers, the slab allocator, a log of what is
-- registered, and
-- the copies from and to user space. None of it is code of this repository: the answers of the
-- allocator are a list that the caller of an operation supplies, and the copies are a record of
-- functions.
pub mod Errno
pub mod Slab
pub mod Given
pub mod Uaccess
pub mod Flat
pub mod Text
pub mod SimpleIo
pub mod DevT
pub mod Ledger
pub mod Batches
pub mod PutUser
