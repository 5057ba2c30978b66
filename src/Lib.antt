-- ===== src/Lib.antt =====
-- lkm-sandbox: loadable modules for the Linux kernel, and programs in user space beside them.
--
-- The repository has no program of its own. Each lkm_*.c is a module that the kernel loads, calls
-- through the operations that it has registered, and unloads; rehearsals/ and pocs/ hold programs
-- that run in user space. They share no state and do not call each other. What they share is the
-- kernel: the allocator, the copies from and to user space, and the tables of what is registered.
--
-- The files, and the code that they model:
--
--   Base           tests and the conditional, lists and signed results over the native numbers
--   Kernel         what the modules use of the kernel and of the C library. None of it is code of
--                  this repository: answers are inputs, calls are written down in a log
--                  (Kernel/Slab and Kernel/Given for kmalloc and kfree, Kernel/Ledger for what is
--                  registered), and functions are records with laws (Kernel/Uaccess for
--                  copy_from_user and copy_to_user, Kernel/PutUser for put_user, Kernel/SimpleIo
--                  for the two functions of libfs, Kernel/DevT for MKDEV, MAJOR and MINOR)
--   Mev            lkm_mev.c, a character device whose contents are a chain of quantum sets:
--                  Types for the structures and the place of a position, Follow for mev_follow,
--                  Trim for mev_trim, Read for mev_read, Write for mev_write, Setup for loading,
--                  unloading and opening, Callers for several callers at once, Lifetime for
--                  all of it from init to exit, Whole for callers that write
--                  and read all of a file; Bytes is the abstract view, a partial function from
--                  positions to bytes, and Held the account of the memory. Heap has the functions
--                  that follow pointers a second time, over memory with an address for each set,
--                  array and quantum: Layout says where a chain stands there, and the two models
--                  are compared function by function, and in Runs for calls one after the other
--   Device         lkm_device.c, a character device that reads out a message, one file at a time
--   Mem            lkm_mem.c, memory statistics as files of /proc
--   Debugfs        lkm_debugfs.c, a number and a message in debugfs
--   DeviceNumbers  lkm_device_numbers.c, two regions of device numbers
--   Proc           lkm_proc.c, a greeting in /proc
--   Process        lkm_process.c, the name of the current process
--   Parameters     lkm_parameters.c, two parameters
--   Rehearsals     rehearsals/: Circular for circular-buffers/simple_circular_buffer.c, Files for
--                  read.c and write.c, Execve for execve/execve.c and execve/execve-target.c, and
--                  Fork, Clone and IoPorts for fork.c, clone.c and io_ports.c
--   Pocs           pocs/: Permissions for io-port-permissions/permissions-revisited.c and the
--                  program that it executes, Comparing for
--                  io-port-permissions/comparing-iopl-ioperm.c, whose three threads run in any order
--
-- How state and operations are modelled. The static variables of a module are a record, and an
-- operation is a function from that record to its result and the record after it. A pointer that
-- is only compared with NULL is a number, 0 for NULL. The chain of lkm_mev.c is reached from the
-- container alone, so it is a list in which each piece of memory has its address beside it; over
-- the memory of Mev/Heap it is pointers, and a read, a write or a kfree of memory that is NULL or not
-- allocated is a fault. What kmalloc gives there is memory that nobody holds.
-- Functions that may fault (an access outside an array, a division by zero, a signed overflow)
-- return an Option, `none` being the fault. The position and the sum in lkm_mev.c are of 64 bits
-- and wrap around, an int is checked against 2 ^ 31 or cut to 32 bits as the code does.
-- Loops are by recursion on the counter or on the list. Two have fuel: that of rehearsals/read.c,
-- which need not end, and for which one for each char is enough, and the outer loop of mev_trim
-- over memory, for which one more than there are sets is enough. The callers of Mev/Whole have fuel
-- too, and one call more than there are bytes left is enough for them.
-- The programs of rehearsals/ and pocs/ are functions of what their system calls answer.
--
-- Not modelled: printk, except where the output is what the program is for; names of files, which
-- are numbers; lkm_sandbox.c, lkm_skeleton.c and lkm_pp.c, which print a line; the Makefiles.
-- Operations of a module run one after the other, except in Mev/Callers, where reads and writes run
-- beside each other between down and up, and in Mev/Heap/Race and Device/Race, which show what two
-- callers can do.
mod Base
pub mod Kernel
pub mod Mev
pub mod Device
pub mod DeviceNumbers
pub mod Mem
pub mod Debugfs
pub mod Proc
pub mod Process
pub mod Parameters
pub mod Rehearsals
pub mod Pocs
