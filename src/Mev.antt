-- ===== src/Mev.antt =====
-- lkm_mev.c: a character device whose contents are kept in memory, in a chain of quantum sets.
pub mod Types
pub mod Follow
pub mod Trim
pub mod Read
pub mod Write
pub mod Faults
pub mod RoundTrip
pub mod Whole
pub mod Setup
pub mod Place
pub mod Bytes
pub mod Held
pub mod Walk
pub mod Chain
pub mod Heap
pub mod Callers
pub mod Lifetime
mod Tests
