-- ===== src/Rehearsals.antt =====
-- The programs of rehearsals/, which run in user space.
pub mod Circular
pub mod Files
pub mod Execve
pub mod IoPorts
pub mod Fork
pub mod Clone
