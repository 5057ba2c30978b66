-- ===== src/Pocs.antt =====
-- The programs of pocs/, which show how permissions are inherited.
pub mod Permissions
pub mod Comparing
