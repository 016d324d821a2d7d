-- ===== src/Fiemap.antt =====
-- The FIEMAP backend (src/xal_be_fiemap.c, include/xal_be_fiemap.h): it indexes a mounted file system
-- through system calls.
mod Tests
pub mod State
pub mod Mapping
pub mod Shadow
pub mod Visit
pub mod Index
pub mod Kept
pub mod Open
pub mod Paths
