-- ===== src/Build.antt =====
-- The build of an index from an XFS file system (src/xal_be_xfs.c): the recursion from the root over
-- dinodes, directories and extents into the two pools.
pub mod State
pub mod Files
pub mod Dirs
pub mod Index
pub mod Pools
mod Tests
