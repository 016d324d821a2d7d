-- ===== src/Lookup/Content.antt =====
-- The accessors that stand on the lookup (src/xal.c): the root inode, and the content of the inode at a
-- path. A pointer into an inode is the index of the inode.
pub mod Paths
use xal.Base.{
  ℕ, ◌+◌, Bool, List, Option, none, some, Result, ok, err, einval, enotdir, ltb, ◌==◌,
  if◌then◌else◌,
}
use xal.Model.{Inode, is_dir, is_file, pool_idx_none}
use xal.Reader.{View, node}
use xal.Lookup.{get_inode}

-- `xal_get_root`
unfoldable pub get_root : View → Option ℕ
get_root v =
    if (v 0).pools.root_idx == pool_idx_none
    then none
    else if ltb (v 1).pools.root_idx (v 1).pools.inodes.allocated
    then some (v 1).pools.root_idx
    else none

-- What both accessors by path do with the inode that they found. Its type is read behind the last check of
-- the sequence lock.
unfoldable pub of_kind : (Inode → Bool) → ℕ → View → ℕ × Result ℕ → ℕ × Result ℕ
of_kind is_kind errno v (t, err e) = (t, err e)
of_kind is_kind errno v (t, ok i) =
    (t + 2, (if is_kind (node v (t + 1) i) then ok i else err errno))

module _ (bsearch : List ℕ → List (List ℕ) → Option ℕ) where
  -- `xal_get_extents`
  unfoldable pub get_extents : View → List ℕ → ℕ × Result ℕ
  get_extents v path = of_kind is_file einval v (get_inode bsearch v path)

  -- `xal_get_dentries`
  unfoldable pub get_dentries : View → List ℕ → ℕ × Result ℕ
  get_dentries v path = of_kind is_dir enotdir v (get_inode bsearch v path)
