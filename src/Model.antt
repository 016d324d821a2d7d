-- ===== src/Model.antt =====
-- The data model of include/libxal.h and include/xal.h: superblock, inodes and extents in
-- host-native format, and what a handle holds of a published index.
use xal.Base.{ℕ, Bool, List, [], Option, none, some, ltb, if◌then◌else◌, ◌==◌}

-- `enum xal_backend`. A value that is neither (a handle not opened) is `unknown`.
pub data Backend : Type 0 where
  xfs fiemap unknown : Backend

-- `enum xal_procrole`
pub data Procrole : Type 0 where
  single primary secondary : Procrole

-- `struct xal_sb`
pub record Sb : Type 0 where
  pub blocksize : ℕ
  pub sectsize : ℕ
  pub inodesize : ℕ
  pub inopblock : ℕ
  pub inopblog : ℕ
  pub icount : ℕ
  pub nallocated : ℕ
  pub rootino : ℕ
  pub agblocks : ℕ
  pub agblklog : ℕ
  pub agcount : ℕ
  pub dirblocksize : ℕ
  pub lba_blksze : ℕ

-- `union xal_inode_content`: a directory's children and a file's extents are the same two words.
pub record Content : Type 0 where
  pub idx : ℕ
  pub count : ℕ

-- `struct xal_inode`. A name is its bytes; `namelen` is a byte of its own.
pub record Inode : Type 0 where
  pub ino : ℕ
  pub size : ℕ
  pub content : Content
  pub ftype : ℕ
  pub namelen : ℕ
  pub name : List ℕ
  pub parent_idx : ℕ

-- `struct xal_extent`
pub record Extent : Type 0 where
  pub start_offset : ℕ
  pub start_block : ℕ
  pub nblocks : ℕ
  pub flag : ℕ

-- XAL_ODF_DIR3_FT_*
abbrev pub ft_unknown : ℕ
ft_unknown = 0

abbrev pub ft_reg_file : ℕ
ft_reg_file = 1

abbrev pub ft_dir : ℕ
ft_dir = 2

abbrev pub ft_max : ℕ
ft_max = 9

-- XAL_POOL_IDX_NONE
abbrev pub pool_idx_none : ℕ
pool_idx_none = 0xffff_ffff

-- The zeroed inode of a fresh pool.
abbrev pub blank_inode : Inode
blank_inode = record {
  ino = 0;
  size = 0;
  content = record { idx = 0; count = 0 };
  ftype = 0;
  namelen = 0;
  name = [];
  parent_idx = 0;
}

-- `xal_inode_is_dir`
abbrev pub is_dir : Inode → Bool
is_dir i = i.ftype == ft_dir

-- `xal_inode_is_file`
abbrev pub is_file : Inode → Bool
is_file i = i.ftype == ft_reg_file

-- The elements of a pool that a reader sees: `xal_inode_at` and `xal_extent_at` bound an index by
-- `allocated`, and everything below that is readable.
pub record Span (A : Type 0) : Type 0 where
  pub allocated : ℕ
  pub elems : ℕ → A

-- `xal_inode_at` and `xal_extent_at`
module _ {A : Type 0} where
  unfoldable pub elem_at : Span A → ℕ → Option A
  elem_at s i = if ltb i s.allocated then some (s.elems i) else none
