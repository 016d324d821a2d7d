-- ===== src/Build/Index.antt =====
-- process_ino() and xal_be_xfs_index() (src/xal_be_xfs.c).
use xal.Base.{
  ℕ, zero, suc, Bool, [], Result, ok, err, einval, enosys, ◌==◌, if◌then◌else◌, too_deep,
}
use xal.Model.{Inode, Extent, blank_inode, ft_unknown, ft_reg_file, ft_dir, pool_idx_none}
use xal.Sync.{Words, indexing, bump_seq, mark_index_done}
use xal.Pool.{Pool, claim_inodes, clear}
use xal.Disk.{Bytes, di_mode, di_format, di_size, di_ino}
use xal.Build.State.{
  Env, Built, Action, inode_of, set_inode, set_content, type_of_mode, dinodes_get,
}
use xal.Build.Files.{process_dinode_file_extents, process_dinode_file_btree_root}
use xal.Build.Dirs.{
  process_dinode_dir_local, process_dinode_dir_extents, process_dinode_dir_btree_root,
}

-- `enum xal_odf_dinode_format`
abbrev pub fmt_dev : ℕ
fmt_dev = 0

abbrev pub fmt_local : ℕ
fmt_local = 1

abbrev pub fmt_extents : ℕ
fmt_extents = 2

abbrev pub fmt_btree : ℕ
fmt_btree = 3

abbrev pub fmt_uuid : ℕ
fmt_uuid = 4

-- The type that an inode is processed as, if it has one.
unfoldable pub known_type : Inode → Bytes → Result ℕ
known_type n d =
    if n.ftype == ft_unknown
    then (if type_of_mode (di_mode d) == ft_unknown
        then err einval
        else ok (type_of_mode (di_mode d)))
    else ok n.ftype

-- The function that a dinode's format and the inode's type call for. An unknown format is no error.
unfoldable pub process_format : ℕ → Env → (ℕ → ℕ → Action) → Bytes → ℕ → ℕ → Action
process_format fuel env process d self ftype b =
    if di_format d == fmt_btree
    then (if ftype == ft_dir
        then process_dinode_dir_btree_root env process d self
            (set_content b self b.inodes.free (inode_of b self).content.count)
        else if ftype == ft_reg_file
        then process_dinode_file_btree_root fuel env d self b
        else (b, err enosys))
    else if di_format d == fmt_extents
    then (if ftype == ft_dir
        then process_dinode_dir_extents env process d self b
        else if ftype == ft_reg_file
        then process_dinode_file_extents env d self b
        else (b, err enosys))
    else if di_format d == fmt_local
    then (if ftype == ft_dir
        then process_dinode_dir_local env process d self b
        else (b, err enosys))
    else if di_format d == fmt_dev
    then (b, err enosys)
    else if di_format d == fmt_uuid
    then (b, err enosys)
    else (b, ok tt)

-- The body of process_ino() behind the type.
unfoldable pub process_typed :
    ℕ → Env → (ℕ → ℕ → Action) → Bytes → ℕ → Built → Result ℕ → Built × Result (Unit {0})
process_typed fuel env process d self b (err e) = (b, err e)
process_typed fuel env process d self b (ok ftype) = process_format fuel env process d self ftype (
    set_inode b self (record (inode_of b self) { ftype = ftype; size = di_size d; ino = di_ino d }))

unfoldable pub process_found :
    ℕ → Env → (ℕ → ℕ → Action) → ℕ → Built → Result Bytes → Built × Result (Unit {0})
process_found fuel env process self b (err e) = (b, err e)
process_found fuel env process self b (ok d) =
    process_typed fuel env process d self b (known_type (inode_of b self) d)

-- `process_ino`, with fuel for the depth of the directories; a file's tree has fuel of its own.
unfoldable pub process_ino : ℕ → ℕ → Env → ℕ → ℕ → Action
process_ino height zero env ino self b = (b, err too_deep)
process_ino height (suc fuel) env ino self b =
    process_found height env (process_ino height fuel env) self b (dinodes_get env ino)

-- What xal_be_xfs_index() works on. `has_dinodes` says that xal_dinodes_retrieve() has run.
pub record Handle : Type 0 where
  pub words : Words
  pub built : Built
  pub root_idx : ℕ
  pub has_dinodes : Bool

-- The root as it is before its dinode is read.
unfoldable pub blank_root : Env → Inode → Inode
blank_root env n = record n {
  ino = env.sb.rootino;
  ftype = ft_dir;
  namelen = 0;
  name = [];
  parent_idx = pool_idx_none;
  content = record (n.content) { count = 0 };
}

-- Between the two bumps of the sequence lock, from the claim of the root on.
unfoldable pub build_root :
    ℕ → ℕ → Env → Built → ℕ → Pool Inode × Result ℕ → Built × ℕ × Result (Unit {0})
build_root height fuel env b root_idx (p, err e) = (record b { inodes = p }, root_idx, err e)
build_root height fuel env b root_idx (p, ok i) =
    let c : Built = record b { inodes = p } in
    let (built, r) =
      process_ino height fuel env env.sb.rootino i
        (set_inode c i (blank_root env (inode_of c i))) in
    (built, i, r)

-- The errno of a result, 0 for none.
abbrev pub errno : Result (Unit {0}) → ℕ
errno (err e) = e
errno (ok _) = 0

-- The label `exit` of xal_be_xfs_index().
unfoldable pub end_build : Words → Bool → Built × ℕ × Result (Unit {0}) → Handle × Result (Unit {0})
end_build words has_dinodes (b, root_idx, r) = (
  record {
    words = mark_index_done (bump_seq words) (errno r);
    built = b;
    root_idx = root_idx;
    has_dinodes = has_dinodes;
  },
  r,
)

abbrev pub blank_extent : Extent
blank_extent = record { start_offset = 0; start_block = 0; nblocks = 0; flag = 0 }

-- The pools as xal_pool_clear() leaves them.
unfoldable pub clear_pools : Built → Built
clear_pools b = record {
  inodes = clear blank_inode b.inodes;
  extents = clear blank_extent b.extents;
}

-- `xal_be_xfs_index`
unfoldable pub xfs_index : ℕ → ℕ → Env → Handle → Handle × Result (Unit {0})
xfs_index height fuel env h =
    if h.has_dinodes
    then end_build (bump_seq (record (h.words) { index_state = indexing })) h.has_dinodes (
        build_root height fuel env (clear_pools h.built) h.root_idx
          (claim_inodes env.inodes_mprotect (clear_pools h.built).inodes 1))
    else (h, err einval)
