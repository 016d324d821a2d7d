-- ===== src/Build/Dirs.antt =====
-- The entries of a directory (src/xal_be_xfs.c): inline in the dinode, in blocks that its extents name, or
-- in blocks that a B+tree names. `process` is process_ino() on a child, by inode number and index.
pub mod Ends
use xal.Base.{
  ℕ, zero, suc, ◌+◌, ◌-◌, ◌*◌, ◌/◌, ◌%◌, ◌^◌, Bool, true, false, Option, none, some, List, [], ◌∷◌,
  Result, ok, err, einval, enosys, ltb, ◌==◌, ◌&&◌, ◌||◌, not, if◌then◌else◌, add64, sub64, mul64,
  u32_mod, too_deep,
}
use xal.Model.{Sb, Inode, Extent, blank_inode, xfs}
use xal.Pool.{Pool, claim_inodes}
use xal.Extent.{fsbno_offset}
use xal.Disk.{
  Bytes, be16, be32, be64, bytes_at, dinode_nbytes, di_nextents, di_size, lfmt_nbytes, lfmt_magic,
  lfmt_level, lfmt_numrecs, bmap_magic, dir3_block_magic, dir3_data_magic, decode_dentry,
  btree_dinode_meta, dev_read,
}
use xal.Build.State.{
  Env, Built, Action, on_success, store, load, inode_of, set_inode, set_content, add_count,
  should_skip,
}
use xal.Build.Files.{extent_record, each_pointer, copied, nextents_of}

-- The entry goes to the slot that was claimed for it.
unfoldable pub store_dentry : ℕ → Inode → Built → Pool Inode × Result ℕ → Built × Result (Unit {0})
store_dentry self dentry b (p, err e) = (record b { inodes = p }, err e)
store_dentry self dentry b (p, ok slot) =
    (add_count (record b { inodes = store p slot dentry }) self 1, ok tt)

-- An entry that is not skipped gets a slot.
unfoldable pub keep_dentry : Env → ℕ → Inode → Result (ℕ × Bool) → Action
keep_dentry env self dentry (err e) b = (b, err e)
keep_dentry env self dentry (ok (ftype, true)) b = (b, ok tt)
keep_dentry env self dentry (ok (ftype, false)) b =
    store_dentry self (record dentry { ftype = ftype }) b
      (claim_inodes env.inodes_mprotect b.inodes 1)

-- An entry of the short form at a cursor: the next cursor, and the entry.
unfoldable pub short_dentry : Bytes → Bool → ℕ → ℕ × Inode
short_dentry d wide o =
    let ftype_at = o + 3 + d o in
    (
      if wide then ftype_at + 9 else ftype_at + 5,
      record blank_inode {
        namelen = d o;
        name = bytes_at d (o + 3) (d o);
        ftype = d ftype_at;
        ino = if wide then be64 d (ftype_at + 1) else be32 d (ftype_at + 1);
      },
    )

-- The loop of process_dinode_dir_local() over `n` entries.
unfoldable pub short_dentries : Env → Bytes → Bool → ℕ → ℕ → ℕ → Action
short_dentries env d wide self o zero b = (b, ok tt)
short_dentries env d wide self o (suc n) b =
    let (next, dentry) = short_dentry d wide o in
    on_success (keep_dentry env self dentry (should_skip env dentry) b)
      (short_dentries env d wide self next n)

unfoldable pub load_range : Pool Inode → ℕ → ℕ → List Inode
load_range p i zero = []
load_range p i (suc n) = load p i blank_inode ∷ load_range p (i + 1) n

unfoldable pub store_range : Pool Inode → ℕ → List Inode → Pool Inode
store_range p i [] = p
store_range p i (x ∷ xs) = store_range (store p i x) (i + 1) xs

-- `qsort` of the children of an inode.
unfoldable pub sort_children : Env → ℕ → Built → Built
sort_children env self b =
    let content = (inode_of b self).content in
    record b {
      inodes =
          store_range b.inodes content.idx
            (env.qsort (load_range b.inodes content.idx content.count));
    }

-- The loop over `n` children from an index on. A child is another slot than its parent, so that
-- the bounds, which are read once here, do not move.
unfoldable pub each_child : (ℕ → ℕ → Action) → ℕ → ℕ → Action
each_child process i zero b = (b, ok tt)
each_child process i (suc n) b =
    on_success (process (inode_of b i).ino i b) (each_child process (i + 1) n)

-- The children of an inode, after they are sorted.
unfoldable pub process_children : Env → (ℕ → ℕ → Action) → ℕ → Action
process_children env process self b =
    let sorted = sort_children env self b in
    each_child process (inode_of b self).content.idx (inode_of b self).content.count sorted

-- process_dinode_dir_local() names the parent only when it comes to a child.
unfoldable pub with_parent : (ℕ → ℕ → Action) → ℕ → ℕ → ℕ → Action
with_parent process self ino i b =
    process ino i (set_inode b i (record (inode_of b i) { parent_idx = self }))

-- `process_dinode_dir_local`
unfoldable pub process_dinode_dir_local : Env → (ℕ → ℕ → Action) → Bytes → ℕ → Action
process_dinode_dir_local env process d self b =
    let wide = not (d (dinode_nbytes + 1) == 0) in
    let first = if wide then dinode_nbytes + 10 else dinode_nbytes + 6 in
    on_success
      (short_dentries env d wide self first (d dinode_nbytes)
        (set_content b self b.inodes.free (inode_of b self).content.count))
      (process_children env (with_parent process self) self)

-- '.' and '..'
unfoldable pub is_dots : Inode → Bool
is_dots dentry = elim dentry.name [
  | x ∷ [] ↦ x == b'.'
  | x ∷ y ∷ [] ↦ x == b'.' && y == b'.'
  | _ ↦ false
]

-- The loop over the entries of a directory block. Every entry that does not end it is at least
-- 16 bytes long, so the block's size in rounds is enough.
unfoldable pub block_dentries : Env → ℕ → Bytes → ℕ → ℕ → Action
block_dentries env self m zero o b = (b, err too_deep)
block_dentries env self m (suc fuel) o b =
    let (nbytes, dentry) = decode_dentry m o in
    let next = block_dentries env self m fuel (o + nbytes) in
    if not (ltb o env.sb.dirblocksize)
    then (b, ok tt)
    else if dentry.ino == 0 || dentry.namelen == 0
    then (b, ok tt)
    else if is_dots dentry
    then next b
    else on_success
        (keep_dentry env self (record dentry { parent_idx = self }) (should_skip env dentry) b) next

-- The result of a block: whether its magic was valid.
unfoldable pub was_read : Built × Result (Unit {0}) → Built × Result Bool
was_read (b, err e) = (b, err e)
was_read (b, ok _) = (b, ok true)

unfoldable pub read_block_dentries : Env → ℕ → Built → Result Bytes → Built × Result Bool
read_block_dentries env self b (err e) = (b, err e)
read_block_dentries env self b (ok buf) =
    let m = copied 0 env.sb.dirblocksize buf in
    if not (be32 m 0 == dir3_data_magic) && not (be32 m 0 == dir3_block_magic)
    then (b, ok false)
    else was_read (block_dentries env self m (suc env.sb.dirblocksize) 64 b)

-- The block at a file-system block number, in process_dinode_dir_extents_dblock() and in
-- btree_lblock_decode_leaf_records().
unfoldable pub dir_block : Env → ℕ → ℕ → Built → Built × Result Bool
dir_block env self fsbno b =
    read_block_dentries env self b
      (dev_read env.dev env.sb.dirblocksize (fsbno_offset xfs env.sb fsbno))

-- An invalid magic is a success of this function.
unfoldable pub any_magic : Built × Result Bool → Built × Result (Unit {0})
any_magic (b, err e) = (b, err e)
any_magic (b, ok _) = (b, ok tt)

-- `process_dinode_dir_extents_dblock`
unfoldable pub process_dinode_dir_extents_dblock : Env → ℕ → ℕ → Action
process_dinode_dir_extents_dblock env self fsbno b = any_magic (dir_block env self fsbno b)

-- `fsblk_per_dblk`
abbrev pub fsblk_per_dblk : Sb → ℕ
fsblk_per_dblk sb = sb.dirblocksize / sb.blocksize

-- What comes next after a block whose magic was valid; a block whose magic was not ends the loops.
unfoldable pub on_valid : Built × Result Bool → (Built → Built × Result Bool) → Built × Result Bool
on_valid (b, err e) next = (b, err e)
on_valid (b, ok false) next = (b, ok false)
on_valid (b, ok true) next = next b

-- The loop over the directory blocks of an extent. With a positive step one more round than the extent
-- has blocks is enough.
unfoldable pub extent_blocks :
    ℕ → Extent → (ℕ → Built → Built × Result Bool) → ℕ → ℕ → Built → Built × Result Bool
extent_blocks per extent visit zero fsblk b = (b, err too_deep)
extent_blocks per extent visit (suc fuel) fsblk b =
    if ltb fsblk extent.nblocks
    then on_valid (visit (add64 extent.start_block fsblk) b)
        (extent_blocks per extent visit fuel (fsblk + per))
    else (b, ok true)

-- `nbytes > 0` of an `int64_t`
abbrev pub positive : ℕ → Bool
positive nbytes = not (nbytes == 0) && ltb nbytes (2 ^ 63)

-- The loop of process_dinode_dir_extents() over `n` extents from an offset on.
unfoldable pub dir_extents : Env → Bytes → ℕ → ℕ → ℕ → ℕ → Action
dir_extents env d self nbytes o zero b = (b, ok tt)
dir_extents env d self nbytes o (suc n) b =
    let extent = extent_record d o in
    let visit =
      λ (fsbno : ℕ) (c : Built). was_read (process_dinode_dir_extents_dblock env self fsbno c) in
    let rest =
      dir_extents env d self (sub64 nbytes (mul64 extent.nblocks env.sb.blocksize)) (o + 16) n in
    if positive nbytes
    then on_success
        (any_magic (extent_blocks (fsblk_per_dblk env.sb) extent visit (suc extent.nblocks) 0 b))
        rest
    else (b, ok tt)

-- Whether that loop comes to a block.
unfoldable pub visits_block : Env → Bytes → ℕ → ℕ → ℕ → Bool
visits_block env d nbytes o zero = false
visits_block env d nbytes o (suc n) =
    let rest = visits_block env d nbytes (o + 16) n in
    if positive nbytes then (if (extent_record d o).nblocks == 0 then rest else true) else false

-- The end of process_dinode_dir_extents(): with no block and no child nothing was stored in `err`.
unfoldable pub last_err : Env → Bool → Built × Result (Unit {0}) → Built × Result (Unit {0})
last_err env stored (b, err e) = (b, err e)
last_err env stored (b, ok _) = if stored then (b, ok tt) else (b, env.stale_err)

unfoldable pub children_and_err : Env → (ℕ → ℕ → Action) → ℕ → Bool → Action
children_and_err env process self visited b =
    last_err env (visited || not ((inode_of b self).content.count == 0))
      (process_children env process self b)

-- `process_dinode_dir_extents`
unfoldable pub process_dinode_dir_extents : Env → (ℕ → ℕ → Action) → Bytes → ℕ → Action
process_dinode_dir_extents env process d self b =
    on_success
      (dir_extents env d self (di_size d) dinode_nbytes (nextents_of d)
        (set_content b self b.inodes.free (inode_of b self).content.count))
      (children_and_err env process self
        (visits_block env d (di_size d) dinode_nbytes (nextents_of d)))

-- The loop of btree_lblock_decode_leaf_records() over `n` records from an offset on.
unfoldable pub leaf_records : Env → Bytes → ℕ → ℕ → ℕ → Built → Built × Result Bool
leaf_records env m self o zero b = (b, ok true)
leaf_records env m self o (suc n) b =
    let extent = extent_record m o in
    on_valid
      (extent_blocks (fsblk_per_dblk env.sb) extent (dir_block env self) (suc extent.nblocks) 0 b)
      (leaf_records env m self (o + 16) n)

-- `btree_lblock_decode_leaf_records`
unfoldable pub btree_lblock_decode_leaf_records : Env → Bytes → ℕ → Action
btree_lblock_decode_leaf_records env m self b =
    if not (lfmt_magic m == bmap_magic)
    then (b, err einval)
    else if not (lfmt_level m == 0)
    then (b, err einval)
    else any_magic (leaf_records env m self lfmt_nbytes (lfmt_numrecs m) b)

-- `btree_lblock_decode_node_records`
unfoldable pub btree_lblock_decode_node_records : Action
btree_lblock_decode_node_records b = (b, err enosys)

-- `btree_lblock_process` behind `btree_lblock_read`
unfoldable pub process_lblock : Env → ℕ → Built → Result Bytes → Built × Result (Unit {0})
process_lblock env self b (err e) = (b, err e)
process_lblock env self b (ok buf) =
    let m = copied 0 env.sb.blocksize buf in
    if lfmt_level m == 0
    then btree_lblock_decode_leaf_records env m self b
    else btree_lblock_decode_node_records b

-- `btree_lblock_process`
unfoldable pub btree_lblock_process : Env → ℕ → ℕ → Action
btree_lblock_process env self fsbno b =
    process_lblock env self b (dev_read env.dev env.sb.blocksize (fsbno_offset xfs env.sb fsbno))

-- `process_dinode_dir_btree_root`. The level and the number of records are read from one address.
unfoldable pub process_dinode_dir_btree_root : Env → (ℕ → ℕ → Action) → Bytes → ℕ → Action
process_dinode_dir_btree_root env process d self b =
    let level = be16 d dinode_nbytes in
    let numrecs = be16 d dinode_nbytes in
    if level == 0
    then (b, err einval)
    else if not ((inode_of b self).content.count == 0)
    then (b, err einval)
    else on_success
        (each_pointer d (btree_lblock_process env self) (btree_dinode_meta env.sb d).2 numrecs
          (set_content b self b.inodes.free 0))
        (process_children env process self)
