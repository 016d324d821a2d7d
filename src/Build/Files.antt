-- ===== src/Build/Files.antt =====
-- The extents of a regular file (src/xal_be_xfs.c): inline in the dinode, or in a B+tree.
pub mod Height
use xal.Base.{
  ℕ, zero, suc, ◌+◌, ◌-◌, ◌*◌, ◌/◌, ◌%◌, ◌^◌, Bool, true, false, Option, none, some, List, [], ◌∷◌,
  Result, ok, err, einval, ltb, ◌==◌, ◌&&◌, ◌||◌, not, if◌then◌else◌, add64, sub64, mul64, u32_mod,
  too_deep,
}
use xal.Model.{Sb, Inode, Extent, xfs}
use xal.Pool.{Pool, claim_extents}
use xal.Extent.{fsbno_offset, decode_xfs_extent}
use xal.Disk.{
  Bytes, be16, be32, be64, dinode_nbytes, di_nextents, di_big_nextents, lfmt_nbytes, lfmt_magic,
  lfmt_level, lfmt_numrecs, bmap_magic, btree_dinode_meta, btree_lblock_meta, dev_read,
}
use xal.Build.State.{Env, Built, on_success, store, inode_of, set_content, add_count, Action}

-- The packed extent at an offset.
abbrev pub extent_record : Bytes → ℕ → Extent
extent_record m o = decode_xfs_extent (be64 m o) (be64 m (o + 8))

-- The loop that decodes `n` records from an offset on into the pool from an index on.
unfoldable pub decode_records : Bytes → ℕ → ℕ → ℕ → Pool Extent → Pool Extent
decode_records m o i zero p = p
decode_records m o i (suc n) p = decode_records m (o + 16) (i + 1) n (store p i (extent_record m o))

-- The part of process_dinode_file_extents() behind the claim.
unfoldable pub store_extents :
    Bytes → ℕ → ℕ → Built → Pool Extent × Result ℕ → Built × Result (Unit {0})
store_extents d self n b (p, err e) = (record b { extents = p }, err e)
store_extents d self n b (p, ok i) =
    (set_content (record b { extents = decode_records d dinode_nbytes i n p }) self i n, ok tt)

-- The count of a dinode's extents: whichever field has one.
unfoldable pub nextents_of : Bytes → ℕ
nextents_of d = if di_nextents d == 0 then di_big_nextents d else di_nextents d

-- `process_dinode_file_extents`
unfoldable pub process_dinode_file_extents : Env → Bytes → ℕ → Action
process_dinode_file_extents env d self b =
    store_extents d self (nextents_of d) b
      (claim_extents env.extents_mprotect b.extents (nextents_of d))

-- The part of process_file_btree_leaf() behind the claim. The records follow the header in the buffer.
unfoldable pub store_leaf :
    Bytes → ℕ → ℕ → Built → Pool Extent × Result ℕ → Built × Result (Unit {0})
store_leaf buf self n b (p, err e) = (record b { extents = p }, err e)
store_leaf buf self n b (p, ok i) =
    (add_count (record b { extents = decode_records buf lfmt_nbytes i n p }) self n, ok tt)

-- The part of process_file_btree_leaf() behind the read.
unfoldable pub process_leaf_block : Env → ℕ → Built → Result Bytes → Built × Result (Unit {0})
process_leaf_block env self b (err e) = (b, err e)
process_leaf_block env self b (ok buf) =
    if not (lfmt_magic buf == bmap_magic)
    then (b, err einval)
    else if not (lfmt_level buf == 0)
    then (b, err einval)
    else store_leaf buf self (lfmt_numrecs buf) b
        (claim_extents env.extents_mprotect b.extents (lfmt_numrecs buf))

-- `process_file_btree_leaf`
unfoldable pub process_file_btree_leaf : Env → ℕ → ℕ → Action
process_file_btree_leaf env fsbno self b =
    process_leaf_block env self b
      (dev_read env.dev env.sb.blocksize (fsbno_offset xfs env.sb fsbno))

-- The loop over `n` block pointers from an offset on; `visit` is called on each.
unfoldable pub each_pointer : Bytes → (ℕ → Action) → ℕ → ℕ → Action
each_pointer m visit o zero b = (b, ok tt)
each_pointer m visit o (suc n) b = on_success (visit (be64 m o) b) (each_pointer m visit (o + 8) n)

-- ODF_BLOCK_FS_BYTES_MAX
abbrev pub block_fs_bytes_max : ℕ
block_fs_bytes_max = 64 * 1024

-- The array `pointers` of process_file_btree_node(): zero behind what was copied out of the block.
abbrev pub copied : ℕ → ℕ → Bytes → Bytes
copied from n m o = if ltb o n then m (from + o) else 0

-- The part of process_file_btree_node() behind the read.
unfoldable pub process_node_block :
    Env → (ℕ → Action) → (ℕ → Action) → Built → Result Bytes → Built × Result (Unit {0})
process_node_block env leaf node b (err e) = (b, err e)
process_node_block env leaf node b (ok buf) =
    let ofz = (btree_lblock_meta env.sb).2 in
    let pointers = copied ofz (sub64 env.sb.blocksize ofz) buf in
    if not (lfmt_magic buf == bmap_magic)
    then (b, err einval)
    else if lfmt_level buf == 0
    then (b, err einval)
    else if lfmt_level buf == 1
    then each_pointer pointers leaf 0 (lfmt_numrecs buf) b
    else each_pointer pointers node 0 (lfmt_numrecs buf) b

-- `process_file_btree_node`, with fuel for the height of the tree, which nothing in the code bounds.
unfoldable pub process_file_btree_node : ℕ → Env → ℕ → ℕ → Action
process_file_btree_node zero env self fsbno b = (b, err too_deep)
process_file_btree_node (suc fuel) env self fsbno b =
    let node = process_file_btree_node fuel env self in
    if ltb block_fs_bytes_max env.sb.blocksize
    then (b, err einval)
    else process_node_block env (λ ptr. process_file_btree_leaf env ptr self) node b
        (dev_read env.dev env.sb.blocksize (fsbno_offset xfs env.sb fsbno))

-- `process_dinode_file_btree_root`
unfoldable pub process_dinode_file_btree_root : ℕ → Env → Bytes → ℕ → Action
process_dinode_file_btree_root fuel env d self b =
    let level = be16 d dinode_nbytes in
    let numrecs = be16 d (dinode_nbytes + 2) in
    let ofz_ptr = (btree_dinode_meta env.sb d).2 in
    let start = set_content b self b.extents.free 0 in
    if level == 0
    then (b, err einval)
    else if not ((inode_of b self).content.count == 0)
    then (b, err einval)
    else if level == 1
    then each_pointer d (λ ptr. process_file_btree_leaf env ptr self) ofz_ptr numrecs start
    else each_pointer d (process_file_btree_node fuel env self) ofz_ptr numrecs start
