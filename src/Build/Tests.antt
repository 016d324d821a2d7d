-- ===== src/Build/Tests.antt =====
-- A build of src/xal_be_xfs.c from a small disk: "/" in short form, with the file "a" of one inline extent;
-- and blocks of B+trees.
use xal.Base.{
  Result, [], ◌∷◌, ℕ, ◌^◌, ◌<◌, ◌≡◌, ◌⊎◌, ◌*◌, refl, sym, true, some, none, ok, err, arith, ◌==◌,
  if◌then◌else◌, Bool-cases, inl, inr, too_deep,
}
use mathlib.Core.Path.{subst}
use xal.Model.{Sb, blank_inode}
use xal.Sync.{clean, dirty, bump_seq, mark_index_done}
use xal.Pool.{Pool, claim_inodes, claim_extents, make_room, clear}
use xal.Pool.Valid.{IsValid}
use xal.Extent.{fsbno_offset, decode_xfs_extent}
use xal.Disk.{
  Bytes, lfmt_level, lfmt_numrecs, dev_read, btree_lblock_meta, bytes_at, decode_dentry,
  ino_abs_to_rel, ino_decode_relative, ino_decode_absolute, ino_decode_absolute_offset,
  btree_dinode_meta,
}
use xal.Build.State.{
  Env, on_success, store, load, set_inode, set_content, add_count, dinodes_get, type_of_mode,
  skip_type, should_skip, inode_of,
}
use xal.Build.Files.{
  nextents_of, process_file_btree_node, decode_records, store_extents, process_dinode_file_extents,
  store_leaf, process_leaf_block, process_file_btree_leaf, each_pointer, process_node_block,
  process_dinode_file_btree_root,
}
use xal.Build.Files.Height.{block_at, pointer, IsTree, IsBelow, btree_node-fuel, btree_node-cycle}
use xal.Build.Dirs.{
  block_dentries, store_dentry, keep_dentry, short_dentry, short_dentries, load_range, store_range,
  sort_children, each_child, process_children, with_parent, process_dinode_dir_local, is_dots,
  was_read, read_block_dentries, dir_block, any_magic, process_dinode_dir_extents_dblock, on_valid,
  extent_blocks, dir_extents, visits_block, last_err, children_and_err, process_dinode_dir_extents,
  leaf_records, btree_lblock_decode_leaf_records, btree_lblock_decode_node_records, process_lblock,
  btree_lblock_process, process_dinode_dir_btree_root,
}
use xal.Build.Dirs.Ends.{block_dentries-fuel}
use xal.Build.Index.{
  Handle, xfs_index, errno, blank_extent, known_type, process_format, process_typed, process_found,
  process_ino, blank_root, build_root, end_build, clear_pools,
}
use xal.Build.Pools.Extents.{IsSane}
use xal.Build.Pools.Root.{IsResting, xfs_index-IsResting}

abbrev root_dinode : Bytes
root_dinode o =
    if o == 2
    then 0x40
    else if o == 5
    then 1
    else if o == 159
    then 128
    else if o == 176
    then 1
    else if o == 182
    then 1
    else if o == 185
    then b'a'
    else if o == 186
    then 1
    else if o == 190
    then 131
    else 0

abbrev file_dinode : Bytes
file_dinode o =
    if o == 2
    then 0x80
    else if o == 5
    then 2
    else if o == 79
    then 1
    else if o == 159
    then 131
    else if o == 188
    then 2
    else if o == 191
    then 2
    else 0

-- The block of a B+tree node of a level, with one pointer, to block 261.
abbrev node_bytes : ℕ → Bytes
node_bytes level o =
    if o == 0
    then 0x42
    else if o == 1
    then 0x4d
    else if o == 2
    then 0x41
    else if o == 3
    then 0x33
    else if o == 5
    then level
    else if o == 7
    then 1
    else if o == 2086
    then 1
    else if o == 2087
    then 5
    else 0

abbrev disk_sb : Sb
disk_sb = record {
  blocksize = 4096;
  sectsize = 512;
  inodesize = 512;
  inopblock = 8;
  inopblog = 3;
  icount = 64;
  nallocated = 64;
  rootino = 128;
  agblocks = 100;
  agblklog = 7;
  agcount = 4;
  dirblocksize = 4096;
  lba_blksze = 512;
}

-- The disk, every block of which is a node of a level.
abbrev disk : ℕ → Env
disk level = record {
  sb = disk_sb;
  dinodes =
      λ ino. if ino == 128 then some root_dinode else if ino == 131 then some file_dinode else none;
  dev = record { mdts_nbytes = 65536; lba_nbytes = 512; nvm_read = λ _ _. some (node_bytes level) };
  inodes_mprotect = λ _. none;
  extents_mprotect = λ _. none;
  qsort = λ xs. xs;
  stale_err = ok tt;
}

abbrev empty : {A : Type 0} → A → Pool A
empty z = record {
  reserved = 64;
  allocated = 4;
  growby = 4;
  free = 0;
  element_size = 320;
  shm_name = none;
  memory = some (λ _. z);
}

empty-IsValid : {A : Type 0} (z : A) → IsValid (empty z)
empty-IsValid z = record {
  free-le = omega arith;
  allocated-le = omega arith;
  growby-le = omega arith;
  small = omega arith;
  bytes = omega arith;
  indexed = omega arith;
}

abbrev opened : Handle
opened = record {
  words = record { index_state = dirty; seq_lock = 6 };
  built = record { inodes = empty blank_inode; extents = empty blank_extent };
  root_idx = 0xffff_ffff;
  has_dinodes = true;
}

opened-IsResting : IsResting opened
opened-IsResting = record {
  pools = (empty-IsValid blank_inode, empty-IsValid blank_extent);
  even = refl;
}

disk-IsSane : IsSane (disk 2)
unfolding nextents_of
disk-IsSane = record { bytes = sane_bytes; counts = sane_counts }
  where
    sane_bytes : (slba nlb : ℕ) {m : Bytes} → some (node_bytes 2) ≡ some m → (o : ℕ) → m o < 256
    sane_bytes slba nlb {m} e o =
        let same : node_bytes 2 ≡ m = cc in subst (λ (f : Bytes). f o < 256) same (ground arith)

    sane_counts : (ino : ℕ) {d : Bytes} → (disk 2).dinodes ino ≡ some d → nextents_of d < 2 ^ 63
    sane_counts ino {d} e = elim (Bool-cases (ino == 128)) [
      | inl root ↦
          let same : root_dinode ≡ d = cc (rw root at e) in
          subst (λ (f : Bytes). nextents_of f < 2 ^ 63) same (omega arith)
      | inr other ↦ elim (Bool-cases (ino == 131)) [
        | inl file ↦
            let same : file_dinode ≡ d = cc (rw (other, file) at e) in
            subst (λ (f : Bytes). nextents_of f < 2 ^ 63) same (omega arith)
        | inr none_of_both ↦ absurd (cc (rw (other, none_of_both) at e))
      ]
    ]

xfs_index-IsResting_example :
    let (h, r) = xfs_index 3 3 (disk 2) opened in
    IsResting h
    × (h.words.index_state ≡ (if errno r == 0 then clean else dirty))
    × (h.words.seq_lock ≡ 8)
xfs_index-IsResting_example =
    xfs_index-IsResting 3 3 (disk 2) opened disk-IsSane opened-IsResting refl

block_dentries-fuel_example :
    block_dentries (disk 2) 0 (node_bytes 2) 4097 64 opened.built
    ≡ block_dentries (disk 2) 0 (node_bytes 2) 9999 64 opened.built
block_dentries-fuel_example =
    block_dentries-fuel (disk 2) 0 (node_bytes 2) 4097 9999 64 opened.built small (omega arith)
      (omega arith) (omega arith) (omega arith)
  where
    small : (i : ℕ) → node_bytes 2 i < 256
    small i = ground arith

reads_node : (level ptr : ℕ) → ptr ≡ 261 → block_at (disk level) ptr ≡ ok (node_bytes level)
unfolding dev_read fsbno_offset
reads_node level ptr e = rw e refl

-- The disk with a node of level two in block 262, which points to one of level one in block 261.
abbrev two_levels : Env
two_levels = record (disk 1) {
  dev = record {
    mdts_nbytes = 65536;
    lba_nbytes = 512;
    nvm_read = λ slba _. some (if slba == 1648 then node_bytes 2 else node_bytes 1);
  };
}

reads_upper : block_at two_levels 262 ≡ ok (node_bytes 2)
unfolding dev_read fsbno_offset
reads_upper = refl

reads_lower : block_at two_levels 261 ≡ ok (node_bytes 1)
unfolding dev_read fsbno_offset
reads_lower = refl

abbrev IsNode : ℕ → Type 0
IsNode ptr = (ptr ≡ 262) ⊎ (ptr ≡ 261)

-- What a node of level two or more is, and where it points to.
upper_node :
    (ptr : ℕ) (buf : Bytes)
    → IsNode ptr
    → block_at two_levels ptr ≡ ok buf
    → 1 < lfmt_level buf
    → node_bytes 2 ≡ buf
upper_node ptr buf (inl e) at up = cc (at, reads_upper)
upper_node ptr buf (inr e) at up =
    let same : node_bytes 1 ≡ buf = cc (at, reads_lower) in
    absurd (omega (arith, subst (λ (f : Bytes). 1 < lfmt_level f) (sym same) up))

points_lower :
    (ptr : ℕ) (buf : Bytes) (k : ℕ)
    → IsNode ptr
    → block_at two_levels ptr ≡ ok buf
    → 1 < lfmt_level buf
    → k < lfmt_numrecs buf
    → pointer two_levels buf (k * 8) ≡ 261
unfolding btree_lblock_meta
points_lower ptr buf k node at up lt =
    let same : node_bytes 2 ≡ buf = upper_node ptr buf node at up in
    let one : k < 1 = subst (λ (f : Bytes). k < lfmt_numrecs f) (sym same) lt in
    let first : 0 ≡ k * 8 = omega (arith, one) in
    subst (λ (f : Bytes). pointer two_levels f (k * 8) ≡ 261) same
      (subst (λ o. pointer two_levels (node_bytes 2) o ≡ 261) first refl)

two_levels-IsTree : IsTree two_levels IsNode
two_levels-IsTree = record {
  closed = λ ptr buf k node at magic up lt. inr (points_lower ptr buf k node at up lt);
  falls = λ ptr buf k below node at magic up lt under magic_below.
      let lower : node_bytes 1 ≡ below =
        cc (rw (points_lower ptr buf k node at up lt) at under, reads_lower) in
      let upper : node_bytes 2 ≡ buf = upper_node ptr buf node at up in
      subst (λ (f : Bytes). lfmt_level below < lfmt_level f) upper
        (subst (λ (f : Bytes). lfmt_level f < 2) lower (omega arith));
}

level_two : (h : ℕ) → 2 < h → IsBelow two_levels h 262
level_two h lt buf at magic =
    let same : node_bytes 2 ≡ buf = cc (at, reads_upper) in
    subst (λ (f : Bytes). lfmt_level f < h) same lt

btree_node-fuel_example :
    process_file_btree_node 3 two_levels 2 262 opened.built
    ≡ process_file_btree_node 65536 two_levels 2 262 opened.built
btree_node-fuel_example =
    btree_node-fuel two_levels IsNode 3 65536 2 262 opened.built two_levels-IsTree (inl refl)
      (omega arith) (omega arith) (level_two 3 (omega arith)) (level_two 65536 (omega arith))

own_pointer : pointer (disk 2) (node_bytes 2) 0 ≡ 261
unfolding btree_lblock_meta
own_pointer = refl

btree_node-cycle_example :
    process_file_btree_node 50 (disk 2) 2 261 opened.built ≡ (opened.built, err too_deep)
btree_node-cycle_example =
    btree_node-cycle 50 (disk 2) 2 261 opened.built (node_bytes 2) (omega arith)
      (reads_node 2 261 refl) refl (omega arith) (omega arith) own_pointer

abbrev handed_over : Handle × Result (Unit {0})
handed_over = xfs_index 3 3 (disk 2) opened

-- The build succeeds with "/" and "a" in the pool and one extent for "a".
builds :
    (handed_over.1 ≡ ok tt)
    × (handed_over.0.built.inodes.free ≡ 2)
    × ((inode_of handed_over.0.built 1).name ≡ b'a' ∷ [])
    × ((inode_of handed_over.0.built 1).parent_idx ≡ 0)
    × (load handed_over.0.built.extents 0 blank_extent
        ≡ record { start_offset = 0; start_block = 16; nblocks = 2; flag = 0 })
unfolding on_success store load set_inode set_content add_count dinodes_get type_of_mode skip_type
    should_skip decode_records store_extents nextents_of process_dinode_file_extents store_leaf
    process_leaf_block process_file_btree_leaf each_pointer process_node_block
    process_file_btree_node process_dinode_file_btree_root store_dentry keep_dentry short_dentry
    short_dentries load_range store_range sort_children each_child process_children with_parent
    process_dinode_dir_local is_dots block_dentries was_read read_block_dentries dir_block any_magic
    process_dinode_dir_extents_dblock on_valid extent_blocks dir_extents visits_block last_err
    children_and_err process_dinode_dir_extents leaf_records btree_lblock_decode_leaf_records
    btree_lblock_decode_node_records process_lblock btree_lblock_process
    process_dinode_dir_btree_root known_type process_format process_typed process_found process_ino
    blank_root build_root end_build clear_pools xfs_index bytes_at decode_dentry ino_abs_to_rel
    ino_decode_relative ino_decode_absolute ino_decode_absolute_offset btree_dinode_meta
    btree_lblock_meta dev_read bump_seq mark_index_done decode_xfs_extent claim_inodes claim_extents
    make_room clear
builds = (refl, refl, refl, refl, refl)
