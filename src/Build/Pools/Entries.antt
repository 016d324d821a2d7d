-- ===== src/Build/Pools/Entries.antt =====
-- The entries of directories (src/xal_be_xfs.c) keep the pools valid, if the processing of a child does.
use xal.Base.{
  ℕ, zero, suc, ◌+◌, Bool, true, false, List, [], ◌∷◌, Result, ok, err, arith, add64, sub64, mul64,
}
use xal.Model.{Extent, Inode}
use xal.Pool.{Pool}
use xal.Pool.Valid.{IsValid}
use xal.Disk.{
  Bytes, be16, dinode_nbytes, lfmt_nbytes, lfmt_numrecs, decode_dentry, btree_dinode_meta,
}
use xal.Build.State.{Env, Built, Action, store, set_content, should_skip}
use xal.Build.Files.{extent_record, each_pointer, copied}
use xal.Build.Dirs.{
  store_dentry, keep_dentry, short_dentry, short_dentries, store_range, sort_children, each_child,
  process_children, with_parent, process_dinode_dir_local, block_dentries, was_read,
  read_block_dentries, dir_block, any_magic, process_dinode_dir_extents_dblock, on_valid,
  extent_blocks, fsblk_per_dblk, dir_extents, last_err, children_and_err,
  process_dinode_dir_extents, leaf_records, btree_lblock_decode_leaf_records,
  btree_lblock_decode_node_records, process_lblock, btree_lblock_process,
  process_dinode_dir_btree_root,
}
use xal.Build.Pools.{
  Good, Keeps, store-IsValid, set_inode-Good, set_content-Good, add_count-Good, on_success-Good,
  inodes-IsValid,
}
use xal.Build.Pools.Extents.{each_pointer-Keeps}

store_dentry-Good :
    (self : ℕ) (dentry : Inode) (b : Built) (r : Pool Inode × Result ℕ)
    → Good b
    → IsValid r.0
    → Good (store_dentry self dentry b r).0
unfolding store_dentry
store_dentry-Good self dentry b (p, err e) g v = (v, g.1)
store_dentry-Good self dentry b (p, ok i) g v =
    add_count-Good _ self 1 (store-IsValid p i dentry v, g.1)

keep_dentry-Keeps :
    (env : Env) (self : ℕ) (dentry : Inode) (r : Result (ℕ × Bool))
    → Keeps (keep_dentry env self dentry r)
unfolding keep_dentry
keep_dentry-Keeps env self dentry (err e) b g = g
keep_dentry-Keeps env self dentry (ok (ftype, true)) b g = g
keep_dentry-Keeps env self dentry (ok (ftype, false)) b g =
    store_dentry-Good self _ b _ g (inodes-IsValid env.inodes_mprotect b.inodes 1 g.0 (omega arith))

short_dentries-Keeps :
    (env : Env) (d : Bytes) (wide : Bool) (self o n : ℕ)
    → Keeps (short_dentries env d wide self o n)
unfolding short_dentries
short_dentries-Keeps env d wide self o zero b g = g
short_dentries-Keeps env d wide self o (suc n) b g =
    on_success-Good _ _ (keep_dentry-Keeps env self _ _ b g)
      (short_dentries-Keeps env d wide self (short_dentry d wide o).0 n)

store_range-IsValid :
    (p : Pool Inode) (i : ℕ) (xs : List Inode) → IsValid p → IsValid (store_range p i xs)
unfolding store_range
store_range-IsValid p i [] v = v
store_range-IsValid p i (x ∷ xs) v =
    store_range-IsValid (store p i x) (i + 1) xs (store-IsValid p i x v)

sort_children-Good : (env : Env) (self : ℕ) (b : Built) → Good b → Good (sort_children env self b)
unfolding sort_children
sort_children-Good env self b g = (store_range-IsValid b.inodes _ _ g.0, g.1)

each_child-Keeps :
    (process : ℕ → ℕ → Action) (i n : ℕ)
    → ((ino j : ℕ) → Keeps (process ino j))
    → Keeps (each_child process i n)
unfolding each_child
each_child-Keeps process i zero k b g = g
each_child-Keeps process i (suc n) k b g =
    on_success-Good _ _ (k _ i b g) (each_child-Keeps process (i + 1) n k)

process_children-Keeps :
    (env : Env) (process : ℕ → ℕ → Action) (self : ℕ)
    → ((ino j : ℕ) → Keeps (process ino j))
    → Keeps (process_children env process self)
unfolding process_children
process_children-Keeps env process self k b g =
    each_child-Keeps process _ _ k _ (sort_children-Good env self b g)

with_parent-Keeps :
    (process : ℕ → ℕ → Action) (self ino j : ℕ)
    → Keeps (process ino j)
    → Keeps (with_parent process self ino j)
unfolding with_parent
with_parent-Keeps process self ino j k b g = k _ (set_inode-Good b j _ g)

pub dir_local-Keeps :
    (env : Env) (process : ℕ → ℕ → Action) (d : Bytes) (self : ℕ)
    → ((ino j : ℕ) → Keeps (process ino j))
    → Keeps (process_dinode_dir_local env process d self)
unfolding process_dinode_dir_local
dir_local-Keeps env process d self k b g =
    on_success-Good _ _ (short_dentries-Keeps env d _ self _ _ _ (set_content-Good b self _ _ g)) (
      process_children-Keeps env (with_parent process self) self
        (λ ino j. with_parent-Keeps process self ino j (k ino j)))

block_dentries-Keeps :
    (env : Env) (self : ℕ) (m : Bytes) (fuel o : ℕ) → Keeps (block_dentries env self m fuel o)
unfolding block_dentries
block_dentries-Keeps env self m zero o b g = g
block_dentries-Keeps env self m (suc fuel) o b g =
    let (nbytes, dentry) = decode_dentry m o in
    ground (
      arith,
      block_dentries-Keeps env self m fuel (o + nbytes) b g,
      on_success-Good
          (keep_dentry env self (record dentry { parent_idx = self }) (should_skip env dentry) b)
          (block_dentries env self m fuel (o + nbytes))
          (keep_dentry-Keeps env self (record dentry { parent_idx = self }) (should_skip env dentry)
            b g)
          (block_dentries-Keeps env self m fuel (o + nbytes)),
    )

was_read-Good : (r : Built × Result (Unit {0})) → Good r.0 → Good (was_read r).0
unfolding was_read
was_read-Good (b, err e) g = g
was_read-Good (b, ok _) g = g

any_magic-Good : (r : Built × Result Bool) → Good r.0 → Good (any_magic r).0
unfolding any_magic
any_magic-Good (b, err e) g = g
any_magic-Good (b, ok _) g = g

read_dentries-Good :
    (env : Env) (self : ℕ) (b : Built) (r : Result Bytes)
    → Good b
    → Good (read_block_dentries env self b r).0
unfolding read_block_dentries
read_dentries-Good env self b (err e) g = g
read_dentries-Good env self b (ok buf) g =
    let m = copied 0 env.sb.dirblocksize buf in
    ground (
      arith,
      was_read-Good (block_dentries env self m (suc env.sb.dirblocksize) 64 b)
          (block_dentries-Keeps env self m (suc env.sb.dirblocksize) 64 b g),
    )

dir_block-Good :
    (env : Env) (self fsbno : ℕ) (b : Built) → Good b → Good (dir_block env self fsbno b).0
unfolding dir_block
dir_block-Good env self fsbno b g = read_dentries-Good env self b _ g

dblock-Keeps :
    (env : Env) (self fsbno : ℕ) → Keeps (process_dinode_dir_extents_dblock env self fsbno)
unfolding process_dinode_dir_extents_dblock
dblock-Keeps env self fsbno b g = any_magic-Good _ (dir_block-Good env self fsbno b g)

on_valid-Good :
    (r : Built × Result Bool) (next : Built → Built × Result Bool)
    → Good r.0
    → ((b : Built) → Good b → Good (next b).0)
    → Good (on_valid r next).0
unfolding on_valid
on_valid-Good (b, err e) next g k = g
on_valid-Good (b, ok false) next g k = g
on_valid-Good (b, ok true) next g k = k b g

extent_blocks-Good :
    (per : ℕ) (e : Extent) (visit : ℕ → Built → Built × Result Bool) (fuel fsblk : ℕ) (b : Built)
    → ((fsbno : ℕ) (c : Built) → Good c → Good (visit fsbno c).0)
    → Good b
    → Good (extent_blocks per e visit fuel fsblk b).0
unfolding extent_blocks
extent_blocks-Good per e visit zero fsblk b k g = g
extent_blocks-Good per e visit (suc fuel) fsblk b k g = ground (
  arith,
  on_valid-Good (visit (add64 e.start_block fsblk) b) (extent_blocks per e visit fuel (fsblk + per))
      (k (add64 e.start_block fsblk) b g)
      (λ c. extent_blocks-Good per e visit fuel (fsblk + per) c k),
)

dir_extents-Keeps :
    (env : Env) (d : Bytes) (self nbytes o n : ℕ) → Keeps (dir_extents env d self nbytes o n)
unfolding dir_extents
dir_extents-Keeps env d self nbytes o zero b g = g
dir_extents-Keeps env d self nbytes o (suc n) b g = ground (
  arith,
  on_success-Good blocks rest (any_magic-Good _ visited)
      (dir_extents-Keeps env d self (sub64 nbytes (mul64 e.nblocks env.sb.blocksize)) (o + 16) n),
)
  where
    e : Extent
    e = extent_record d o

    visit : ℕ → Built → Built × Result Bool
    visit fsbno c = was_read (process_dinode_dir_extents_dblock env self fsbno c)

    blocks : Built × Result (Unit {0})
    blocks = any_magic (extent_blocks (fsblk_per_dblk env.sb) e visit (suc e.nblocks) 0 b)

    rest : Action
    rest = dir_extents env d self (sub64 nbytes (mul64 e.nblocks env.sb.blocksize)) (o + 16) n

    visited : Good (extent_blocks (fsblk_per_dblk env.sb) e visit (suc e.nblocks) 0 b).0
    visited =
        extent_blocks-Good (fsblk_per_dblk env.sb) e visit (suc e.nblocks) 0 b
          (λ fsbno c h. was_read-Good _ (dblock-Keeps env self fsbno c h)) g

last_err-Good :
    (env : Env) (stored : Bool) (r : Built × Result (Unit {0}))
    → Good r.0
    → Good (last_err env stored r).0
unfolding last_err
last_err-Good env stored (b, err e) g = g
last_err-Good env true (b, ok _) g = g
last_err-Good env false (b, ok _) g = g

pub dir_extents_root-Keeps :
    (env : Env) (process : ℕ → ℕ → Action) (d : Bytes) (self : ℕ)
    → ((ino j : ℕ) → Keeps (process ino j))
    → Keeps (process_dinode_dir_extents env process d self)
unfolding process_dinode_dir_extents children_and_err
dir_extents_root-Keeps env process d self k b g =
    on_success-Good _ _ (dir_extents-Keeps env d self _ _ _ _ (set_content-Good b self _ _ g))
      (λ c h. last_err-Good env _ _ (process_children-Keeps env process self k c h))

leaf_records-Good :
    (env : Env) (m : Bytes) (self o n : ℕ) (b : Built)
    → Good b
    → Good (leaf_records env m self o n b).0
unfolding leaf_records
leaf_records-Good env m self o zero b g = g
leaf_records-Good env m self o (suc n) b g =
    on_valid-Good _ _
      (extent_blocks-Good _ _ (dir_block env self) _ 0 b
        (λ fsbno c. dir_block-Good env self fsbno c) g)
      (λ c. leaf_records-Good env m self (o + 16) n c)

lblock-Good :
    (env : Env) (self : ℕ) (b : Built) (r : Result Bytes)
    → Good b
    → Good (process_lblock env self b r).0
unfolding process_lblock btree_lblock_decode_leaf_records btree_lblock_decode_node_records
lblock-Good env self b (err e) g = g
lblock-Good env self b (ok buf) g =
    let m = copied 0 env.sb.blocksize buf in
    ground (
      arith,
      any_magic-Good (leaf_records env m self lfmt_nbytes (lfmt_numrecs m) b)
          (leaf_records-Good env m self lfmt_nbytes (lfmt_numrecs m) b g),
    )

pub dir_btree-Keeps :
    (env : Env) (process : ℕ → ℕ → Action) (d : Bytes) (self : ℕ)
    → ((ino j : ℕ) → Keeps (process ino j))
    → Keeps (process_dinode_dir_btree_root env process d self)
unfolding process_dinode_dir_btree_root btree_lblock_process
dir_btree-Keeps env process d self k b g = ground (
  arith,
  on_success-Good
      (each_pointer d (btree_lblock_process env self) (btree_dinode_meta env.sb d).2
        (be16 d dinode_nbytes) (set_content b self b.inodes.free 0))
      (process_children env process self)
      (each_pointer-Keeps d (btree_lblock_process env self) (btree_dinode_meta env.sb d).2
        (be16 d dinode_nbytes) (λ ptr c. lblock-Good env self c _)
        (set_content b self b.inodes.free 0) (set_content-Good b self b.inodes.free 0 g))
      (process_children-Keeps env process self k),
)
