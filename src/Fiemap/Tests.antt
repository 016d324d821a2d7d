-- ===== src/Fiemap/Tests.antt =====
-- A mount at "/m" with the file "a", of one extent, and a symlink "s" (src/xal_be_fiemap.c), indexed with
-- snapshots and a watch; and the lookups on the index that the readers share.
use xal.Base.{
  ℕ, zero, suc, ◌+◌, ◌%◌, ◌^◌, ◌<◌, ◌≡◌, refl, Bool, true, false, Option, none, some, List, [], ◌∷◌,
  ◌++◌, Result, ok, err, enoent, arith, ◌==◌, if◌then◌else◌, u32_mod, length,
}
use xal.Model.{Sb, blank_inode}
use xal.Sync.{clean, dirty, is_dirty, bump_seq, mark_index_done}
use xal.Pool.{Pool, claim_inodes, claim_extents, make_room, clear}
use xal.Pool.Valid.{IsValid}
use xal.Build.State.{store, load, set_inode, set_content, add_count}
use xal.Build.Index.{clear_pools, errno, blank_extent}
use xal.Path.{inode_path, assemble, append_name, copy_name, root_slash, check_seq}
use xal.Reader.{still}
use xal.Reader.Sample.{sample_seen, sample_pools, b_name, c_name}
use xal.Lookup.{same_name, strip_prefix, at_boundary, path_under_basepath}
use xal.Lookup.Children.Names.{first_match}
use xal.Lookup.Find.{IsPublished}
use xal.Fiemap.State.{
  Bytes, Khash, Stat, Statx, Dirent, FiemapExtent, Fiemap, FsEnv, Progress, Target, origin, clone,
  is_directory_member, foreign_entry, is_skipped, check_root, is_snapshot_name, is_some, retry_on,
  put_path, path_map_insert, insert_into, insert_path, go_on, strip_trailing_slashes, stripped_len,
}
use xal.Fiemap.Mapping.{
  retried, fiemap_ioctl, whole_or, read_counted, read_attempts, read_fiemap, has_no_address,
  fiemap_extent_flag, fiemap_attempts,
}
use xal.Fiemap.Mapping.Complete.{
  kernel, listed, IsFlagged, whole_mapping, first_extents, read_fiemap-whole_mapping,
}
use xal.Fiemap.Index.{Handle, fiemap_index, walk_root}
use xal.Fiemap.Kept.Files.{IsSane}
use xal.Fiemap.Kept.Root.{IsResting, unless_empty, fiemap_index-IsResting}
use xal.Fiemap.Paths.{
  path_of, hash_children, hash_dir, hash_path, build_hashmap_walk, keep_map, fill_map,
  build_lookup_hashmap, get_inode_mounted,
}
use xal.Fiemap.Paths.Keys.{IsKhash}
use xal.Fiemap.Paths.Complete.{Below, itself, under}
use xal.Fiemap.Paths.RoundTrip.{get_inode-inode_path}

abbrev pub table_get : List (Bytes × ℕ) → Bytes → Option ℕ
table_get [] path = none
table_get (e ∷ es) path =
    let rest = table_get es path in if same_name e.0 path then some e.1 else rest

abbrev table : Khash Bytes ℕ (List (Bytes × ℕ))
table = record { empty = []; put = λ m path i. some ((path, i) ∷ m); get = table_get }

table-IsKhash : IsKhash table
table-IsKhash = record { get_empty = λ p. refl; get_put = put_then_get }
  where
    put_then_get :
        (m : List (Bytes × ℕ)) (p : Bytes) (i : ℕ) {m' : List (Bytes × ℕ)}
        → some ((p, i) ∷ m) ≡ some m'
        → (q : Bytes) → table_get m' q ≡ (if same_name p q then some i else table_get m q)
    put_then_get m p i {m'} e q = let same : ((p, i) ∷ m) ≡ m' = cc in rw (← same) refl

abbrev mount : Bytes
mount = b'/' ∷ b'm' ∷ []

abbrev file_path : Bytes
file_path = b'/' ∷ b'm' ∷ b'/' ∷ b'a' ∷ []

abbrev one_extent : FiemapExtent
one_extent = record { fe_logical = 0; fe_physical = 65536; fe_length = 4096; fe_flags = 0x801 }

abbrev small_sb : Sb
small_sb = record {
  blocksize = 4096;
  sectsize = 512;
  inodesize = 0;
  inopblock = 0;
  inopblog = 0;
  icount = 0;
  nallocated = 0;
  rootino = 64;
  agblocks = 0;
  agblklog = 0;
  agcount = 0;
  dirblocksize = 0;
  lba_blksze = 512;
}

-- Modes: a directory, a regular file, a symlink.
abbrev dir_stat : Stat
dir_stat = record { mode = 0x4000; dev = 1; ino = 64 }

abbrev file_stat : Stat
file_stat = record { mode = 0x8000; dev = 1; ino = 65 }

abbrev listing : List Dirent
listing =
    record { d_name = b'.' ∷ []; d_type = 4 }
    ∷ record { d_name = b's' ∷ []; d_type = 10 }
    ∷ record { d_name = b'a' ∷ []; d_type = 8 }
    ∷ []

abbrev small : FsEnv (List (Bytes × ℕ)) (List (ℕ × ℕ))
small = record {
  sb = small_sb;
  mountpoint = mount;
  subtree = none;
  watched = true;
  reflink = true;
  paths = table;
  watches = record { empty = []; put = λ m wd i. some ((wd, i) ∷ m); get = λ m wd. none };
  inodes_mprotect = λ _. none;
  extents_mprotect = λ _. none;
  qsort = λ xs. xs;
  lstat = λ path. ok dir_stat;
  statx = λ path.
      if same_name path mount
      then ok (record { mount_root = false; mode = 0x4000; ino = 64; size = 0 })
      else ok (record { mount_root = false; mode = 0x8000; ino = 65; size = 4096 });
  entry_statx = λ dir name. err enoent;
  add_watch = λ path. ok 1;
  opendir = λ path. ok listing;
  no_memory = λ path n. false;
  open_file = λ path. none;
  fstat = λ path. ok file_stat;
  malloc = λ path. none;
  realloc = λ t n. none;
  fiemap = λ t. kernel (λ k. one_extent ∷ []);
  strdup = λ path. none;
  shadow_dir = mount;
  opendir_mountpoint = λ path. none;
  shadow_truncated = λ path. false;
  opendir_shadow = λ path. none;
  purge_unlink = λ ino gen. none;
  mkdir = λ path. none;
  truncated = λ ino gen. false;
  getversion = λ path. ok 7;
  open_clone = λ ino gen. none;
  reopen_clone = λ ino gen. none;
  ficlone = λ ino gen. none;
  set_immutable = λ ino gen. none;
  unlink_clone = λ ino gen. none;
  drain = ok tt;
}

abbrev empty : {A : Type 0} → A → Pool A
empty z = record {
  reserved = 64;
  allocated = 4;
  growby = 4;
  free = 0;
  element_size = 320;
  shm_name = none;
  memory = some (λ _. z);
}

empty-IsValid : {A : Type 0} (z : A) → IsValid (empty z)
empty-IsValid z = record {
  free-le = omega arith;
  allocated-le = omega arith;
  growby-le = omega arith;
  small = omega arith;
  bytes = omega arith;
  indexed = omega arith;
}

abbrev no_progress : Progress (List (Bytes × ℕ)) (List (ℕ × ℕ))
no_progress = record {
  built = record { inodes = empty blank_inode; extents = empty blank_extent };
  path_inode_map = some [];
  inode_map = [];
  dir_created = false;
  clones = (9, 9) ∷ [];
  mapped = [];
}

abbrev fresh : Handle (List (Bytes × ℕ)) (List (ℕ × ℕ))
fresh = record {
  words = record { index_state = dirty; seq_lock = 6 };
  progress = no_progress;
  root_idx = 0xffff_ffff;
}

small-IsSane : IsSane small
unfolding kernel
small-IsSane = record { counts = few_extents; entries = few_entries }
  where
    few_extents :
        (t : Target) (k : ℕ) (sync : Bool) (c : ℕ) {f : Fiemap}
        → small.fiemap t k sync c ≡ ok f
        → f.mapped_extents < 2 ^ 32
    few_extents t k sync zero {f} e = ground (arith, e)
    few_extents t k sync (suc c) {f} e = ground (arith, e)

    few_entries : (path : Bytes) {l : List Dirent} → small.opendir path ≡ ok l → length l < 2 ^ 63
    few_entries path {l} e = let same : listing ≡ l = cc in rw (← same) (omega arith)

fresh-IsResting : IsResting small fresh
fresh-IsResting = record {
  kept = record {
    pools = (empty-IsValid blank_inode, empty-IsValid blank_extent);
    pinned = λ _. tt;
    before = λ _ _. refl;
  };
  even = refl;
}

fiemap_index-IsResting_example :
    let (h, r) = fiemap_index small 3 fresh in
    IsResting small h
    × (h.words.index_state ≡ unless_empty mount dirty (if errno r == 0 then clean else dirty))
    × (h.words.seq_lock ≡ unless_empty mount 6 ((6 + 2) % u32_mod))
fiemap_index-IsResting_example = fiemap_index-IsResting small small-IsSane 3 fresh fresh-IsResting

-- A mapping that grows between the first count and its read.
abbrev history : ℕ → List FiemapExtent
history zero = one_extent ∷ []
history (suc k) = record one_extent { fe_flags = 0x800 } ∷ one_extent ∷ []

history-IsFlagged : (k : ℕ) → IsFlagged (history k)
history-IsFlagged zero zero h = refl
history-IsFlagged zero (suc i) h = absurd (omega (arith, h))
history-IsFlagged (suc k) zero h = refl
history-IsFlagged (suc k) (suc zero) h = refl
history-IsFlagged (suc k) (suc (suc i)) h = absurd (omega (arith, h))

read_fiemap-whole_mapping_example :
    listed (read_fiemap (kernel history) (λ _. none)) ≡ whole_mapping history fiemap_attempts 0
read_fiemap-whole_mapping_example = read_fiemap-whole_mapping history history-IsFlagged

reads_again : listed (read_fiemap (kernel history) (λ _. none)) ≡ ok (history 3)
unfolding read_fiemap kernel read_attempts read_counted whole_or fiemap_ioctl retried first_extents
reads_again = refl

sample-IsPublished : IsPublished sample_seen
unfolding is_dirty
sample-IsPublished = record {
  clean = refl;
  even = refl;
  rooted = λ e. omega (arith, e);
  root_in_pool = omega arith;
}

abbrev c_path : Bytes
c_path = b'/' ∷ b'm' ∷ b'/' ∷ b'b' ∷ b'/' ∷ b'c' ∷ []

c_path_lem : path_of small sample_seen 3 ≡ ok c_path
unfolding inode_path assemble append_name copy_name root_slash check_seq is_dirty walk_root
c_path_lem = refl

hash_works : (build_lookup_hashmap small sample_seen 5 none no_progress).1 ≡ ok tt
unfolding inode_path assemble append_name copy_name root_slash check_seq is_dirty walk_root
    build_lookup_hashmap fill_map keep_map build_hashmap_walk hash_path hash_dir hash_children
    insert_path insert_into path_map_insert put_path go_on
hash_works = refl

c-Below : Below sample_pools 0 3
c-Below = under 0 1 3 refl (omega arith) (under 2 0 3 refl (omega arith) (itself 3))

behind_mount : path_under_basepath c_path (walk_root small) ≡ some (b'/' ∷ b_name ++ b'/' ∷ c_name)
unfolding path_under_basepath strip_prefix at_boundary walk_root
behind_mount = refl

get_inode-inode_path_example :
    let map = (build_lookup_hashmap small sample_seen 5 none no_progress).0.path_inode_map in
    (k : ℕ) × ((get_inode_mounted small first_match (still sample_seen) map c_path).1 ≡ ok k)
    × (path_of small sample_seen k ≡ ok c_path)
get_inode-inode_path_example =
    get_inode-inode_path small table-IsKhash sample_seen first_match 5 none no_progress 3 b'/' b'b'
      (b'/' ∷ c_name) c_path sample-IsPublished hash_works c-Below c_path_lem behind_mount

-- The index of the mount: its root has one child, the file, with one extent, unwritten, read from a new
-- clone, and the clone from before is gone.
abbrev indexed : Handle (List (Bytes × ℕ)) (List (ℕ × ℕ)) × Result (Unit {0})
indexed = fiemap_index small 3 fresh

abbrev summary : Result (Unit {0}) × List (ℕ × ℕ) × List Target × ℕ × ℕ
summary = (
  indexed.1, indexed.0.progress.clones, indexed.0.progress.mapped,
  indexed.0.progress.built.inodes.free, indexed.0.progress.built.extents.free,
)

-- The index has the root and one child, the file, with one extent, which was read from a new clone; the clone
-- of the index before is gone.
indexes_mount : summary ≡ (ok tt, (65, 7) ∷ [], clone 65 7 ∷ [], 2, 1)
unfolding fiemap_index xal.Fiemap.Index.index_mounted xal.Fiemap.Index.end_index
    xal.Fiemap.Index.run_index check_root xal.Fiemap.Index.with_subtree xal.Fiemap.Index.drained
    xal.Fiemap.Index.walk_tree claim_inodes xal.Fiemap.Index.clear_index clear_pools clear make_room
    xal.Fiemap.Visit.process_ino_fiemap xal.Fiemap.Visit.process_found same_name walk_root load
    add_count set_content set_inode store xal.Fiemap.Index.blank_root xal.Fiemap.Index.new_snapshot
    xal.Fiemap.Index.path_map_clear fiemap_extent_flag fiemap_ioctl has_no_address read_attempts
    read_counted read_fiemap retried whole_or xal.Fiemap.Shadow.clone_prepared
    xal.Fiemap.Shadow.fail_created xal.Fiemap.Shadow.fill_clone xal.Fiemap.Shadow.has_clone
    xal.Fiemap.Shadow.name_clone xal.Fiemap.Shadow.create_clone xal.Fiemap.Shadow.purged
    xal.Fiemap.Shadow.reflink_clone_file xal.Fiemap.Shadow.reflink_dir_prepare
    xal.Fiemap.Shadow.reflink_dir_purge xal.Fiemap.Shadow.reflink_sweep_orphans
    xal.Fiemap.State.check_subtree foreign_entry go_on insert_into insert_path is_directory_member
    is_skipped is_snapshot_name is_some path_map_insert put_path retry_on xal.Fiemap.State.same_dev
    xal.Fiemap.Visit.add_watcher xal.Fiemap.Visit.claim_entries xal.Fiemap.Visit.cons_ok
    xal.Fiemap.Visit.count_dentry xal.Fiemap.Visit.is_listed xal.Fiemap.Visit.keep_mapping
    xal.Fiemap.Visit.map_opened xal.Fiemap.Visit.map_target xal.Fiemap.Visit.name_dentry
    xal.Fiemap.Visit.process_as xal.Fiemap.Visit.process_entries xal.Fiemap.Visit.process_inode_dir
    xal.Fiemap.Visit.process_inode_file xal.Fiemap.Visit.process_names
    xal.Fiemap.Visit.process_opened xal.Fiemap.Visit.read_names xal.Fiemap.Visit.store_extents
    xal.Fiemap.Visit.store_mapping xal.Fiemap.Visit.type_of strip_prefix claim_extents bump_seq
    mark_index_done kernel
indexes_mount = refl
