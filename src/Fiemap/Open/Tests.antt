-- ===== src/Fiemap/Open/Tests.antt =====
-- xal_be_fiemap_open() (src/xal_be_fiemap.c) with snapshots, where pthread_mutex_init() fails the second time.
use xal.Base.{◌≡◌, refl, true, none, some, [], ◌∷◌, ok}
use xal.Fiemap.State.{Bytes, strip_trailing_slashes, stripped_len}
use xal.Fiemap.Open.{Opts, OpenCalls, reflink_snapshot, fiemap_open}
use xal.Fiemap.Open.Releases.{Settled, fiemap_open-Settled}

abbrev calls : OpenCalls
calls = record {
  calloc = none;
  calloc_mountpoint = none;
  lstat = λ path. ok (record { mode = 0x4000; dev = 2; ino = 64 });
  stat_root = ok (record { mode = 0x4000; dev = 1; ino = 64 });
  strdup = none;
  calloc_reflink = none;
  malloc_dir = none;
  calloc_inotify = none;
  init_lifecycle = none;
  init_index_lock = some 12;
  inotify_init1 = none;
  kh_init_watches = none;
  total_entries = λ path. ok 3;
  statfs = none;
  map_inodes = none;
  map_extents = none;
  kh_init = none;
}

abbrev options : Opts
options = record { watch_mode = reflink_snapshot; subtree = []; shm_name = none; hashmap = true }

abbrev mount : Bytes
mount = b'/' ∷ b'm' ∷ b'/' ∷ b'/' ∷ []

fiemap_open-Settled_example : Settled options (fiemap_open calls options (some mount))
fiemap_open-Settled_example = fiemap_open-Settled calls options (some mount)

strips_both : strip_trailing_slashes mount ≡ b'/' ∷ b'm' ∷ []
unfolding strip_trailing_slashes stripped_len
strips_both = refl
