-- ===== src/Fiemap/Open.antt =====
-- xal_be_fiemap_open(), retrieve_total_entries() and xal_be_fiemap_close() (src/xal_be_fiemap.c), the set-up
-- and the end of the watch (src/xal_be_fiemap_inotify.c), and xal_close() (src/xal.c): what a handle
-- owns. Each call is the outcome that the system gives it.
mod Tests
pub mod Releases
use xal.Base.{
  ℕ, zero, suc, ◌+◌, Bool, true, false, List, [], ◌∷◌, Option, none, some, Result, ok, err, einval,
  enoent, too_deep, ltb, ◌==◌, ◌&&◌, ◌||◌, not, if◌then◌else◌, length,
}
use xal.Pool.{Sys}
use xal.Disk.{is_dir_mode}
use xal.Lookup.{path_under_basepath}
use xal.Fiemap.State.{
  Bytes, Stat, Statx, Dirent, dt_dir, is_directory_member, is_skipped, strip_trailing_slashes,
  check_root, check_subtree, retry_on, go_on,
}
use xal.Fiemap.Visit.{join}

-- `enum xal_watchmode`
pub data WatchMode : Type 0 where
  no_watch reflink_snapshot unknown_mode : WatchMode

-- `struct xal_opts`, as far as the backend reads it.
pub record Opts : Type 0 where
  pub watch_mode : WatchMode
  pub subtree : Bytes
  pub shm_name : Option Bytes
  pub hashmap : Bool

-- What is allocated, open or mapped; and `fault`, whether something was released that was not held.
pub record Owned : Type 0 where
  pub handle : Bool
  pub mountpoint : Bool
  pub subtree : Bool
  pub reflink : Bool
  pub reflink_dir : Bool
  pub inotify : Bool
  pub lifecycle : Bool
  pub index_lock : Bool
  pub fd : Bool
  pub wd_map : Bool
  pub inodes : Bool
  pub extents : Bool
  pub path_map : Bool
  pub fault : Bool

-- The outcomes of what xal_be_fiemap_open() calls, in its order.
pub record OpenCalls : Type 0 where
  pub calloc : Sys
  pub calloc_mountpoint : Sys
  pub lstat : Bytes → Result Stat
  pub stat_root : Result Stat
  pub strdup : Sys
  pub calloc_reflink : Sys
  pub malloc_dir : Sys
  pub calloc_inotify : Sys
  pub init_lifecycle : Sys
  pub init_index_lock : Sys
  pub inotify_init1 : Sys
  pub kh_init_watches : Sys
  pub total_entries : Bytes → Result ℕ
  pub statfs : Sys
  pub map_inodes : Sys
  pub map_extents : Sys
  pub kh_init : Sys

-- The kernel's answers to retrieve_total_entries().
pub record CountCalls : Type 0 where
  pub stat : Bytes → Result Stat
  pub opendir : Bytes → Result (List Dirent)
  pub entry_statx : Bytes → Bytes → Result Statx

unfoldable pub add_counts : Result ℕ → Result ℕ → Result ℕ
add_counts (err e) s = err e
add_counts (ok n) (err e) = err e
add_counts (ok n) (ok m) = ok (n + m)

-- The loop over the entries of a directory.
unfoldable pub count_entries :
    (Bytes → Result ℕ) → (Bytes → Result Statx) → Bytes → List Dirent → Result ℕ
count_entries visit statx path [] = ok 0
count_entries visit statx path (d ∷ ds) =
    let rest = count_entries visit statx path ds in
    if is_directory_member d.d_name && not (is_skipped statx d)
    then add_counts
        (if d.d_type == dt_dir then add_counts (ok 1) (visit (join path d.d_name)) else ok 1) rest
    else rest

unfoldable pub count_opened :
    (Bytes → Result ℕ) → (Bytes → Result Statx) → Bytes → Result (List Dirent) → Result ℕ
count_opened visit statx path (err e) = err e
count_opened visit statx path (ok l) = count_entries visit statx path l

unfoldable pub count_stat : Result ℕ → Result Stat → Result ℕ
count_stat opened (err e) = err (retry_on enoent e)
count_stat opened (ok sb) = if is_dir_mode sb.mode then opened else ok 0

-- `retrieve_total_entries`, with fuel for the depth.
unfoldable pub retrieve_total_entries : CountCalls → ℕ → Bytes → Result ℕ
retrieve_total_entries c zero path = err too_deep
retrieve_total_entries c (suc fuel) path =
    count_stat
      (count_opened (retrieve_total_entries c fuel) (c.entry_statx path) path (c.opendir path))
      (c.stat path)

abbrev Step : Type 0
Step = Owned → Owned × Result (Unit {0})

-- A call that gives something to own.
unfoldable pub acquire : Sys → (Owned → Owned) → Step
acquire none take o = (take o, ok tt)
acquire (some e) take o = (o, err e)

unfoldable pub require : {A : Type 0} → Result A → Step
require (err e) o = (o, err e)
require (ok a) o = (o, ok tt)

abbrev demand : Bool → Step
demand test o = if test then (o, ok tt) else (o, err einval)

-- The label `failed` of xal_be_fiemap_inotify_init().
unfoldable pub init_failed : Owned → Owned
init_failed o = record o { fd = false; index_lock = false; lifecycle = false }

-- `xal_be_fiemap_inotify_init` with a watch mode, by what pthread_mutex_init() answers for `lifecycle`
-- and for `index_lock`, inotify_init1() and kh_init().
unfoldable pub inotify_init : Sys → Sys → Sys → Sys → Step
inotify_init (some e) index_lock fd kh o = (o, err e)
inotify_init none (some e) fd kh o = (record o { lifecycle = false }, err e)
inotify_init none none (some e) kh o =
    (init_failed (record o { lifecycle = true; index_lock = true }), err e)
inotify_init none none none (some e) o =
    (init_failed (record o { lifecycle = true; index_lock = true; fd = true }), err einval)
inotify_init none none none none o =
    (record o { lifecycle = true; index_lock = true; fd = true; wd_map = true }, ok tt)

-- An inotify that could not be set up is freed here.
unfoldable pub keep_inotify : Owned × Result (Unit {0}) → Owned × Result (Unit {0})
keep_inotify (o, err e) = (record o { inotify = false }, err e)
keep_inotify (o, ok _) = (o, ok tt)

unfoldable pub open_watch : OpenCalls → WatchMode → Step
open_watch c no_watch o = (o, ok tt)
open_watch c unknown_mode o = (o, err einval)
open_watch c reflink_snapshot o =
    go_on
      (go_on
        (go_on (acquire c.calloc_reflink (λ p. record p { reflink = true }) o)
          (acquire c.malloc_dir (λ p. record p { reflink_dir = true })))
        (acquire c.calloc_inotify (λ p. record p { inotify = true })))
      (λ p.
        keep_inotify
          (inotify_init c.init_lifecycle c.init_index_lock c.inotify_init1 c.kh_init_watches p))

-- Whether what follows a base path is something.
unfoldable pub is_under : Option Bytes → Bool
is_under none = false
is_under (some rest) = true

unfoldable pub subtree_on : OpenCalls → Bytes → Bytes → Result Stat → Step
subtree_on c mountpoint subtree (err e) o = (o, err e)
subtree_on c mountpoint subtree (ok sb) o =
    go_on (demand (is_under (path_under_basepath subtree mountpoint)) o)
      (require (check_subtree (c.lstat subtree) sb))

unfoldable pub open_subtree : OpenCalls → Bytes → Bytes → Step
open_subtree c mountpoint [] o = (o, ok tt)
open_subtree c mountpoint (s ∷ subtree) o =
    go_on (acquire c.strdup (λ p. record p { subtree = true }) o) (
      subtree_on c mountpoint (strip_trailing_slashes (s ∷ subtree))
        (check_root (c.lstat mountpoint)))

-- Whether the mountpoint is another directory than "/".
unfoldable pub is_not_root : Result Stat → Result Stat → Bool
is_not_root (err e) root = true
is_not_root (ok sb) (err e) = true
is_not_root (ok sb) (ok root) = not (root.dev == sb.dev && root.ino == sb.ino)

unfoldable pub name_fits : Option Bytes → Bool
name_fits none = true
name_fits (some name) = not (ltb 255 (length name))

-- The base of the walk, which is counted.
unfoldable pub counted_root : Bytes → Bytes → Bytes
counted_root mountpoint [] = mountpoint
counted_root mountpoint (s ∷ subtree) = strip_trailing_slashes (s ∷ subtree)

unfoldable pub open_map : Sys → Bool → Step
open_map kh_init false o = (o, ok tt)
open_map (some e) true o = (o, err einval)
open_map none true o = (record o { path_map = true }, ok tt)

-- From the mountpoint's path on, up to the promotion of the candidate.
unfoldable pub open_path : OpenCalls → Opts → Bytes → Step
open_path c opts mountpoint o =
    go_on
      (go_on
        (go_on
          (go_on
            (go_on
              (go_on
                (go_on
                  (go_on (require (check_root (c.lstat mountpoint)) o)
                    (demand (is_not_root (check_root (c.lstat mountpoint)) c.stat_root)))
                  (open_subtree c mountpoint opts.subtree))
                (open_watch c opts.watch_mode))
              (require (c.total_entries (counted_root mountpoint opts.subtree))))
            (acquire c.statfs (λ p. p)))
          (demand (name_fits opts.shm_name)))
        (λ p.
          go_on (acquire c.map_inodes (λ q. record q { inodes = true }) p)
            (acquire c.map_extents (λ q. record q { extents = true }))))
      (open_map c.kh_init opts.hashmap)

-- `xal_be_fiemap_inotify_close` with its `free()`, where there is an inotify.
unfoldable pub inotify_close : Owned → Owned
inotify_close o =
    if o.inotify
    then record o {
      wd_map = false;
      fd = false;
      index_lock = false;
      lifecycle = false;
      inotify = false;
      fault = o.fault || not (o.lifecycle && o.index_lock && o.fd && o.wd_map);
    }
    else o

-- `xal_be_fiemap_close` of a handle that is not a secondary.
unfoldable pub fiemap_close : Owned → Owned
fiemap_close o =
    let p = inotify_close o in
    let q : Owned = if p.reflink then record p { reflink_dir = false; reflink = false } else p in
    record q { mountpoint = false; subtree = false; path_map = false }

-- `xal_close` of a handle without shared state, where munmap() works.
unfoldable pub close : Owned → Owned
close o = record (fiemap_close o) { inodes = false; extents = false; handle = false }

-- The label `failed`.
unfoldable pub finish_open : Owned × Result (Unit {0}) → Owned × Result (Unit {0})
finish_open (o, err e) = (close o, err e)
finish_open (o, ok _) = (o, ok tt)

-- Nothing.
abbrev pub nothing : Owned
nothing = record {
  handle = false;
  mountpoint = false;
  subtree = false;
  reflink = false;
  reflink_dir = false;
  inotify = false;
  lifecycle = false;
  index_lock = false;
  fd = false;
  wd_map = false;
  inodes = false;
  extents = false;
  path_map = false;
  fault = false;
}

unfoldable pub open_candidate : OpenCalls → Opts → Bytes → Sys → Owned × Result (Unit {0})
open_candidate c opts mountpoint (some e) = (nothing, err e)
open_candidate c opts mountpoint none = finish_open (
    go_on
      (acquire c.calloc_mountpoint (λ p. record p { mountpoint = true })
        (record nothing { handle = true }))
      (open_path c opts (strip_trailing_slashes mountpoint)))

unfoldable pub is_known_mode : WatchMode → Bool
is_known_mode no_watch = true
is_known_mode reflink_snapshot = true
is_known_mode unknown_mode = false

-- `xal_be_fiemap_open`, with `none` for NULL.
unfoldable pub fiemap_open : OpenCalls → Opts → Option Bytes → Owned × Result (Unit {0})
fiemap_open c opts none = (nothing, err einval)
fiemap_open c opts (some mountpoint) =
    if is_known_mode opts.watch_mode
    then open_candidate c opts mountpoint c.calloc
    else (nothing, err einval)
