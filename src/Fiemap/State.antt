-- ===== src/Fiemap/State.antt =====
-- What the walk of src/xal_be_fiemap.c asks the kernel, what it writes, and the functions that check a
-- path: _is_directory_member(), _is_skipped(), _check_root(), _check_subtree().
use xal.Base.{
  ℕ, Bool, true, false, List, [], ◌∷◌, Option, none, some, Result, ok, err, enomem, enotdir, eagain,
  ◌==◌, ◌&&◌, ◌||◌, not, if◌then◌else◌, ltb, take, length, get_or, zero, suc,
}
use xal.Model.{Sb}
use xal.Pool.{Sys, Mprotect}
use xal.Disk.{is_dir_mode, is_reg_mode}
use xal.Build.State.{Built}
use xal.Lookup.{same_name, strip_prefix}

-- Paths and names are their bytes.
abbrev pub Bytes : Type 0
Bytes = List ℕ

-- A table of khash.h: its memory, and the operations that the source calls. `put` is `none` where
-- kh_put() fails.
pub record Khash (K V M : Type 0) : Type 0 where
  pub empty : M
  pub put : M → K → V → Option M
  pub get : M → K → Option V

-- `struct stat` and `struct statx`, as far as they are read.
pub record Stat : Type 0 where
  pub mode : ℕ
  pub dev : ℕ
  pub ino : ℕ

pub record Statx : Type 0 where
  pub mount_root : Bool
  pub mode : ℕ
  pub ino : ℕ
  pub size : ℕ

-- `struct dirent`
pub record Dirent : Type 0 where
  pub d_name : Bytes
  pub d_type : ℕ

-- `struct fiemap_extent`
pub record FiemapExtent : Type 0 where
  pub fe_logical : ℕ
  pub fe_physical : ℕ
  pub fe_length : ℕ
  pub fe_flags : ℕ

-- `struct fiemap` as an ioctl leaves it.
pub record Fiemap : Type 0 where
  pub mapped_extents : ℕ
  pub extents : ℕ → FiemapExtent

-- FS_IOC_FIEMAP on one descriptor: the number of the call, FIEMAP_FLAG_SYNC, `fm_extent_count`.
abbrev pub FiemapIoctl : Type 0
FiemapIoctl = ℕ → Bool → ℕ → Result Fiemap

-- What a descriptor that is mapped is open on: the file itself, or its clone of an inode number and
-- generation.
pub data Target : Type 0 where
  origin : Bytes → Target
  clone : ℕ → ℕ → Target

-- The answers of the kernel and the C library, each call site with answers of its own, and what the
-- handle is set up with. A function of a path is asked once for it, or is asked of a file that may
-- have changed meanwhile by another field. `reflink` says that the handle takes snapshots.
pub record FsEnv (M W : Type 0) : Type 0 where
  pub sb : Sb
  pub mountpoint : Bytes
  pub subtree : Option Bytes
  pub watched : Bool
  pub reflink : Bool
  pub paths : Khash Bytes ℕ M
  pub watches : Khash ℕ ℕ W
  pub inodes_mprotect : Mprotect
  pub extents_mprotect : Mprotect
  pub qsort : List Bytes → List Bytes
  pub lstat : Bytes → Result Stat
  pub statx : Bytes → Result Statx
  pub entry_statx : Bytes → Bytes → Result Statx
  pub add_watch : Bytes → Result ℕ
  pub opendir : Bytes → Result (List Dirent)
  pub no_memory : Bytes → ℕ → Bool
  pub open_file : Bytes → Sys
  pub fstat : Bytes → Result Stat
  pub malloc : Bytes → Sys
  pub realloc : Target → ℕ → Sys
  pub fiemap : Target → FiemapIoctl
  pub strdup : Bytes → Sys
  pub shadow_dir : Bytes
  pub opendir_mountpoint : Bytes → Sys
  pub shadow_truncated : Bytes → Bool
  pub opendir_shadow : Bytes → Sys
  pub purge_unlink : ℕ → ℕ → Sys
  pub mkdir : Bytes → Sys
  pub truncated : ℕ → ℕ → Bool
  pub getversion : Bytes → Result ℕ
  pub open_clone : ℕ → ℕ → Sys
  pub reopen_clone : ℕ → ℕ → Sys
  pub ficlone : ℕ → ℕ → Sys
  pub set_immutable : ℕ → ℕ → Sys
  pub unlink_clone : ℕ → ℕ → Sys
  pub drain : Result (Unit {0})

-- What the walk writes: the pools, the map from paths to inodes if lookups are to use one, the map
-- from watches to directories, and the shadow directory: whether it was created since the last
-- sweep, and the clones in it, named by inode number and generation. `mapped` is not in the program:
-- what the mappings that are in the pools were read from.
pub record Progress (M W : Type 0) : Type 0 where
  pub built : Built
  pub path_inode_map : Option M
  pub inode_map : W
  pub dir_created : Bool
  pub clones : List (ℕ × ℕ)
  pub mapped : List Target

abbrev pub dt_unknown : ℕ
dt_unknown = 0

abbrev pub dt_dir : ℕ
dt_dir = 4

abbrev pub dt_reg : ℕ
dt_reg = 8

abbrev pub exdev : ℕ
exdev = 18

abbrev pub eloop : ℕ
eloop = 40

-- `_is_directory_member`
unfoldable pub is_directory_member : Bytes → Bool
is_directory_member name =
    not (same_name name (b'.' ∷ [])) && not (same_name name (b'.' ∷ b'.' ∷ []))

-- Whether the index skips what statx() found: a mount point, or neither directory nor regular file.
abbrev pub is_foreign : Statx → Bool
is_foreign stx = stx.mount_root || (not (is_dir_mode stx.mode) && not (is_reg_mode stx.mode))

-- The end of `_is_skipped`: an entry that statx() cannot read is kept.
unfoldable pub foreign_entry : Result Statx → Bool
foreign_entry (err e) = false
foreign_entry (ok stx) = is_foreign stx

-- `_is_skipped`, on the answers of statx() for the entries of one directory.
unfoldable pub is_skipped : (Bytes → Result Statx) → Dirent → Bool
is_skipped statx entry =
    if entry.d_type == dt_reg
    then false
    else if not (entry.d_type == dt_dir) && not (entry.d_type == dt_unknown)
    then true
    else foreign_entry (statx entry.d_name)

-- The loop of `_strip_trailing_slashes`, on the length that is left.
unfoldable pub stripped_len : Bytes → ℕ → ℕ
stripped_len path zero = 0
stripped_len path (suc n) =
    let rest = stripped_len path n in if ltb 0 n && get_or path n 0 == b'/' then rest else suc n

-- `_strip_trailing_slashes`
unfoldable pub strip_trailing_slashes : Bytes → Bytes
strip_trailing_slashes path = take (stripped_len path (length path)) path

-- `_check_root`, on what lstat() gives
unfoldable pub check_root : Result Stat → Result Stat
check_root (err e) = err e
check_root (ok sb) = if is_dir_mode sb.mode then ok sb else err enotdir

unfoldable pub same_dev : Stat → Result Stat → Result (Unit {0})
same_dev mnt (err e) = err e
same_dev mnt (ok st) = if st.dev == mnt.dev then ok tt else err exdev

-- `_check_subtree`
unfoldable pub check_subtree : Result Stat → Stat → Result (Unit {0})
check_subtree lstat mnt = same_dev mnt (check_root lstat)

-- XAL_SNAPSHOT_PREFIX, ".xal_snapshot."
abbrev pub snapshot_prefix : Bytes
snapshot_prefix =
    b'.' ∷ b'x' ∷ b'a' ∷ b'l' ∷ b'_' ∷ b's' ∷ b'n' ∷ b'a' ∷ b'p' ∷ b's' ∷ b'h' ∷ b'o' ∷ b't' ∷ b'.'
    ∷ []

unfoldable pub is_some : {A : Type 0} → Option A → Bool
is_some none = false
is_some (some a) = true

-- `strncmp(name, XAL_SNAPSHOT_PREFIX, sizeof(XAL_SNAPSHOT_PREFIX) - 1) == 0`
unfoldable pub is_snapshot_name : Bytes → Bool
is_snapshot_name name = is_some (strip_prefix snapshot_prefix name)

-- An errno that stands for another.
unfoldable pub retry_on : ℕ → ℕ → ℕ
retry_on errno e = if e == errno then eagain else e

-- The end of `path_map_insert`.
unfoldable pub put_path :
    {M W : Type 0} → Progress M W → Option M → Progress M W × Result (Unit {0})
put_path w none = (w, err enomem)
put_path w (some m) = (record w { path_inode_map = some m }, ok tt)

-- `path_map_insert`, on the map that the walk has.
unfoldable pub path_map_insert :
    {M W : Type 0} → FsEnv M W → M → Bytes → ℕ → Progress M W → Progress M W × Result (Unit {0})
path_map_insert env m path inode w = elim (env.strdup path) [
  | some _ ↦ (w, err enomem)
  | none ↦ put_path w (env.paths.put m path inode)
]

unfoldable pub insert_into :
    {M W : Type 0}
    → FsEnv M W
    → Bytes
    → ℕ
    → Progress M W
    → Option M
    → Progress M W × Result (Unit {0})
insert_into env path inode w none = (w, ok tt)
insert_into env path inode w (some m) = path_map_insert env m path inode w

-- What the walk does where a map is kept.
unfoldable pub insert_path :
    {M W : Type 0} → FsEnv M W → Bytes → ℕ → Progress M W → Progress M W × Result (Unit {0})
insert_path env path inode w = insert_into env path inode w w.path_inode_map

-- `if (err) return err;`
unfoldable pub go_on :
    {S : Type 0} → S × Result (Unit {0}) → (S → S × Result (Unit {0})) → S × Result (Unit {0})
go_on (s, err e) next = (s, err e)
go_on (s, ok _) next = next s
