-- ===== src/Fiemap/Visit.antt =====
-- The walk of src/xal_be_fiemap.c: retrieve_total_entries(), xal_be_fiemap_process_inode_file(),
-- xal_be_fiemap_process_inode_dir(), process_ino_fiemap().
use xal.Base.{
  ℕ, zero, suc, ◌+◌, ◌/◌, ◌%◌, Bool, List, [], ◌∷◌, ◌++◌, none, some, Result, ok, err, einval,
  eagain, enoent, enomem, enosys, eio, enametoolong, too_deep, ltb, ◌==◌, ◌&&◌, not, if◌then◌else◌,
  length, u32_mod,
}
use xal.Model.{Inode, Extent, blank_inode, ft_unknown, ft_reg_file, ft_dir, is_dir, is_file}
use xal.Pool.{Pool, claim_inodes, claim_extents}
use xal.Disk.{is_dir_mode, is_reg_mode}
use xal.Build.State.{store, inode_of, set_inode, set_content, add_count}
use xal.Fiemap.State.{
  Bytes, FsEnv, Progress, Stat, Statx, Dirent, FiemapExtent, Fiemap, Target, origin, eloop,
  is_directory_member, is_skipped, is_snapshot_name, retry_on, insert_path, go_on,
}
use xal.Fiemap.Mapping.{read_fiemap, fiemap_extent_flag}
use xal.Fiemap.Shadow.{reflink_clone_file}

-- XAL_INODE_NAME_MAXLEN
abbrev pub inode_name_maxlen : ℕ
inode_name_maxlen = 255

-- `snprintf("%s/%s")`
abbrev pub join : Bytes → Bytes → Bytes
join path name = path ++ b'/' ∷ name

-- The loop that stores a mapping of `n` extents from index `i` of the pool on.
unfoldable pub store_extents : ℕ → (ℕ → FiemapExtent) → ℕ → ℕ → Pool Extent → Pool Extent
store_extents blocksize fe i zero p = p
store_extents blocksize fe i (suc n) p =
    store_extents blocksize (λ j. fe (suc j)) (i + 1) n
      (store p i (record {
        start_offset = (fe 0).fe_logical / blocksize;
        start_block = (fe 0).fe_physical / blocksize;
        nblocks = (fe 0).fe_length / blocksize;
        flag = fiemap_extent_flag (fe 0).fe_flags;
      }))

-- Whether an entry of a directory gets an inode of its own.
unfoldable pub is_listed : Bool → (Bytes → Result Statx) → Dirent → Bool
is_listed reflink statx entry =
    is_directory_member entry.d_name
    && not (is_skipped statx entry)
    && not (reflink && is_snapshot_name entry.d_name)

unfoldable pub cons_ok : {A : Type 0} → A → Result (List A) → Result (List A)
cons_ok a (err e) = err e
cons_ok a (ok l) = ok (a ∷ l)

-- The readdir() loop of a directory: the names that are kept, or the first failure to keep one.
unfoldable pub read_names : (Dirent → Bool) → (ℕ → Bool) → ℕ → List Dirent → Result (List Bytes)
read_names listed no_memory n [] = ok []
read_names listed no_memory n (d ∷ ds) =
    let rest = read_names listed no_memory (n + 1) ds in
    let skipped = read_names listed no_memory n ds in
    if listed d then (if no_memory n then err enomem else cons_ok d.d_name rest) else skipped

module _ {M W : Type 0} (env : FsEnv M W) where
  -- A step of the walk.
  abbrev pub Visit : Type 0
  Visit = Progress M W → Progress M W × Result (Unit {0})

  -- The mapping into the pool, behind the claim of its extents.
  unfoldable pub store_mapping :
      Target → ℕ → Fiemap → Progress M W → Pool Extent × Result ℕ → Progress M W × Result (Unit {0})
  store_mapping target self f w (p, err e) =
      (record w { built = record (w.built) { extents = p } }, err e)
  store_mapping target self f w (p, ok i) = (
    record w {
      built =
          set_content
            (record (w.built) {
              extents = store_extents env.sb.blocksize f.extents i f.mapped_extents p;
            })
            self i f.mapped_extents;
      mapped = target ∷ w.mapped;
    },
    ok tt,
  )

  -- What read_fiemap() gave.
  unfoldable pub keep_mapping :
      Target → ℕ → Progress M W → Result Fiemap → Progress M W × Result (Unit {0})
  keep_mapping target self w (err e) = (w, err e)
  keep_mapping target self w (ok f) =
      if f.mapped_extents == 0
      then (w, ok tt)
      else store_mapping target self f w
          (claim_extents env.extents_mprotect w.built.extents f.mapped_extents)

  -- From the descriptor that is mapped on.
  unfoldable pub map_target :
      Bytes → ℕ → Progress M W × Result Target → Progress M W × Result (Unit {0})
  map_target path self (w, err e) = (w, err e)
  map_target path self (w, ok target) = elim (env.malloc path) [
    | some _ ↦ (w, err enomem)
    | none ↦
        go_on (keep_mapping target self w (read_fiemap (env.fiemap target) (env.realloc target)))
          (insert_path env path self)
  ]

  -- From fstat() on.
  unfoldable pub map_opened :
      Bytes → ℕ → Progress M W → Result Stat → Progress M W × Result (Unit {0})
  map_opened path self w (err e) = (w, err e)
  map_opened path self w (ok st) =
      if is_reg_mode st.mode
      then map_target path self
          (if env.reflink then reflink_clone_file env path w else (w, ok (origin path)))
      else (w, err eagain)

  -- `xal_be_fiemap_process_inode_file`
  unfoldable pub process_inode_file : Bytes → ℕ → Visit
  process_inode_file path self w =
      if is_file (inode_of w.built self)
      then elim (env.open_file path) [
        | some e ↦ (w, err (retry_on eloop e))
        | none ↦ map_opened path self w (env.fstat path)
      ]
      else (w, err einval)

  -- The name and the parent of an entry.
  unfoldable pub name_dentry : ℕ → ℕ → Bytes → Progress M W → Progress M W
  name_dentry self dentry name w = record w {
    built = set_inode w.built dentry (record (inode_of w.built dentry) {
      name = name;
      namelen = length name;
      parent_idx = self;
    });
  }

  -- An entry that is still of no type gives its slot to the next.
  unfoldable pub count_dentry : ℕ → ℕ → Visit
  count_dentry self dentry w =
      if (inode_of w.built dentry).ftype == ft_unknown
      then (record w { built = set_inode w.built dentry blank_inode }, ok tt)
      else (record w { built = add_count w.built self 1 }, ok tt)

  -- The slot of the next entry.
  abbrev pub next_slot : ℕ → Progress M W → ℕ
  next_slot self w =
      ((inode_of w.built self).content.idx + (inode_of w.built self).content.count) % u32_mod

  -- The loop over the entries.
  unfoldable pub process_entries : (Bytes → ℕ → Visit) → Bytes → ℕ → List Bytes → Visit
  process_entries process path self [] w = (w, ok tt)
  process_entries process path self (name ∷ names) w =
      if ltb inode_name_maxlen (length name)
      then (w, err enametoolong)
      else go_on
          (go_on
            (process (join path name) (next_slot self w)
              (name_dentry self (next_slot self w) name w))
            (count_dentry self (next_slot self w)))
          (process_entries process path self names)

  -- The claim of the entries' slots, and the words of the directory.
  unfoldable pub claim_entries :
      ℕ → Progress M W → Pool Inode × Result ℕ → Progress M W × Result (Unit {0})
  claim_entries self w (p, err e) = (record w { built = record (w.built) { inodes = p } }, err e)
  claim_entries self w (p, ok i) =
      (record w { built = set_content (record (w.built) { inodes = p }) self i 0 }, ok tt)

  unfoldable pub process_names :
      (Bytes → ℕ → Visit)
      → Bytes
      → ℕ
      → Progress M W
      → Result (List Bytes)
      → Progress M W × Result (Unit {0})
  process_names process path self w (err e) = (w, err e)
  process_names process path self w (ok names) =
      go_on
        (go_on
          (claim_entries self w (claim_inodes env.inodes_mprotect w.built.inodes (length names)))
          (process_entries process path self (env.qsort names)))
        (insert_path env path self)

  unfoldable pub process_opened : (Bytes → ℕ → Visit) → Bytes → ℕ → Result (List Dirent) → Visit
  process_opened process path self (err e) w = (w, err e)
  process_opened process path self (ok entries) w =
      process_names process path self w
        (read_names (is_listed env.reflink (env.entry_statx path)) (env.no_memory path) 0 entries)

  -- `xal_be_fiemap_inotify_add_watcher`, on what inotify_add_watch() gives.
  unfoldable pub add_watcher : ℕ → Result ℕ → Visit
  add_watcher inode (err e) w = (w, err e)
  add_watcher inode (ok wd) w = elim (env.watches.put w.inode_map wd inode) [
    | none ↦ (w, err eio)
    | some m ↦ (record w { inode_map = m }, ok tt)
  ]

  -- `xal_be_fiemap_process_inode_dir`
  unfoldable pub process_inode_dir : (Bytes → ℕ → Visit) → Bytes → ℕ → Visit
  process_inode_dir process path self w =
      if is_dir (inode_of w.built self)
      then go_on (if env.watched then add_watcher self (env.add_watch path) w else (w, ok tt))
          (process_opened process path self (env.opendir path))
      else (w, err einval)

  -- The type that the index gives what statx() found, none if it is skipped.
  unfoldable pub type_of : Statx → ℕ
  type_of stx =
      if stx.mount_root
      then ft_unknown
      else if is_dir_mode stx.mode
      then ft_dir
      else if is_reg_mode stx.mode
      then ft_reg_file
      else ft_unknown

  -- The switch of process_ino_fiemap(), with number and size stored.
  unfoldable pub process_as : (Bytes → ℕ → Visit) → Bytes → ℕ → Statx → ℕ → Visit
  process_as process path self stx ftype w =
      let stored : Progress M W = record w {
        built =
            set_inode w.built self
              (record (inode_of w.built self) { ftype = ftype; ino = stx.ino; size = stx.size });
      } in
      if ftype == ft_dir
      then process_inode_dir process path self stored
      else if ftype == ft_reg_file
      then process_inode_file path self stored
      else (stored, err enosys)

  unfoldable pub process_found : (Bytes → ℕ → Visit) → Bytes → ℕ → Result Statx → Visit
  process_found process path self (err e) w = (w, err (retry_on enoent e))
  process_found process path self (ok stx) w =
      if (inode_of w.built self).ftype == ft_unknown
      then (if type_of stx == ft_unknown
          then (w, ok tt)
          else process_as process path self stx (type_of stx) w)
      else process_as process path self stx (inode_of w.built self).ftype w

  -- `process_ino_fiemap`, with fuel for the depth of the directories.
  unfoldable pub process_ino_fiemap : ℕ → Bytes → ℕ → Visit
  process_ino_fiemap zero path self w = (w, err too_deep)
  process_ino_fiemap (suc fuel) path self w =
      process_found (process_ino_fiemap fuel) path self (env.statx path) w
