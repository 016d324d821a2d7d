-- ===== src/Watch/Events.antt =====
-- event_entry(), path_is_skipped() and check_events() (src/xal_be_fiemap_inotify.c): what the watch thread
-- makes of the events in its queue.
pub mod Missing
pub mod Dismissed
use xal.Base.{
  ℕ, ◌+◌, ◌/◌, ◌%◌, ◌^◌, Bool, true, false, List, [], ◌∷◌, ◌++◌, Option, none, some, Result, ok,
  err, einval, enoent, enametoolong, estale, eagain, ltb, ◌==◌, ◌&&◌, ◌||◌, not, if◌then◌else◌,
  length,
}
use xal.Model.{is_dir}
use xal.Pool.{Sys}
use xal.Reader.{View, node}
use xal.Path.{inode_path}
use xal.Lookup.{names_at, out_of_range, child_index}
use xal.Fiemap.State.{Bytes, Statx, foreign_entry, is_snapshot_name}
use xal.Fiemap.Visit.{join}
use xal.Fiemap.Mapping.{has_bit}

-- `struct inotify_event`; without a name its `len` is 0.
pub record Event : Type 0 where
  pub wd : ℕ
  pub mask : ℕ
  pub name : Bytes

-- IN_UNMOUNT, IN_Q_OVERFLOW and IN_IGNORED are bits 13, 14 and 15.
abbrev pub is_unmount : Event → Bool
is_unmount e = has_bit e.mask 13

abbrev pub is_overflow : Event → Bool
is_overflow e = has_bit e.mask 14

abbrev pub is_ignored : Event → Bool
is_ignored e = has_bit e.mask 15

-- An event with what the thread finds when it comes to it: `xal->indexing`, whether it gets
-- `index_lock`, the index, the map from watches to directories, and statx().
pub record Arrival : Type 0 where
  pub event : Event
  pub indexing : Bool
  pub trylock : Bool
  pub view : View
  pub inode_map : ℕ → Option ℕ
  pub statx : Bytes → Result Statx

abbrev pub has_name : Event → Bool
has_name e = elim e.name [ [] ↦ false | _ ∷ _ ↦ true ]

-- `path_is_skipped`
unfoldable pub path_is_skipped : (Bytes → Result Statx) → Bytes → Bool
path_is_skipped statx path = foreign_entry (statx path)

-- `missing && path_is_skipped(path)`
unfoldable pub missing_and_skipped : (Bytes → Result Statx) → Result (Option ℕ × Bytes) → Bool
missing_and_skipped statx (err e) = false
missing_and_skipped statx (ok (some i, path)) = false
missing_and_skipped statx (ok (none, path)) = path_is_skipped statx path

-- XAL_INOTIFY_NOCHANGE and XAL_INOTIFY_REINDEX
abbrev pub nochange : ℕ
nochange = 0

abbrev pub reindex : ℕ
reindex = 1

-- `bsearch` by `compare_name_to_inode`, the base path of the handle, and the size of the path's buffer.
module _ (bsearch : Bytes → List Bytes → Option ℕ) (base : Bytes) (cap : ℕ) where
  -- The search among the children of a directory, from access `t` on.
  unfoldable pub search_span : View → ℕ → ℕ → Bytes → Bytes → Result (Option ℕ × Bytes)
  search_span v t dir path name =
      let i = (node v t dir).content.idx in
      let n = (node v (t + 1) dir).content.count in
      if out_of_range (v (t + 2)).pools.inodes.allocated i n
      then err estale
      else if n == 0
      then ok (none, path)
      else ok (child_index i (bsearch name (names_at v (t + 3) i n)), path)

  unfoldable pub entry_in : View → ℕ → Bytes → ℕ × Result Bytes → Result (Option ℕ × Bytes)
  entry_in v dir name (t, err e) = err e
  entry_in v dir name (t, ok path) =
      if ltb cap (length path + 1 + length name + 1)
      then err enametoolong
      else search_span v (t + 1) dir (join path name) name

  unfoldable pub entry_of : View → Bytes → Option ℕ → Result (Option ℕ × Bytes)
  entry_of v name none = err enoent
  entry_of v name (some dir) =
      if is_dir (node v 0 dir)
      then entry_in v dir name (inode_path (λ t. v (t + 1)) base cap dir)
      else err enoent

  -- `event_entry`: the entry that an event names, if the directory has it, and its path.
  unfoldable pub event_entry : Arrival → Result (Option ℕ × Bytes)
  event_entry a = entry_of a.view a.event.name (a.inode_map a.event.wd)

  -- What the inner loop does with an event: it returns, or goes on to the next.
  unfoldable pub check_event : Arrival → Option (Result ℕ)
  check_event a =
      if is_overflow a.event
      then some (ok reindex)
      else if is_ignored a.event
      then none
      else if is_unmount a.event
      then some (err einval)
      else if has_name a.event && is_snapshot_name a.event.name
      then none
      else if has_name a.event
          && not a.indexing
          && a.trylock
          && missing_and_skipped a.statx (event_entry a)
      then none
      else some (ok reindex)

  -- The inner loop, over the events that one read() gave.
  unfoldable pub check_buffer : List Arrival → Option (Result ℕ)
  check_buffer [] = none
  check_buffer (a ∷ more) =
      let rest = check_buffer more in elim (check_event a) [ none ↦ rest | some r ↦ some r ]

  -- The outer loop, over the reads that give events and the answer of the one that gives none:
  -- `none` for a length of 0.
  unfoldable pub check_events : List (List Arrival) → Sys → Result ℕ
  check_events [] none = ok nochange
  check_events [] (some e) = if e == eagain then ok nochange else err e
  check_events (b ∷ bs) last =
      let rest = check_events bs last in elim (check_buffer b) [ none ↦ rest | some r ↦ r ]
