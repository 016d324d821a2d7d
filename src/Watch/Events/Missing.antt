-- ===== src/Watch/Events/Missing.antt =====
-- event_entry() and path_is_skipped() (src/xal_be_fiemap_inotify.c) on an index at rest: the entries that the
-- index leaves out, by what the index holds and what statx() finds.
use xal.Base.{
  ℕ, ◌+◌, ◌≤◌, ◌≡◌, refl, inl, inr, ◌↔◌, true, false, List, Option, none, some, Result, ok, err,
  arith, ltb, ◌==◌, length, Option-cases, Bool-cases, if_elim,
}
use mathlib.Core.Path.{subst}
use xal.Model.{is_dir}
use xal.Reader.{Seen, still}
use xal.Path.{inode_path}
use xal.Lookup.{names_at, child_index}
use xal.Lookup.Children.{Child, IsSpan, hit-Child, child_index-Child}
use xal.Lookup.Children.Names.{Searches}
use xal.Lookup.Find.{Directory}
use xal.Fiemap.State.{Bytes, Statx, foreign_entry, is_foreign}
use xal.Disk.{is_dir_mode, is_reg_mode}
use xal.Fiemap.Visit.{join}
use xal.Watch.Events.{missing_and_skipped, path_is_skipped, search_span, entry_in, entry_of}

-- A symlink, special file or mount point.
pub data IsForeign (stx : Statx) : Type 0 where
  mount_point : stx.mount_root ≡ true → IsForeign stx
  special : is_dir_mode stx.mode ≡ false → is_reg_mode stx.mode ≡ false → IsForeign stx

is_foreign-IsForeign : (stx : Statx) → is_foreign stx ≡ true → IsForeign stx
is_foreign-IsForeign stx h = elim (Bool-cases stx.mount_root) [
  | inl root ↦ mount_point root
  | inr other ↦ special (ground (arith, h, other)) (ground (arith, h, other))
]

IsForeign-is_foreign : (stx : Statx) → IsForeign stx → is_foreign stx ≡ true
IsForeign-is_foreign stx (mount_point root) = ground (arith, root)
IsForeign-is_foreign stx (special d r) = ground (arith, d, r)

foreign_entry-IsForeign :
    (r : Result Statx) → foreign_entry r ≡ true → (stx : Statx) × (r ≡ ok stx) × IsForeign stx
unfolding foreign_entry
foreign_entry-IsForeign (err e) h = absurd (ground (arith, h))
foreign_entry-IsForeign (ok stx) h = (stx, refl, is_foreign-IsForeign stx h)

-- `bsearch` and the base path and buffer of the handle.
module _ (bsearch : Bytes → List Bytes → Option ℕ) (base : Bytes) (cap : ℕ) where
  -- A name in the directory that a watch is on, if it is on one: the directory has a path, to which the
  -- name can be added in the buffer; no child of it in the index has the name; and statx() finds a
  -- symlink, special file or mount point there.
  pub record IsLeftOut (m : Seen) (name : Bytes) (watched : Option ℕ) (statx : Bytes → Result Statx)
      : Type 0 where
    pub dir : ℕ
    pub on_dir : watched ≡ some dir
    pub directory : Directory m.pools dir
    pub path : Bytes
    pub at_path : (inode_path (still m) base cap dir).1 ≡ ok path
    pub fits : length path + 1 + length name + 1 ≤ cap
    pub absent : (j : ℕ) → Child m.pools dir name j → ⊥
    pub stx : Statx
    pub finds : statx (join path name) ≡ ok stx
    pub foreign : IsForeign stx

  module _ (s : Searches bsearch) (m : Seen) where
    no-Child :
        (t dir : ℕ) (name : Bytes)
        → ((j : ℕ) → Child m.pools dir name j → ⊥)
        → let i = (m.pools.inodes.elems dir).content.idx in
          let n = (m.pools.inodes.elems dir).content.count in
          child_index i (bsearch name (names_at (still m) t i n)) ≡ none
    no-Child t dir name absent =
        let i = (m.pools.inodes.elems dir).content.idx in
        let n = (m.pools.inodes.elems dir).content.count in
        elim (Option-cases (child_index i (bsearch name (names_at (still m) t i n)))) [
          | inl e ↦ e
          | inr (j, e) ↦ absurd (absent j (hit-Child s m t dir j i n name refl refl e))
        ]

    span_absent :
        (t dir : ℕ) (path name : Bytes)
        → IsSpan m dir
        → ((j : ℕ) → Child m.pools dir name j → ⊥)
        → search_span bsearch base cap (still m) t dir path name ≡ ok (none, path)
    unfolding search_span
    span_absent t dir path name span absent =
        rw (span.in_range, no-Child (t + 3) dir name absent)
          (if_elim (λ (r : Result (Option ℕ × Bytes)). r ≡ ok (none, path))
            ((m.pools.inodes.elems dir).content.count == 0) (λ _. refl) (λ _. refl))

    span_missing :
        (t dir : ℕ) (path name : Bytes) (statx : Bytes → Result Statx)
        → IsSpan m dir
        → missing_and_skipped statx (search_span bsearch base cap (still m) t dir path name) ≡ true
        → ((j : ℕ) → Child m.pools dir name j → ⊥) × (foreign_entry (statx path) ≡ true)
    unfolding search_span missing_and_skipped path_is_skipped
    span_missing t dir path name statx span h =
        let i = (m.pools.inodes.elems dir).content.idx in
        let n = (m.pools.inodes.elems dir).content.count in
        elim (Bool-cases (n == 0)) [
          | inl z ↦ (λ j ch. absurd (ground (arith, z, ch.in_span)), rw (span.in_range, z) at h)
          | inr some_children ↦
              elim (Option-cases (child_index i (bsearch name (names_at (still m) (t + 3) i n)))) [
                | inl e ↦ (
                  λ j ch. absurd (cc (e, child_index-Child s m (t + 3) dir j name span ch)),
                  rw (span.in_range, some_children, e) at h,
                )
                | inr (j, e) ↦ absurd (cc (rw (span.in_range, some_children, e) at h))
              ]
        ]

    entry_missing :
        (dir : ℕ) (name : Bytes) (statx : Bytes → Result Statx) (r : ℕ × Result Bytes)
        → IsSpan m dir
        → missing_and_skipped statx (entry_in bsearch base cap (still m) dir name r) ≡ true
        → (path : Bytes) × (r.1 ≡ ok path)
          × (length path + 1 + length name + 1 ≤ cap)
          × ((j : ℕ) → Child m.pools dir name j → ⊥)
          × (foreign_entry (statx (join path name)) ≡ true)
    unfolding entry_in missing_and_skipped
    entry_missing dir name statx (t, err e) span h = absurd (ground (arith, h))
    entry_missing dir name statx (t, ok path) span h =
        elim (Bool-cases (ltb cap (length path + 1 + length name + 1))) [
          | inl long ↦ absurd (cc (rw long at h))
          | inr short ↦
              let (absent, skipped) =
                span_missing (t + 1) dir (join path name) name statx span
                  (rw (short, missing_and_skipped) at h) in
              (path, refl, ground (arith, short), absent, skipped)
        ]

    entry_absent :
        (dir : ℕ) (name path : Bytes) (r : ℕ × Result Bytes)
        → IsSpan m dir
        → r.1 ≡ ok path
        → length path + 1 + length name + 1 ≤ cap
        → ((j : ℕ) → Child m.pools dir name j → ⊥)
        → entry_in bsearch base cap (still m) dir name r ≡ ok (none, join path name)
    unfolding entry_in
    entry_absent dir name path (t, err e) span at fits absent = cc
    entry_absent dir name path (t, ok p) span at fits absent =
        let same : p ≡ path = cc in
        let short : ltb cap (length path + 1 + length name + 1) ≡ false = ground (arith, fits) in
        rw (same, short) (span_absent (t + 1) dir (join path name) name span absent)

    -- On an index at rest whose directories have their children in the pool, sorted by name, what an event
    -- names counts as missing and skipped exactly if the index leaves it out.
    pub missing_iff :
        (name : Bytes) (watched : Option ℕ) (statx : Bytes → Result Statx)
        → ((k : ℕ) → Directory m.pools k → IsSpan m k)
        → (missing_and_skipped statx (entry_of bsearch base cap (still m) name watched) ≡ true)
          ↔ IsLeftOut m name watched statx
    unfolding entry_of missing_and_skipped path_is_skipped foreign_entry
    missing_iff name none statx spans = (λ h. absurd (ground (arith, h)), λ l. absurd (cc l.on_dir))
    missing_iff name (some dir) statx spans = (to, from)
      where
        to :
            missing_and_skipped statx (entry_of bsearch base cap (still m) name (some dir)) ≡ true
            → IsLeftOut m name (some dir) statx
        to h = elim (Bool-cases (is_dir (m.pools.inodes.elems dir))) [
          | inl d ↦
              let (path, at, fits, absent, skipped) =
                entry_missing dir name statx (inode_path (still m) base cap dir) (spans dir d)
                  (rw d at h) in
              let (stx, finds, foreign) =
                foreign_entry-IsForeign (statx (join path name)) skipped in
              record {
                dir = dir;
                on_dir = refl;
                directory = d;
                path = path;
                at_path = at;
                fits = fits;
                absent = absent;
                stx = stx;
                finds = finds;
                foreign = foreign;
              }
          | inr other ↦ absurd (cc (rw other at h))
        ]

        from :
            IsLeftOut m name (some dir) statx
            → missing_and_skipped statx (entry_of bsearch base cap (still m) name (some dir)) ≡ true
        from l =
            let same : l.dir ≡ dir = cc l.on_dir in
            let d : is_dir (m.pools.inodes.elems dir) ≡ true =
              subst (λ k. Directory m.pools k) same l.directory in
            let found : entry_in bsearch base cap (still m) dir name
                  (inode_path (still m) base cap dir)
                ≡ ok (none, join l.path name) =
              entry_absent dir name l.path (inode_path (still m) base cap dir) (spans dir d)
                (subst (λ k. (inode_path (still m) base cap k).1 ≡ ok l.path) same l.at_path) l.fits
                (subst (λ k. (j : ℕ) → Child m.pools k name j → ⊥) same l.absent) in
            rw (d, found, l.finds) (IsForeign-is_foreign l.stx l.foreign)
