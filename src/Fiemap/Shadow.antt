-- ===== src/Fiemap/Shadow.antt =====
-- The shadow directory of clones (src/xal_be_fiemap.c): reflink_dir_purge(), reflink_dir_prepare() and
-- reflink_clone_file().
use xal.Base.{
  ℕ, Bool, true, false, List, [], ◌∷◌, none, some, Result, ok, err, enametoolong, ◌==◌, ◌&&◌, ◌||◌,
  if◌then◌else◌,
}
use xal.Pool.{Sys}
use xal.Fiemap.State.{FsEnv, Progress, Target, clone, Stat, Bytes}

-- Whether a directory has a clone of a name.
unfoldable pub has_clone : ℕ → ℕ → List (ℕ × ℕ) → Bool
has_clone ino gen [] = false
has_clone ino gen (c ∷ cs) = (c.0 == ino && c.1 == gen) || has_clone ino gen cs

-- The clones that stay when each is unlinked, with what unlink() answers.
unfoldable pub purged : (ℕ → ℕ → Sys) → List (ℕ × ℕ) → List (ℕ × ℕ)
purged unlink [] = []
purged unlink (c ∷ cs) =
    let rest = purged unlink cs in elim (unlink c.0 c.1) [ none ↦ rest | some _ ↦ c ∷ rest ]

module _ {M W : Type 0} (env : FsEnv M W) where
  -- `reflink_dir_purge` of the handle's own directory. A directory that is missing holds nothing.
  unfoldable pub reflink_dir_purge : Progress M W → Progress M W
  reflink_dir_purge w = elim (env.opendir_shadow env.shadow_dir) [
    | some _ ↦ w
    | none ↦ record w { clones = purged env.purge_unlink w.clones }
  ]

  -- `reflink_sweep_orphans`, as far as it reaches the handle's own directory: that of another process
  -- is nothing to the handle.
  unfoldable pub reflink_sweep_orphans : Progress M W → Progress M W
  reflink_sweep_orphans w = elim (env.opendir_mountpoint env.mountpoint) [
    | some _ ↦ w
    | none ↦ if env.shadow_truncated env.mountpoint then w else reflink_dir_purge w
  ]

  -- `reflink_dir_prepare`
  unfoldable pub reflink_dir_prepare : Progress M W → Progress M W × Result (Unit {0})
  reflink_dir_prepare w = elim (env.mkdir env.shadow_dir) [
    | some e ↦ (reflink_dir_purge w, err e)
    | none ↦ (record (reflink_dir_purge w) { dir_created = true }, ok tt)
  ]

  -- The label `fail_created`: the clone that was created goes, if unlink() works.
  unfoldable pub fail_created : ℕ → ℕ → Progress M W → List (ℕ × ℕ) → Progress M W
  fail_created ino gen w before = elim (env.unlink_clone ino gen) [
    | none ↦ record w { clones = before }
    | some _ ↦ w
  ]

  -- From the new clone on.
  unfoldable pub fill_clone : ℕ → ℕ → Progress M W → Progress M W × Result Target
  fill_clone ino gen w =
      let created : Progress M W = record w { clones = (ino, gen) ∷ w.clones } in
      elim (env.ficlone ino gen) [
        | some e ↦ (fail_created ino gen created w.clones, err e)
        | none ↦ elim (env.set_immutable ino gen) [
          | some e ↦ (fail_created ino gen created w.clones, err e)
          | none ↦ (created, ok (clone ino gen))
        ]
      ]

  -- `open(clone_path, O_RDWR | O_CREAT | O_EXCL, 0600)`, which fails on a name that exists, and what
  -- follows its answer.
  unfoldable pub create_clone : ℕ → ℕ → Progress M W → Progress M W × Result Target
  create_clone ino gen w =
      if has_clone ino gen w.clones
      then (w, elim (env.reopen_clone ino gen) [ some e ↦ err e | none ↦ ok (clone ino gen) ])
      else elim (env.open_clone ino gen) [ some e ↦ (w, err e) | none ↦ fill_clone ino gen w ]

  unfoldable pub name_clone : Progress M W → Result Stat → Result ℕ → Progress M W × Result Target
  name_clone w (err e) gen = (w, err e)
  name_clone w (ok sb) (err e) = (w, err e)
  name_clone w (ok sb) (ok gen) =
      if env.truncated sb.ino gen then (w, err enametoolong) else create_clone sb.ino gen w

  unfoldable pub clone_prepared :
      Bytes → Progress M W × Result (Unit {0}) → Progress M W × Result Target
  clone_prepared path (w, err e) = (w, err e)
  clone_prepared path (w, ok _) = name_clone w (env.fstat path) (env.getversion path)

  -- `reflink_clone_file`
  unfoldable pub reflink_clone_file : Bytes → Progress M W → Progress M W × Result Target
  reflink_clone_file path w =
      clone_prepared path (if w.dir_created then (w, ok tt) else reflink_dir_prepare w)
