-- ===== src/Fiemap/Index.antt =====
-- xal_be_fiemap_index() (src/xal_be_fiemap.c).
use xal.Base.{ℕ, false, [], ◌∷◌, Option, none, some, Result, ok, err, einval, if◌then◌else◌}
use xal.Model.{Inode, ft_dir, pool_idx_none}
use xal.Sync.{Words, indexing, bump_seq, mark_index_done}
use xal.Pool.{Pool, claim_inodes}
use xal.Build.State.{inode_of, set_inode}
use xal.Build.Index.{clear_pools, errno}
use xal.Fiemap.State.{Bytes, FsEnv, Progress, Stat, check_root, check_subtree}
use xal.Fiemap.Shadow.{reflink_sweep_orphans}
use xal.Fiemap.Visit.{process_ino_fiemap}

-- What xal_be_fiemap_index() works on.
pub record Handle (M W : Type 0) : Type 0 where
  pub words : Words
  pub progress : Progress M W
  pub root_idx : ℕ

module _ {M W : Type 0} (env : FsEnv M W) where
  -- What the part between the two bumps gives.
  abbrev pub Run : Type 0
  Run = Progress M W × ℕ × Result (Unit {0})

  -- The root as it is before its directory is read.
  unfoldable pub blank_root : Inode → Inode
  blank_root n = record n {
    ino = env.sb.rootino;
    ftype = ft_dir;
    namelen = 0;
    name = [];
    parent_idx = pool_idx_none;
    content = record (n.content) { count = 0 };
  }

  -- Where the walk begins, and what the paths in the index begin with.
  unfoldable pub walk_root : Bytes
  walk_root = elim env.subtree [ none ↦ env.mountpoint | some path ↦ path ]

  -- The clones of the index before go.
  unfoldable pub new_snapshot : Progress M W → Progress M W
  new_snapshot w =
      if env.reflink then record (reflink_sweep_orphans env w) { dir_created = false } else w

  -- From the claim of the root on.
  unfoldable pub walk_tree : ℕ → Progress M W → ℕ → Pool Inode × Result ℕ → Run
  walk_tree fuel w root_idx (p, err e) =
      (record w { built = record (w.built) { inodes = p } }, root_idx, err e)
  walk_tree fuel w root_idx (p, ok i) =
      let claimed = record (w.built) { inodes = p } in
      let rooted : Progress M W = record w {
        built = set_inode claimed i (blank_root (inode_of claimed i));
      } in
      let (walked, r) = process_ino_fiemap env fuel walk_root i (new_snapshot rooted) in
      (walked, i, r)

  -- From the answer of the drain on.
  unfoldable pub drained : ℕ → Progress M W → ℕ → Result (Unit {0}) → Run
  drained fuel w root_idx (err e) = (w, root_idx, err e)
  drained fuel w root_idx (ok _) =
      walk_tree fuel w root_idx (claim_inodes env.inodes_mprotect w.built.inodes 1)

  -- `path_map_clear`, where there is a map.
  unfoldable pub path_map_clear : Option M → Option M
  path_map_clear none = none
  path_map_clear (some m) = some env.paths.empty

  -- The pools and the maps as they are cleared; `xal_be_fiemap_inotify_clear_inode_map` takes every
  -- watch away.
  unfoldable pub clear_index : Progress M W → Progress M W
  clear_index w = record w {
    built = clear_pools w.built;
    path_inode_map = path_map_clear w.path_inode_map;
    inode_map = if env.watched then env.watches.empty else w.inode_map;
    mapped = [];
  }

  unfoldable pub with_subtree : ℕ → Progress M W → ℕ → Result (Unit {0}) → Run
  with_subtree fuel w root_idx (err e) = (w, root_idx, err e)
  with_subtree fuel w root_idx (ok _) =
      drained fuel (clear_index w) root_idx (if env.watched then env.drain else ok tt)

  -- Between the two bumps.
  unfoldable pub run_index : ℕ → Progress M W → ℕ → Result Stat → Run
  run_index fuel w root_idx (err e) = (w, root_idx, err e)
  run_index fuel w root_idx (ok sb) =
      with_subtree fuel w root_idx
        (elim env.subtree [ none ↦ ok tt | some path ↦ check_subtree (env.lstat path) sb ])

  -- The label `exit`.
  unfoldable pub end_index : Words → Run → Handle M W × Result (Unit {0})
  end_index words (w, root_idx, r) = (
    record {
      words = mark_index_done (bump_seq words) (errno r);
      progress = w;
      root_idx = root_idx;
    },
    r,
  )

  unfoldable pub index_mounted : ℕ → Handle M W → Bytes → Handle M W × Result (Unit {0})
  index_mounted fuel h [] = (h, err einval)
  index_mounted fuel h (c ∷ cs) =
      end_index (bump_seq (record (h.words) { index_state = indexing }))
        (run_index fuel h.progress h.root_idx (check_root (env.lstat env.mountpoint)))

  -- `xal_be_fiemap_index`
  unfoldable pub fiemap_index : ℕ → Handle M W → Handle M W × Result (Unit {0})
  fiemap_index fuel h = index_mounted fuel h env.mountpoint
