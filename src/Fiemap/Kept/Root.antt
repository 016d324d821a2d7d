-- ===== src/Fiemap/Kept/Root.antt =====
-- xal_be_fiemap_index() (src/xal_be_fiemap.c): the pools, the clones and the shared words that it leaves.
use xal.Base.{
  ℕ, ◌+◌, ◌%◌, ◌≡◌, refl, ◌∙◌, false, [], ◌∷◌, Result, ok, err, arith, if_elim, u32_mod, ◌==◌,
  if◌then◌else◌,
}
use xal.Model.{Inode}
use xal.Sync.{clean, dirty, indexing, Words, bump_seq, mark_index_done}
use xal.Pool.{Pool}
use xal.Pool.Valid.{IsValid}
use xal.Build.Index.{errno}
use xal.Build.Pools.{set_inode-Good, inodes-IsValid}
use xal.Build.Pools.Root.{clear_pools-Good}
use xal.Fiemap.State.{Bytes, FsEnv, Progress, Stat, check_root}
use xal.Fiemap.Shadow.{reflink_sweep_orphans}
use xal.Fiemap.Index.{
  Handle, walk_root, new_snapshot, walk_tree, drained, clear_index, with_subtree, run_index,
  end_index, index_mounted, fiemap_index,
}
use xal.Fiemap.Kept.{Kept, built-Kept}
use xal.Fiemap.Kept.Clones.{sweep-Kept, sweep-mapped}
use xal.Fiemap.Kept.Files.{IsSane}
use xal.Fiemap.Kept.Dirs.{process_ino-Keeps}

-- One value for a handle without a mountpoint, another for one with it.
abbrev pub unless_empty {ℓ} : {A : Type ℓ} → Bytes → A → A → A
unless_empty [] empty other = empty
unless_empty (c ∷ cs) empty other = other

module _ {M W : Type 0} (env : FsEnv M W) where
  -- A handle between two builds: what the walk keeps, and an even sequence lock.
  pub record IsResting (h : Handle M W) : Type 0 where
    pub kept : Kept env h.progress
    pub even : h.words.seq_lock % 2 ≡ 0

module _ {M W : Type 0} (env : FsEnv M W) (sane : IsSane env) where
  swept-Kept :
      (w : Progress M W)
      → Kept env w
      → w.mapped ≡ []
      → Kept env (record (reflink_sweep_orphans env w) { dir_created = false })
  swept-Kept w k none_mapped =
      let s = sweep-Kept env w k (λ _. none_mapped) in
      record {
        pools = s.pools;
        pinned = s.pinned;
        before = λ _ _. sweep-mapped env w ∙ none_mapped;
      }

  walk_tree-Kept :
      (fuel : ℕ) (w : Progress M W) (root : ℕ) (r : Pool Inode × Result ℕ)
      → Kept env w
      → w.mapped ≡ []
      → IsValid r.0
      → Kept env (walk_tree env fuel w root r).0
  unfolding walk_tree new_snapshot
  walk_tree-Kept fuel w root (p, err e) k m v = built-Kept env w _ k (v, k.pools.1)
  walk_tree-Kept fuel w root (p, ok i) k m v =
      let rooted = built-Kept env w _ k (set_inode-Good _ i _ (v, k.pools.1)) in
      process_ino-Keeps env sane fuel (walk_root env) i _
        (if_elim (Kept env) env.reflink (λ _. swept-Kept _ rooted m) (λ _. rooted))

  drained-Kept :
      (fuel : ℕ) (w : Progress M W) (root : ℕ) (r : Result (Unit {0}))
      → Kept env w
      → w.mapped ≡ []
      → Kept env (drained env fuel w root r).0
  unfolding drained
  drained-Kept fuel w root (err e) k m = k
  drained-Kept fuel w root (ok _) k m =
      walk_tree-Kept fuel w root _ k m
        (inodes-IsValid env.inodes_mprotect w.built.inodes 1 k.pools.0 (omega arith))

  clear_index-Kept : (w : Progress M W) → Kept env w → Kept env (clear_index env w)
  unfolding clear_index
  clear_index-Kept w k = record {
    pools = clear_pools-Good w.built k.pools;
    pinned = λ _. tt;
    before = λ _ _. refl;
  }

  with_subtree-Kept :
      (fuel : ℕ) (w : Progress M W) (root : ℕ) (r : Result (Unit {0}))
      → Kept env w
      → Kept env (with_subtree env fuel w root r).0
  unfolding with_subtree clear_index
  with_subtree-Kept fuel w root (err e) k = k
  with_subtree-Kept fuel w root (ok _) k =
      drained-Kept fuel (clear_index env w) root _ (clear_index-Kept w k) refl

  run_index-Kept :
      (fuel : ℕ) (w : Progress M W) (root : ℕ) (r : Result Stat)
      → Kept env w
      → Kept env (run_index env fuel w root r).0
  unfolding run_index
  run_index-Kept fuel w root (err e) k = k
  run_index-Kept fuel w root (ok sb) k = with_subtree-Kept fuel w root _ k

  end_index-words :
      (words : Words) (run : Progress M W × ℕ × Result (Unit {0}))
      → words.index_state ≡ indexing
      → let (h, ret) = end_index env words run in
        (ret ≡ run.2)
        × (h.progress ≡ run.0)
        × (h.words.index_state ≡ (if errno ret == 0 then clean else dirty))
        × (h.words.seq_lock ≡ (words.seq_lock + 1) % u32_mod)
  unfolding end_index bump_seq mark_index_done
  end_index-words words (w, root, r) e = ground arith

  mounted-IsResting :
      (fuel : ℕ) (h : Handle M W) (mountpoint : Bytes)
      → IsResting env h
      → let (h', r) = index_mounted env fuel h mountpoint in
        IsResting env h'
        × (h'.words.index_state
            ≡ unless_empty mountpoint h.words.index_state (if errno r == 0 then clean else dirty))
        × (h'.words.seq_lock
            ≡ unless_empty mountpoint h.words.seq_lock ((h.words.seq_lock + 2) % u32_mod))
  unfolding index_mounted bump_seq
  mounted-IsResting fuel h [] i = (i, refl, refl)
  mounted-IsResting fuel h (c ∷ cs) i =
      let run = run_index env fuel h.progress h.root_idx (check_root (env.lstat env.mountpoint)) in
      let words : Words = bump_seq (record (h.words) { index_state = indexing }) in
      let ends = end_index-words words run refl in
      (
        record {
          kept = rw (ends.1) (run_index-Kept fuel h.progress h.root_idx _ i.kept);
          even = omega (arith, ends.3, i.even);
        },
        ends.2,
        omega (arith, ends.3),
      )

  -- xal_be_fiemap_index(), with nobody else at the handle, whatever the kernel answers with counts of
  -- 32 bits and directories of fewer than 2 ^ 63 entries: from valid pools and an even sequence lock
  -- it comes to such again, and in snapshot mode from extents that were read from clones that stand
  -- in the shadow directory to such extents. With a mountpoint, the lock is two on and the index is
  -- clean if the result is 0 and dirty if it is an errno; without one, neither word moves.
  pub fiemap_index-IsResting :
      (fuel : ℕ) (h : Handle M W)
      → IsResting env h
      → let (h', r) = fiemap_index env fuel h in
        IsResting env h'
        × (h'.words.index_state
            ≡ unless_empty env.mountpoint h.words.index_state
                (if errno r == 0 then clean else dirty))
        × (h'.words.seq_lock
            ≡ unless_empty env.mountpoint h.words.seq_lock ((h.words.seq_lock + 2) % u32_mod))
  unfolding fiemap_index
  fiemap_index-IsResting fuel h i = mounted-IsResting fuel h env.mountpoint i
