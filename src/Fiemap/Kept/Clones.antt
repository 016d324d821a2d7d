-- ===== src/Fiemap/Kept/Clones.antt =====
-- reflink_clone_file() (src/xal_be_fiemap.c) keeps the clones that stand, and gives one that stands.
use xal.Base.{
  ℕ, ◌≡◌, refl, true, List, [], ◌∷◌, Result, ok, err, arith, All, Bool-cases, Option-cases, if_elim,
  inl, inr,
}
use xal.Fiemap.State.{Bytes, FsEnv, Progress, Target, origin, clone, Stat}
use xal.Fiemap.Shadow.{
  has_clone, reflink_clone_file, clone_prepared, name_clone, create_clone, fill_clone, fail_created,
  reflink_dir_prepare, reflink_dir_purge, reflink_sweep_orphans,
}
use xal.Fiemap.Kept.{Held, Kept, Opens, failed-Opens}

module _ {M W : Type 0} (env : FsEnv M W) where
  has_more :
      (ino gen i g : ℕ) (clones : List (ℕ × ℕ))
      → has_clone i g clones ≡ true
      → has_clone i g ((ino, gen) ∷ clones) ≡ true
  unfolding has_clone
  has_more ino gen i g clones h = rw h (ground arith)

  has_new : (ino gen : ℕ) (clones : List (ℕ × ℕ)) → has_clone ino gen ((ino, gen) ∷ clones) ≡ true
  unfolding has_clone
  has_new ino gen clones = ground arith

  Held-more :
      (ino gen : ℕ) (clones : List (ℕ × ℕ)) (ts : List Target)
      → All (Held clones) ts
      → All (Held ((ino, gen) ∷ clones)) ts
  Held-more ino gen clones [] h = tt
  Held-more ino gen clones (origin p ∷ ts) h = absurd (h.0)
  Held-more ino gen clones (clone i g ∷ ts) h =
      (has_more ino gen i g clones h.0, Held-more ino gen clones ts h.1)

  created-Kept :
      (ino gen : ℕ) (w : Progress M W)
      → Kept env w
      → Kept env (record w { clones = (ino, gen) ∷ w.clones })
  created-Kept ino gen w k = record {
    pools = k.pools;
    pinned = λ r. Held-more ino gen w.clones w.mapped (k.pinned r);
    before = k.before;
  }

  fail_created-Kept :
      (ino gen : ℕ) (w : Progress M W)
      → Kept env w
      → Kept env (fail_created env ino gen (record w { clones = (ino, gen) ∷ w.clones }) w.clones)
  unfolding fail_created
  fail_created-Kept ino gen w k = elim (Option-cases (env.unlink_clone ino gen)) [
    | inl e ↦ rw (e, fail_created) k
    | inr (errno, e) ↦ rw (e, fail_created) (created-Kept ino gen w k)
  ]

  fill_clone-Opens :
      (ino gen : ℕ) (w : Progress M W)
      → Kept env w
      → w.dir_created ≡ true
      → Opens env (fill_clone env ino gen w)
  unfolding fill_clone
  fill_clone-Opens ino gen w k d = elim (Option-cases (env.ficlone ino gen)) [
    | inr (errno, e) ↦ rw (e, fill_clone) (failed-Opens env _ errno (fail_created-Kept ino gen w k))
    | inl e ↦
        rw (e, fill_clone)
          (elim (Option-cases (env.set_immutable ino gen)) [
            | inr (errno, f) ↦
                rw (f, fill_clone) (failed-Opens env _ errno (fail_created-Kept ino gen w k))
            | inl f ↦
                rw (f, fill_clone)
                  (record {
                    kept = created-Kept ino gen w k;
                    ready = λ _. (has_new ino gen w.clones, d);
                  })
          ])
  ]

  create_clone-Opens :
      (ino gen : ℕ) (w : Progress M W)
      → Kept env w
      → w.dir_created ≡ true
      → Opens env (create_clone env ino gen w)
  unfolding create_clone
  create_clone-Opens ino gen w k d = elim (Bool-cases (has_clone ino gen w.clones)) [
    | inl h ↦ rw h (elim (Option-cases (env.reopen_clone ino gen)) [
      | inr (errno, e) ↦ rw e (failed-Opens env w errno k)
      | inl e ↦ rw e (record { kept = k; ready = λ _. (h, d) })
    ])
    | inr h ↦ rw h (elim (Option-cases (env.open_clone ino gen)) [
      | inr (errno, e) ↦ rw e (failed-Opens env w errno k)
      | inl e ↦ rw e (fill_clone-Opens ino gen w k d)
    ])
  ]

  name_clone-Opens :
      (w : Progress M W) (st : Result Stat) (gen : Result ℕ)
      → Kept env w
      → w.dir_created ≡ true
      → Opens env (name_clone env w st gen)
  unfolding name_clone
  name_clone-Opens w (err e) gen k d = failed-Opens env w e k
  name_clone-Opens w (ok st) (err e) k d = failed-Opens env w e k
  name_clone-Opens w (ok st) (ok gen) k d = elim (Bool-cases (env.truncated st.ino gen)) [
    | inl t ↦ rw t (failed-Opens env w _ k)
    | inr t ↦ rw t (create_clone-Opens st.ino gen w k d)
  ]

  purge-Kept :
      (w : Progress M W)
      → Kept env w
      → (env.reflink ≡ true → w.mapped ≡ [])
      → Kept env (reflink_dir_purge env w)
  unfolding reflink_dir_purge
  purge-Kept w k none_mapped = elim (Option-cases (env.opendir_shadow env.shadow_dir)) [
    | inr (errno, e) ↦ rw (e, reflink_dir_purge) k
    | inl e ↦
        rw (e, reflink_dir_purge)
          (record {
            pools = k.pools;
            pinned = λ r. rw (none_mapped r) tt;
            before = λ r d. none_mapped r;
          })
  ]

  dir_purge-mapped : (w : Progress M W) → (reflink_dir_purge env w).mapped ≡ w.mapped
  unfolding reflink_dir_purge
  dir_purge-mapped w = elim (Option-cases (env.opendir_shadow env.shadow_dir)) [
    | inr (errno, e) ↦ rw (e, reflink_dir_purge) refl
    | inl e ↦ rw (e, reflink_dir_purge) refl
  ]

  prepared-Opens :
      (path : Bytes) (r : Progress M W × Result (Unit {0}))
      → Kept env r.0
      → (r.1 ≡ ok tt → r.0.dir_created ≡ true)
      → Opens env (clone_prepared env path r)
  unfolding clone_prepared
  prepared-Opens path (w, err e) k d = failed-Opens env w e k
  prepared-Opens path (w, ok _) k d =
      name_clone-Opens w (env.fstat path) (env.getversion path) k (d refl)

  dir_prepare-Opens :
      (path : Bytes) (w : Progress M W)
      → Kept env w
      → (env.reflink ≡ true → w.mapped ≡ [])
      → Opens env (clone_prepared env path (reflink_dir_prepare env w))
  unfolding reflink_dir_prepare clone_prepared
  dir_prepare-Opens path w k none_mapped =
      let purged_kept = purge-Kept w k none_mapped in
      elim (Option-cases (env.mkdir env.shadow_dir)) [
        | inr (errno, e) ↦
            rw (e, reflink_dir_prepare)
              (failed-Opens env (reflink_dir_purge env w) errno purged_kept)
        | inl e ↦
            rw (e, reflink_dir_prepare)
              (prepared-Opens path (record (reflink_dir_purge env w) { dir_created = true }, ok tt)
                (record {
                  pools = purged_kept.pools;
                  pinned = purged_kept.pinned;
                  before = λ r d. rw (dir_purge-mapped w) (none_mapped r);
                })
                (λ _. refl))
      ]

  -- Each step of reflink_clone_file() leaves the clones that the extents in the pools were read from, and
  -- where it succeeds the clone that it gives stands in the directory.
  pub clone_file-Opens :
      (path : Bytes) (w : Progress M W)
      → Kept env w
      → env.reflink ≡ true
      → Opens env (reflink_clone_file env path w)
  unfolding reflink_clone_file
  clone_file-Opens path w k on =
      if_elim (λ r. Opens env (clone_prepared env path r)) w.dir_created
        (λ d. prepared-Opens path (w, ok tt) k (λ _. d))
        (λ d. dir_prepare-Opens path w k (λ r. k.before r d))

  pub sweep-Kept :
      (w : Progress M W)
      → Kept env w
      → (env.reflink ≡ true → w.mapped ≡ [])
      → Kept env (reflink_sweep_orphans env w)
  unfolding reflink_sweep_orphans
  sweep-Kept w k none_mapped = elim (Option-cases (env.opendir_mountpoint env.mountpoint)) [
    | inr (errno, e) ↦ rw (e, reflink_sweep_orphans) k
    | inl e ↦
        rw (e, reflink_sweep_orphans)
          (if_elim (Kept env) (env.shadow_truncated env.mountpoint) (λ _. k)
            (λ _. purge-Kept w k none_mapped))
  ]

  pub sweep-mapped : (w : Progress M W) → (reflink_sweep_orphans env w).mapped ≡ w.mapped
  unfolding reflink_sweep_orphans
  sweep-mapped w = elim (Option-cases (env.opendir_mountpoint env.mountpoint)) [
    | inr (errno, e) ↦ rw (e, reflink_sweep_orphans) refl
    | inl e ↦
        rw (e, reflink_sweep_orphans)
          (if_elim (λ (u : Progress M W). u.mapped ≡ w.mapped) (env.shadow_truncated env.mountpoint)
            (λ _. refl) (λ _. dir_purge-mapped w))
  ]
