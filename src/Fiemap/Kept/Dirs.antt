-- ===== src/Fiemap/Kept/Dirs.antt =====
-- xal_be_fiemap_process_inode_dir() and process_ino_fiemap() (src/xal_be_fiemap.c): the pools and the
-- clones that they leave.
use xal.Base.{
  ℕ, zero, suc, ◌+◌, ◌^◌, ◌<◌, ◌≤◌, ◌≡◌, refl, Bool, List, [], ◌∷◌, Result, ok, err, arith,
  Option-cases, if_elim, inl, inr, length, ltb, ◌==◌, if◌then◌else◌, enomem,
}
use xal.Model.{Inode, is_dir, ft_unknown, ft_dir, ft_reg_file}
use xal.Pool.{Pool}
use xal.Pool.Valid.{IsValid}
use xal.Build.State.{inode_of}
use xal.Build.Pools.{set_inode-Good, set_content-Good, add_count-Good, inodes-IsValid}
use xal.Fiemap.State.{Bytes, FsEnv, Progress, Statx, Dirent}
use xal.Fiemap.Visit.{
  inode_name_maxlen, cons_ok, read_names, name_dentry, count_dentry, next_slot, process_entries,
  claim_entries, process_names, process_opened, add_watcher, process_inode_dir, type_of, process_as,
  process_found, process_ino_fiemap,
}
use xal.Fiemap.Kept.{Kept, Keeps, built-Kept, go_on-Kept, insert_path-Keeps}
use xal.Fiemap.Kept.Files.{IsSane, inode_file-Keeps}

-- No more names are kept than there are entries.
abbrev HasAtMost : ℕ → Result (List Bytes) → Type 0
HasAtMost n (err e) = Unit {0}
HasAtMost n (ok names) = length names ≤ n

cons-HasAtMost :
    (n : ℕ) (name : Bytes) (r : Result (List Bytes))
    → HasAtMost n r
    → HasAtMost (suc n) (cons_ok name r)
unfolding cons_ok
cons-HasAtMost n name (err e) h = tt
cons-HasAtMost n name (ok names) h = omega (arith, h)

more-HasAtMost : (n : ℕ) (r : Result (List Bytes)) → HasAtMost n r → HasAtMost (suc n) r
more-HasAtMost n (err e) h = tt
more-HasAtMost n (ok names) h = omega (arith, h)

read_names-HasAtMost :
    (listed : Dirent → Bool) (no_memory : ℕ → Bool) (n : ℕ) (ds : List Dirent)
    → HasAtMost (length ds) (read_names listed no_memory n ds)
unfolding read_names
read_names-HasAtMost listed no_memory n [] = omega arith
read_names-HasAtMost listed no_memory n (d ∷ ds) =
    let rest = read_names listed no_memory (n + 1) ds in
    let skipped = read_names listed no_memory n ds in
    if_elim (HasAtMost (suc (length ds))) (listed d)
      {x = if no_memory n then err enomem else cons_ok d.d_name rest} {y = skipped}
      (λ _.
        if_elim (HasAtMost (suc (length ds))) (no_memory n) {x = err enomem}
          {y = cons_ok d.d_name rest} (λ _. tt)
          (λ _.
            cons-HasAtMost (length ds) d.d_name rest
              (read_names-HasAtMost listed no_memory (n + 1) ds)))
      (λ _. more-HasAtMost (length ds) skipped (read_names-HasAtMost listed no_memory n ds))

module _ {M W : Type 0} (env : FsEnv M W) where
  -- What every action is to keep, whatever it returns.
  abbrev KeptOut : Progress M W × Result (Unit {0}) → Type 0
  KeptOut r = Kept env r.0

  count_dentry-Keeps : (self dentry : ℕ) → Keeps env (count_dentry env self dentry)
  unfolding count_dentry
  count_dentry-Keeps self dentry w k =
      if_elim KeptOut ((inode_of w.built dentry).ftype == ft_unknown)
        (λ _. built-Kept env w _ k (set_inode-Good w.built dentry _ k.pools))
        (λ _. built-Kept env w _ k (add_count-Good w.built self 1 k.pools))

  name_dentry-Kept :
      (self dentry : ℕ) (name : Bytes) (w : Progress M W)
      → Kept env w
      → Kept env (name_dentry env self dentry name w)
  unfolding name_dentry
  name_dentry-Kept self dentry name w k =
      built-Kept env w _ k (set_inode-Good w.built dentry _ k.pools)

  process_entries-Keeps :
      (process : Bytes → ℕ → Progress M W → Progress M W × Result (Unit {0})) (path : Bytes)
      (self : ℕ) (names : List Bytes)
      → ((p : Bytes) (i : ℕ) → Keeps env (process p i))
      → Keeps env (process_entries env process path self names)
  unfolding process_entries
  process_entries-Keeps process path self [] keeps w k = k
  process_entries-Keeps process path self (name ∷ names) keeps w k =
      if_elim KeptOut (ltb inode_name_maxlen (length name)) (λ _. k)
        (λ _.
          go_on-Kept env _ _
            (go_on-Kept env _ _
              (keeps _ _ _ (name_dentry-Kept self (next_slot env self w) name w k))
              (count_dentry-Keeps self (next_slot env self w)))
            (process_entries-Keeps process path self names keeps))

  claim_entries-Kept :
      (self : ℕ) (w : Progress M W) (r : Pool Inode × Result ℕ)
      → Kept env w
      → IsValid r.0
      → Kept env (claim_entries env self w r).0
  unfolding claim_entries
  claim_entries-Kept self w (p, err e) k v = built-Kept env w _ k (v, k.pools.1)
  claim_entries-Kept self w (p, ok i) k v =
      built-Kept env w _ k (set_content-Good _ self i 0 (v, k.pools.1))

  process_names-Kept :
      (process : Bytes → ℕ → Progress M W → Progress M W × Result (Unit {0})) (path : Bytes)
      (self n : ℕ) (w : Progress M W) (r : Result (List Bytes))
      → ((p : Bytes) (i : ℕ) → Keeps env (process p i))
      → Kept env w
      → n < 2 ^ 63
      → HasAtMost n r
      → Kept env (process_names env process path self w r).0
  unfolding process_names
  process_names-Kept process path self n w (err e) keeps k small h = k
  process_names-Kept process path self n w (ok names) keeps k small h =
      go_on-Kept env _ _
        (go_on-Kept env _ _
          (claim_entries-Kept self w _ k (
            inodes-IsValid env.inodes_mprotect w.built.inodes (length names) k.pools.0
              (omega (arith, small, h))))
          (process_entries-Keeps process path self (env.qsort names) keeps))
        (insert_path-Keeps env path self)

  add_watcher-Kept :
      (inode : ℕ) (r : Result ℕ) (w : Progress M W)
      → Kept env w
      → Kept env (add_watcher env inode r w).0
  unfolding add_watcher
  add_watcher-Kept inode (err e) w k = k
  add_watcher-Kept inode (ok wd) w k = elim (Option-cases (env.watches.put w.inode_map wd inode)) [
    | inl e ↦ rw (e, add_watcher) k
    | inr (m, e) ↦
        rw (e, add_watcher) (record { pools = k.pools; pinned = k.pinned; before = k.before })
  ]

  module _ (sane : IsSane env) where
    process_opened-Keeps :
        (process : Bytes → ℕ → Progress M W → Progress M W × Result (Unit {0})) (path : Bytes)
        (self : ℕ) (r : Result (List Dirent))
        → ((p : Bytes) (i : ℕ) → Keeps env (process p i))
        → ((l : List Dirent) → r ≡ ok l → length l < 2 ^ 63)
        → Keeps env (process_opened env process path self r)
    unfolding process_opened
    process_opened-Keeps process path self (err e) keeps small w k = k
    process_opened-Keeps process path self (ok l) keeps small w k =
        process_names-Kept process path self (length l) w _ keeps k (small l refl)
          (read_names-HasAtMost _ _ 0 l)

    inode_dir-Keeps :
        (process : Bytes → ℕ → Progress M W → Progress M W × Result (Unit {0})) (path : Bytes)
        (self : ℕ)
        → ((p : Bytes) (i : ℕ) → Keeps env (process p i))
        → Keeps env (process_inode_dir env process path self)
    unfolding process_inode_dir
    inode_dir-Keeps process path self keeps w k =
        if_elim KeptOut (is_dir (inode_of w.built self))
          (λ _.
            go_on-Kept env _ _
              (if_elim KeptOut env.watched (λ _. add_watcher-Kept self (env.add_watch path) w k)
                (λ _. k))
              (process_opened-Keeps process path self (env.opendir path) keeps
                (λ l e. sane.entries path e)))
          (λ _. k)

    process_as-Keeps :
        (process : Bytes → ℕ → Progress M W → Progress M W × Result (Unit {0})) (path : Bytes)
        (self : ℕ) (stx : Statx) (ftype : ℕ)
        → ((p : Bytes) (i : ℕ) → Keeps env (process p i))
        → Keeps env (process_as env process path self stx ftype)
    unfolding process_as
    process_as-Keeps process path self stx ftype keeps w k =
        let stored = built-Kept env w _ k (set_inode-Good w.built self _ k.pools) in
        if_elim KeptOut (ftype == ft_dir) (λ _. inode_dir-Keeps process path self keeps _ stored)
          (λ _.
            if_elim KeptOut (ftype == ft_reg_file)
              (λ _. inode_file-Keeps env sane path self _ stored) (λ _. stored))

    process_found-Keeps :
        (process : Bytes → ℕ → Progress M W → Progress M W × Result (Unit {0})) (path : Bytes)
        (self : ℕ) (r : Result Statx)
        → ((p : Bytes) (i : ℕ) → Keeps env (process p i))
        → Keeps env (process_found env process path self r)
    unfolding process_found
    process_found-Keeps process path self (err e) keeps w k = k
    process_found-Keeps process path self (ok stx) keeps w k =
        if_elim KeptOut ((inode_of w.built self).ftype == ft_unknown)
          (λ _.
            if_elim KeptOut (type_of env stx == ft_unknown) (λ _. k)
              (λ _. process_as-Keeps process path self stx (type_of env stx) keeps w k))
          (λ _. process_as-Keeps process path self stx (inode_of w.built self).ftype keeps w k)

    pub process_ino-Keeps :
        (fuel : ℕ) (path : Bytes) (self : ℕ) → Keeps env (process_ino_fiemap env fuel path self)
    unfolding process_ino_fiemap
    process_ino-Keeps zero path self w k = k
    process_ino-Keeps (suc fuel) path self w k =
        process_found-Keeps (process_ino_fiemap env fuel) path self (env.statx path)
          (process_ino-Keeps fuel) w k
