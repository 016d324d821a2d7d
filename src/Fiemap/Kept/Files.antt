-- ===== src/Fiemap/Kept/Files.antt =====
-- xal_be_fiemap_process_inode_file() (src/xal_be_fiemap.c): the pools and the clones that it leaves.
use xal.Base.{
  ℕ, zero, suc, ◌+◌, ◌-◌, ◌||◌, ltb, ◌==◌, ◌^◌, ◌<◌, ◌≡◌, refl, Bool, true, false, none, some, List,
  Result, ok, err, arith, Option-cases, if_elim, inl, inr, length,
}
use xal.Model.{Extent, is_file}
use xal.Pool.{Pool, Sys}
use xal.Pool.Valid.{IsValid}
use xal.Disk.{is_reg_mode}
use xal.Build.State.{inode_of}
use xal.Build.Pools.{store-IsValid, set_content-Good, extents-IsValid}
use xal.Fiemap.State.{
  Bytes, FsEnv, Progress, Target, Stat, Dirent, Fiemap, FiemapExtent, FiemapIoctl,
}
use xal.Fiemap.Mapping.{
  fiemap_attempts, is_last, retried, fiemap_ioctl, whole_or, read_counted, read_attempts,
  read_fiemap,
}
use xal.Fiemap.Visit.{
  store_extents, store_mapping, keep_mapping, map_target, map_opened, process_inode_file,
}
use xal.Fiemap.Kept.{Kept, Keeps, Opens, built-Kept, go_on-Kept, insert_path-Keeps}
use xal.Fiemap.Kept.Clones.{clone_file-Opens}

-- What the index asks of the kernel: `fm_mapped_extents` is a `__u32`, and a directory has fewer than
-- 2 ^ 63 entries.
pub record IsSane {M W : Type 0} (env : FsEnv M W) : Type 0 where
  pub counts :
      (t : Target) (k : ℕ) (sync : Bool) (c : ℕ) {f : Fiemap}
      → env.fiemap t k sync c ≡ ok f
      → f.mapped_extents < 2 ^ 32
  pub entries : (path : Bytes) {l : List Dirent} → env.opendir path ≡ ok l → length l < 2 ^ 63

-- An answer with a count of 32 bits.
abbrev pub IsCount : Result Fiemap → Type 0
IsCount (err e) = Unit {0}
IsCount (ok f) = f.mapped_extents < 2 ^ 32

IsCount-intro :
    (r : Result Fiemap) → ((f : Fiemap) → r ≡ ok f → f.mapped_extents < 2 ^ 32) → IsCount r
IsCount-intro (err e) h = tt
IsCount-intro (ok f) h = h f refl

module _ (ioctl : FiemapIoctl) (counts : (k : ℕ) (s : Bool) (c : ℕ) → IsCount (ioctl k s c)) where
  retried-IsCount :
      (k : ℕ) (sync : Bool) (c : ℕ) (r : Result Fiemap)
      → IsCount r
      → IsCount (retried ioctl k sync c r).1
  unfolding retried
  retried-IsCount k sync c (ok f) h = h
  retried-IsCount k true c (err e) h = counts (k + 1) false c
  retried-IsCount k false c (err e) h = tt

  whole_or-IsCount :
      (rest : Result Fiemap) (c : ℕ) (r : ℕ × Result Fiemap)
      → IsCount rest
      → IsCount r.1
      → IsCount (whole_or rest c r)
  unfolding whole_or
  whole_or-IsCount rest c (k, err e) h i = tt
  whole_or-IsCount rest c (k, ok f) h i =
      if_elim IsCount (ltb f.mapped_extents c || is_last (f.extents (f.mapped_extents - 1)))
        {x = ok f} {y = rest} (λ _. i) (λ _. h)

  read_counted-IsCount :
      (s : Sys) (again : ℕ → Result Fiemap) (r : ℕ × Result Fiemap)
      → ((k : ℕ) → IsCount (again k))
      → IsCount r.1
      → IsCount (read_counted ioctl s again r)
  unfolding read_counted fiemap_ioctl
  read_counted-IsCount s again (k, err e) h i = tt
  read_counted-IsCount (some e) again (k, ok f) h i =
      if_elim IsCount (f.mapped_extents == 0) {x = ok f} {y = err e} (λ _. i) (λ _. tt)
  read_counted-IsCount none again (k, ok f) h i =
      let c = f.mapped_extents in
      let second = fiemap_ioctl ioctl k false c in
      if_elim IsCount (c == 0) {x = ok f} {y = whole_or (again second.0) c second} (λ _. i)
        (λ _.
          whole_or-IsCount (again second.0) c second (h second.0)
            (retried-IsCount k false c (ioctl k false c) (counts k false c)))

  read_attempts-IsCount :
      (realloc : ℕ → Sys) (n : ℕ) (sync : Bool) (k : ℕ)
      → IsCount (read_attempts ioctl realloc n sync k)
  unfolding read_attempts fiemap_ioctl
  read_attempts-IsCount realloc zero sync k = tt
  read_attempts-IsCount realloc (suc n) sync k =
      read_counted-IsCount (realloc n) _ _ (read_attempts-IsCount realloc n false)
        (retried-IsCount k sync 0 _ (counts k sync 0))

store_extents-IsValid :
    (bs : ℕ) (n : ℕ) (fe : ℕ → FiemapExtent) (i : ℕ) (p : Pool Extent)
    → IsValid p
    → IsValid (store_extents bs fe i n p)
unfolding store_extents
store_extents-IsValid bs zero fe i p v = v
store_extents-IsValid bs (suc n) fe i p v =
    store_extents-IsValid bs n (λ j. fe (suc j)) (i + 1) _ (store-IsValid p i _ v)

module _ {M W : Type 0} (env : FsEnv M W) (sane : IsSane env) where
  store_mapping-Kept :
      (t : Target) (self : ℕ) (f : Fiemap) (w : Progress M W) (r : Pool Extent × Result ℕ)
      → Opens env (w, ok t)
      → IsValid r.0
      → Kept env (store_mapping env t self f w r).0
  unfolding store_mapping
  store_mapping-Kept t self f w (p, err e) o v = built-Kept env w _ o.kept (o.kept.pools.0, v)
  store_mapping-Kept t self f w (p, ok i) o v = record {
    pools =
        set_content-Good _ self i f.mapped_extents
          (o.kept.pools.0, store_extents-IsValid env.sb.blocksize f.mapped_extents f.extents i p v);
    pinned = λ r. ((o.ready r).0, o.kept.pinned r);
    before = λ r d. absurd (ground (arith, (o.ready r).1, d));
  }

  keep_mapping-Kept :
      (t : Target) (self : ℕ) (w : Progress M W) (r : Result Fiemap)
      → Opens env (w, ok t)
      → IsCount r
      → Kept env (keep_mapping env t self w r).0
  unfolding keep_mapping
  keep_mapping-Kept t self w (err e) o c = o.kept
  keep_mapping-Kept t self w (ok f) o c =
      if_elim (λ (r : Progress M W × Result (Unit {0})). Kept env r.0) (f.mapped_extents == 0)
        (λ _. o.kept)
        (λ _. store_mapping-Kept t self f w _ o (
          extents-IsValid env.extents_mprotect w.built.extents f.mapped_extents o.kept.pools.1
            (omega (arith, c))))

  map_target-Kept :
      (path : Bytes) (self : ℕ) (r : Progress M W × Result Target)
      → Opens env r
      → Kept env (map_target env path self r).0
  unfolding map_target read_fiemap
  map_target-Kept path self (w, err e) o = o.kept
  map_target-Kept path self (w, ok t) o = elim (Option-cases (env.malloc path)) [
    | inr (errno, e) ↦ rw (e, map_target) (o.kept)
    | inl e ↦
        rw (e, map_target)
          (go_on-Kept env _ _
            (keep_mapping-Kept t self w (read_fiemap (env.fiemap t) (env.realloc t)) o (
              read_attempts-IsCount (env.fiemap t)
                (λ k s c. IsCount-intro _ (λ f. sane.counts t k s c)) (env.realloc t)
                fiemap_attempts true 0))
            (insert_path-Keeps env path self))
  ]

  map_opened-Kept :
      (path : Bytes) (self : ℕ) (w : Progress M W) (r : Result Stat)
      → Kept env w
      → Kept env (map_opened env path self w r).0
  unfolding map_opened
  map_opened-Kept path self w (err e) k = k
  map_opened-Kept path self w (ok st) k =
      if_elim (λ (r : Progress M W × Result (Unit {0})). Kept env r.0) (is_reg_mode st.mode)
        (λ _. map_target-Kept path self _ (
          if_elim (Opens env) env.reflink (λ on. clone_file-Opens env path w k on)
            (λ off. record { kept = k; ready = λ on. absurd (ground (arith, on, off)) })))
        (λ _. k)

  pub inode_file-Keeps : (path : Bytes) (self : ℕ) → Keeps env (process_inode_file env path self)
  unfolding process_inode_file
  inode_file-Keeps path self w k =
      if_elim (λ (r : Progress M W × Result (Unit {0})). Kept env r.0)
        (is_file (inode_of w.built self))
        (λ _. elim (Option-cases (env.open_file path)) [
          | inr (errno, e) ↦ rw e k
          | inl e ↦ rw e (map_opened-Kept path self w (env.fstat path) k)
        ])
        (λ _. k)
