-- ===== src/Fiemap/Kept.antt =====
-- What the walk of src/xal_be_fiemap.c keeps at every step: valid pools, and, where the handle takes
-- snapshots, the clones that the extents in the pools were read from.
pub mod Clones
pub mod Files
pub mod Dirs
pub mod Root
use xal.Base.{
  ℕ, zero, suc, ◌+◌, ◌^◌, ◌<◌, ◌≤◌, ◌≡◌, refl, sym, ap, Bool, true, false, Option, none, some, List,
  [], ◌∷◌, Result, ok, err, ◌==◌, ◌&&◌, ◌||◌, if◌then◌else◌, arith, length, All, Bool-cases,
  Option-cases, inl, inr,
}
use mathlib.Core.Path.{subst}
use xal.Model.{Inode, Extent}
use xal.Pool.{Pool, claim_inodes, claim_extents}
use xal.Pool.Valid.{IsValid}
use xal.Build.State.{Built, set_inode}
use xal.Build.Pools.{
  Good, store-IsValid, set_inode-Good, set_content-Good, add_count-Good, inodes-IsValid,
  extents-IsValid,
}
use xal.Fiemap.State.{
  Bytes, FsEnv, Progress, Target, origin, clone, Stat, Statx, Dirent, Fiemap, FiemapExtent, go_on,
  insert_path, insert_into, path_map_insert, put_path,
}
use xal.Fiemap.Mapping.{read_fiemap}
use xal.Fiemap.Shadow.{reflink_dir_prepare, reflink_dir_purge}
use xal.Fiemap.Shadow.{has_clone}

-- A clone that stands in the shadow directory.
abbrev pub Held : List (ℕ × ℕ) → Target → Type 0
Held clones (origin path) = ⊥
Held clones (clone ino gen) = has_clone ino gen clones ≡ true

module _ {M W : Type 0} (env : FsEnv M W) where
  pub record Kept (w : Progress M W) : Type 0 where
    pub pools : Good w.built
    pub pinned : env.reflink ≡ true → All (Held w.clones) w.mapped
    pub before : env.reflink ≡ true → w.dir_created ≡ false → w.mapped ≡ []

  -- A step of the walk that keeps it, whatever its result.
  abbrev pub Keeps : (Progress M W → Progress M W × Result (Unit {0})) → Type 0
  Keeps f = (w : Progress M W) → Kept w → Kept (f w).0

  pub go_on-Kept :
      (r : Progress M W × Result (Unit {0}))
      (next : Progress M W → Progress M W × Result (Unit {0}))
      → Kept r.0
      → Keeps next
      → Kept (go_on r next).0
  unfolding go_on
  go_on-Kept (w, err e) next k n = k
  go_on-Kept (w, ok _) next k n = n w k

  -- Only the pools change, and stay valid.
  pub built-Kept : (w : Progress M W) (b : Built) → Kept w → Good b → Kept (record w { built = b })
  built-Kept w b k g = record { pools = g; pinned = k.pinned; before = k.before }

  put_path-Kept : (w : Progress M W) (m : Option M) → Kept w → Kept (put_path w m).0
  unfolding put_path
  put_path-Kept w none k = k
  put_path-Kept w (some m) k = record { pools = k.pools; pinned = k.pinned; before = k.before }

  insert_into-Kept :
      (path : Bytes) (self : ℕ) (w : Progress M W) (m : Option M)
      → Kept w
      → Kept (insert_into env path self w m).0
  unfolding insert_into path_map_insert
  insert_into-Kept path self w none k = k
  insert_into-Kept path self w (some m) k = elim (Option-cases (env.strdup path)) [
    | inl s ↦ rw (s, insert_into, path_map_insert) (put_path-Kept w (env.paths.put m path self) k)
    | inr (errno, s) ↦ rw (s, insert_into, path_map_insert) k
  ]

  pub insert_path-Keeps : (path : Bytes) (self : ℕ) → Keeps (insert_path env path self)
  unfolding insert_path
  insert_path-Keeps path self w k = insert_into-Kept path self w w.path_inode_map k

  -- What reflink_clone_file() promises of a target: it stands in the directory.
  abbrev pub IsReady : Progress M W → Result Target → Type 0
  IsReady w (err e) = Unit {0}
  IsReady w (ok target) = Held w.clones target × (w.dir_created ≡ true)

  -- A step that gives a target to map.
  pub record Opens (r : Progress M W × Result Target) : Type 0 where
    pub kept : Kept r.0
    pub ready : env.reflink ≡ true → IsReady r.0 r.1

  pub failed-Opens : (w : Progress M W) (e : ℕ) → Kept w → Opens (w, err e)
  failed-Opens w e k = record { kept = k; ready = λ _. tt }
