-- ===== src/Fiemap/Paths.antt =====
-- build_hashmap_walk(), xal_build_lookup_hashmap() and xal_be_fiemap_get_inode() (src/xal_be_fiemap.c), and
-- xal_get_inode() (src/xal.c) where it calls the last. The map is built at rest.
pub mod Keys
pub mod Complete
pub mod RoundTrip
use xal.Base.{
  ℕ, zero, suc, ◌+◌, ◌%◌, Bool, true, false, List, [], ◌∷◌, Option, none, some, Result, ok, err,
  einval, estale, enoent, enomem, ltb, ◌==◌, if◌then◌else◌, too_deep, u32_mod,
}
use xal.Model.{Inode, is_dir, pool_idx_none}
use xal.Pool.{Sys}
use xal.Sync.{is_dirty, is_odd}
use xal.Reader.{View, Seen, still, seq_at}
use xal.Path.{inode_path}
use xal.Lookup.{path_under_basepath, search_by_traversal, check_seq}
use xal.Fiemap.State.{Bytes, FsEnv, Progress, Khash, insert_path, go_on}
use xal.Fiemap.Index.{walk_root}

-- XAL_INODE_PATH_MAXLEN + 1
abbrev pub path_nbytes : ℕ
path_nbytes = 4097

module _ {M W : Type 0} (env : FsEnv M W) (s : Seen) where
  -- The path of an inode of the index.
  abbrev pub path_of : ℕ → Result Bytes
  path_of i = (inode_path (still s) (walk_root env) path_nbytes i).1

  -- The loop over the children of a directory.
  unfoldable pub hash_children :
      (ℕ → Progress M W → Progress M W × Result (Unit {0}))
      → ℕ
      → ℕ
      → Progress M W
      → Progress M W × Result (Unit {0})
  hash_children walk i zero w = (w, ok tt)
  hash_children walk i (suc n) w =
      if ltb (i % u32_mod) s.pools.inodes.allocated
      then go_on (walk (i % u32_mod) w) (hash_children walk (i + 1) n)
      else (w, err estale)

  unfoldable pub hash_dir :
      (ℕ → Progress M W → Progress M W × Result (Unit {0}))
      → ℕ
      → Progress M W
      → Progress M W × Result (Unit {0})
  hash_dir walk i w =
      let n = s.pools.inodes.elems i in
      if is_dir n then hash_children walk n.content.idx n.content.count w else (w, ok tt)

  unfoldable pub hash_path :
      (ℕ → Progress M W → Progress M W × Result (Unit {0}))
      → ℕ
      → Result Bytes
      → Progress M W
      → Progress M W × Result (Unit {0})
  hash_path walk i (err e) w = (w, err e)
  hash_path walk i (ok path) w = go_on (insert_path env path i w) (hash_dir walk i)

  -- `build_hashmap_walk`, with fuel for the depth.
  unfoldable pub build_hashmap_walk : ℕ → ℕ → Progress M W → Progress M W × Result (Unit {0})
  build_hashmap_walk zero i w = (w, err too_deep)
  build_hashmap_walk (suc fuel) i w = hash_path (build_hashmap_walk fuel) i (path_of i) w

  -- A map that could not be filled goes.
  unfoldable pub keep_map : Progress M W × Result (Unit {0}) → Progress M W × Result (Unit {0})
  keep_map (w, err e) = (record w { path_inode_map = none }, err e)
  keep_map (w, ok _) = (w, ok tt)

  -- From kh_init() on.
  unfoldable pub fill_map : ℕ → Progress M W → Sys → Progress M W × Result (Unit {0})
  fill_map fuel w (some _) = (record w { path_inode_map = none }, err enomem)
  fill_map fuel w none = keep_map (
      build_hashmap_walk fuel s.pools.root_idx (record w { path_inode_map = some env.paths.empty }))

  -- `xal_build_lookup_hashmap` of a FIEMAP handle, with what kh_init() answers.
  unfoldable pub build_lookup_hashmap : ℕ → Sys → Progress M W → Progress M W × Result (Unit {0})
  build_lookup_hashmap fuel kh_init w =
      if is_dirty s.words
      then (w, err estale)
      else if ltb s.pools.root_idx s.pools.inodes.allocated
      then fill_map fuel w kh_init
      else (w, err estale)

module _ {M W : Type 0} (env : FsEnv M W) (bsearch : Bytes → List Bytes → Option ℕ) where
  -- kh_get() with what the source makes of its answer.
  unfoldable pub map_get : M → Bytes → Result ℕ
  map_get m path = elim (env.paths.get m path) [ none ↦ err enoent | some i ↦ ok i ]

  unfoldable pub find_inode : View → ℕ → Option M → ℕ → Bytes → ℕ × Result ℕ
  find_inode v t none root path = search_by_traversal bsearch v t root path (walk_root env)
  find_inode v t (some m) root path = (t, map_get m path)

  -- By what follows the base path.
  unfoldable pub find_remainder : View → ℕ → Option M → ℕ → Bytes → Option Bytes → ℕ × Result ℕ
  find_remainder v t map root path none = (t, err einval)
  find_remainder v t map root path (some []) = (t, ok root)
  find_remainder v t map root path (some (c ∷ [])) =
      if c == b'/' then (t, ok root) else find_inode v t map root path
  find_remainder v t map root path (some (c ∷ d ∷ cs)) = find_inode v t map root path

  -- `xal_be_fiemap_get_inode`, from access `t` on.
  unfoldable pub fiemap_get_inode : View → ℕ → Option M → Bytes → ℕ × Result ℕ
  fiemap_get_inode v t map path =
      if ltb (v t).pools.root_idx (v (t + 1)).pools.inodes.allocated
      then find_remainder v (t + 2) map (v t).pools.root_idx path
          (path_under_basepath path (walk_root env))
      else (t + 2, err estale)

  -- `xal_get_inode` of a FIEMAP handle.
  unfoldable pub get_inode_mounted : View → Option M → Bytes → ℕ × Result ℕ
  get_inode_mounted v map path =
      if is_dirty (v 0).words
      then (1, err estale)
      else if is_odd (seq_at v 1)
      then (2, err estale)
      else if (v 2).pools.root_idx == pool_idx_none
      then (3, err einval)
      else check_seq v (seq_at v 1) (fiemap_get_inode v 3 map path)
