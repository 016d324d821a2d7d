-- ===== src/Fiemap/Paths/RoundTrip.antt =====
-- xal_build_lookup_hashmap() (src/xal_be_fiemap.c), and xal_get_inode() (src/xal.c) on the map that it built.
use xal.Base.{ℕ, ◌≡◌, refl, List, ◌∷◌, Option, none, some, Result, ok, err, arith, ltb, if_elim}
use xal.Pool.{Sys}
use xal.Sync.{is_dirty}
use xal.Reader.{Seen, still}
use xal.Lookup.{path_under_basepath, check_seq}
use xal.Lookup.Find.{IsPublished}
use xal.Fiemap.Index.{walk_root}
use xal.Fiemap.State.{Bytes, FsEnv, Progress}
use xal.Fiemap.Paths.{
  path_of, build_hashmap_walk, keep_map, fill_map, build_lookup_hashmap, map_get, find_inode,
  find_remainder, fiemap_get_inode, get_inode_mounted,
}
use xal.Fiemap.Paths.Keys.{IsKhash, AreNamed, IsKey, put-AreNamed, walk-keeps}
use xal.Fiemap.Paths.Complete.{Below, Finds, walk-Finds}

module _ {M W : Type 0} (env : FsEnv M W) (law : IsKhash env.paths) (s : Seen) where
  keep_map-keys :
      (path : Bytes) (r : Progress M W × Result (Unit {0}))
      → AreNamed env law s r.0.path_inode_map
      → Finds env law s path r
      → (keep_map env s r).1 ≡ ok tt
      → AreNamed env law s (keep_map env s r).0.path_inode_map
        × IsKey env law s path (keep_map env s r).0.path_inode_map
  unfolding keep_map
  keep_map-keys path (u, err e) named finds h = absurd (ground (arith, h))
  keep_map-keys path (u, ok _) named finds h = (named, finds refl)

  fill_map-keys :
      (fuel : ℕ) (w : Progress M W) (kh_init : Sys) (j : ℕ) (path : Bytes)
      → path_of env s j ≡ ok path
      → Below s.pools s.pools.root_idx j
      → (fill_map env s fuel w kh_init).1 ≡ ok tt
      → AreNamed env law s (fill_map env s fuel w kh_init).0.path_inode_map
        × IsKey env law s path (fill_map env s fuel w kh_init).0.path_inode_map
  unfolding fill_map
  fill_map-keys fuel w (some e) j path p b h = absurd (ground (arith, h))
  fill_map-keys fuel w none j path p b h =
      let start : Progress M W = record w { path_inode_map = some env.paths.empty } in
      let walked = build_hashmap_walk env s fuel s.pools.root_idx start in
      keep_map-keys path walked
        (walk-keeps env law s (AreNamed env law s)
          (λ m m' p i e named put. put-AreNamed env law s m m' p i e named put) fuel
          s.pools.root_idx start (λ p i g. absurd (ground (arith, law.get_empty p, g))))
        (walk-Finds env law s path fuel s.pools.root_idx j start tt p b) h

  get_found :
      (bsearch : Bytes → List Bytes → Option ℕ) (map : Option M) (c d : ℕ) (cs path : Bytes)
      → IsPublished s
      → path_under_basepath path (walk_root env) ≡ some (c ∷ d ∷ cs)
      → AreNamed env law s map
      → IsKey env law s path map
      → (k : ℕ) × ((get_inode_mounted env bsearch (still s) map path).1 ≡ ok k)
        × (path_of env s k ≡ ok path)
  unfolding get_inode_mounted fiemap_get_inode find_remainder find_inode map_get check_seq
  get_found bsearch none c d cs path i behind named key = absurd key
  get_found bsearch (some m) c d cs path i behind named (k, g) = (k, found, named path k g)
    where
      hit :
          (find_remainder env bsearch
            (still s)
            5
            (some m)
            s.pools.root_idx
            path
            (path_under_basepath path (walk_root env))).1
          ≡ ok k
      hit = rw (behind, g, find_remainder, find_inode, map_get) refl

      found : (get_inode_mounted env bsearch (still s) (some m) path).1 ≡ ok k
      found = ground (arith, i.clean, i.even, i.rooted, i.root_in_pool, hit)

  build-keys :
      (fuel : ℕ) (kh_init : Sys) (w : Progress M W) (j : ℕ) (path : Bytes)
      → path_of env s j ≡ ok path
      → Below s.pools s.pools.root_idx j
      → (build_lookup_hashmap env s fuel kh_init w).1 ≡ ok tt
      → AreNamed env law s (build_lookup_hashmap env s fuel kh_init w).0.path_inode_map
        × IsKey env law s path (build_lookup_hashmap env s fuel kh_init w).0.path_inode_map
  unfolding build_lookup_hashmap
  build-keys fuel kh_init w j path p b =
      if_elim Keyed (is_dirty s.words) (λ _ h. absurd (ground (arith, h)))
        (λ _.
          if_elim Keyed (ltb s.pools.root_idx s.pools.inodes.allocated)
            (λ _. fill_map-keys fuel w kh_init j path p b) (λ _ h. absurd (ground (arith, h))))
    where
      Keyed : Progress M W × Result (Unit {0}) → Type 0
      Keyed r =
          r.1 ≡ ok tt
          → AreNamed env law s r.0.path_inode_map × IsKey env law s path r.0.path_inode_map

  -- On an index at rest, once xal_build_lookup_hashmap() has succeeded, xal_get_inode() on the path that
  -- xal_inode_path() gives of an inode of the tree, one with a component behind the base path, returns
  -- an inode, and xal_inode_path() gives the same path of it.
  pub get_inode-inode_path :
      (bsearch : Bytes → List Bytes → Option ℕ) (fuel : ℕ) (kh_init : Sys) (w : Progress M W)
      (j c d : ℕ) (cs path : Bytes)
      → IsPublished s
      → (build_lookup_hashmap env s fuel kh_init w).1 ≡ ok tt
      → Below s.pools s.pools.root_idx j
      → path_of env s j ≡ ok path
      → path_under_basepath path (walk_root env) ≡ some (c ∷ d ∷ cs)
      → let map = (build_lookup_hashmap env s fuel kh_init w).0.path_inode_map in
        (k : ℕ) × ((get_inode_mounted env bsearch (still s) map path).1 ≡ ok k)
        × (path_of env s k ≡ ok path)
  get_inode-inode_path bsearch fuel kh_init w j c d cs path i built b p behind =
      let keys = build-keys fuel kh_init w j path p b built in
      get_found bsearch _ c d cs path i behind keys.0 keys.1
