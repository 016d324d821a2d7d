-- ===== src/Fiemap/Paths/Complete.antt =====
-- build_hashmap_walk() (src/xal_be_fiemap.c): every inode of the tree gets its path into the map.
use xal.Base.{
  ℕ, zero, suc, ◌+◌, ◌%◌, ◌<◌, ◌≡◌, refl, true, Option, none, some, Result, ok, err, arith, ltb,
  u32_mod, Option-cases, if_elim, inl, inr,
}
use xal.Model.{is_dir}
use xal.Reader.{Pools, Seen}
use xal.Fiemap.State.{
  Bytes, FsEnv, Progress, insert_path, insert_into, path_map_insert, put_path, go_on,
}
use xal.Fiemap.Paths.{path_of, hash_children, hash_dir, hash_path, build_hashmap_walk}
use xal.Fiemap.Paths.Keys.{
  IsKhash, IsKey, put-IsKey, put-IsKey_new, insert_into-keeps, children-keeps, dir-keeps,
  walk-keeps,
}

-- The inodes of the tree at `d`.
pub data Below (p : Pools) : ℕ → ℕ → Type 0 where
  itself : (d : ℕ) → Below p d d
  under :
      (d k j : ℕ)
      → is_dir (p.inodes.elems d) ≡ true
      → k < (p.inodes.elems d).content.count
      → Below p (((p.inodes.elems d).content.idx + k) % u32_mod) j
      → Below p d j

-- A step that goes on has succeeded before.
go_on-ok :
    {S : Type 0} (r : S × Result (Unit {0})) (next : S → S × Result (Unit {0}))
    → (go_on r next).1 ≡ ok tt
    → (r.1 ≡ ok tt) × (go_on r next ≡ next r.0)
unfolding go_on
go_on-ok (s, err e) next h = absurd (ground arith)
go_on-ok (s, ok _) next h = (refl, refl)

module _ {M W : Type 0} (env : FsEnv M W) (law : IsKhash env.paths) (s : Seen) where
  abbrev pub IsMap : Option M → Type 0
  IsMap none = ⊥
  IsMap (some m) = Unit {0}

  insert_into-IsKey :
      (p : Bytes) (i : ℕ) (w : Progress M W) (o : Option M)
      → IsMap o
      → (insert_into env p i w o).1 ≡ ok tt
      → IsKey env law s p (insert_into env p i w o).0.path_inode_map
  unfolding insert_into path_map_insert put_path
  insert_into-IsKey p i w none is h = absurd is
  insert_into-IsKey p i w (some m) is h = elim (Option-cases (env.strdup p)) [
    | inr (x, f) ↦ absurd (ground (arith, f, h))
    | inl f ↦
        rw (f, insert_into, path_map_insert)
          (elim (Option-cases (env.paths.put m p i)) [
            | inl g ↦ absurd (ground (arith, f, g, h))
            | inr (m', g) ↦ rw (g, put_path) (put-IsKey_new env law s m m' p i g)
          ])
  ]

  module _ (path : Bytes) where
    abbrev Found : Option M → Type 0
    Found = IsKey env law s path

    found_closed :
        (m m' : M) (p : Bytes) (i : ℕ)
        → path_of env s i ≡ ok p
        → Found (some m)
        → env.paths.put m p i ≡ some m'
        → Found (some m')
    found_closed m m' p i e f put = put-IsKey env law s m m' p path i put f

    -- In the map once, a path stays.
    children-Found :
        (fuel i n : ℕ) (w : Progress M W)
        → Found w.path_inode_map
        → Found (hash_children env s (build_hashmap_walk env s fuel) i n w).0.path_inode_map
    children-Found fuel i n w f =
        children-keeps env law s Found found_closed (build_hashmap_walk env s fuel) i n
          (walk-keeps env law s Found found_closed fuel) w f

    -- A result that a success comes with the path in the map.
    abbrev pub Finds : Progress M W × Result (Unit {0}) → Type 0
    Finds r = r.1 ≡ ok tt → Found r.0.path_inode_map

    go_on-Finds :
        (r : Progress M W × Result (Unit {0}))
        (next : Progress M W → Progress M W × Result (Unit {0}))
        → (r.1 ≡ ok tt → Finds (next r.0))
        → Finds (go_on r next)
    unfolding go_on
    go_on-Finds (w, err e) next f h = absurd (ground (arith, h))
    go_on-Finds (w, ok _) next f h = f refl h

    children_find :
        (fuel i n k c : ℕ) (w : Progress M W)
        → ((u : Progress M W) → IsMap u.path_inode_map → Finds (build_hashmap_walk env s fuel c u))
        → c ≡ (i + k) % u32_mod
        → IsMap w.path_inode_map
        → k < n
        → Finds (hash_children env s (build_hashmap_walk env s fuel) i n w)
    unfolding hash_children
    children_find fuel i zero k c w finds place is lt = absurd (omega (arith, lt))
    children_find fuel i (suc n) zero c w finds place is lt =
        let here : i % u32_mod ≡ c = omega (arith, place) in
        if_elim Finds (ltb (i % u32_mod) s.pools.inodes.allocated)
          (λ _.
            go_on-Finds _ _
              (λ done _. children-Found fuel (i + 1) n _ (rw here (finds w is (rw (← here) done)))))
          (λ _ h. absurd (ground (arith, h)))
    children_find fuel i (suc n) (suc k) c w finds place is lt =
        if_elim Finds (ltb (i % u32_mod) s.pools.inodes.allocated)
          (λ _. go_on-Finds _ _ (λ _.
            children_find fuel (i + 1) n k c _ finds (omega (arith, place))
              (walk-keeps env law s IsMap (λ _ _ _ _ _ _ _. tt) fuel (i % u32_mod) w is)
              (omega (arith, lt))))
          (λ _ h. absurd (ground (arith, h)))

    dir-Finds :
        (fuel i j : ℕ) (w : Progress M W)
        → ((c : ℕ) (u : Progress M W)
            → IsMap u.path_inode_map
            → Below s.pools c j
            → Finds (build_hashmap_walk env s fuel c u))
        → IsMap w.path_inode_map
        → Below s.pools i j
        → (i ≡ j → Found w.path_inode_map)
        → Finds (hash_dir env s (build_hashmap_walk env s fuel) i w)
    unfolding hash_dir
    dir-Finds fuel i _ w finds is (itself _) here = λ h.
        dir-keeps env law s Found found_closed (build_hashmap_walk env s fuel) i
          (walk-keeps env law s Found found_closed fuel) w (here refl)
    dir-Finds fuel i j w finds is (under _ k _ dir lt b) here =
        if_elim Finds (is_dir (s.pools.inodes.elems i))
          (λ _. children_find fuel _ _ k _ w (λ u m. finds _ u m b) refl is lt)
          (λ no. absurd (ground (arith, dir, no)))

    path-Finds :
        (fuel i j : ℕ) (w : Progress M W) (r : Result Bytes)
        → path_of env s i ≡ r
        → ((c : ℕ) (u : Progress M W)
            → IsMap u.path_inode_map
            → Below s.pools c j
            → Finds (build_hashmap_walk env s fuel c u))
        → IsMap w.path_inode_map
        → Below s.pools i j
        → path_of env s j ≡ ok path
        → Finds (hash_path env s (build_hashmap_walk env s fuel) i r w)
    unfolding hash_path insert_path
    path-Finds fuel i j w (err x) same finds is b e = λ h. absurd (ground (arith, h))
    path-Finds fuel i j w (ok p) same finds is b e = go_on-Finds _ _ (λ done.
        dir-Finds fuel i j _ finds
          (insert_into-keeps env law s IsMap (λ _ _ _ _ _ _ _. tt) p i w w.path_inode_map same refl
            is)
          b
          (λ own.
            let same_path : p ≡ path = cc (same, e, own) in
            rw (← same_path) (insert_into-IsKey p i w w.path_inode_map is done)))

    pub walk-Finds :
        (fuel i j : ℕ) (w : Progress M W)
        → IsMap w.path_inode_map
        → path_of env s j ≡ ok path
        → Below s.pools i j
        → Finds (build_hashmap_walk env s fuel i w)
    unfolding build_hashmap_walk
    walk-Finds zero i j w is e b = λ h. absurd (ground (arith, h))
    walk-Finds (suc fuel) i j w is e b =
        path-Finds fuel i j w (path_of env s i) refl
          (λ c u m below. walk-Finds fuel c j u m e below) is b e
