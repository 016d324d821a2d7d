-- ===== src/Fiemap/Paths/Keys.antt =====
-- The map from paths to inodes that src/xal_be_fiemap.c builds: its keys are the paths of the index.
use xal.Base.{
  ℕ, zero, suc, ◌+◌, ◌%◌, ◌≡◌, refl, sym, ap, ◌∙◌, true, false, Option, none, some, Result, ok, err,
  ltb, if◌then◌else◌, u32_mod, if_elim, Bool-cases, Option-cases, inl, inr,
}
use xal.Model.{is_dir}
use xal.Reader.{Seen}
use xal.Lookup.{same_name}
use xal.Lookup.Children.Names.{same_name_iff}
use xal.Fiemap.State.{
  Bytes, FsEnv, Progress, Khash, insert_path, insert_into, path_map_insert, put_path, go_on,
}
use xal.Fiemap.Paths.{path_of, hash_children, hash_dir, hash_path, build_hashmap_walk}

-- The documented behaviour of a table with paths for keys.
pub record IsKhash {M : Type 0} (k : Khash Bytes ℕ M) : Type 0 where
  pub get_empty : (p : Bytes) → k.get k.empty p ≡ none
  pub get_put :
      (m : M) (p : Bytes) (i : ℕ) {m' : M}
      → k.put m p i ≡ some m'
      → (q : Bytes) → k.get m' q ≡ (if same_name p q then some i else k.get m q)

module _ {M W : Type 0} (env : FsEnv M W) (law : IsKhash env.paths) (s : Seen) where
  -- Every key is the path of the inode it stands for.
  abbrev pub AreNamed : Option M → Type 0
  AreNamed none = Unit {0}
  AreNamed (some m) = (p : Bytes) (i : ℕ) → env.paths.get m p ≡ some i → path_of env s i ≡ ok p

  -- Whether a path is a key.
  abbrev pub IsKey : Bytes → Option M → Type 0
  IsKey p none = ⊥
  IsKey p (some m) = (i : ℕ) × (env.paths.get m p ≡ some i)

  pub get-put_same :
      (m m' : M) (p q : Bytes) (i : ℕ)
      → env.paths.put m p i ≡ some m'
      → same_name p q ≡ true
      → env.paths.get m' q ≡ some i
  get-put_same m m' p q i put h =
      law.get_put m p i put q ∙ ap (λ b. if b then some i else env.paths.get m q) h

  get-put_other :
      (m m' : M) (p q : Bytes) (i : ℕ)
      → env.paths.put m p i ≡ some m'
      → same_name p q ≡ false
      → env.paths.get m' q ≡ env.paths.get m q
  get-put_other m m' p q i put h =
      law.get_put m p i put q ∙ ap (λ b. if b then some i else env.paths.get m q) h

  pub put-AreNamed :
      (m m' : M) (p : Bytes) (i : ℕ)
      → path_of env s i ≡ ok p
      → AreNamed (some m)
      → env.paths.put m p i ≡ some m'
      → AreNamed (some m')
  put-AreNamed m m' p i e named put q j g = elim (Bool-cases (same_name p q)) [
    | inl h ↦
        let found = get-put_same m m' p q i put h in
        let same_inode : i ≡ j = cc (g, found) in
        let same_path : p ≡ q = (same_name_iff p q).0 h in rw (← same_inode, ← same_path) e
    | inr h ↦ named q j (sym (get-put_other m m' p q i put h) ∙ g)
  ]

  pub put-IsKey :
      (m m' : M) (p q : Bytes) (i : ℕ)
      → env.paths.put m p i ≡ some m'
      → IsKey q (some m)
      → IsKey q (some m')
  put-IsKey m m' p q i put (j, g) = elim (Bool-cases (same_name p q)) [
    | inl h ↦ (i, get-put_same m m' p q i put h)
    | inr h ↦ (j, get-put_other m m' p q i put h ∙ g)
  ]

  pub put-IsKey_new :
      (m m' : M) (p : Bytes) (i : ℕ) → env.paths.put m p i ≡ some m' → IsKey p (some m')
  put-IsKey_new m m' p i put = (i, get-put_same m m' p p i put ((same_name_iff p p).1 refl))

  -- What every insertion of an inode under its path keeps of the map, the walk keeps.
  module _ (Q : Option M → Type 0)
      (closed : (m m' : M) (p : Bytes) (i : ℕ)
        → path_of env s i ≡ ok p
        → Q (some m)
        → env.paths.put m p i ≡ some m'
        → Q (some m')) where
    -- An action that keeps it, whatever it returns.
    abbrev pub KeepsMap : (Progress M W → Progress M W × Result (Unit {0})) → Type 0
    KeepsMap f = (w : Progress M W) → Q w.path_inode_map → Q (f w).0.path_inode_map

    pub insert_into-keeps :
        (p : Bytes) (i : ℕ) (w : Progress M W) (o : Option M)
        → path_of env s i ≡ ok p
        → w.path_inode_map ≡ o
        → Q o
        → Q (insert_into env p i w o).0.path_inode_map
    unfolding insert_into path_map_insert put_path
    insert_into-keeps p i w none e same q = rw same q
    insert_into-keeps p i w (some m) e same q = elim (Option-cases (env.strdup p)) [
      | inr (x, f) ↦ rw (f, insert_into, path_map_insert, same) q
      | inl f ↦
          rw (f, insert_into, path_map_insert)
            (elim (Option-cases (env.paths.put m p i)) [
              | inl g ↦ rw (g, put_path, same) q
              | inr (m', g) ↦ rw (g, put_path) (closed m m' p i e q g)
            ])
    ]

    pub go_on-keeps :
        (r : Progress M W × Result (Unit {0}))
        (next : Progress M W → Progress M W × Result (Unit {0}))
        → Q r.0.path_inode_map
        → KeepsMap next
        → Q (go_on r next).0.path_inode_map
    unfolding go_on
    go_on-keeps (w, err e) next q n = q
    go_on-keeps (w, ok _) next q n = n w q

    pub children-keeps :
        (walk : ℕ → Progress M W → Progress M W × Result (Unit {0})) (i n : ℕ)
        → ((j : ℕ) → KeepsMap (walk j))
        → KeepsMap (hash_children env s walk i n)
    unfolding hash_children
    children-keeps walk i zero k w q = q
    children-keeps walk i (suc n) k w q =
        if_elim (λ (r : Progress M W × Result (Unit {0})). Q r.0.path_inode_map)
          (ltb (i % u32_mod) s.pools.inodes.allocated)
          (λ _. go_on-keeps _ _ (k (i % u32_mod) w q) (children-keeps walk (i + 1) n k)) (λ _. q)

    pub dir-keeps :
        (walk : ℕ → Progress M W → Progress M W × Result (Unit {0})) (i : ℕ)
        → ((j : ℕ) → KeepsMap (walk j))
        → KeepsMap (hash_dir env s walk i)
    unfolding hash_dir
    dir-keeps walk i k w q =
        if_elim (λ (r : Progress M W × Result (Unit {0})). Q r.0.path_inode_map)
          (is_dir (s.pools.inodes.elems i)) (λ _. children-keeps walk _ _ k w q) (λ _. q)

    path-keeps :
        (walk : ℕ → Progress M W → Progress M W × Result (Unit {0})) (i : ℕ) (r : Result Bytes)
        → path_of env s i ≡ r
        → ((j : ℕ) → KeepsMap (walk j))
        → KeepsMap (hash_path env s walk i r)
    unfolding hash_path insert_path
    path-keeps walk i (err x) e k w q = q
    path-keeps walk i (ok p) e k w q =
        go_on-keeps _ _ (insert_into-keeps p i w w.path_inode_map e refl q) (dir-keeps walk i k)

    pub walk-keeps : (fuel i : ℕ) → KeepsMap (build_hashmap_walk env s fuel i)
    unfolding build_hashmap_walk
    walk-keeps zero i w q = q
    walk-keeps (suc fuel) i w q =
        path-keeps (build_hashmap_walk env s fuel) i (path_of env s i) refl (walk-keeps fuel) w q
