-- ===== src/Lookup/Snapshot.antt =====
-- xal_get_inode() (src/xal.c) while other threads build: what it finds is an inode of the index that
-- was published when it began.
use xal.Base.{
  ℕ, zero, suc, ◌+◌, ◌≤◌, ◌<◌, ◌≡◌, refl, ap, List, [], ◌∷◌, Option, none, some, Result, ok, err,
  arith, ltb, ◌==◌, true, false, u32_mod,
}
use xal.Model.{pool_idx_none}
use xal.Reader.{View, node, seq_at, Pools, still, Agree}
use xal.Reader.History.{History, view_of, frozen}
use xal.Sync.Threads.{World}
use xal.Sync.{is_dirty, is_odd}
use xal.Path.Snapshot.{found}
use xal.Lookup.{
  next_component, names_at, go_on, Found, search_level, search_loop, search_remainder,
  search_by_traversal, check_seq, get_inode,
}

-- What follows holds for any search among the names.
module _ (bsearch : List ℕ → List (List ℕ) → Option ℕ) where
  search_level-after : (v : View) (t dir : ℕ) (c : List ℕ) → t ≤ (search_level bsearch v t dir c).0
  unfolding search_level
  search_level-after v t dir c = ground arith

  names_at-local :
      (v w : View) (t b i n : ℕ) → t + n ≤ b → Agree v w t b → names_at v t i n ≡ names_at w t i n
  unfolding names_at
  names_at-local v w t b i zero h g = refl
  names_at-local v w t b i (suc n) h g = ground (
    arith,
    g t,
    names_at-local v w (t + 1) b (i + 1) n (omega arith) (λ s lo hi. g s (omega arith) hi),
  )

  search_level-local :
      (v w : View) (t b dir : ℕ) (c : List ℕ)
      → (search_level bsearch v t dir c).0 ≤ b
      → Agree v w t b
      → search_level bsearch v t dir c ≡ search_level bsearch w t dir c
  unfolding search_level
  search_level-local v w t b dir c h g = ground (
    arith,
    g t,
    g (t + 1),
    g (t + 2),
    names_at-local v w (t + 3) b (node v t dir).content.idx (node v (t + 1) dir).content.count,
  )

  go_on-after :
      (f : ℕ → ℕ → List ℕ → ℕ × Result ℕ) (rest : Option (List ℕ)) (r : Found)
      → ((t dir : ℕ) (path : List ℕ) → t ≤ (f t dir path).0)
      → r.0 ≤ (go_on f rest r).0
  unfolding go_on
  go_on-after f rest (t, err e) h = omega arith
  go_on-after f rest (t, ok none) h = omega arith
  go_on-after f none (t, ok (some child)) h = omega arith
  go_on-after f (some path) (t, ok (some child)) h = h t child path

  go_on-local :
      (f g : ℕ → ℕ → List ℕ → ℕ × Result ℕ) (b : ℕ) (rest : Option (List ℕ)) (r : Found)
      → ((dir : ℕ) (path : List ℕ) → (f r.0 dir path).0 ≤ b → f r.0 dir path ≡ g r.0 dir path)
      → (go_on f rest r).0 ≤ b
      → go_on f rest r ≡ go_on g rest r
  unfolding go_on
  go_on-local f g b rest (t, err e) same h = refl
  go_on-local f g b rest (t, ok none) same h = refl
  go_on-local f g b none (t, ok (some child)) same h = refl
  go_on-local f g b (some path) (t, ok (some child)) same h = same child path h

  search_loop-after :
      (v : View) (f t dir : ℕ) (path : List ℕ) → t ≤ (search_loop bsearch v f t dir path).0
  unfolding search_loop
  search_loop-after v zero t dir path = omega arith
  search_loop-after v (suc f) t dir path = omega (
    arith,
    search_level-after v t dir (next_component path).0,
    go_on-after (search_loop bsearch v f) (next_component path).1
        (search_level bsearch v t dir (next_component path).0)
        (λ s d p. search_loop-after v f s d p),
  )

  search_loop-local :
      (v w : View) (f t b dir : ℕ) (path : List ℕ)
      → (search_loop bsearch v f t dir path).0 ≤ b
      → Agree v w t b
      → search_loop bsearch v f t dir path ≡ search_loop bsearch w f t dir path
  unfolding search_loop
  search_loop-local v w zero t b dir path h g = refl
  search_loop-local v w (suc f) t b dir path h g =
      rw (← search_level-local v w t b dir (next_component path).0 level_ends g) (
        go_on-local _ _ b _ _
          (λ d p e.
            search_loop-local v w f _ b d p e (λ s lo hi.
              g s (omega (arith, search_level-after v t dir (next_component path).0)) hi))
          h)
    where
      level_ends : (search_level bsearch v t dir (next_component path).0).0 ≤ b
      level_ends = omega (
        arith,
        h,
        go_on-after (search_loop bsearch v f) (next_component path).1
            (search_level bsearch v t dir (next_component path).0)
            (λ s d p. search_loop-after v f s d p),
      )

  search_remainder-after :
      (v : View) (t root : ℕ) (o : Option (List ℕ)) → t ≤ (search_remainder bsearch v t root o).0
  unfolding search_remainder
  search_remainder-after v t root none = omega arith
  search_remainder-after v t root (some []) = omega arith
  search_remainder-after v t root (some (c ∷ [])) = omega arith
  search_remainder-after v t root (some (c ∷ d ∷ cs)) = search_loop-after v _ t root (d ∷ cs)

  search_remainder-local :
      (v w : View) (t b root : ℕ) (o : Option (List ℕ))
      → (search_remainder bsearch v t root o).0 ≤ b
      → Agree v w t b
      → search_remainder bsearch v t root o ≡ search_remainder bsearch w t root o
  unfolding search_remainder
  search_remainder-local v w t b root none h g = refl
  search_remainder-local v w t b root (some []) h g = refl
  search_remainder-local v w t b root (some (c ∷ [])) h g = refl
  search_remainder-local v w t b root (some (c ∷ d ∷ cs)) h g =
      search_loop-local v w _ t b root (d ∷ cs) h g

  traversal-after :
      (v : View) (t root : ℕ) (path base : List ℕ)
      → t ≤ (search_by_traversal bsearch v t root path base).0
  unfolding search_by_traversal
  traversal-after v t root [] base = omega arith
  traversal-after v t root (c ∷ cs) base = search_remainder-after v t root _

  traversal-local :
      (v w : View) (t b root : ℕ) (path base : List ℕ)
      → (search_by_traversal bsearch v t root path base).0 ≤ b
      → Agree v w t b
      → search_by_traversal bsearch v t root path base
        ≡ search_by_traversal bsearch w t root path base
  unfolding search_by_traversal
  traversal-local v w t b root [] base h g = refl
  traversal-local v w t b root (c ∷ cs) base h g = search_remainder-local v w t b root _ h g

  check_seq-inversion :
      (v : View) (exp : ℕ) (r : ℕ × Result ℕ) {b i : ℕ}
      → check_seq v exp r ≡ (b, ok i)
      → (r ≡ (b, ok i)) × (seq_at v b ≡ exp)
  unfolding check_seq
  check_seq-inversion v exp (t, r) h = ground arith

  get_inode-inversion :
      (v : View) (path : List ℕ) {b i : ℕ}
      → get_inode bsearch v path ≡ (b, ok i)
      → (is_dirty (v 0).words ≡ false)
        × (is_odd (seq_at v 1) ≡ false)
        × (((v 2).pools.root_idx == pool_idx_none) ≡ false)
        × (ltb (v 3).pools.root_idx (v 3).pools.inodes.allocated ≡ true)
        × (check_seq v (seq_at v 1) (search_by_traversal bsearch v 4 (v 3).pools.root_idx path [])
            ≡ (b, ok i))
  unfolding get_inode
  get_inode-inversion v path h = ground arith

  -- An inode that xal_get_inode() finds while other threads mark and rebuild the index, in whatever order
  -- they run, is the inode that it finds with the memory at rest as the call found it, whatever
  -- bsearch() does: no lookup mixes two builds. The sequence lock must not come round to the same
  -- value, by 2 ^ 32 bumps, while the call runs.
  pub get_inode-snapshot :
      (h : ℕ → World Pools) (path : List ℕ) {b i : ℕ}
      → History h
      → get_inode bsearch (view_of h) path ≡ (b, ok i)
      → (h b).bumps < (h 1).bumps + u32_mod
      → (get_inode bsearch (still (found (view_of h))) path).1 ≡ ok i
  unfolding get_inode is_dirty check_seq
  get_inode-snapshot h path {b} {i} r e few = ground (
    arith,
    get_inode-inversion v path e,
    early 2 (omega arith) (omega arith),
    early 3 (omega arith) (omega arith),
    same_run,
    ends,
  )
    where
      v : View
      v = view_of h

      run : ℕ × Result ℕ
      run = search_by_traversal bsearch v 4 (v 3).pools.root_idx path []

      ends : (run ≡ (b, ok i)) × (seq_at v b ≡ seq_at v 1)
      ends = check_seq-inversion v (seq_at v 1) run ((get_inode-inversion v path e).4)

      last : run.0 ≡ b
      last = ap (λ (q : ℕ × Result ℕ). q.0) ends.0

      agree : Agree v (still (found v)) 1 b
      agree t lo hi =
          frozen h 1 b r (omega (arith, last, traversal-after v 4 (v 3).pools.root_idx path []))
            (ground (arith, get_inode-inversion v path e)) ends.1 few t lo hi

      early : (t : ℕ) → 1 ≤ t → t ≤ 3 → (v t).pools ≡ (v 1).pools
      early t lo hi =
          agree t lo (omega (arith, last, traversal-after v 4 (v 3).pools.root_idx path []))

      same_run : run ≡ search_by_traversal bsearch (still (found v)) 4 (v 3).pools.root_idx path []
      same_run =
          traversal-local v (still (found v)) 4 b (v 3).pools.root_idx path [] (omega (arith, last))
            (λ t lo hi. agree t (omega arith) hi)
