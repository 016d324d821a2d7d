-- ===== src/Walk/Order.antt =====
-- What xal_walk() (src/xal.c) visits on a clean index at rest: the tree below an inode, parents first.
use mathlib.Core.List.{append_assoc, append-nil}
use xal.Base.{
  ℕ, zero, suc, ◌+◌, ◌%◌, ◌≤◌, ◌<◌, ◌≡◌, refl, sym, true, false, List, [], ◌∷◌, ◌++◌, Result, ok,
  err, arith, if◌then◌else◌, u32_mod, ◌⊎◌, inl, inr, lt→ltb, le→ltb,
}
use xal.Model.{is_dir, is_file}
use xal.Sync.{is_dirty, is_odd}
use xal.Reader.{Pools, Seen, still}
use xal.Walk.{on_success, walk_dentries, walk_type, walk_inode, check_walk, xal_walk, Walked}

-- An inode is the root of a tree of at most `h` levels: a file, or a directory whose children lie in
-- the pool and are such roots with a level less.
abbrev pub IsTree : Pools → ℕ → ℕ → Type 0
IsTree p zero i = ⊥
IsTree p (suc h) i =
    ((is_dir (p.inodes.elems i) ≡ false) × (is_file (p.inodes.elems i) ≡ true))
    ⊎ ((is_dir (p.inodes.elems i) ≡ true)
        × ((p.inodes.elems i).content.count < u32_mod)
        × ((p.inodes.elems i).content.idx + (p.inodes.elems i).content.count ≤ p.inodes.allocated)
        × (p.inodes.allocated ≤ u32_mod)
        × ((j : ℕ)
            → (p.inodes.elems i).content.idx ≤ j
            → j < (p.inodes.elems i).content.idx + (p.inodes.elems i).content.count
            → IsTree p h j))

-- The inodes of a tree with their depths, parents first, and the same for `n` trees side by side.
abbrev pub all_below : (ℕ → List (ℕ × ℕ)) → ℕ → ℕ → List (ℕ × ℕ)
all_below pre i zero = []
all_below pre i (suc n) = pre i ++ all_below pre (i + 1) n

abbrev pub preorder : Pools → ℕ → ℕ → ℕ → List (ℕ × ℕ)
preorder p zero depth i = []
preorder p (suc h) depth i =
    let below =
      all_below (preorder p h (depth + 1)) (p.inodes.elems i).content.idx
        (p.inodes.elems i).content.count in
    (i, depth) ∷ (if is_dir (p.inodes.elems i) then below else [])

-- A callback that keeps a list of what it was called on.
abbrev pub note : ℕ → ℕ → List (ℕ × ℕ) → List (ℕ × ℕ) × Result (Unit {0})
note idx depth seen = (seen ++ (idx, depth) ∷ [], ok tt)

-- A walk that ends in success with the list longer by `xs`.
abbrev Adds : List (ℕ × ℕ) → List (ℕ × ℕ) → Walked (List (ℕ × ℕ)) → Type 0
Adds s xs (t, s', r) = (s' ≡ s ++ xs) × (r ≡ ok tt)

on_success-Adds :
    (s xs ys : List (ℕ × ℕ)) (w : Walked (List (ℕ × ℕ)))
    (next : ℕ → List (ℕ × ℕ) → Walked (List (ℕ × ℕ)))
    → Adds s xs w
    → ((t : ℕ) → Adds (s ++ xs) ys (next t (s ++ xs)))
    → Adds s (xs ++ ys) (on_success w next)
unfolding on_success
on_success-Adds s xs ys (t, s', err e) next a k = cc
on_success-Adds s xs ys (t, s', ok _) next a k = rw (a.0, ← append_assoc s xs ys) (k t)

dentries-Adds :
    (m : Seen) (walk : ℕ → ℕ → List (ℕ × ℕ) → Walked (List (ℕ × ℕ))) (pre : ℕ → List (ℕ × ℕ))
    (dir rounds base i n t : ℕ) (s : List (ℕ × ℕ))
    → (m.pools.inodes.elems dir).content.idx + (m.pools.inodes.elems dir).content.count
      ≤ m.pools.inodes.allocated
    → m.pools.inodes.allocated ≤ u32_mod
    → i + n ≡ (m.pools.inodes.elems dir).content.count
    → base ≡ (m.pools.inodes.elems dir).content.idx + i
    → n < rounds
    → ((j u : ℕ) (s' : List (ℕ × ℕ))
        → (m.pools.inodes.elems dir).content.idx ≤ j
        → j < (m.pools.inodes.elems dir).content.idx + (m.pools.inodes.elems dir).content.count
        → Adds s' (pre j) (walk u j s'))
    → Adds s (all_below pre base n) (walk_dentries (still m) walk dir rounds i t s)
unfolding walk_dentries
dentries-Adds m walk pre dir zero base i n t s inp small e at lt each = absurd (omega arith)
dentries-Adds m walk pre dir (suc rounds) base i zero t s inp small e at lt each =
    rw (le→ltb i (m.pools.inodes.elems dir).content.count (omega arith)) (sym (append-nil s), refl)
dentries-Adds m walk pre dir (suc rounds) base i (suc n) t s inp small e at lt each =
    let child : ((m.pools.inodes.elems dir).content.idx + i) % u32_mod ≡ base = omega arith in
    rw
      (
        lt→ltb i (m.pools.inodes.elems dir).content.count (omega arith),
        child,
        lt→ltb base m.pools.inodes.allocated (omega arith),
      )
      (on_success-Adds s (pre base) (all_below pre (base + 1) n) (walk (t + 3) base s)
        (walk_dentries (still m) walk dir rounds (i + 1))
        (each base (t + 3) s (omega arith) (omega arith))
        (λ u.
          dentries-Adds m walk pre dir rounds (base + 1) (i + 1) n u (s ++ pre base) inp small
            (omega arith) (omega arith) (omega arith) each))

walk_inode-Adds :
    (m : Seen) (h fuel depth t i : ℕ) (s : List (ℕ × ℕ))
    → is_dirty m.words ≡ false
    → IsTree m.pools h i
    → h ≤ fuel
    → Adds s
        (preorder m.pools h depth i)
        (walk_inode (still m) m.words.seq_lock note fuel depth t i s)
unfolding walk_inode walk_type
walk_inode-Adds m zero fuel depth t i s clean tree le = absurd tree
walk_inode-Adds m (suc h) zero depth t i s clean tree le = absurd (omega arith)
walk_inode-Adds m (suc h) (suc fuel) depth t i s clean (inl (dir, file)) le =
    rw (clean, dir, file) (ground arith)
walk_inode-Adds m (suc h) (suc fuel) depth t i s clean (inr (dir, few, inp, small, each)) le =
    rw (clean, dir, ← append_assoc s ((i, depth) ∷ []) below)
      (ground (
        arith,
        dentries-Adds m walk (preorder m.pools h (depth + 1)) i u32_mod
            (m.pools.inodes.elems i).content.idx 0 (m.pools.inodes.elems i).content.count (t + 3)
            (s ++ (i, depth) ∷ []) inp small (omega arith) (omega arith) few
            (λ j u s' lo hi.
              walk_inode-Adds m h fuel (depth + 1) u j s' clean (each j lo hi) (omega arith)),
      ))
  where
    walk : ℕ → ℕ → List (ℕ × ℕ) → Walked (List (ℕ × ℕ))
    walk = walk_inode (still m) m.words.seq_lock note fuel (depth + 1)

    below : List (ℕ × ℕ)
    below =
        all_below (preorder m.pools h (depth + 1)) (m.pools.inodes.elems i).content.idx
          (m.pools.inodes.elems i).content.count

check_walk-Adds :
    (m : Seen) (s xs : List (ℕ × ℕ)) (w : Walked (List (ℕ × ℕ)))
    → Adds s xs w
    → Adds s xs (check_walk (still m) m.words.seq_lock w)
unfolding check_walk
check_walk-Adds m s xs (t, s', err e) a = cc
check_walk-Adds m s xs (t, s', ok _) a = ground (arith, a.0)

-- On a clean index at rest, xal_walk() on the root of a tree of at most `h` levels succeeds and calls a
-- callback that always succeeds on every inode of the tree with its depth, each parent before its
-- children and these in the order of the pool. Fuel from `h` on is enough.
pub xal_walk-preorder :
    (m : Seen) (h fuel i : ℕ)
    → is_dirty m.words ≡ false
    → is_odd m.words.seq_lock ≡ false
    → IsTree m.pools h i
    → h ≤ fuel
    → let (t, seen, r) = xal_walk (still m) note fuel i [] in
      (seen ≡ preorder m.pools h 0 i) × (r ≡ ok tt)
unfolding xal_walk
xal_walk-preorder m h fuel i clean even tree le =
    rw (clean, even)
      (check_walk-Adds m [] (preorder m.pools h 0 i) _
        (walk_inode-Adds m h fuel 0 2 i [] clean tree le))
