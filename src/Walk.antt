-- ===== src/Walk.antt =====
-- xal_walk() and its helpers (src/xal.c): a callback on every inode below one, parents first, while other
-- threads may mark and rebuild the index.
pub mod Order
mod Tests
use xal.Base.{
  ℕ, zero, suc, ◌+◌, ◌%◌, Bool, true, false, List, [], ◌∷◌, ◌++◌, Result, ok, err, einval, estale,
  ltb, ◌==◌, if◌then◌else◌, u32_mod, too_deep,
}
use xal.Model.{is_dir, is_file}
use xal.Sync.{is_dirty, is_odd}
use xal.Reader.{View, node, seq_at}

-- What a walk leaves: the access after its last, the callback's data, and the result.
abbrev pub Walked : Type 0 → Type 0
Walked S = ℕ × S × Result (Unit {0})

module _ {S : Type 0} where
  -- `if (err) return err;` behind the walk of a child.
  unfoldable pub on_success : Walked S → (ℕ → S → Walked S) → Walked S
  on_success (t, s, err e) next = (t, s, err e)
  on_success (t, s, ok _) next = next t s

  -- `walk_dentries`, from child `i` on, with fuel for the rounds: `i` and the count are words of 32 bits.
  unfoldable pub walk_dentries : View → (ℕ → ℕ → S → Walked S) → ℕ → ℕ → ℕ → ℕ → S → Walked S
  walk_dentries v walk dir zero i t s = (t, s, err too_deep)
  walk_dentries v walk dir (suc rounds) i t s =
      let child = ((node v (t + 1) dir).content.idx + i) % u32_mod in
      let next = walk_dentries v walk dir rounds (i + 1) in
      if ltb i (node v t dir).content.count
      then (if ltb child (v (t + 2)).pools.inodes.allocated
          then on_success (walk (t + 3) child s) next
          else (t + 3, s, err estale))
      else (t + 1, s, ok tt)

  -- What _walk() does by the type of the inode, once the callback is back.
  unfoldable pub walk_type :
      View → (ℕ → ℕ → S → Walked S) → ℕ → ℕ → S × Result (Unit {0}) → Walked S
  walk_type v walk idx t (s, err e) = (t, s, err e)
  walk_type v walk idx t (s, ok _) =
      if is_dir (node v t idx)
      then walk_dentries v walk idx u32_mod 0 (t + 1) s
      else if is_file (node v t idx)
      then (t + 1, s, ok tt)
      else (t + 1, s, err einval)

  -- `_walk`, with fuel for the depth. The callback has an inode's index, the depth and its data.
  unfoldable pub walk_inode :
      View → ℕ → (ℕ → ℕ → S → S × Result (Unit {0})) → ℕ → ℕ → ℕ → ℕ → S → Walked S
  walk_inode v exp cb zero depth t idx s = (t, s, err too_deep)
  walk_inode v exp cb (suc fuel) depth t idx s =
      if is_dirty (v t).words
      then (t + 1, s, err estale)
      else if seq_at v (t + 1) == exp
      then walk_type v (walk_inode v exp cb fuel (depth + 1)) idx (t + 2) (cb idx depth s)
      else (t + 2, s, err estale)

  -- The last check of xal_walk().
  unfoldable pub check_walk : View → ℕ → Walked S → Walked S
  check_walk v exp (t, s, err e) = (t, s, err e)
  check_walk v exp (t, s, ok _) = if seq_at v t == exp then (t, s, ok tt) else (t, s, err estale)

  -- `xal_walk` on an inode of the pool.
  unfoldable pub xal_walk : View → (ℕ → ℕ → S → S × Result (Unit {0})) → ℕ → ℕ → S → Walked S
  xal_walk v cb fuel idx s =
      if is_dirty (v 0).words
      then (1, s, err estale)
      else if is_odd (seq_at v 1)
      then (2, s, err estale)
      else check_walk v (seq_at v 1) (walk_inode v (seq_at v 1) cb fuel 0 2 idx s)
