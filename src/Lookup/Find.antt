-- ===== src/Lookup/Find.antt =====
-- xal_get_inode() (src/xal.c) on a clean index at rest, from the path to the inode.
use xal.Base.{ℕ, suc, ◌<◌, ◌≡◌, ◌≢◌, List, ◌∷◌, Option, ok, arith, true, false, length}
use xal.Model.{is_dir, pool_idx_none}
use xal.Sync.{is_dirty, is_odd}
use xal.Reader.{Pools, Seen, still}
use xal.Lookup.Split.{components}
use xal.Lookup.Children.{Leads, IsSpan, loop_sound, loop_complete}
use xal.Lookup.Children.Names.{Searches}
use xal.Lookup.{
  check_seq, get_inode, search_loop, search_remainder, search_by_traversal, path_under_basepath,
  strip_prefix, at_boundary,
}

-- A published XFS index: clean, not being rewritten, with a root in the pool.
pub record IsPublished (m : Seen) : Type 0 where
  pub clean : is_dirty m.words ≡ false
  pub even : is_odd m.words.seq_lock ≡ false
  pub rooted : m.pools.root_idx ≢ pool_idx_none
  pub root_in_pool : m.pools.root_idx < m.pools.inodes.allocated

-- The directories of an index, whose children the build has sorted.
abbrev pub Directory : Pools → ℕ → Type 0
Directory p k = is_dir (p.inodes.elems k) ≡ true

module _ (bsearch : List ℕ → List (List ℕ) → Option ℕ) where
  -- On a published index a path of at least one component is the loop from the root.
  get_inode-loop :
      (m : Seen) (d : ℕ) (cs : List ℕ)
      → IsPublished m
      → (get_inode bsearch (still m) (b'/' ∷ d ∷ cs)).1
        ≡ (search_loop bsearch (still m) (suc (suc (length cs))) 4 m.pools.root_idx (d ∷ cs)).1
  unfolding get_inode check_seq search_by_traversal search_remainder path_under_basepath
      strip_prefix at_boundary
  get_inode-loop m d cs i = ground (arith, i.clean, i.even, i.rooted, i.root_in_pool)

  -- On a published index at rest whose directories have their children in the pool, sorted by name,
  -- where directories lead from the root along the components of a path to an inode, xal_get_inode()
  -- returns that inode for the path.
  pub get_inode_complete :
      (m : Seen) (d : ℕ) (cs : List ℕ) (j : ℕ)
      → Searches bsearch
      → IsPublished m
      → ((k : ℕ) → Directory m.pools k → IsSpan m k)
      → Leads m.pools (Directory m.pools) m.pools.root_idx (components (d ∷ cs)) j
      → (get_inode bsearch (still m) (b'/' ∷ d ∷ cs)).1 ≡ ok j
  get_inode_complete m d cs j s i spans l = rw (get_inode-loop m d cs i) (
      loop_complete s m (Directory m.pools) (suc (suc (length cs))) 4 m.pools.root_idx j (d ∷ cs)
        spans (omega arith) l)

  -- An inode that xal_get_inode() returns on a published index at rest is one to which the components
  -- of the path lead from the root, each naming one of the children that the content words of the
  -- inode before it span. No inode on the way need be a directory.
  pub get_inode_sound :
      (m : Seen) (d : ℕ) (cs : List ℕ) (j : ℕ)
      → Searches bsearch
      → IsPublished m
      → (get_inode bsearch (still m) (b'/' ∷ d ∷ cs)).1 ≡ ok j
      → Leads m.pools (λ _. Unit {0}) m.pools.root_idx (components (d ∷ cs)) j
  get_inode_sound m d cs j s i h =
      loop_sound s m (suc (suc (length cs))) 4 m.pools.root_idx j (d ∷ cs)
        (rw (get_inode-loop m d cs i) at h)
