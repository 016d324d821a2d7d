-- ===== src/Lookup/Content/Paths.antt =====
-- xal_get_root(), xal_get_extents() and xal_get_dentries() (src/xal.c) on a published index at rest.
use xal.Base.{
  ℕ, ◌≡◌, refl, Bool, List, ◌∷◌, Option, some, Result, ok, err, einval, enotdir, if◌then◌else◌,
  arith, sym,
}
use mathlib.Core.Path.{subst}
use xal.Model.{Inode, is_dir, is_file}
use xal.Reader.{Seen, still}
use xal.Lookup.{get_inode}
use xal.Lookup.Split.{components}
use xal.Lookup.Children.{Leads, IsSpan}
use xal.Lookup.Children.Names.{Searches}
use xal.Lookup.Find.{IsPublished, Directory, get_inode_complete}
use xal.Lookup.Content.{get_root, of_kind, get_extents, get_dentries}

get_root-published : (m : Seen) → IsPublished m → get_root (still m) ≡ some m.pools.root_idx
unfolding get_root
get_root-published m i = ground (arith, i.rooted, i.root_in_pool)

of_kind-found :
    (is_kind : Inode → Bool) (errno : ℕ) (m : Seen) (r : ℕ × Result ℕ) {j : ℕ}
    → r.1 ≡ ok j
    → (of_kind is_kind errno (still m) r).1
      ≡ (if is_kind (m.pools.inodes.elems j) then ok j else err errno)
unfolding of_kind
of_kind-found is_kind errno m (t, err e) h = cc
of_kind-found is_kind errno m (t, ok i) {j} h = let same : i ≡ j = cc in rw same refl

module _ (bsearch : List ℕ → List (List ℕ) → Option ℕ) where
  -- On a published index at rest whose directories have their children in the pool, sorted by name,
  -- where directories lead from the inode that xal_get_root() returns along the components of a path
  -- to an inode, xal_get_extents() returns the content of that inode if it is a file and -EINVAL if
  -- not, and xal_get_dentries() returns it if it is a directory and -ENOTDIR if not.
  pub content_at_path :
      (m : Seen) (d : ℕ) (cs : List ℕ) (root j : ℕ)
      → Searches bsearch
      → IsPublished m
      → ((k : ℕ) → Directory m.pools k → IsSpan m k)
      → get_root (still m) ≡ some root
      → Leads m.pools (Directory m.pools) root (components (d ∷ cs)) j
      → ((get_extents bsearch (still m) (b'/' ∷ d ∷ cs)).1
          ≡ (if is_file (m.pools.inodes.elems j) then ok j else err einval))
        × ((get_dentries bsearch (still m) (b'/' ∷ d ∷ cs)).1
            ≡ (if is_dir (m.pools.inodes.elems j) then ok j else err enotdir))
  unfolding get_extents get_dentries
  content_at_path m d cs root j s i spans at_root l =
      (of_kind-found is_file einval m _ found, of_kind-found is_dir enotdir m _ found)
    where
      same : m.pools.root_idx ≡ root
      same = let e = get_root-published m i in cc

      found : (get_inode bsearch (still m) (b'/' ∷ d ∷ cs)).1 ≡ ok j
      found =
          get_inode_complete bsearch m d cs j s i spans
            (subst (λ r. Leads m.pools (Directory m.pools) r (components (d ∷ cs)) j) (sym same) l)
