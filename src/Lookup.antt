-- ===== src/Lookup.antt =====
-- path_under_basepath(), search_by_traversal() and xal_get_inode() of the XFS backend (src/xal.c):
-- from a path to an inode by binary search, level by level.
pub mod Split
pub mod Snapshot
pub mod Children
pub mod Find
mod Content
pub mod Sample
mod Tests
use xal.Base.{
  ℕ, zero, suc, ◌+◌, ◌-◌, Bool, true, false, List, [], ◌∷◌, ◌++◌, Option, none, some, Result, ok,
  err, einval, estale, enoent, ltb, leb, ◌==◌, ◌&&◌, ◌||◌, not, if◌then◌else◌, length,
}
use xal.Model.{Inode, Span, elem_at, pool_idx_none}
use xal.Sync.{is_dirty, is_odd}
use xal.Reader.{View, node, seq_at}

-- `strncmp` with a prefix's length: what follows the prefix, or `none`.
unfoldable pub strip_prefix : List ℕ → List ℕ → Option (List ℕ)
strip_prefix [] path = some path
strip_prefix (b ∷ bs) [] = none
strip_prefix (b ∷ bs) (c ∷ cs) = if b == c then strip_prefix bs cs else none

-- What follows a prefix is nothing or begins a component.
unfoldable pub at_boundary : Option (List ℕ) → Option (List ℕ)
at_boundary none = none
at_boundary (some []) = some []
at_boundary (some (c ∷ cs)) = if c == b'/' then some (c ∷ cs) else none

-- `path_under_basepath`
unfoldable pub path_under_basepath : List ℕ → List ℕ → Option (List ℕ)
path_under_basepath path basepath = at_boundary (strip_prefix basepath path)

-- `strchr` for '/': the bytes before it, and those behind it if there is one.
unfoldable pub next_component : List ℕ → List ℕ × Option (List ℕ)
next_component [] = ([], none)
next_component (c ∷ cs) =
    let rest = next_component cs in if c == b'/' then ([], some cs) else (c ∷ rest.0, rest.1)

-- `strcmp` of bytes, for the equality that a search looks for.
unfoldable pub same_name : List ℕ → List ℕ → Bool
same_name [] [] = true
same_name [] (y ∷ ys) = false
same_name (x ∷ xs) [] = false
same_name (x ∷ xs) (y ∷ ys) = x == y && same_name xs ys

-- The names of `n` inodes from `i` on, read one access after the other from `t` on.
unfoldable pub names_at : View → ℕ → ℕ → ℕ → List (List ℕ)
names_at v t i zero = []
names_at v t i (suc n) = (node v t i).name ∷ names_at v (t + 1) (i + 1) n

-- A span of children that does not lie in the pool.
abbrev pub out_of_range : ℕ → ℕ → ℕ → Bool
out_of_range allocated i n = if n == 0 then false else ltb allocated n || ltb (allocated - n) i

-- The index that a hit among the children from `i` on stands for.
unfoldable pub child_index : ℕ → Option ℕ → Option ℕ
child_index i none = none
child_index i (some k) = some (i + k)

-- What a search of one level gives: the access after its last, and the child.
abbrev pub Found : Type 0
Found = ℕ × Result (Option ℕ)

-- What the loop does with a child: it is the inode if this was the last component, and else the
-- directory of the next round.
unfoldable pub go_on : (ℕ → ℕ → List ℕ → ℕ × Result ℕ) → Option (List ℕ) → Found → ℕ × Result ℕ
go_on next rest (t, err e) = (t, err e)
go_on next rest (t, ok none) = (t, err enoent)
go_on next none (t, ok (some child)) = (t, ok child)
go_on next (some path) (t, ok (some child)) = next t child path

-- The last check of xal_get_inode(): a sequence lock that moved makes any result stale.
unfoldable pub check_seq : View → ℕ → ℕ × Result ℕ → ℕ × Result ℕ
check_seq v exp (t, r) = if seq_at v t == exp then (t, r) else (t, err estale)

-- `bsearch` of a name among names, by `compare_name_to_inode`: the position of a match, if there is one.
module _ (bsearch : List ℕ → List (List ℕ) → Option ℕ) where
  -- One round of the loop of search_by_traversal(), on the children of `dir`.
  unfoldable pub search_level : View → ℕ → ℕ → List ℕ → Found
  search_level v t dir component =
      let i = (node v t dir).content.idx in
      let n = (node v (t + 1) dir).content.count in
      if out_of_range (v (t + 2)).pools.inodes.allocated i n
      then (t + 3, err estale)
      else if n == 0
      then (t + 3, ok none)
      else (t + 3 + n, ok (child_index i (bsearch component (names_at v (t + 3) i n))))

  -- The loop. Each round takes a component off the path, so that the path's length in rounds is
  -- enough (`Lookup.Split`).
  unfoldable pub search_loop : View → ℕ → ℕ → ℕ → List ℕ → ℕ × Result ℕ
  search_loop v zero t dir path = (t, err enoent)
  search_loop v (suc fuel) t dir path =
      let part = next_component path in
      go_on (search_loop v fuel) part.1 (search_level v t dir part.0)

  -- The branches of search_by_traversal() on what follows the base path.
  unfoldable pub search_remainder : View → ℕ → ℕ → Option (List ℕ) → ℕ × Result ℕ
  search_remainder v t root none = (t, err einval)
  search_remainder v t root (some []) = (t, ok root)
  search_remainder v t root (some (c ∷ [])) = (t, ok root)
  search_remainder v t root (some (c ∷ d ∷ cs)) =
      search_loop v (suc (suc (length cs))) t root (d ∷ cs)

  -- `search_by_traversal`
  unfoldable pub search_by_traversal : View → ℕ → ℕ → List ℕ → List ℕ → ℕ × Result ℕ
  search_by_traversal v t root [] basepath = (t, err einval)
  search_by_traversal v t root (c ∷ cs) basepath =
      search_remainder v t root (path_under_basepath (c ∷ cs) basepath)

  -- `xal_get_inode` of the XFS backend, whose base path is empty.
  unfoldable pub get_inode : View → List ℕ → ℕ × Result ℕ
  get_inode v path =
      if is_dirty (v 0).words
      then (1, err estale)
      else if is_odd (seq_at v 1)
      then (2, err estale)
      else if (v 2).pools.root_idx == pool_idx_none
      then (3, err einval)
      else if ltb (v 3).pools.root_idx (v 3).pools.inodes.allocated
      then check_seq v (seq_at v 1) (search_by_traversal v 4 (v 3).pools.root_idx path [])
      else (4, err estale)
