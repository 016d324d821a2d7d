-- ===== src/Path.antt =====
-- inode_path_assemble() and xal_inode_path() (src/xal.c): the path of an inode from its chain of
-- parents, while a build may rewrite the pools.
pub mod Bounds
pub mod Chain
pub mod Snapshot
mod Tests
use xal.Base.{
  ℕ, zero, suc, ◌+◌, Bool, true, false, List, [], ◌∷◌, ◌++◌, Result, ok, err, einval, estale,
  enametoolong, ltb, leb, ◌==◌, ◌||◌, not, if◌then◌else◌, length,
}
use xal.Model.{Backend, xfs, fiemap, unknown, Inode, pool_idx_none}
use xal.Sync.{is_dirty, is_odd}
use xal.Reader.{View, node, seq_at}

-- `memcpy` of `n` bytes out of a name's array, which is NUL behind the name.
unfoldable pub copy_name : ℕ → List ℕ → List ℕ
copy_name zero xs = []
copy_name (suc n) [] = 0 ∷ copy_name n []
copy_name (suc n) (x ∷ xs) = x ∷ copy_name n xs

-- The last part of inode_path_assemble(): '/' and the name behind what the parents gave, if it fits
-- in `cap` bytes with the NUL.
unfoldable pub append_name : View → ℕ → ℕ → ℕ → ℕ × Result (List ℕ) → ℕ × Result (List ℕ)
append_name v cap idx namelen (t, err e) = (t, err e)
append_name v cap idx namelen (t, ok buf) =
    if ltb cap (length buf + 1 + namelen + 1)
    then (t, err enametoolong)
    else (t + 1, ok (buf ++ b'/' ∷ copy_name namelen (node v t idx).name))

-- `inode_path_assemble`: the access after the last, and the buffer's string. A parent's index is below
-- its child's or the call fails, so `idx + 1` rounds are enough (`Path.Bounds`).
unfoldable pub assemble : View → ℕ → ℕ → ℕ → ℕ → List ℕ → ℕ × Result (List ℕ)
assemble v cap zero t idx buf = (t, err estale)
assemble v cap (suc fuel) t idx buf =
    let parent = (node v t idx).parent_idx in
    let namelen = (node v (t + 1) idx).namelen in
    let rest = assemble v cap fuel (t + 3) parent buf in
    if parent == pool_idx_none
    then (t + 2, ok buf)
    else if leb idx parent || not (ltb parent (v (t + 2)).pools.inodes.allocated)
    then (t + 3, err estale)
    else append_name v cap idx namelen rest

-- The root of a tree without a base path is "/".
unfoldable pub root_slash : ℕ → ℕ × Result (List ℕ) → ℕ × Result (List ℕ)
root_slash cap (t, err e) = (t, err e)
root_slash cap (t, ok []) = if ltb cap 2 then (t, err enametoolong) else (t, ok (b'/' ∷ []))
root_slash cap (t, ok (c ∷ cs)) = (t, ok (c ∷ cs))

unfoldable pub check_seq : View → ℕ → ℕ × Result (List ℕ) → ℕ × Result (List ℕ)
check_seq v exp (t, err e) = (t, err e)
check_seq v exp (t, ok buf) = if seq_at v t == exp then (t, ok buf) else (t, err estale)

-- `xal_inode_path` on an inode of the pool and a buffer of `cap` bytes. The base path is the subtree or
-- mountpoint of the FIEMAP backend, and empty for XFS. The result is the string; its length is what
-- the function returns.
unfoldable pub inode_path : View → List ℕ → ℕ → ℕ → ℕ × Result (List ℕ)
inode_path v base cap idx =
    if cap == 0
    then (0, err einval)
    else if is_dirty (v 0).words
    then (1, err estale)
    else if is_odd (seq_at v 1)
    then (2, err estale)
    else if ltb cap (length base + 1)
    then (2, err enametoolong)
    else check_seq v (seq_at v 1) (root_slash cap (assemble v cap (suc idx) 2 idx base))
