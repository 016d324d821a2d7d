-- ===== src/Build/Dirs/Ends.antt =====
-- The loops of src/xal_be_xfs.c over a directory block and over the blocks of an extent end.
use xal.Base.{
  ℕ, zero, suc, ◌+◌, ◌<◌, ◌≡◌, false, Result, arith, ltb, ◌==◌, Bool-cases, inl, inr, ltb→lt,
}
use xal.Model.{Inode}
use xal.Disk.{Bytes, decode_dentry}
use xal.Build.State.{Env, Built, on_success-cong, should_skip}
use xal.Build.Dirs.{block_dentries, keep_dentry}

-- An entry with an inode number takes room.
entry_takes_room :
    (m : Bytes) (o : ℕ)
    → m (o + 8) < 256
    → ((decode_dentry m o).1.ino == 0) ≡ false
    → 0 < (decode_dentry m o).0
unfolding decode_dentry
entry_takes_room m o small h = ground arith

-- The fuel for a directory block is never used up: each entry that does not end the loop takes room,
-- so that any two positive amounts that reach from the cursor past the end of the block give the same pools
-- and the same result, whatever bytes the block holds.
pub block_dentries-fuel :
    (env : Env) (self : ℕ) (m : Bytes) (f g o : ℕ) (b : Built)
    → ((i : ℕ) → m i < 256)
    → 0 < f
    → 0 < g
    → env.sb.dirblocksize < o + f
    → env.sb.dirblocksize < o + g
    → block_dentries env self m f o b ≡ block_dentries env self m g o b
unfolding block_dentries
block_dentries-fuel env self m zero g o b small pf pg h k = absurd (omega arith)
block_dentries-fuel env self m (suc f) zero o b small pf pg h k = absurd (omega arith)
block_dentries-fuel env self m (suc f) (suc g) o b small pf pg h k =
    elim (Bool-cases (ltb o env.sb.dirblocksize)) [
      | inr past ↦ rw past
      | inl inside ↦ elim (Bool-cases ((decode_dentry m o).1.ino == 0)) [
        | inl none_left ↦ rw (inside, none_left)
        | inr entry ↦
            let near = ltb→lt _ _ inside in
            let room = entry_takes_room m o (small (o + 8)) entry in
            let same : (c : Built)
                → block_dentries env self m f (o + nbytes) c
                  ≡ block_dentries env self m g (o + nbytes) c =
              λ c.
                block_dentries-fuel env self m f g (o + nbytes) c small (omega arith) (omega arith)
                  (omega arith) (omega arith) in
            rw (inside, entry, same b, on_success-cong kept _ _ same)
      ]
    ]
  where
    nbytes : ℕ
    nbytes = (decode_dentry m o).0

    dentry : Inode
    dentry = (decode_dentry m o).1

    kept : Built × Result (Unit {0})
    kept = keep_dentry env self (record dentry { parent_idx = self }) (should_skip env dentry) b
