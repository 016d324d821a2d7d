-- ===== src/Reader.antt =====
-- A reader of a published index (src/xal.c) beside the threads of `Sync.Threads`. A reader makes its
-- accesses one after the other, and a view gives what the shared memory holds at each of them.
pub mod History
pub mod Sample
use xal.Base.{ℕ, ◌+◌, ◌≤◌, ◌≡◌}
use xal.Model.{Inode, Extent, Span}
use xal.Sync.{Words}

-- What a build rewrites.
pub record Pools : Type 0 where
  pub inodes : Span Inode
  pub extents : Span Extent
  pub root_idx : ℕ

pub record Seen : Type 0 where
  pub words : Words
  pub pools : Pools

abbrev pub View : Type 0
View = ℕ → Seen

-- The shared memory when nothing happens to it.
abbrev pub still : Seen → View
still s t = s

-- The inode at an index, as it is at the reader's access `t`.
abbrev pub node : View → ℕ → ℕ → Inode
node v t i = (v t).pools.inodes.elems i

-- `xal_get_seq_lock`
abbrev pub seq_at : View → ℕ → ℕ
seq_at v t = (v t).words.seq_lock

-- Two views with the same pools from access `a` to access `b`.
abbrev pub Agree : View → View → ℕ → ℕ → Type 0
Agree v w a b = (t : ℕ) → a ≤ t → t ≤ b → (v t).pools ≡ (w t).pools
