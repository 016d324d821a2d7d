-- ===== src/Reader/Sample.antt =====
-- A small published index that the tests of the readers (src/xal.c) share: "/" with the file "a" and the
-- directory "b", which has the file "c".
use xal.Base.{ℕ, zero, suc, ◌+◌, List, [], ◌∷◌, true}
use xal.Model.{Inode, ft_dir, ft_reg_file, pool_idx_none, blank_inode}
use xal.Sync.{clean, mark_dirty}
use xal.Sync.Threads.{World, Reach, here, next, mark, init}
use xal.Sync.Threads.Invariant.{Reach-Inv}
use xal.Reader.{Pools, Seen}
use xal.Reader.History.{History}

abbrev pub a_name : List ℕ
a_name = b'a' ∷ []

abbrev pub b_name : List ℕ
b_name = b'b' ∷ []

abbrev pub c_name : List ℕ
c_name = b'c' ∷ []

abbrev entry : ℕ → ℕ → List ℕ → ℕ → ℕ → ℕ → Inode
entry ino ftype name parent idx count = record {
  ino = ino;
  size = 0;
  content = record { idx = idx; count = count };
  ftype = ftype;
  namelen = 1;
  name = name;
  parent_idx = parent;
}

abbrev pub sample_inode : ℕ → Inode
sample_inode zero = record (entry 128 ft_dir [] pool_idx_none 1 2) { namelen = 0 }
sample_inode (suc zero) = entry 131 ft_reg_file a_name 0 0 1
sample_inode (suc (suc zero)) = entry 132 ft_dir b_name 0 3 1
sample_inode (suc (suc (suc zero))) = entry 133 ft_reg_file c_name 2 1 1
sample_inode (suc (suc (suc (suc i)))) = blank_inode

abbrev pub sample_pools : Pools
sample_pools = record {
  inodes = record { allocated = 4; elems = sample_inode };
  extents = record {
    allocated = 2;
    elems = λ i. record { start_offset = 0; start_block = 16 + i; nblocks = 1; flag = 0 };
  };
  root_idx = 0;
}

abbrev pub sample_seen : Seen
sample_seen = record { words = record { index_state = clean; seq_lock = 2 }; pools = sample_pools }

-- A handle on the index, and the same handle once a thread has marked it.
abbrev pub sample_world : World Pools
sample_world = init sample_pools clean

abbrev pub marked_world : World Pools
marked_world = record sample_world { words = mark_dirty sample_world.words; marked = true }

-- A reader's run in which another thread marks the index after the reader's third access.
abbrev pub sample_history : ℕ → World Pools
sample_history zero = sample_world
sample_history (suc zero) = sample_world
sample_history (suc (suc zero)) = sample_world
sample_history (suc (suc (suc t))) = marked_world

sample_run : (t : ℕ) → Reach (sample_history t) (sample_history (suc t))
sample_run zero = here
sample_run (suc zero) = here
sample_run (suc (suc zero)) = next here mark
sample_run (suc (suc (suc t))) = here

pub sample-History : History sample_history
sample-History = record { start = Reach-Inv sample_pools clean here; run = sample_run }
