-- ===== src/Publish/Tests.antt =====
-- A FIEMAP handle on "/m", scoped to "s", that a secondary attaches to while it is published (src/xal.c).
use xal.Base.{length, ℕ, ◌+◌, ◌≡◌, refl, [], ◌∷◌, none, some, ok, err, eagain, arith, true, false}
use xal.Model.{fiemap}
use xal.Sync.{Words, clean, is_dirty}
use xal.Publish.{
  Publication, AttachCalls, Outcome, publish_shared_state, from_shm, publish_as, after, prepare,
  store_backend, store_subtree, store_state, store_magic, create, resize, copy_path, or_munmap,
  attach_subtree, attach_backend, attach_extents, attach_inodes, attach_state, map_state,
  stat_state, open_state,
}
use xal.Publish.Attach.{Ends}
use xal.Publish.Granted.{granted, stores, IsGranted, IsOk, from_shm-IsOk_published}
use xal.Publish.Settled.{beside, fresh, from_shm-Ends_published}

abbrev scoped : Publication
scoped = record {
  be = fiemap;
  sb = record fresh.state.sb { blocksize = 4096 };
  mountpoint = b'/' ∷ b'm' ∷ b'/' ∷ [];
  stripped = b'/' ∷ b'm' ∷ [];
  subtree = some (b's' ∷ []);
}

abbrev answered : AttachCalls
answered = record {
  calloc = true;
  shm_open = none;
  fstat = none;
  mmap = none;
  inodes = ok 640;
  extents = ok 96;
  inode_size = 320;
  extent_size = 32;
  strdup_mountpoint = true;
  strdup_subtree = true;
}

abbrev indexed : ℕ → Words
indexed t = record { index_state = clean; seq_lock = 2 }

abbrev attach : (ℕ → ℕ) → Outcome
attach n = from_shm answered (beside (publish_shared_state granted 800 scoped).0 n indexed) 800

-- The last store is the tenth.
attaches : (attach (λ t. 9 + t)).0 ≡ 3
unfolding publish_shared_state from_shm publish_as after prepare store_backend store_subtree
    store_state store_magic create resize copy_path or_munmap attach_subtree attach_backend
    attach_extents attach_inodes attach_state map_state stat_state open_state beside is_dirty
attaches = refl

too_early : attach (λ t. 2 + t) ≡ (0, err eagain)
unfolding publish_shared_state from_shm publish_as after prepare store_backend store_subtree
    store_state store_magic create resize copy_path or_munmap attach_subtree attach_backend
    attach_extents attach_inodes attach_state map_state stat_state open_state beside is_dirty
too_early = refl

from_shm-Ends_published_example : Ends fiemap 0 scoped (attach (λ t. 9 + t))
from_shm-Ends_published_example =
    from_shm-Ends_published 800 scoped (λ t. 9 + t) indexed granted answered
      (λ s t le. omega (arith, le))

answered-IsGranted : IsGranted answered
answered-IsGranted = record {
  calloc = refl;
  shm_open = refl;
  fstat = refl;
  mmap = refl;
  inodes_size = 640;
  inodes = refl;
  extents_size = 96;
  extents = refl;
  strdup_mountpoint = refl;
  strdup_subtree = refl;
}

ten_stores : length (stores 800 scoped) ≡ 10
unfolding stores publish_shared_state publish_as prepare store_backend store_subtree
ten_stores = refl

clean_then : is_dirty (indexed 5) ≡ false
unfolding is_dirty
clean_then = refl

from_shm-IsOk_published_example :
    IsOk (from_shm answered (beside (stores 800 scoped) (λ t. 10 + t) indexed) 800)
from_shm-IsOk_published_example =
    from_shm-IsOk_published answered 800 scoped (λ t. 10 + t) indexed answered-IsGranted
      (λ e. omega (arith, e)) (λ t. omega (arith, ten_stores)) clean_then
