-- ===== src/Publish.antt =====
-- The region of shared memory by which a secondary attaches (src/xal.c, include/xal.h):
-- publish_shared_state() as the stores it makes, one after the other, and xal_from_shm() as the accesses
-- it makes beside them.
pub mod Attach
pub mod Settled
pub mod Granted
mod Tests
use xal.Base.{
  ℕ, zero, suc, ◌/◌, ◌-◌, Bool, true, false, List, [], ◌∷◌, ◌++◌, take, Option, none, some, Result,
  ok, err, enoent, enomem, eagain, eproto, estale, ◌==◌, ◌&&◌, not, if◌then◌else◌,
}
use xal.Model.{Sb, Backend, xfs, fiemap, unknown}
use xal.Sync.{Words, dirty, is_dirty}

-- XAL_SHM_MAGIC
abbrev pub shm_magic : ℕ
shm_magic = 0x58_414c_5341

-- XAL_SHM_VERSION
abbrev pub shm_version : ℕ
shm_version = 3

-- `struct xal_shared_state`
pub record SharedState : Type 0 where
  pub magic : ℕ
  pub version : ℕ
  pub be : Backend
  pub sb : Sb
  pub mountpoint : List ℕ
  pub subtree : List ℕ
  pub words : Words

-- The object of the state's name: whether the name is there, its size, and what it holds.
pub record Shared : Type 0 where
  pub linked : Bool
  pub nbytes : ℕ
  pub state : SharedState

-- What is published: the handle's backend and superblock, the mountpoint that was asked for, and what
-- the FIEMAP backend has of its own.
pub record Publication : Type 0 where
  pub be : Backend
  pub sb : Sb
  pub mountpoint : List ℕ
  pub stripped : List ℕ
  pub subtree : Option (List ℕ)

-- `strncpy` to a buffer of XAL_PATH_MAXLEN bytes, the last of which is zero.
unfoldable pub copy_path : List ℕ → List ℕ
copy_path bytes = take 254 bytes

abbrev pub Store : Type 0
Store = Shared → Shared

unfoldable pub create : Store
create w = record w { linked = true }

unfoldable pub resize : ℕ → Store
resize nbytes w = record w { nbytes = nbytes }

unfoldable pub unlink : Store
unlink w = record w { linked = false }

unfoldable pub store_state : (SharedState → SharedState) → Store
store_state f w = record w { state = f w.state }

unfoldable pub store_magic : Store
store_magic = store_state (λ s. record s { magic = shm_magic })

-- What the FIEMAP backend adds.
unfoldable pub store_subtree : Option (List ℕ) → List Store
store_subtree none = []
store_subtree (some path) = store_state (λ s. record s { subtree = copy_path path }) ∷ []

unfoldable pub store_backend : Backend → Publication → List Store
store_backend xfs p = []
store_backend unknown p = []
store_backend fiemap p =
    store_state (λ s. record s { mountpoint = copy_path p.stripped }) ∷ store_subtree p.subtree

-- The stores before the last.
unfoldable pub prepare : Publication → List Store
prepare p =
    store_state (λ s. record s { words = record s.words { index_state = dirty } })
    ∷ store_state (λ s. record s { version = shm_version })
    ∷ store_state (λ s. record s { be = p.be })
    ∷ store_state (λ s. record s { sb = p.sb })
    ∷ store_state (λ s. record s { mountpoint = copy_path p.mountpoint })
    ∷ store_backend p.be p

-- What shm_open(), ftruncate(), mmap() and strdup() answer.
pub record PublishCalls : Type 0 where
  pub shm_open : Option ℕ
  pub ftruncate : Option ℕ
  pub mmap : Option ℕ
  pub strdup : Bool

-- The branches of publish_shared_state(): what it does to the object, in order, and its result.
unfoldable pub publish_as :
    Option ℕ → Option ℕ → Option ℕ → Bool → ℕ → Publication → List Store × Result (Unit {0})
publish_as (some e) t m d nbytes p = ([], err e)
publish_as none (some e) m d nbytes p = (create ∷ unlink ∷ [], err e)
publish_as none none (some e) d nbytes p = (create ∷ resize nbytes ∷ unlink ∷ [], err e)
publish_as none none none false nbytes p = (create ∷ resize nbytes ∷ unlink ∷ [], err enomem)
publish_as none none none true nbytes p =
    ((create ∷ resize nbytes ∷ prepare p) ++ (store_magic ∷ []), ok tt)

-- `publish_shared_state`, where the state has `nbytes` bytes.
unfoldable pub publish_shared_state :
    PublishCalls → ℕ → Publication → List Store × Result (Unit {0})
publish_shared_state c nbytes p = publish_as c.shm_open c.ftruncate c.mmap c.strdup nbytes p

-- The object after the first `n` of some stores.
unfoldable pub after : ℕ → List Store → Shared → Shared
after zero ss w = w
after (suc n) [] w = w
after (suc n) (s ∷ ss) w = after n ss (s w)

-- What the calls of xal_from_shm() answer; for each pool its size, or the errno of the call that failed.
pub record AttachCalls : Type 0 where
  pub calloc : Bool
  pub shm_open : Option ℕ
  pub fstat : Option ℕ
  pub mmap : Option ℕ
  pub inodes : Result ℕ
  pub extents : Result ℕ
  pub inode_size : ℕ
  pub extent_size : ℕ
  pub strdup_mountpoint : Bool
  pub strdup_subtree : Bool

-- The handle of a secondary.
pub record Attached : Type 0 where
  pub sb : Sb
  pub be : Backend
  pub mountpoint : Option (List ℕ)
  pub subtree : Option (List ℕ)
  pub inodes_allocated : ℕ
  pub extents_allocated : ℕ

-- How many mappings are kept, and the result.
abbrev pub Outcome : Type 0
Outcome = ℕ × Result Attached

-- An error undoes the mapping that was made before; munmap() of a mapping works.
unfoldable pub or_munmap : Outcome → Outcome
or_munmap (n, err e) = (n - 1, err e)
or_munmap (n, ok h) = (n, ok h)

module _ (c : AttachCalls) (v : ℕ → Shared) where
  unfoldable pub attach_subtree : List ℕ → Attached → Outcome
  attach_subtree [] h = (3, ok h)
  attach_subtree (b ∷ bs) h =
      if c.strdup_subtree
      then (3, ok (record h { subtree = some (v 9).state.subtree }))
      else (3, err enomem)

  unfoldable pub attach_backend : Backend → Attached → Outcome
  attach_backend fiemap h =
      if c.strdup_mountpoint
      then attach_subtree (v 8).state.subtree
          (record h { be = fiemap; mountpoint = some (v 7).state.mountpoint })
      else (3, err enomem)
  attach_backend xfs h = (3, ok (record h { be = xfs }))
  attach_backend unknown h = (3, ok (record h { be = xfs }))

  unfoldable pub attach_extents : Result ℕ → Attached → Outcome
  attach_extents (err e) h = (2, err e)
  attach_extents (ok size) h =
      or_munmap
        (attach_backend (v 6).state.be (record h { extents_allocated = size / c.extent_size }))

  unfoldable pub attach_inodes : Result ℕ → Attached → Outcome
  attach_inodes (err e) h = (1, err e)
  attach_inodes (ok size) h =
      or_munmap (attach_extents c.extents (record h { inodes_allocated = size / c.inode_size }))

  -- From the state's mapping on.
  unfoldable pub attach_state : Outcome
  attach_state =
      if (v 2).state.magic == 0
      then (1, err eagain)
      else if not (((v 2).state.magic == shm_magic) && ((v 3).state.version == shm_version))
      then (1, err eproto)
      else if is_dirty (v 5).state.words
      then (1, err estale)
      else attach_inodes c.inodes (record {
        sb = (v 4).state.sb;
        be = unknown;
        mountpoint = none;
        subtree = none;
        inodes_allocated = 0;
        extents_allocated = 0;
      })

  unfoldable pub map_state : Option ℕ → Outcome
  map_state (some e) = (0, err e)
  map_state none = or_munmap attach_state

  unfoldable pub stat_state : ℕ → Option ℕ → Outcome
  stat_state nbytes (some e) = (0, err e)
  stat_state nbytes none =
      if (v 1).nbytes == 0
      then (0, err eagain)
      else if not ((v 1).nbytes == nbytes)
      then (0, err eproto)
      else map_state c.mmap

  unfoldable pub open_state : ℕ → Option ℕ → Outcome
  open_state nbytes (some e) = (0, err e)
  open_state nbytes none = if (v 0).linked then stat_state nbytes c.fstat else (0, err enoent)

  -- `xal_from_shm`, where the state has `nbytes` bytes.
  unfoldable pub from_shm : ℕ → Outcome
  from_shm nbytes = if c.calloc then open_state nbytes c.shm_open else (0, err enomem)
