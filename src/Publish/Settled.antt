-- ===== src/Publish/Settled.antt =====
-- xal_from_shm() beside publish_shared_state() (src/xal.c), store by store.
use xal.Base.{
  ℕ, zero, suc, ◌≤◌, ◌≡◌, ◌≢◌, refl, List, [], ◌∷◌, ◌++◌, Option, none, some, arith, Bool, true,
  false, All, ◌∙◌, ap,
}
use xal.Model.{Backend, xfs, fiemap, unknown}
use xal.Sync.{Words, clean}
use xal.Publish.Attach.{shared_mountpoint, shared_subtree, Ends, Reads, from_shm-Ends}
use xal.Publish.{
  SharedState, Shared, Publication, PublishCalls, AttachCalls, Store, create, resize, unlink,
  store_state, store_magic, store_subtree, store_backend, prepare, publish_as, publish_shared_state,
  after, from_shm, copy_path,
}

-- A store that leaves the magic alone.
Quiet : Store → Type 0
Quiet s = (w : Shared) → (s w).state.magic ≡ w.state.magic

unfoldable pub all_of : List Store → Shared → Shared
all_of [] w = w
all_of (s ∷ ss) w = all_of ss (s w)

after-magic :
    (ss : List Store) (n : ℕ) (w : Shared)
    → All Quiet ss
    → (after n ss w).state.magic ≡ w.state.magic
unfolding after Quiet
after-magic ss zero w q = refl
after-magic [] (suc n) w q = refl
after-magic (s ∷ ss) (suc n) w (q, qs) = after-magic ss n (s w) qs ∙ q w

-- Once the magic stands, every store has been made.
after-settled :
    (ss : List Store) (n m : ℕ) (w : Shared)
    → All Quiet ss
    → w.state.magic ≡ 0
    → n ≤ m
    → (after n (ss ++ (store_magic ∷ [])) w).state.magic ≢ 0
    → after m (ss ++ (store_magic ∷ [])) w ≡ store_magic (all_of ss w)
unfolding after all_of Quiet
after-settled ss zero m w q z le h = absurd (h z)
after-settled ss (suc n) zero w q z le h = absurd (omega (arith, le))
after-settled [] (suc n) (suc zero) w q z le h = refl
after-settled [] (suc n) (suc (suc m)) w q z le h = refl
after-settled (s ∷ ss) (suc n) (suc m) w (q, qs) z le h =
    after-settled ss n m (s w) qs (q w ∙ z) (omega (arith, le)) h

-- The object before publish_shared_state(): no name, no size, and nothing but zeros to read.
abbrev pub fresh : Shared
fresh = record {
  linked = false;
  nbytes = 0;
  state = record {
    magic = 0;
    version = 0;
    be = unknown;
    sb = record {
      blocksize = 0;
      sectsize = 0;
      inodesize = 0;
      inopblock = 0;
      inopblog = 0;
      icount = 0;
      nallocated = 0;
      rootino = 0;
      agblocks = 0;
      agblklog = 0;
      agcount = 0;
      dirblocksize = 0;
      lba_blksze = 0;
    };
    mountpoint = [];
    subtree = [];
    words = record { index_state = clean; seq_lock = 0 };
  };
}

-- What a secondary finds at its access `t`, once `n t` of the stores are made. The two words of the index
-- are whatever the indexing has made of them.
unfoldable pub beside : List Store → (ℕ → ℕ) → (ℕ → Words) → ℕ → Shared
beside ss n words t =
    let w = after (n t) ss fresh in record w { state = record w.state { words = words t } }

record Holds (b : Backend) (p : Publication) (s : SharedState) : Type 0 where
  sb : s.sb ≡ p.sb
  be : s.be ≡ p.be
  mountpoint : s.mountpoint ≡ shared_mountpoint b p
  subtree : s.subtree ≡ shared_subtree b p.subtree

store_subtree-Holds :
    (p : Publication) (o : Option (List ℕ)) (w : Shared)
    → p.subtree ≡ o
    → w.state.subtree ≡ []
    → Holds fiemap p (record w.state { subtree = shared_subtree fiemap o })
    → Holds fiemap p (all_of (store_subtree o) w).state
unfolding all_of store_subtree store_state shared_subtree
store_subtree-Holds p none w e z h = record {
  sb = h.sb;
  be = h.be;
  mountpoint = h.mountpoint;
  subtree = z ∙ h.subtree;
}
store_subtree-Holds p (some path) w e z h = h

store_backend-Holds :
    (b : Backend) (p : Publication) (w : Shared)
    → w.state.sb ≡ p.sb
    → w.state.be ≡ p.be
    → w.state.mountpoint ≡ copy_path p.mountpoint
    → w.state.subtree ≡ []
    → Holds b p (all_of (store_backend b p) w).state
unfolding all_of store_backend store_state shared_mountpoint shared_subtree
store_backend-Holds xfs p w sb be m z = record { sb = sb; be = be; mountpoint = m; subtree = z }
store_backend-Holds unknown p w sb be m z = record { sb = sb; be = be; mountpoint = m; subtree = z }
store_backend-Holds fiemap p w sb be m z =
    store_subtree-Holds p p.subtree _ refl z
      (record { sb = sb; be = be; mountpoint = refl; subtree = refl })

store_subtree-Quiet : (o : Option (List ℕ)) → All Quiet (store_subtree o)
unfolding store_subtree Quiet store_state
store_subtree-Quiet none = tt
store_subtree-Quiet (some path) = ((λ w. refl), tt)

store_backend-Quiet : (b : Backend) (p : Publication) → All Quiet (store_backend b p)
unfolding store_backend Quiet store_state
store_backend-Quiet xfs p = tt
store_backend-Quiet unknown p = tt
store_backend-Quiet fiemap p = ((λ w. refl), store_subtree-Quiet p.subtree)

abbrev pub setup : ℕ → Publication → List Store
setup nbytes p = create ∷ resize nbytes ∷ prepare p

setup-Quiet : (nbytes : ℕ) (p : Publication) → All Quiet (setup nbytes p)
unfolding Quiet create resize prepare store_state
setup-Quiet nbytes p = (
  (λ w. refl),
  (
    (λ w. refl),
    (
      (λ w. refl),
      ((λ w. refl), ((λ w. refl), ((λ w. refl), ((λ w. refl), store_backend-Quiet p.be p)))),
    ),
  ),
)

setup-Holds :
    (nbytes : ℕ) (p : Publication)
    → Holds p.be p (store_magic (all_of (setup nbytes p) fresh)).state
unfolding all_of create resize prepare store_state store_magic
setup-Holds nbytes p =
    let h = store_backend-Holds p.be p _ refl refl refl refl in
    record { sb = h.sb; be = h.be; mountpoint = h.mountpoint; subtree = h.subtree }

module _ (nbytes : ℕ) (p : Publication) (n : ℕ → ℕ) (words : ℕ → Words) where
  unset : (ss : List Store) → All Quiet ss → (beside ss n words 2).state.magic ≡ 0
  unfolding beside
  unset ss q = after-magic ss (n 2) fresh q

  published-Reads :
      ((s t : ℕ) → s ≤ t → n s ≤ n t)
      → (beside (setup nbytes p ++ (store_magic ∷ [])) n words 2).state.magic ≢ 0
      → Reads p.be p (beside (setup nbytes p ++ (store_magic ∷ [])) n words)
  unfolding beside
  published-Reads later set = record {
    sb = ap (λ (w : Shared). w.state.sb) (at_rest 4 (omega arith)) ∙ holds.sb;
    be = ap (λ (w : Shared). w.state.be) (at_rest 6 (omega arith)) ∙ holds.be;
    mountpoint =
        ap (λ (w : Shared). w.state.mountpoint) (at_rest 7 (omega arith)) ∙ holds.mountpoint;
    subtree = ap (λ (w : Shared). w.state.subtree) (at_rest 8 (omega arith)) ∙ holds.subtree;
    same_subtree = ap (λ (w : Shared). w.state.subtree) (at_rest 9 (omega arith)) ∙ holds.subtree;
  }
    where
      holds : Holds p.be p (store_magic (all_of (setup nbytes p) fresh)).state
      holds = setup-Holds nbytes p

      at_rest :
          (t : ℕ)
          → 2 ≤ t
          → after (n t) (setup nbytes p ++ (store_magic ∷ [])) fresh
            ≡ store_magic (all_of (setup nbytes p) fresh)
      at_rest t le =
          after-settled (setup nbytes p) (n 2) (n t) fresh (setup-Quiet nbytes p) refl
            (later 2 t le) set

  publish_as-Reads :
      (o t m : Option ℕ) (d : Bool)
      → ((s t : ℕ) → s ≤ t → n s ≤ n t)
      → (beside (publish_as o t m d nbytes p).0 n words 2).state.magic ≢ 0
      → Reads p.be p (beside (publish_as o t m d nbytes p).0 n words)
  unfolding publish_as Quiet create resize unlink
  publish_as-Reads (some e) t m d later set = absurd (set (unset [] tt))
  publish_as-Reads none (some e) m d later set =
      absurd (set (unset (create ∷ unlink ∷ []) ((λ w. refl), ((λ w. refl), tt))))
  publish_as-Reads none none (some e) d later set = absurd (
      set (
        unset (create ∷ resize nbytes ∷ unlink ∷ [])
          ((λ w. refl), ((λ w. refl), ((λ w. refl), tt)))))
  publish_as-Reads none none none false later set = absurd (
      set (
        unset (create ∷ resize nbytes ∷ unlink ∷ [])
          ((λ w. refl), ((λ w. refl), ((λ w. refl), tt)))))
  publish_as-Reads none none none true later set = published-Reads later set

-- However the accesses of xal_from_shm() fall between the stores of publish_shared_state(), and
-- whatever the calls of both answer, a secondary gets an errno and keeps no mapping, or it keeps three
-- and its handle has the superblock, the backend, and, of the FIEMAP backend, the mountpoint and the
-- subtree that were published, up to their first 254 bytes: a state half written is never attached.
pub from_shm-Ends_published :
    (nbytes : ℕ) (p : Publication) (n : ℕ → ℕ) (words : ℕ → Words) (pc : PublishCalls)
    (c : AttachCalls)
    → ((s t : ℕ) → s ≤ t → n s ≤ n t)
    → Ends p.be 0 p (from_shm c (beside (publish_shared_state pc nbytes p).0 n words) nbytes)
unfolding publish_shared_state
from_shm-Ends_published nbytes p n words pc c later =
    from_shm-Ends c _ p p.be nbytes
      (publish_as-Reads nbytes p n words pc.shm_open pc.ftruncate pc.mmap pc.strdup later)
