-- ===== src/Publish/Granted.antt =====
-- A secondary gets its handle (src/xal.c), once the state is published and the index is built.
use xal.Base.{
  ℕ, zero, suc, ◌≤◌, ◌<◌, ◌≡◌, ◌≢◌, refl, List, [], ◌∷◌, ◌++◌, Option, none, some, Result, ok, err,
  Bool, true, false, ◌∙◌, if_elim, ap, arith, length, ◌==◌, ◌&&◌, not, if◌then◌else◌,
}
use xal.Model.{Backend, xfs, fiemap, unknown}
use xal.Sync.{Words, is_dirty}
use xal.Publish.{
  Shared, Publication, PublishCalls, AttachCalls, Attached, Outcome, Store, create, resize,
  store_state, store_magic, store_subtree, store_backend, prepare, publish_as, publish_shared_state,
  after, or_munmap, attach_subtree, attach_backend, attach_extents, attach_inodes, attach_state,
  map_state, stat_state, open_state, from_shm, shm_magic, shm_version,
}
use xal.Publish.Settled.{beside, fresh, all_of, setup}

-- The result is 0.
unfoldable pub IsOk : Outcome → Type 0
IsOk (k, err e) = true ≡ false
IsOk (k, ok h) = k ≡ 3

or_munmap-IsOk : (o : Outcome) → IsOk o → IsOk (or_munmap o)
unfolding or_munmap IsOk
or_munmap-IsOk (k, err e) h = h
or_munmap-IsOk (k, ok a) h = h

IsOk-done : (h : Attached) → IsOk (3, ok h)
unfolding IsOk
IsOk-done h = refl

-- Every system call of xal_from_shm() succeeds.
pub record IsGranted (c : AttachCalls) : Type 0 where
  pub calloc : c.calloc ≡ true
  pub shm_open : c.shm_open ≡ none
  pub fstat : c.fstat ≡ none
  pub mmap : c.mmap ≡ none
  pub inodes_size : ℕ
  pub inodes : c.inodes ≡ ok inodes_size
  pub extents_size : ℕ
  pub extents : c.extents ≡ ok extents_size
  pub strdup_mountpoint : c.strdup_mountpoint ≡ true
  pub strdup_subtree : c.strdup_subtree ≡ true

-- What a secondary must find.
record IsReady (nbytes : ℕ) (v : ℕ → Shared) : Type 0 where
  linked : (v 0).linked ≡ true
  sized : (v 1).nbytes ≡ nbytes
  magic : (v 2).state.magic ≡ shm_magic
  version : (v 3).state.version ≡ shm_version
  built : is_dirty (v 5).state.words ≡ false

if_true :
    (P : Outcome → Type 0) (b : Bool) {x : Outcome} (y : Outcome)
    → b ≡ true
    → P x
    → P (if b then x else y)
if_true P b y e h = if_elim P b (λ _. h) (λ f. absurd (ground (arith, e, f)))

if_false :
    (P : Outcome → Type 0) (b : Bool) (x : Outcome) {y : Outcome}
    → b ≡ false
    → P y
    → P (if b then x else y)
if_false P b x e h = if_elim P b (λ f. absurd (ground (arith, e, f))) (λ _. h)

module _ (c : AttachCalls) (v : ℕ → Shared) (g : IsGranted c) where
  attach_subtree-IsOk : (path : List ℕ) (h : Attached) → IsOk (attach_subtree c v path h)
  unfolding attach_subtree
  attach_subtree-IsOk [] h = IsOk-done h
  attach_subtree-IsOk (b ∷ bs) h = if_true IsOk c.strdup_subtree _ g.strdup_subtree (IsOk-done _)

  attach_backend-IsOk : (b : Backend) (h : Attached) → IsOk (attach_backend c v b h)
  unfolding attach_backend
  attach_backend-IsOk fiemap h =
      if_true IsOk c.strdup_mountpoint _ g.strdup_mountpoint (attach_subtree-IsOk _ _)
  attach_backend-IsOk xfs h = IsOk-done _
  attach_backend-IsOk unknown h = IsOk-done _

  attach_extents-IsOk :
      (r : Result ℕ) (h : Attached) {n : ℕ} → r ≡ ok n → IsOk (attach_extents c v r h)
  unfolding attach_extents
  attach_extents-IsOk (err e) h f = cc
  attach_extents-IsOk (ok n) h f = or_munmap-IsOk _ (attach_backend-IsOk (v 6).state.be _)

  attach_inodes-IsOk :
      (r : Result ℕ) (h : Attached) {n : ℕ} → r ≡ ok n → IsOk (attach_inodes c v r h)
  unfolding attach_inodes
  attach_inodes-IsOk (err e) h f = cc
  attach_inodes-IsOk (ok n) h f = or_munmap-IsOk _ (attach_extents-IsOk c.extents _ g.extents)

  from_shm-IsOk : (nbytes : ℕ) → nbytes ≢ 0 → IsReady nbytes v → IsOk (from_shm c v nbytes)
  unfolding from_shm open_state stat_state map_state attach_state
  from_shm-IsOk nbytes some_bytes r =
      if_true IsOk c.calloc _ g.calloc (opened c.shm_open g.shm_open)
    where
      attached : IsOk (attach_state c v)
      attached = if_false IsOk ((v 2).state.magic == 0) _ (ground (arith, r.magic)) (
          if_false IsOk
            (not (((v 2).state.magic == shm_magic) && ((v 3).state.version == shm_version))) _
            (ground (arith, r.magic, r.version))
            (if_false IsOk (is_dirty (v 5).state.words) _ r.built
              (attach_inodes-IsOk c.inodes _ g.inodes)))

      mapped : (o : Option ℕ) → o ≡ none → IsOk (map_state c v o)
      mapped (some e) f = cc
      mapped none f = or_munmap-IsOk _ attached

      sized : (o : Option ℕ) → o ≡ none → IsOk (stat_state c v nbytes o)
      sized (some e) f = cc
      sized none f = if_false IsOk ((v 1).nbytes == 0) _ (ground (arith, r.sized, some_bytes)) (
          if_false IsOk (not ((v 1).nbytes == nbytes)) _ (ground (arith, r.sized))
            (mapped c.mmap g.mmap))

      opened : (o : Option ℕ) → o ≡ none → IsOk (open_state c v nbytes o)
      opened (some e) f = cc
      opened none f = if_true IsOk (v 0).linked _ r.linked (sized c.fstat g.fstat)

after-all :
    (ss : List Store) (n : ℕ) (w : Shared)
    → length ss < n
    → after n (ss ++ (store_magic ∷ [])) w ≡ store_magic (all_of ss w)
unfolding after all_of
after-all ss zero w lt = absurd (omega (arith, lt))
after-all [] (suc zero) w lt = refl
after-all [] (suc (suc n)) w lt = refl
after-all (s ∷ ss) (suc n) w lt = after-all ss n (s w) (omega (arith, lt))

store_subtree-keeps :
    (o : Option (List ℕ)) (w : Shared)
    → ((all_of (store_subtree o) w).linked ≡ w.linked)
      × ((all_of (store_subtree o) w).nbytes ≡ w.nbytes)
      × ((all_of (store_subtree o) w).state.version ≡ w.state.version)
unfolding all_of store_subtree store_state
store_subtree-keeps none w = (refl, refl, refl)
store_subtree-keeps (some path) w = (refl, refl, refl)

store_backend-keeps :
    (b : Backend) (p : Publication) (w : Shared)
    → ((all_of (store_backend b p) w).linked ≡ w.linked)
      × ((all_of (store_backend b p) w).nbytes ≡ w.nbytes)
      × ((all_of (store_backend b p) w).state.version ≡ w.state.version)
unfolding all_of store_backend store_state
store_backend-keeps xfs p w = (refl, refl, refl)
store_backend-keeps unknown p w = (refl, refl, refl)
store_backend-keeps fiemap p w = store_subtree-keeps p.subtree _

-- Every system call of publish_shared_state() succeeds.
abbrev pub granted : PublishCalls
granted = record { shm_open = none; ftruncate = none; mmap = none; strdup = true }

-- The stores of a publication that succeeds.
unfoldable pub stores : ℕ → Publication → List Store
stores nbytes p = (publish_shared_state granted nbytes p).0

setup-IsReady :
    (nbytes : ℕ) (p : Publication) (n : ℕ → ℕ) (words : ℕ → Words)
    → ((t : ℕ) → length (setup nbytes p) < n t)
    → is_dirty (words 5) ≡ false
    → IsReady nbytes (beside (setup nbytes p ++ (store_magic ∷ [])) n words)
unfolding beside all_of create resize prepare store_state store_magic
setup-IsReady nbytes p n words past built = record {
  linked = ap (λ (w : Shared). w.linked) (done 0) ∙ keeps.0;
  sized = ap (λ (w : Shared). w.nbytes) (done 1) ∙ keeps.1;
  magic = ap (λ (w : Shared). w.state.magic) (done 2);
  version = ap (λ (w : Shared). w.state.version) (done 3) ∙ keeps.2;
  built = built;
}
  where
    done :
        (t : ℕ)
        → after (n t) (setup nbytes p ++ (store_magic ∷ [])) fresh
          ≡ store_magic (all_of (setup nbytes p) fresh)
    done t = after-all (setup nbytes p) (n t) fresh (past t)

    keeps :
        ((all_of (setup nbytes p) fresh).linked ≡ true)
        × ((all_of (setup nbytes p) fresh).nbytes ≡ nbytes)
        × ((all_of (setup nbytes p) fresh).state.version ≡ shm_version)
    keeps = store_backend-keeps p.be p _

-- Once publish_shared_state() has made all its stores, the index is not dirty, and the state has a size,
-- xal_from_shm(), where its system calls succeed, succeeds with three mappings.
pub from_shm-IsOk_published :
    (c : AttachCalls) (nbytes : ℕ) (p : Publication) (n : ℕ → ℕ) (words : ℕ → Words)
    → IsGranted c
    → nbytes ≢ 0
    → ((t : ℕ) → length (stores nbytes p) ≤ n t)
    → is_dirty (words 5) ≡ false
    → IsOk (from_shm c (beside (stores nbytes p) n words) nbytes)
unfolding stores publish_shared_state publish_as
from_shm-IsOk_published c nbytes p n words g some_bytes past built =
    from_shm-IsOk c _ g nbytes some_bytes (
      setup-IsReady nbytes p n words
        (λ t. omega (arith, past t, length-push (setup nbytes p) store_magic)) built)
  where
    length-push : (ss : List Store) (s : Store) → length (ss ++ (s ∷ [])) ≡ suc (length ss)
    length-push [] s = refl
    length-push (x ∷ ss) s = omega (arith, length-push ss s)
