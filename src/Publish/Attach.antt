-- ===== src/Publish/Attach.antt =====
-- xal_from_shm() (src/xal.c) by its branches: what it keeps, and what the handle holds, if what it reads behind
-- the magic is what was published.
use xal.Base.{
  ℕ, suc, ◌/◌, ◌≡◌, ◌≢◌, refl, List, [], ◌∷◌, Option, none, some, Result, ok, err, arith, ◌∙◌,
  if_elim, ap, sym, enomem, eagain, eproto, estale, enoent, ◌==◌, not, ◌&&◌,
}
use mathlib.Core.Path.{subst}
use xal.Model.{Backend, xfs, fiemap, unknown}
use xal.Sync.{is_dirty}
use xal.Publish.{
  Shared, Publication, AttachCalls, Attached, Outcome, or_munmap, attach_subtree, attach_backend,
  attach_extents, attach_inodes, attach_state, map_state, stat_state, open_state, from_shm,
  copy_path, shm_magic, shm_version,
}

-- What a published state holds of the mountpoint and of the subtree.
unfoldable pub shared_mountpoint : Backend → Publication → List ℕ
shared_mountpoint fiemap p = copy_path p.stripped
shared_mountpoint xfs p = copy_path p.mountpoint
shared_mountpoint unknown p = copy_path p.mountpoint

unfoldable pub shared_subtree : Backend → Option (List ℕ) → List ℕ
shared_subtree fiemap none = []
shared_subtree fiemap (some path) = copy_path path
shared_subtree xfs o = []
shared_subtree unknown o = []

unfoldable pub when_any : List ℕ → Option (List ℕ)
when_any [] = none
when_any (b ∷ bs) = some (b ∷ bs)

-- A handle of the backend, with what the FIEMAP backend has of its own.
unfoldable pub IsBacked : Backend → Publication → Attached → Type 0
IsBacked fiemap p h =
    (h.be ≡ fiemap)
    × (h.mountpoint ≡ some (copy_path p.stripped))
    × (h.subtree ≡ when_any (shared_subtree fiemap p.subtree))
IsBacked xfs p h = (h.be ≡ xfs) × (h.mountpoint ≡ none) × (h.subtree ≡ none)
IsBacked unknown p h = (h.be ≡ xfs) × (h.mountpoint ≡ none) × (h.subtree ≡ none)

-- A handle of all that was published and three mappings, or an error and `j` mappings.
unfoldable pub Ends : Backend → ℕ → Publication → Outcome → Type 0
Ends b j p (k, err e) = k ≡ j
Ends b j p (k, ok h) = (k ≡ 3) × (h.sb ≡ p.sb) × IsBacked b p h

or_munmap-Ends :
    (b : Backend) (j : ℕ) (p : Publication) (o : Outcome)
    → Ends b (suc j) p o
    → Ends b j p (or_munmap o)
unfolding Ends or_munmap
or_munmap-Ends b j p (k, err e) h = omega (arith, h)
or_munmap-Ends b j p (k, ok a) h = h

-- From the magic on, a secondary reads of the state what was published.
pub record Reads (b : Backend) (p : Publication) (v : ℕ → Shared) : Type 0 where
  pub sb : (v 4).state.sb ≡ p.sb
  pub be : (v 6).state.be ≡ b
  pub mountpoint : (v 7).state.mountpoint ≡ shared_mountpoint b p
  pub subtree : (v 8).state.subtree ≡ shared_subtree b p.subtree
  pub same_subtree : (v 9).state.subtree ≡ shared_subtree b p.subtree

-- A handle that has the superblock only.
record IsBare (p : Publication) (h : Attached) : Type 0 where
  sb : h.sb ≡ p.sb
  mountpoint : h.mountpoint ≡ none
  subtree : h.subtree ≡ none

fails : (b : Backend) (j : ℕ) (p : Publication) (e : ℕ) → Ends b j p (j, err e)
unfolding Ends
fails b j p e = refl

succeeds :
    (b : Backend) (p : Publication) (h : Attached)
    → h.sb ≡ p.sb
    → IsBacked b p h
    → Ends b 3 p (3, ok h)
unfolding Ends
succeeds b p h sb backed = (refl, sb, backed)

module _ (c : AttachCalls) (v : ℕ → Shared) (p : Publication) where
  attach_subtree-Ends :
      (path : List ℕ) (h : Attached)
      → h.sb ≡ p.sb
      → h.be ≡ fiemap
      → h.mountpoint ≡ some (copy_path p.stripped)
      → h.subtree ≡ none
      → path ≡ shared_subtree fiemap p.subtree
      → (v 9).state.subtree ≡ shared_subtree fiemap p.subtree
      → Ends fiemap 3 p (attach_subtree c v path h)
  unfolding attach_subtree when_any IsBacked
  attach_subtree-Ends [] h sb be mountpoint bare e e9 =
      succeeds fiemap p h sb (be, mountpoint, bare ∙ ap when_any e)
  attach_subtree-Ends (b ∷ bs) h sb be mountpoint bare e e9 =
      if_elim (Ends fiemap 3 p) c.strdup_subtree
        (λ _. succeeds fiemap p _ sb (be, mountpoint, ap some (e9 ∙ sym e) ∙ ap when_any e))
        (λ _. fails fiemap 3 p enomem)

  attach_backend-Ends :
      (b : Backend) (h : Attached) → IsBare p h → Reads b p v → Ends b 3 p (attach_backend c v b h)
  unfolding attach_backend IsBacked shared_mountpoint
  attach_backend-Ends fiemap h bare r =
      if_elim (Ends fiemap 3 p) c.strdup_mountpoint
        (λ _.
          attach_subtree-Ends (v 8).state.subtree _ bare.sb refl (ap some r.mountpoint) bare.subtree
            r.subtree r.same_subtree)
        (λ _. fails fiemap 3 p enomem)
  attach_backend-Ends xfs h bare r =
      succeeds xfs p (record h { be = xfs }) bare.sb (refl, bare.mountpoint, bare.subtree)
  attach_backend-Ends unknown h bare r =
      succeeds unknown p (record h { be = xfs }) bare.sb (refl, bare.mountpoint, bare.subtree)

  attach_extents-Ends :
      (b : Backend) (size : Result ℕ) (h : Attached)
      → IsBare p h
      → Reads b p v
      → Ends b 2 p (attach_extents c v size h)
  unfolding attach_extents
  attach_extents-Ends b (err e) h bare r = fails b 2 p e
  attach_extents-Ends b (ok size) h bare r = or_munmap-Ends b 2 p _ (
      subst (λ k. Ends b 3 p (attach_backend c v k sized)) (sym r.be)
        (attach_backend-Ends b sized
          (record { sb = bare.sb; mountpoint = bare.mountpoint; subtree = bare.subtree }) r))
    where
      sized : Attached
      sized = record h { extents_allocated = size / c.extent_size }

  attach_inodes-Ends :
      (b : Backend) (size : Result ℕ) (h : Attached)
      → IsBare p h
      → Reads b p v
      → Ends b 1 p (attach_inodes c v size h)
  unfolding attach_inodes
  attach_inodes-Ends b (err e) h bare r = fails b 1 p e
  attach_inodes-Ends b (ok size) h bare r = or_munmap-Ends b 1 p _ (
      attach_extents-Ends b c.extents _
        (record { sb = bare.sb; mountpoint = bare.mountpoint; subtree = bare.subtree }) r)

  attach_state-Ends :
      (b : Backend) → ((v 2).state.magic ≢ 0 → Reads b p v) → Ends b 1 p (attach_state c v)
  unfolding attach_state
  attach_state-Ends b r =
      if_elim (Ends b 1 p) ((v 2).state.magic == 0) (λ _. fails b 1 p eagain)
        (λ unequal.
          if_elim (Ends b 1 p)
            (not (((v 2).state.magic == shm_magic) && ((v 3).state.version == shm_version)))
            (λ _. fails b 1 p eproto)
            (λ _.
              if_elim (Ends b 1 p) (is_dirty (v 5).state.words) (λ _. fails b 1 p estale)
                (λ _.
                  let reads = r (λ z. ground (arith, unequal, z)) in
                  attach_inodes-Ends b c.inodes _
                    (record { sb = reads.sb; mountpoint = refl; subtree = refl }) reads)))

  pub from_shm-Ends :
      (b : Backend) (nbytes : ℕ)
      → ((v 2).state.magic ≢ 0 → Reads b p v)
      → Ends b 0 p (from_shm c v nbytes)
  unfolding from_shm open_state stat_state map_state
  from_shm-Ends b nbytes r =
      if_elim (Ends b 0 p) c.calloc (λ _. opened c.shm_open) (λ _. fails b 0 p enomem)
    where
      mapped : (o : Option ℕ) → Ends b 0 p (map_state c v o)
      mapped (some e) = fails b 0 p e
      mapped none = or_munmap-Ends b 0 p _ (attach_state-Ends b r)

      sized : (o : Option ℕ) → Ends b 0 p (stat_state c v nbytes o)
      sized (some e) = fails b 0 p e
      sized none =
          if_elim (Ends b 0 p) ((v 1).nbytes == 0) (λ _. fails b 0 p eagain)
            (λ _.
              if_elim (Ends b 0 p) (not ((v 1).nbytes == nbytes)) (λ _. fails b 0 p eproto)
                (λ _. mapped c.mmap))

      opened : (o : Option ℕ) → Ends b 0 p (open_state c v nbytes o)
      opened (some e) = fails b 0 p e
      opened none = if_elim (Ends b 0 p) (v 0).linked (λ _. sized c.fstat) (λ _. fails b 0 p enoent)
