-- ===== src/Build/Pools/Root.antt =====
-- process_ino() and xal_be_xfs_index() (src/xal_be_xfs.c): the pools and the shared words that a build leaves.
use xal.Base.{
  ℕ, zero, suc, ◌+◌, ◌%◌, ◌<◌, ◌≡◌, refl, Bool, true, Result, ok, err, arith, ◌==◌, if◌then◌else◌,
  Option-cases, inl, inr, u32_mod, ◌^◌,
}
use xal.Model.{Inode, blank_inode}
use xal.Sync.{clean, dirty, indexing, Words, bump_seq, mark_index_done}
use xal.Pool.{Pool, claim_inodes}
use xal.Pool.Valid.{IsValid}
use xal.Pool.Clear.{clear-IsValid}
use xal.Disk.{Bytes}
use xal.Build.State.{Env, Built, Action, inode_of, set_content, dinodes_get}
use xal.Build.Files.{nextents_of}
use xal.Build.Index.{
  process_format, process_typed, process_found, process_ino, build_root, end_build, clear_pools,
  xfs_index, Handle, errno, blank_extent,
}
use xal.Build.Pools.{Good, Keeps, set_inode-Good, set_content-Good, inodes-IsValid}
use xal.Build.Pools.Extents.{IsSane, file_extents-Keeps, file_btree-Keeps}
use xal.Build.Pools.Entries.{dir_local-Keeps, dir_extents_root-Keeps, dir_btree-Keeps}

format-Keeps :
    (fuel : ℕ) (env : Env) (process : ℕ → ℕ → Action) (d : Bytes) (self ftype : ℕ)
    → IsSane env
    → nextents_of d < 2 ^ 63
    → ((ino j : ℕ) → Keeps (process ino j))
    → Keeps (process_format fuel env process d self ftype)
unfolding process_format
format-Keeps fuel env process d self ftype s small k b g = ground (
  arith,
  dir_btree-Keeps env process d self k
      (set_content b self b.inodes.free (inode_of b self).content.count)
      (set_content-Good b self b.inodes.free (inode_of b self).content.count g),
  file_btree-Keeps fuel env d self s b g,
  dir_extents_root-Keeps env process d self k b g,
  file_extents-Keeps env d self small b g,
  dir_local-Keeps env process d self k b g,
)

typed-Good :
    (fuel : ℕ) (env : Env) (process : ℕ → ℕ → Action) (d : Bytes) (self : ℕ) (b : Built)
    (r : Result ℕ)
    → IsSane env
    → nextents_of d < 2 ^ 63
    → ((ino j : ℕ) → Keeps (process ino j))
    → Good b
    → Good (process_typed fuel env process d self b r).0
unfolding process_typed
typed-Good fuel env process d self b (err e) s small k g = g
typed-Good fuel env process d self b (ok ftype) s small k g =
    format-Keeps fuel env process d self ftype s small k _ (set_inode-Good b self _ g)

found-Good :
    (fuel : ℕ) (env : Env) (process : ℕ → ℕ → Action) (ino self : ℕ) (b : Built)
    → IsSane env
    → ((j i : ℕ) → Keeps (process j i))
    → Good b
    → Good (process_found fuel env process self b (dinodes_get env ino)).0
unfolding dinodes_get process_found
found-Good fuel env process ino self b s k g = elim (Option-cases (env.dinodes ino)) [
  | inl e ↦ rw (e, process_found) g
  | inr (d, e) ↦
      rw (e, process_found) (typed-Good fuel env process d self b _ s (s.counts ino e) k g)
]

-- Whatever a disk holds that counts fewer than 2 ^ 63 extents in each dinode, and whatever qsort(),
-- the kernel and the device answer, process_ino() on valid pools leaves valid pools: no index that it
-- hands out is past what is accessible, also when it fails.
pub process_ino-Keeps :
    (height fuel : ℕ) (env : Env) (ino self : ℕ)
    → IsSane env
    → Keeps (process_ino height fuel env ino self)
unfolding process_ino
process_ino-Keeps height zero env ino self s b g = g
process_ino-Keeps height (suc fuel) env ino self s b g =
    found-Good height env (process_ino height fuel env) ino self b s
      (λ j i. process_ino-Keeps height fuel env j i s) g

build_root-Good :
    (height fuel : ℕ) (env : Env) (b : Built) (root : ℕ) (r : Pool Inode × Result ℕ)
    → IsSane env
    → Good b
    → IsValid r.0
    → Good (build_root height fuel env b root r).0
unfolding build_root
build_root-Good height fuel env b root (p, err e) s g v = (v, g.1)
build_root-Good height fuel env b root (p, ok i) s g v =
    process_ino-Keeps height fuel env env.sb.rootino i s _ (set_inode-Good _ i _ (v, g.1))

-- A handle between two builds: valid pools, and an even sequence lock.
pub record IsResting (h : Handle) : Type 0 where
  pub pools : Good h.built
  pub even : h.words.seq_lock % 2 ≡ 0

pub clear_pools-Good : (b : Built) → Good b → Good (clear_pools b)
unfolding clear_pools
clear_pools-Good b g =
    (clear-IsValid blank_inode b.inodes g.0, clear-IsValid blank_extent b.extents g.1)

end_build-words :
    (words : Words) (has : Bool) (r : Built × ℕ × Result (Unit {0}))
    → words.index_state ≡ indexing
    → let (h, ret) = end_build words has r in
      (ret ≡ r.2)
      × (h.built ≡ r.0)
      × (h.words.index_state ≡ (if errno ret == 0 then clean else dirty))
      × (h.words.seq_lock ≡ (words.seq_lock + 1) % u32_mod)
unfolding end_build bump_seq mark_index_done
end_build-words words has (b, root, r) e = ground arith

-- What a build starts from: the words behind the first bump, and the cleared pools.
abbrev first_words : Handle → Words
first_words h = bump_seq (record (h.words) { index_state = indexing })

abbrev run_of : ℕ → ℕ → Env → Handle → Built × ℕ × Result (Unit {0})
run_of height fuel env h =
    build_root height fuel env (clear_pools h.built) h.root_idx
      (claim_inodes env.inodes_mprotect (clear_pools h.built).inodes 1)

xfs_index-run :
    (height fuel : ℕ) (env : Env) (h : Handle)
    → h.has_dinodes ≡ true
    → xfs_index height fuel env h ≡ end_build (first_words h) true (run_of height fuel env h)
unfolding xfs_index
xfs_index-run height fuel env h has = ground arith

run-Good :
    (height fuel : ℕ) (env : Env) (h : Handle)
    → IsSane env
    → Good h.built
    → Good (run_of height fuel env h).0
run-Good height fuel env h s g =
    let cleared = clear_pools-Good h.built g in
    build_root-Good height fuel env _ h.root_idx _ s cleared
      (inodes-IsValid env.inodes_mprotect (clear_pools h.built).inodes 1 cleared.0 (omega arith))

-- xal_be_xfs_index() after xal_dinodes_retrieve(), with nobody else at the handle and a disk that counts
-- fewer than 2 ^ 63 extents in each dinode: from a handle with valid pools and an even sequence lock
-- it comes to such a handle again, the lock two on; the index is clean if the result is 0, and dirty
-- if it is an errno.
pub xfs_index-IsResting :
    (height fuel : ℕ) (env : Env) (h : Handle)
    → IsSane env
    → IsResting h
    → h.has_dinodes ≡ true
    → let (h', r) = xfs_index height fuel env h in
      IsResting h'
      × (h'.words.index_state ≡ (if errno r == 0 then clean else dirty))
      × (h'.words.seq_lock ≡ (h.words.seq_lock + 2) % u32_mod)
unfolding bump_seq
xfs_index-IsResting height fuel env h s i has =
    let ends = end_build-words (first_words h) true (run_of height fuel env h) refl in
    rw (xfs_index-run height fuel env h has) (
      record {
        pools = rw (ends.1) (run-Good height fuel env h s i.pools);
        even = omega (arith, ends.3, i.even);
      },
      ends.2,
      omega (arith, ends.3),
    )
