-- ===== src/Build/Pools/Extents.antt =====
-- The extents of files (src/xal_be_xfs.c) keep the pools valid.
use xal.Base.{
  ℕ, zero, suc, ◌+◌, ◌/◌, ◌^◌, ◌<◌, ◌≡◌, some, Result, ok, err, arith, inl, inr, Option-cases,
  sub64,
}
use xal.Model.{Extent, xfs}
use xal.Pool.{Pool, claim_extents}
use xal.Pool.Valid.{IsValid}
use xal.Extent.{fsbno_offset}
use xal.Disk.{
  Bytes, lfmt_numrecs, be16, dinode_nbytes, dev_read, btree_lblock_meta, btree_dinode_meta,
}
use xal.Build.State.{Env, Built, Action, set_content}
use xal.Build.Files.{
  decode_records, store_extents, nextents_of, process_dinode_file_extents, store_leaf,
  process_leaf_block, process_file_btree_leaf, each_pointer, process_node_block,
  process_file_btree_node, process_dinode_file_btree_root, copied,
}
use xal.Build.Pools.{
  Good, Keeps, store-IsValid, set_content-Good, add_count-Good, on_success-Good, extents-IsValid,
}

-- What a build asks of a disk: a read gives bytes, and no dinode counts 2 ^ 63 extents or more.
pub record IsSane (env : Env) : Type 0 where
  pub bytes : (slba nlb : ℕ) {m : Bytes} → env.dev.nvm_read slba nlb ≡ some m → (o : ℕ) → m o < 256
  pub counts : (ino : ℕ) {d : Bytes} → env.dinodes ino ≡ some d → nextents_of d < 2 ^ 63

decode_records-IsValid :
    (m : Bytes) (o i n : ℕ) (p : Pool Extent) → IsValid p → IsValid (decode_records m o i n p)
unfolding decode_records
decode_records-IsValid m o i zero p v = v
decode_records-IsValid m o i (suc n) p v =
    decode_records-IsValid m (o + 16) (i + 1) n _ (store-IsValid p i _ v)

store_extents-Good :
    (d : Bytes) (self n : ℕ) (b : Built) (r : Pool Extent × Result ℕ)
    → Good b
    → IsValid r.0
    → Good (store_extents d self n b r).0
unfolding store_extents
store_extents-Good d self n b (p, err e) g v = (g.0, v)
store_extents-Good d self n b (p, ok i) g v =
    set_content-Good _ self i n (g.0, decode_records-IsValid d _ i n p v)

pub file_extents-Keeps :
    (env : Env) (d : Bytes) (self : ℕ)
    → nextents_of d < 2 ^ 63
    → Keeps (process_dinode_file_extents env d self)
unfolding process_dinode_file_extents
file_extents-Keeps env d self small b g =
    store_extents-Good d self (nextents_of d) b _ g
      (extents-IsValid env.extents_mprotect b.extents (nextents_of d) g.1 small)

store_leaf-Good :
    (buf : Bytes) (self n : ℕ) (b : Built) (r : Pool Extent × Result ℕ)
    → Good b
    → IsValid r.0
    → Good (store_leaf buf self n b r).0
unfolding store_leaf
store_leaf-Good buf self n b (p, err e) g v = (g.0, v)
store_leaf-Good buf self n b (p, ok i) g v =
    add_count-Good _ self n (g.0, decode_records-IsValid buf _ i n p v)

-- What a read gives is bytes.
abbrev pub AreBytes : Result Bytes → Type 0
AreBytes (err e) = Unit {0}
AreBytes (ok m) = (o : ℕ) → m o < 256

dev_read-AreBytes :
    (env : Env) (count offset : ℕ) → IsSane env → AreBytes (dev_read env.dev count offset)
unfolding dev_read
dev_read-AreBytes env count offset s =
    elim (Option-cases
      (env.dev.nvm_read (offset / env.dev.lba_nbytes) (sub64 (count / env.dev.lba_nbytes) 1))) [
        | inl e ↦ rw e (ground arith)
        | inr (m, e) ↦ rw e (ground (arith, s.bytes _ _ e))
      ]

leaf_block-Good :
    (env : Env) (self : ℕ) (b : Built) (r : Result Bytes)
    → Good b
    → AreBytes r
    → Good (process_leaf_block env self b r).0
unfolding process_leaf_block
leaf_block-Good env self b (err e) g a = g
leaf_block-Good env self b (ok buf) g a = ground (
  arith,
  store_leaf-Good buf self (lfmt_numrecs buf) b
      (claim_extents env.extents_mprotect b.extents (lfmt_numrecs buf)) g
      (extents-IsValid env.extents_mprotect b.extents (lfmt_numrecs buf) g.1
        (omega (arith, a 6, a 7))),
)

leaf-Keeps : (env : Env) (ptr self : ℕ) → IsSane env → Keeps (process_file_btree_leaf env ptr self)
unfolding process_file_btree_leaf
leaf-Keeps env ptr self s b g = leaf_block-Good env self b _ g (dev_read-AreBytes env _ _ s)

pub each_pointer-Keeps :
    (m : Bytes) (visit : ℕ → Action) (o n : ℕ)
    → ((ptr : ℕ) → Keeps (visit ptr))
    → Keeps (each_pointer m visit o n)
unfolding each_pointer
each_pointer-Keeps m visit o zero k b g = g
each_pointer-Keeps m visit o (suc n) k b g =
    on_success-Good _ _ (k _ b g) (each_pointer-Keeps m visit (o + 8) n k)

node_block-Good :
    (env : Env) (leaf node : ℕ → Action) (b : Built) (r : Result Bytes)
    → ((ptr : ℕ) → Keeps (leaf ptr))
    → ((ptr : ℕ) → Keeps (node ptr))
    → Good b
    → Good (process_node_block env leaf node b r).0
unfolding process_node_block
node_block-Good env leaf node b (err e) kl kn g = g
node_block-Good env leaf node b (ok buf) kl kn g = ground (
  arith,
  each_pointer-Keeps pointers leaf 0 (lfmt_numrecs buf) kl b g,
  each_pointer-Keeps pointers node 0 (lfmt_numrecs buf) kn b g,
)
  where
    pointers : Bytes
    pointers =
        copied (btree_lblock_meta env.sb).2 (sub64 env.sb.blocksize (btree_lblock_meta env.sb).2)
          buf

node-Keeps :
    (fuel : ℕ) (env : Env) (self ptr : ℕ)
    → IsSane env
    → Keeps (process_file_btree_node fuel env self ptr)
unfolding process_file_btree_node
node-Keeps zero env self ptr s b g = g
node-Keeps (suc fuel) env self ptr s b g = ground (
  arith,
  node_block-Good env (λ p. process_file_btree_leaf env p self)
      (process_file_btree_node fuel env self) b
      (dev_read env.dev env.sb.blocksize (fsbno_offset xfs env.sb ptr))
      (λ p. leaf-Keeps env p self s) (λ p. node-Keeps fuel env self p s) g,
)

pub file_btree-Keeps :
    (fuel : ℕ) (env : Env) (d : Bytes) (self : ℕ)
    → IsSane env
    → Keeps (process_dinode_file_btree_root fuel env d self)
unfolding process_dinode_file_btree_root
file_btree-Keeps fuel env d self s b g = ground (
  arith,
  each_pointer-Keeps d (λ p. process_file_btree_leaf env p self) (btree_dinode_meta env.sb d).2
      (be16 d (dinode_nbytes + 2)) (λ p. leaf-Keeps env p self s) start set,
  each_pointer-Keeps d (process_file_btree_node fuel env self) (btree_dinode_meta env.sb d).2
      (be16 d (dinode_nbytes + 2)) (λ p. node-Keeps fuel env self p s) start set,
)
  where
    start : Built
    start = set_content b self b.extents.free 0

    set : Good start
    set = set_content-Good b self b.extents.free 0 g
