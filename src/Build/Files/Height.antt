-- ===== src/Build/Files/Height.antt =====
-- The recursion of process_file_btree_node() (src/xal_be_xfs.c) on the B+tree of a file's extents.
use xal.Base.{
  ℕ, zero, suc, ◌+◌, ◌*◌, ◌≤◌, ◌<◌, ◌≡◌, refl, Result, ok, err, arith, sub64, le→ltb, too_deep,
}
use xal.Model.{xfs}
use xal.Extent.{fsbno_offset}
use xal.Disk.{
  Bytes, be64, lfmt_magic, lfmt_level, lfmt_numrecs, bmap_magic, btree_lblock_meta, dev_read,
}
use xal.Build.State.{Env, Built, Action, on_success, on_success-cong}
use xal.Build.Files.{
  each_pointer, copied, process_node_block, process_file_btree_node, process_file_btree_leaf,
  block_fs_bytes_max,
}

-- What a read of the block at a file-system block number gives.
abbrev pub block_at : Env → ℕ → Result Bytes
block_at env ptr = dev_read env.dev env.sb.blocksize (fsbno_offset xfs env.sb ptr)

-- The pointer at a record of a node block, as the code reads it.
abbrev pub pointer : Env → Bytes → ℕ → ℕ
pointer env buf o =
    let ofz = (btree_lblock_meta env.sb).2 in be64 (copied ofz (sub64 env.sb.blocksize ofz) buf) o

-- What the format promises of the blocks of a tree's nodes: the blocks that a node of level two or more
-- points to are nodes too, and those with the magic of a node have a lower level.
pub record IsTree (env : Env) (Node : ℕ → Type 0) : Type 0 where
  pub closed :
      (ptr : ℕ) (buf : Bytes) (k : ℕ)
      → Node ptr
      → block_at env ptr ≡ ok buf
      → lfmt_magic buf ≡ bmap_magic
      → 1 < lfmt_level buf
      → k < lfmt_numrecs buf
      → Node (pointer env buf (k * 8))
  pub falls :
      (ptr : ℕ) (buf : Bytes) (k : ℕ) (below : Bytes)
      → Node ptr
      → block_at env ptr ≡ ok buf
      → lfmt_magic buf ≡ bmap_magic
      → 1 < lfmt_level buf
      → k < lfmt_numrecs buf
      → block_at env (pointer env buf (k * 8)) ≡ ok below
      → lfmt_magic below ≡ bmap_magic
      → lfmt_level below < lfmt_level buf

-- The level of a block is below `h`, if it can be read and has the magic of a node.
abbrev pub IsBelow : Env → ℕ → ℕ → Type 0
IsBelow env h ptr =
    (buf : Bytes) → block_at env ptr ≡ ok buf → lfmt_magic buf ≡ bmap_magic → lfmt_level buf < h

each_pointer-cong :
    (m : Bytes) (f g : ℕ → Action) (o n : ℕ) (b : Built)
    → ((k p : ℕ) (c : Built) → k < n → p ≡ o + k * 8 → f (be64 m p) c ≡ g (be64 m p) c)
    → each_pointer m f o n b ≡ each_pointer m g o n b
unfolding each_pointer
each_pointer-cong m f g o zero b same = refl
each_pointer-cong m f g o (suc n) b same = rw (same 0 o b (omega arith) (omega arith)) (
    on_success-cong (g (be64 m o) b) _ _ (λ c.
      each_pointer-cong m f g (o + 8) n c
        (λ k p d lt e. same (suc k) p d (omega arith) (omega arith))))

node_block-cong :
    (env : Env) (leaf f g : ℕ → Action) (b : Built) (r : Result Bytes)
    → ((buf : Bytes) (k o : ℕ) (c : Built)
        → r ≡ ok buf
        → lfmt_magic buf ≡ bmap_magic
        → 1 < lfmt_level buf
        → k < lfmt_numrecs buf
        → o ≡ k * 8
        → f (pointer env buf o) c ≡ g (pointer env buf o) c)
    → process_node_block env leaf f b r ≡ process_node_block env leaf g b r
unfolding process_node_block
node_block-cong env leaf f g b (err e) same = refl
node_block-cong env leaf f g b (ok buf) same =
    let ofz = (btree_lblock_meta env.sb).2 in
    let m = copied ofz (sub64 env.sb.blocksize ofz) buf in
    ground (
      arith,
      λ (magic : lfmt_magic buf ≡ bmap_magic) (high : 1 < lfmt_level buf).
          each_pointer-cong m f g 0 (lfmt_numrecs buf) b
            (λ k p c lt e. same buf k p c refl magic high lt (omega arith)),
    )

-- On the nodes of a tree whose levels fall from a node of level two or more to those it points to, as
-- the format has it, the fuel is never used up: any two amounts above 0 and above the level of the
-- block, which has 16 bits, give the same pools and the same result. A block that cannot be read or
-- lacks the magic of a node has no level.
pub btree_node-fuel :
    (env : Env) (Node : ℕ → Type 0) (f g self ptr : ℕ) (b : Built)
    → IsTree env Node
    → Node ptr
    → 0 < f
    → 0 < g
    → IsBelow env f ptr
    → IsBelow env g ptr
    → process_file_btree_node f env self ptr b ≡ process_file_btree_node g env self ptr b
unfolding process_file_btree_node
btree_node-fuel env Node zero g self ptr b t node pf pg hf hg = absurd (omega (arith, pf))
btree_node-fuel env Node (suc f) zero self ptr b t node pf pg hf hg = absurd (omega (arith, pg))
btree_node-fuel env Node (suc f) (suc g) self ptr b t node pf pg hf hg = rw (
    node_block-cong env (λ p. process_file_btree_leaf env p self)
      (process_file_btree_node f env self) (process_file_btree_node g env self) b (block_at env ptr)
      (λ buf k o c e magic up lt at. rw at (
        btree_node-fuel env Node f g self (pointer env buf (k * 8)) c t
          (t.closed ptr buf k node e magic up lt) (omega (arith, up, hf buf e magic))
          (omega (arith, up, hg buf e magic))
          (λ below eb mb.
            omega (arith, hf buf e magic, t.falls ptr buf k below node e magic up lt eb mb))
          (λ below eb mb.
            omega (arith, hg buf e magic, t.falls ptr buf k below node e magic up lt eb mb)))))

each_pointer-err :
    (m : Bytes) (visit : ℕ → Action) (o n : ℕ) (b : Built) (e : ℕ)
    → 0 < n
    → visit (be64 m o) b ≡ (b, err e)
    → each_pointer m visit o n b ≡ (b, err e)
unfolding each_pointer on_success
each_pointer-err m visit o zero b e pos h = absurd (omega arith)
each_pointer-err m visit o (suc n) b e pos h = rw h refl

node_block-err :
    (env : Env) (leaf node : ℕ → Action) (b : Built) (buf : Bytes) (e : ℕ)
    → lfmt_magic buf ≡ bmap_magic
    → 1 < lfmt_level buf
    → 0 < lfmt_numrecs buf
    → node (pointer env buf 0) b ≡ (b, err e)
    → process_node_block env leaf node b (ok buf) ≡ (b, err e)
unfolding process_node_block
node_block-err env leaf node b buf e magic up some_recs h =
    let ofz = (btree_lblock_meta env.sb).2 in
    let m = copied ofz (sub64 env.sb.blocksize ofz) buf in
    ground (arith, each_pointer-err m node 0 (lfmt_numrecs buf) b e some_recs h)

-- A node of level two or more whose first pointer is its own block is never left: whatever the fuel,
-- the recursion goes deeper than it, with nothing stored.
pub btree_node-cycle :
    (fuel : ℕ) (env : Env) (self ptr : ℕ) (b : Built) (buf : Bytes)
    → env.sb.blocksize ≤ block_fs_bytes_max
    → block_at env ptr ≡ ok buf
    → lfmt_magic buf ≡ bmap_magic
    → 1 < lfmt_level buf
    → 0 < lfmt_numrecs buf
    → pointer env buf 0 ≡ ptr
    → process_file_btree_node fuel env self ptr b ≡ (b, err too_deep)
unfolding process_file_btree_node
btree_node-cycle zero env self ptr b buf fits at magic up some_recs own = refl
btree_node-cycle (suc fuel) env self ptr b buf fits at magic up some_recs own =
    let below : process_file_btree_node fuel env self (pointer env buf 0) b ≡ (b, err too_deep) =
      rw own (btree_node-cycle fuel env self ptr b buf fits at magic up some_recs own) in
    rw (at, le→ltb block_fs_bytes_max env.sb.blocksize fits)
      (node_block-err env (λ p. process_file_btree_leaf env p self)
        (process_file_btree_node fuel env self) b buf too_deep magic up some_recs below)
