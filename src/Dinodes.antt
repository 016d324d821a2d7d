-- ===== src/Dinodes.antt =====
-- xal_dinodes_retrieve() and the inode B+tree (src/xal_be_xfs.c), and the headers that it starts from: the
-- superblock and those of the allocation groups.
pub mod Coherent
mod Tests
use xal.Base.{
  ℕ, zero, suc, ◌+◌, ◌*◌, ◌/◌, ◌%◌, ◌^◌, Bool, true, false, Option, none, some, Result, ok, err,
  einval, eio, too_deep, ltb, ◌==◌, ◌||◌, not, if◌then◌else◌, add64, sub64, mul64, u32_mod, u64_mod,
}
use xal.Model.{Sb, Backend, xfs, fiemap, unknown, Procrole, single, primary, secondary}
use xal.Extent.{agbno_absolute_offset}
use xal.Pool.{Sys}
use xal.Disk.{Bytes, be16, be32, be64, di_ino, Device, dev_read, ino_decode_relative}
use xal.Fiemap.State.{Khash}

-- `struct xal_ag`
pub record Ag : Type 0 where
  pub seqno : ℕ
  pub offset : ℕ
  pub agf_length : ℕ
  pub agi_count : ℕ
  pub agi_root : ℕ
  pub agi_level : ℕ

-- BUF_NBYTES and CHUNK_NINO
abbrev pub buf_nbytes : ℕ
buf_nbytes = 131072

abbrev pub chunk_nino : ℕ
chunk_nino = 64

-- `sizeof(struct xal_odf_btree_sfmt)`, its fields, and XAL_ODF_IBT_CRC_MAGIC.
abbrev pub sfmt_nbytes : ℕ
sfmt_nbytes = 56

abbrev pub sfmt_level : Bytes → ℕ
sfmt_level b = be16 b 4

abbrev pub sfmt_numrecs : Bytes → ℕ
sfmt_numrecs b = be16 b 6

abbrev pub ibt_magic : ℕ
ibt_magic = 0x4941_4233

-- What ends the process: an assertion that does not hold.
abbrev pub aborted : ℕ
aborted = 4097

-- What C leaves undefined: a write past the end of `dinodes`.
abbrev pub overran : ℕ
overran = 4098

-- The superblock of retrieve_and_decode_primary_superblock(), out of the first block of the device.
unfoldable pub decode_superblock : Bytes → Sb
decode_superblock b = record {
  blocksize = be32 b 4;
  sectsize = be16 b 102;
  inodesize = be16 b 104;
  inopblock = be16 b 106;
  inopblog = b 123;
  icount = be64 b 128;
  nallocated = 0;
  rootino = be64 b 56;
  agblocks = be32 b 84;
  agblklog = b 124;
  agcount = be32 b 88;
  dirblocksize = (be32 b 4 * 2 ^ b 192) % u32_mod;
  lba_blksze = 0;
}

-- The fields of the headers of a group, in the four sectors that begin it.
unfoldable pub decode_headers : Sb → ℕ → Bytes → Result Ag
decode_headers sb seqno b =
    let agf = sb.sectsize in
    let agi = sb.sectsize * 2 in
    if be32 b agf == 0x5841_4746
    then (if be32 b agi == 0x5841_4749
        then (if seqno == be32 b (agi + 8)
            then (if seqno == be32 b (agf + 8)
                then ok (record {
                  seqno = seqno;
                  offset = seqno * sb.agblocks * sb.blocksize;
                  agf_length = be32 b (agf + 12);
                  agi_count = be32 b (agi + 16);
                  agi_root = be32 b (agi + 20);
                  agi_level = be32 b (agi + 24);
                })
                else err aborted)
            else err aborted)
        else err aborted)
    else err aborted

unfoldable pub decode_read : Sb → ℕ → Result Bytes → Result Ag
decode_read sb seqno (err e) = err e
decode_read sb seqno (ok b) = decode_headers sb seqno b

-- `retrieve_and_decode_allocation_group`
unfoldable pub retrieve_group : Device → Sb → ℕ → Result Ag
retrieve_group dev sb seqno =
    decode_read sb seqno (dev_read dev (sb.sectsize * 4) (seqno * sb.agblocks * sb.blocksize))

-- `btree_sblock_meta`
unfoldable pub btree_sblock_meta : Sb → ℕ × ℕ × ℕ
btree_sblock_meta sb =
    let mrecs = sub64 sb.blocksize sfmt_nbytes / 8 in
    (mrecs, sfmt_nbytes, add64 sfmt_nbytes (mul64 mrecs 4))

-- The dinodes retrieved so far: `dinodes` by slots of `inodesize` bytes, and how many bytes are allocated;
-- the map from numbers to slots; and the next slot.
pub record Store (M : Type 0) : Type 0 where
  pub slots : ℕ → Bytes
  pub nbytes : ℕ
  pub map : M
  pub index : ℕ

unfoldable pub go_on :
    {S : Type 0} → S × Result (Unit {0}) → (S → S × Result (Unit {0})) → S × Result (Unit {0})
go_on (s, err e) next = (s, err e)
go_on (s, ok _) next = next s

-- The `n` bytes of memory from an offset on, with nothing behind them.
abbrev pub part : Bytes → ℕ → ℕ → Bytes
part m o n i = if ltb i n then m (o + i) else 0

-- What dinodes_get() does: it fails with -EINVAL, gives a dinode, or goes by a pointer that is NULL or
-- into memory that was freed.
pub data Lookup : Type 0 where
  missing : Lookup
  found : Bytes → Lookup
  undefined : Lookup

-- What kh_val() points to, where kh_get() finds something.
unfoldable pub slot_at : Option (ℕ → Bytes) → Option ℕ → Lookup
slot_at dinodes none = missing
slot_at none (some i) = undefined
slot_at (some slots) (some i) = found (slots i)

module _ {M : Type 0} (kh : Khash ℕ ℕ M) (sb : Sb) (dev : Device) where
  unfoldable pub check_magic : Result Bytes → Result Bytes
  check_magic (err e) = err e
  check_magic (ok b) = if be32 b 0 == ibt_magic then ok b else err einval

  -- `read_iab3_block`
  unfoldable pub read_iab3_block : Ag → ℕ → Result Bytes
  read_iab3_block ag blkno =
      check_magic (dev_read dev sb.blocksize (agbno_absolute_offset sb ag.seqno blkno))

  -- Behind kh_put(), on the slot that the dinode was copied to.
  unfoldable pub count_dinode : Store M → Option M → Store M × Result (Unit {0})
  count_dinode s none = (s, err eio)
  count_dinode s (some m) = (record s { map = m; index = s.index + 1 }, ok tt)

  -- Copies a dinode into the next slot, and maps its number to the slot. The code does not compare the
  -- slot with the end of the buffer.
  unfoldable pub store_dinode : Bytes → Store M → Store M × Result (Unit {0})
  store_dinode d s =
      let copied : Store M = record s { slots = λ i. if i == s.index then d else s.slots i } in
      if ltb s.nbytes ((s.index + 1) * sb.inodesize)
      then (s, err overran)
      else count_dinode copied (kh.put s.map (di_ino d) s.index)

  -- The loop over the dinodes of a chunk, with `holemask` and `free` of its record.
  unfoldable pub chunk_dinodes : Bytes → ℕ → ℕ → ℕ → ℕ → Store M → Store M × Result (Unit {0})
  chunk_dinodes chunk holemask free i zero s = (s, ok tt)
  chunk_dinodes chunk holemask free i (suc n) s =
      if holemask / 2 ^ (i / 4) % 2 == 1 || free / 2 ^ i % 2 == 1
      then chunk_dinodes chunk holemask free (i + 1) n s
      else go_on (store_dinode (part chunk (i * sb.inodesize) sb.inodesize) s)
          (chunk_dinodes chunk holemask free (i + 1) n)

  unfoldable pub chunk_read : ℕ → ℕ → ℕ → Store M → Result Bytes → Store M × Result (Unit {0})
  chunk_read nbytes holemask free s (err e) = (s, err e)
  chunk_read nbytes holemask free s (ok b) =
      chunk_dinodes (part b 0 nbytes) holemask free 0 chunk_nino s

  -- The body of the loop of decode_iab3_leaf_records(), for the record at an offset.
  unfoldable pub leaf_record : Ag → Bytes → ℕ → Store M → Store M × Result (Unit {0})
  leaf_record ag b o s =
      let (agbno, agbino) = ino_decode_relative sb (be32 b o) in
      let nbytes = chunk_nino / sb.inopblock * sb.blocksize in
      if not (agbino == 0)
      then (s, err aborted)
      else if not (ltb nbytes buf_nbytes)
      then (s, err aborted)
      else chunk_read nbytes (be16 b (o + 4)) (be64 b (o + 8)) s
          (dev_read dev nbytes (add64 (mul64 agbno sb.blocksize) ag.offset))

  -- `decode_iab3_leaf_records`, for `n` records from an offset on.
  unfoldable pub leaf_records : Ag → Bytes → ℕ → ℕ → Store M → Store M × Result (Unit {0})
  leaf_records ag b o zero s = (s, ok tt)
  leaf_records ag b o (suc n) s = go_on (leaf_record ag b o s) (leaf_records ag b (o + 16) n)

  -- `decode_iab3_node_records`, for `n` pointers from an offset on.
  unfoldable pub node_records :
      (ℕ → Store M → Store M × Result (Unit {0}))
      → Bytes
      → ℕ
      → ℕ
      → Store M
      → Store M × Result (Unit {0})
  node_records visit pointers o zero s = (s, ok tt)
  node_records visit pointers o (suc n) s =
      go_on (visit (be32 pointers o) s) (node_records visit pointers (o + 4) n)

  unfoldable pub block_records :
      (ℕ → Store M → Store M × Result (Unit {0}))
      → Ag
      → Store M
      → Result Bytes
      → Store M × Result (Unit {0})
  block_records visit ag s (err e) = (s, err e)
  block_records visit ag s (ok b) =
      let (mrecs, keys, ofz) = btree_sblock_meta sb in
      if sfmt_level b == 1
      then node_records visit (part b ofz (sub64 sb.blocksize ofz)) 0 (sfmt_numrecs b) s
      else if sfmt_level b == 0
      then leaf_records ag b sfmt_nbytes (sfmt_numrecs b) s
      else (s, err einval)

  -- `retrieve_dinodes_via_iab3`, with fuel: a node of level 1 may point to another.
  unfoldable pub retrieve_dinodes_via_iab3 : ℕ → Ag → ℕ → Store M → Store M × Result (Unit {0})
  retrieve_dinodes_via_iab3 zero ag blkno s = (s, err too_deep)
  retrieve_dinodes_via_iab3 (suc fuel) ag blkno s =
      block_records (retrieve_dinodes_via_iab3 fuel ag) ag s (read_iab3_block ag blkno)

  -- The loop over the groups.
  unfoldable pub retrieve_groups : ℕ → (ℕ → Ag) → ℕ → ℕ → Store M → Store M × Result (Unit {0})
  retrieve_groups fuel ags seqno zero s = (s, ok tt)
  retrieve_groups fuel ags seqno (suc n) s =
      go_on (retrieve_dinodes_via_iab3 fuel (ags seqno) (ags seqno).agi_root s)
        (retrieve_groups fuel ags (seqno + 1) n)

  -- What the handle holds: `dinodes_map` and `dinodes`, NULL or not.
  pub record Held : Type 0 where
    pub dinodes_map : Option M
    pub dinodes : Option (ℕ → Bytes)

  -- The end of xal_dinodes_retrieve(). A failure frees the slots and leaves the map.
  unfoldable pub hold : Store M × Result (Unit {0}) → Held × Result (Unit {0})
  hold (s, err e) = (record { dinodes_map = some s.map; dinodes = none }, err e)
  hold (s, ok _) = (record { dinodes_map = some s.map; dinodes = some s.slots }, ok tt)

  -- From kh_init() on.
  unfoldable pub retrieve_all : ℕ → (ℕ → Ag) → Sys → Sys → Held → Held × Result (Unit {0})
  retrieve_all fuel ags (some e) calloc h = (record h { dinodes_map = none }, err einval)
  retrieve_all fuel ags none (some e) h =
      (record { dinodes_map = some kh.empty; dinodes = none }, err e)
  retrieve_all fuel ags none none h = hold (
      retrieve_groups fuel ags 0 sb.agcount (record {
        slots = λ i o. 0;
        nbytes = mul64 sb.nallocated sb.inodesize;
        map = kh.empty;
        index = 0;
      }))

  -- `xal_dinodes_retrieve`
  unfoldable pub dinodes_retrieve :
      Procrole → Backend → ℕ → (ℕ → Ag) → Sys → Sys → Held → Held × Result (Unit {0})
  dinodes_retrieve secondary backend fuel ags kh_init calloc h = (h, err einval)
  dinodes_retrieve single xfs fuel ags kh_init calloc h = retrieve_all fuel ags kh_init calloc h
  dinodes_retrieve primary xfs fuel ags kh_init calloc h = retrieve_all fuel ags kh_init calloc h
  dinodes_retrieve single fiemap fuel ags kh_init calloc h = (h, ok tt)
  dinodes_retrieve single unknown fuel ags kh_init calloc h = (h, ok tt)
  dinodes_retrieve primary fiemap fuel ags kh_init calloc h = (h, ok tt)
  dinodes_retrieve primary unknown fuel ags kh_init calloc h = (h, ok tt)

  -- `dinodes_get` on what is held.
  unfoldable pub held_dinode : Held → ℕ → Lookup
  held_dinode h ino = elim h.dinodes_map [
    | none ↦ undefined
    | some m ↦ slot_at h.dinodes (kh.get m ino)
  ]
