-- ===== src/Disk.antt =====
-- The on-disk format of XFS (include/xal_odf.h) as src/xal_be_xfs.c reads it: big-endian words, the
-- fields of a dinode and of a B+tree block, directory entries, inode numbers, and reads of the device.
pub mod Number
mod Tests
use xal.Base.{
  ℕ, zero, suc, ◌+◌, ◌*◌, ◌/◌, ◌%◌, ◌^◌, Bool, not, Option, none, some, List, [], ◌∷◌, Result, ok,
  err, einval, eio, ltb, ◌==◌, if◌then◌else◌, add64, sub64, mul64, shr, low_bits, u32_mod,
}
use xal.Model.{Sb, Inode, blank_inode}
use xal.Extent.{agbno_absolute_offset}

-- Memory from some address on, a byte for each offset.
abbrev pub Bytes : Type 0
Bytes = ℕ → ℕ

-- `be16toh`, `be32toh` and `be64toh` of the word at an offset.
abbrev pub be16 : Bytes → ℕ → ℕ
be16 m o = m o * 2 ^ 8 + m (o + 1)

abbrev pub be32 : Bytes → ℕ → ℕ
be32 m o = be16 m o * 2 ^ 16 + be16 m (o + 2)

abbrev pub be64 : Bytes → ℕ → ℕ
be64 m o = be32 m o * 2 ^ 32 + be32 m (o + 4)

-- `sizeof(struct xal_odf_dinode)`, and the offsets of its fields.
abbrev pub dinode_nbytes : ℕ
dinode_nbytes = 176

abbrev pub di_mode : Bytes → ℕ
di_mode d = be16 d 2

abbrev pub di_format : Bytes → ℕ
di_format d = d 5

abbrev pub di_big_nextents : Bytes → ℕ
di_big_nextents d = be64 d 24

abbrev pub di_size : Bytes → ℕ
di_size d = be64 d 56

abbrev pub di_nextents : Bytes → ℕ
di_nextents d = be32 d 76

abbrev pub di_forkoff : Bytes → ℕ
di_forkoff d = d 82

abbrev pub di_ino : Bytes → ℕ
di_ino d = be64 d 152

-- `S_ISDIR` and `S_ISREG`
abbrev pub is_dir_mode : ℕ → Bool
is_dir_mode mode = low_bits (shr mode 12) 4 == 4

abbrev pub is_reg_mode : ℕ → Bool
is_reg_mode mode = low_bits (shr mode 12) 4 == 8

-- `sizeof(struct xal_odf_btree_lfmt)`, and its fields.
abbrev pub lfmt_nbytes : ℕ
lfmt_nbytes = 72

abbrev pub lfmt_magic : Bytes → ℕ
lfmt_magic b = be32 b 0

abbrev pub lfmt_level : Bytes → ℕ
lfmt_level b = be16 b 4

abbrev pub lfmt_numrecs : Bytes → ℕ
lfmt_numrecs b = be16 b 6

-- XAL_ODF_BMAP_CRC_MAGIC, XAL_ODF_DIR3_BLOCK_MAGIC and XAL_ODF_DIR3_DATA_MAGIC
abbrev pub bmap_magic : ℕ
bmap_magic = 0x424d_4133

abbrev pub dir3_block_magic : ℕ
dir3_block_magic = 0x5844_4233

abbrev pub dir3_data_magic : ℕ
dir3_data_magic = 0x5844_4433

-- The `n` bytes of a name at an offset.
unfoldable pub bytes_at : Bytes → ℕ → ℕ → List ℕ
bytes_at m o zero = []
bytes_at m o (suc n) = m o ∷ bytes_at m (o + 1) n

-- The size of an entry with a name of `n` bytes: `nbytes` is a `uint16_t`.
abbrev pub dentry_nbytes : ℕ → ℕ
dentry_nbytes n = ((8 + 1 + 1 + 2 + n + 7) / 8 * 8) % 2 ^ 16

-- `decode_dentry`: the size of the entry at an offset, and the entry, zero for an unused one.
unfoldable pub decode_dentry : Bytes → ℕ → ℕ × Inode
decode_dentry m o = if be16 m o == 0xffff then (be16 m (o + 2), blank_inode) else (
  dentry_nbytes (m (o + 8)),
  record blank_inode {
    ino = be64 m o;
    namelen = m (o + 8);
    name = bytes_at m (o + 9) (m (o + 8));
    ftype = m (o + 9 + m (o + 8));
  },
)

-- `ino_abs_to_rel`
unfoldable pub ino_abs_to_rel : Sb → ℕ → ℕ
ino_abs_to_rel sb ino = low_bits ino (sb.agblklog + sb.inopblog) % u32_mod

-- `xal_ino_decode_relative`, of a `uint32_t`: the block in the group, and the inode in the block.
unfoldable pub ino_decode_relative : Sb → ℕ → ℕ × ℕ
ino_decode_relative sb ino =
    (low_bits (shr ino sb.inopblog) sb.agblklog, low_bits ino sb.inopblog % u32_mod)

-- `xal_ino_decode_absolute`: the group, the block and the inode. The call truncates the number.
unfoldable pub ino_decode_absolute : Sb → ℕ → ℕ × ℕ × ℕ
ino_decode_absolute sb ino =
    let (agbno, agbino) = ino_decode_relative sb (ino % u32_mod) in
    (shr ino (sb.inopblog + sb.agblklog) % u32_mod, agbno, agbino)

-- `xal_ino_decode_absolute_offset`
unfoldable pub ino_decode_absolute_offset : Sb → ℕ → ℕ
ino_decode_absolute_offset sb ino =
    let (seqno, agbno, agbino) = ino_decode_absolute sb ino in
    add64 (agbno_absolute_offset sb seqno agbno) (mul64 agbino sb.inodesize)

-- `btree_dinode_meta`: the records that fit in the data fork, and the offsets of keys and pointers.
unfoldable pub btree_dinode_meta : Sb → Bytes → ℕ × ℕ × ℕ
btree_dinode_meta sb d =
    let attr_ofz = dinode_nbytes + di_forkoff d * 8 in
    let attr_nbytes = sub64 sb.inodesize attr_ofz in
    let data_nbytes = sub64 (sub64 sb.inodesize dinode_nbytes) attr_nbytes in
    let mrecs = sub64 data_nbytes 4 / 16 in
    (mrecs, dinode_nbytes + 2 + 2, add64 (dinode_nbytes + 2 + 2) (mul64 mrecs 8))

-- `btree_lblock_meta`: the same for a block of the long format.
unfoldable pub btree_lblock_meta : Sb → ℕ × ℕ × ℕ
btree_lblock_meta sb =
    let mrecs = sub64 sb.blocksize lfmt_nbytes / 16 in
    (mrecs, lfmt_nbytes, add64 lfmt_nbytes (mul64 mrecs 8))

-- The geometry of a device, and its reads by first block and number of blocks less one: what the
-- buffer holds after one that succeeds.
pub record Device : Type 0 where
  pub mdts_nbytes : ℕ
  pub lba_nbytes : ℕ
  pub nvm_read : ℕ → ℕ → Option Bytes

abbrev not_multiple : ℕ → ℕ → Bool
not_multiple a b = not (a % b == 0)

-- `dev_read` and `dev_read_into`
unfoldable pub dev_read : Device → ℕ → ℕ → Result Bytes
dev_read dev count offset =
    if ltb dev.mdts_nbytes count
    then err einval
    else if not_multiple count dev.lba_nbytes
    then err einval
    else if not_multiple offset dev.lba_nbytes
    then err einval
    else elim (dev.nvm_read (offset / dev.lba_nbytes) (sub64 (count / dev.lba_nbytes) 1)) [
      | none ↦ err eio
      | some buf ↦ ok buf
    ]
