-- ===== src/Extent.antt =====
-- Extents: the address of a file-system block, the conversions of an extent to bytes and to logical
-- blocks (src/xal.c), and the packed extent record of XFS (src/xal_be_xfs.c).
pub mod Record
pub mod Address
pub mod Convert
mod Tests
use Prim.Native.Nat.{bit_or}
use xal.Base.{
  ℕ, ◌+◌, ◌-◌, ◌*◌, ◌/◌, ◌%◌, ◌^◌, Bool, true, false, Result, ok, err, einval, enodata, ltb, leb,
  ◌==◌, if◌then◌else◌, u64_mod, add64, mul64, shr, low_bits, Option, none, some,
}
use xal.Model.{Backend, xfs, fiemap, unknown, Sb, Extent}

-- `enum xal_extent_flag`
abbrev pub unwritten : ℕ
unwritten = 1

abbrev pub shared : ℕ
shared = 2

abbrev pub noaddr : ℕ
noaddr = 4

-- `flag & XAL_EXTENT_NOADDR`
abbrev pub has_noaddr : ℕ → Bool
has_noaddr flag = low_bits (shr flag 2) 1 == 1

-- `enum xal_extent_unit`
pub data UnitOf : Type 0 where
  bytes lba : UnitOf

-- `struct xal_extent_converted`
pub record Converted : Type 0 where
  pub start_offset : ℕ
  pub start_block : ℕ
  pub size : ℕ
  pub unit : UnitOf

-- `xal_fsbno_offset`. The shift of `fsbno` is one of 64 bits. The mask `(1 << agblklog) - 1` is an `int`
-- of 32, which C leaves undefined from 31 on, and which stands here for what machines of 64 bits make
-- of it: they take the count of a shift by its width. The failure value is -EINVAL as a `uint64_t`.
unfoldable pub fsbno_offset : Backend → Sb → ℕ → ℕ
fsbno_offset fiemap sb fsbno = mul64 fsbno sb.blocksize
fsbno_offset xfs sb fsbno =
    let ag = shr fsbno (sb.agblklog % 64) in
    let bno = low_bits fsbno (sb.agblklog % 32) in
    mul64 (add64 (mul64 ag sb.agblocks) bno) sb.blocksize
fsbno_offset unknown sb fsbno = u64_mod - einval

-- `xal_agbno_absolute_offset`
unfoldable pub agbno_absolute_offset : Sb → ℕ → ℕ → ℕ
agbno_absolute_offset sb seqno agbno = mul64 (add64 (mul64 seqno sb.agblocks) agbno) sb.blocksize

-- `xal_extent_in_bytes`; `none` is a NULL extent.
unfoldable pub extent_in_bytes : Backend → Sb → Option Extent → Result Converted
extent_in_bytes be sb none = err einval
extent_in_bytes be sb (some e) =
    if has_noaddr e.flag
    then err enodata
    else ok (record {
      start_offset = mul64 e.start_offset sb.blocksize;
      start_block = fsbno_offset be sb e.start_block;
      size = mul64 e.nblocks sb.blocksize;
      unit = bytes;
    })

-- `xal_extent_in_lba`
unfoldable pub extent_in_lba : Backend → Sb → Option Extent → Result Converted
extent_in_lba be sb none = err einval
extent_in_lba be sb (some e) =
    if sb.lba_blksze == 0
    then err einval
    else if has_noaddr e.flag
    then err enodata
    else ok (record {
      start_offset = mul64 e.start_offset sb.blocksize / sb.lba_blksze;
      start_block = fsbno_offset be sb e.start_block / sb.lba_blksze;
      size = mul64 e.nblocks sb.blocksize / sb.lba_blksze;
      unit = lba;
    })

-- `decode_xfs_extent`
unfoldable pub decode_xfs_extent : ℕ → ℕ → Extent
decode_xfs_extent l0 l1 = record {
  start_offset = shr ((l0 * 2) % u64_mod) 10;
  start_block = bit_or (low_bits l0 9 * 2 ^ 43) (shr l1 21);
  nblocks = low_bits l1 21;
  flag = if shr l0 63 == 0 then 0 else unwritten;
}
