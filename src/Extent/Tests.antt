-- ===== src/Extent/Tests.antt =====
-- Addresses and extents (src/xal.c, src/xal_be_xfs.c) on small inputs.
use xal.Base.{◌+◌, ◌*◌, ◌≤◌, ◌≡◌, ◌⊎◌, refl, some, ok, err, einval, arith, ◌==◌, if◌then◌else◌}
use xal.Model.{Sb, Extent, xfs, fiemap}
use xal.Extent.{fsbno_offset, decode_xfs_extent, extent_in_lba, extent_in_bytes, Converted}
use xal.Extent.Record.{IsPacked, word0, word1, encode-decode}
use xal.Extent.Address.{IsGeometry, IsBlock, position, fsbno_offset_lem, fsbno_offset-disjoint}
use xal.Extent.Convert.{scaled, extent_in_lba-eq-scaled, extent_in_lba-exact}

-- Four groups of 100 blocks of 4096 bytes; block numbers have 7 bits for the block in its group.
abbrev four_groups : Sb
four_groups = record {
  blocksize = 4096;
  sectsize = 512;
  inodesize = 512;
  inopblock = 8;
  inopblog = 3;
  icount = 64;
  nallocated = 64;
  rootino = 128;
  agblocks = 100;
  agblklog = 7;
  agcount = 4;
  dirblocksize = 4096;
  lba_blksze = 512;
}

four_groups-IsGeometry : IsGeometry four_groups
four_groups-IsGeometry = record {
  int_shift = omega arith;
  some_bytes = omega arith;
  log = omega arith;
  fits = omega arith;
}

-- Block 5 of group 2, and block 99 of group 1.
IsBlock-261 : IsBlock four_groups 261
IsBlock-261 = record { in_fs = omega arith; in_group = omega arith }

IsBlock-227 : IsBlock four_groups 227
IsBlock-227 = record { in_fs = omega arith; in_group = omega arith }

fsbno_offset_lem_example :
    (fsbno_offset xfs four_groups 261 ≡ 205 * 4096)
    × (fsbno_offset xfs four_groups 261 + 4096 ≤ 400 * 4096)
fsbno_offset_lem_example = fsbno_offset_lem four_groups 261 four_groups-IsGeometry IsBlock-261

fsbno_offset-disjoint_example :
    (fsbno_offset xfs four_groups 261 + 4096 ≤ fsbno_offset xfs four_groups 227)
    ⊎ (fsbno_offset xfs four_groups 227 + 4096 ≤ fsbno_offset xfs four_groups 261)
fsbno_offset-disjoint_example =
    fsbno_offset-disjoint four_groups 261 227 four_groups-IsGeometry IsBlock-261 IsBlock-227
      (λ e. omega (arith, e))

abbrev one_extent : Extent
one_extent = record { start_offset = 3; start_block = 261; nblocks = 2; flag = 1 }

one_extent-IsPacked : IsPacked one_extent
one_extent-IsPacked = record {
  offset_bits = omega arith;
  block_bits = omega arith;
  count_bits = omega arith;
  flag_bits = omega arith;
}

encode-decode_example :
    let e = decode_xfs_extent 0x8000_0000_0000_0601 0x2020_0003 in
    IsPacked e × (word0 e ≡ 0x8000_0000_0000_0601) × (word1 e ≡ 0x2020_0003)
encode-decode_example = encode-decode 0x8000_0000_0000_0601 0x2020_0003 (omega arith) (omega arith)

extent_in_lba-eq-scaled_example : extent_in_lba fiemap four_groups (some one_extent) ≡ (
    if 512 == 0
    then err einval
    else scaled 512 (extent_in_bytes fiemap four_groups (some one_extent)))
extent_in_lba-eq-scaled_example = extent_in_lba-eq-scaled fiemap four_groups (some one_extent)

extent_in_lba-exact_example :
    (d : Converted) × (extent_in_lba xfs four_groups (some one_extent) ≡ ok d)
    × (d.start_offset * 512 ≡ 3 * 4096)
    × (d.size * 512 ≡ 2 * 4096)
    × (d.start_block * 512 ≡ position four_groups 261 * 4096)
extent_in_lba-exact_example =
    extent_in_lba-exact four_groups one_extent 8 four_groups-IsGeometry IsBlock-261 refl
      (omega arith) (omega arith) refl
